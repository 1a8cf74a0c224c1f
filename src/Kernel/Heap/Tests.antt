-- ===== src/Kernel/Heap/Tests.antt =====
-- Runs of the heap of kernel/heap.cc.
use net_os.Base.{
  ℕ, ◌+◌, ◌≤◌, ◌<◌, ◌≡◌, ◌⊎◌, refl, true, false, Option, none, some, ◌>>=◌, ℤ, pos, arith,
}
use net_os.Kernel.Heap.{
  Heap, ints_of, malloc, init, sanity, footer_from_header, header_from_footer, size, load, search,
  is_avail, take_block, remove, prev, next, make_taken, store, make_avail, set_next, set_prev, free,
  is_taken, left, right, absorb,
}
use net_os.Kernel.Heap.Ghost.{Ghost, Whole, unlink}
use net_os.Kernel.Heap.Start.{first_ghost, first_heap, first-Whole}
use net_os.Kernel.Heap.Remove.{without}
use net_os.Kernel.Heap.Blocks.{split}
use net_os.Kernel.Heap.Opened.{unlink-Open}
use net_os.Kernel.Heap.Close.{as_taken, split-Open}
use net_os.Kernel.Heap.Push.{as_avail, push, push-Inv}
use net_os.Kernel.Heap.Take.{split-Coalesced}
use net_os.Kernel.Heap.Free.{Released}
use net_os.Kernel.Heap.Calls.{init-Whole, Given, malloc-Whole, free-Whole, KeepsAll, malloc-free}

abbrev blank : ℕ → ℤ
blank i = pos 7

-- Three blocks: the addresses of two mallocs, of the first of them once it is freed and asked for again,
-- and of a larger one, which is null.
abbrev addresses : Option (Option ℕ × Option ℕ × Option ℕ × Option ℕ)
addresses = do
  h ← init blank 20
  (p, h) ← malloc false 9 5 h
  (q, h) ← malloc false 9 12 h
  h ← free false p h
  (s, h) ← malloc false 9 1 h
  (t, h) ← malloc false 9 100 h
  some (p, q, s, t)

addresses_run : addresses ≡ some (some 3, some 7, some 3, none)
unfolding malloc init sanity footer_from_header header_from_footer size load search is_avail
    take_block remove prev next make_taken store make_avail set_next set_prev free is_taken left
    right absorb
addresses_run = refl

full : (do h ← init blank 16; malloc true 9 100 h) ≡ none
unfolding malloc init sanity footer_from_header header_from_footer size load search is_avail
    take_block remove prev next make_taken store make_avail set_next set_prev
full = refl

-- The size in a malloc of 2 ^ 32 - 1 bytes wraps around, to a block of 4 ints.
wrapped : (do h ← init blank 16; (p, h) ← malloc true 9 4294967295 h; some p) ≡ some (some 3)
unfolding malloc init sanity footer_from_header header_from_footer size load search is_avail
    take_block remove prev next make_taken store make_avail set_next set_prev
wrapped = refl

init-Whole_example :
    (h : Heap) × (init blank 16 ≡ some h) × (h.len ≡ 16) × Whole (first_ghost 16) h 1
init-Whole_example = init-Whole blank 16 (omega arith)

abbrev first : Heap
first = first_heap blank 16

malloc-Whole_example :
    ((p : ℕ) × (g' : Ghost) × (h' : Heap) × (malloc true 2 5 first ≡ some (some (p + 1), h'))
      × Whole g' h' 2
      × Given (first_ghost 16) first 5 p g' h')
    ⊎ (((i : ℕ) → (first_ghost 16).free i ≡ true → (first_ghost 16).size i < ints_of true 5)
        × (malloc true 2 5 first ≡ none))
malloc-Whole_example =
    malloc-Whole (first-Whole blank 16 (omega arith)) true 2 5 (omega arith) (ground arith)
      (omega arith)

-- The heap after a malloc of 5 bytes.
abbrev two : Heap
two = as_avail 6 8 (as_taken 2 4 (without 2 (first_ghost 16) first))

abbrev two_ghost : Ghost
two_ghost = push 6 0 1 (split 2 4 (unlink 2 (first_ghost 16)))

two-Whole : Whole two_ghost two 2
two-Whole =
    let w = first-Whole blank 16 (omega arith) in
    let o =
      split-Open (unlink-Open w.0 2 refl) refl 4 (ground arith) (ground arith) (omega arith)
        (omega arith) in
    (
      push-Inv o refl (ground arith) (ground arith),
      split-Coalesced false w.0 w.1 2 refl 4 (omega arith) (omega arith),
    )

two_run : malloc true 2 5 first ≡ some (some 3, two)
unfolding malloc init sanity footer_from_header header_from_footer size load search is_avail
    take_block remove prev next make_taken store make_avail set_next set_prev
two_run = refl

free-Whole_example :
    (p : ℕ) × (g' : Ghost) × (h' : Heap) × (free true (some 3) two ≡ some h')
    × Whole g' h' 3
    × Released two_ghost two 2 p g' h'
free-Whole_example = free-Whole two-Whole true 2 refl refl (ground arith) (ground arith)

malloc-free_example :
    (p : ℕ) × (h₁ : Heap) × (g₂ : Ghost) × (h₂ : Heap) × (malloc true 3 9 two
      ≡ some (some (p + 1), h₁))
    × (free true (some (p + 1)) h₁ ≡ some h₂)
    × Whole g₂ h₂ 4
    × KeepsAll two_ghost two g₂ h₂
    × ((q : ℕ) × (g₂.free q ≡ true) × (q ≤ p) × (p + ints_of true 9 ≤ q + g₂.size q))
malloc-free_example =
    malloc-free two-Whole true 3 9 (omega arith) (ground arith) (omega arith) 6 refl (ground arith)

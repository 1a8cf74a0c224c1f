-- ===== src/Kernel/Heap/Calls.antt =====
-- The calls of kernel/heap.cc on a whole heap.
use net_os.Base.{
  ℕ, suc, ◌+◌, ◌-◌, ◌*◌, ◌^◌, ◌≤◌, ◌<◌, ◌≡◌, ◌≢◌, ◌⊎◌, refl, ◌∙◌, Bool, true, false, none, some,
  if◌then◌else◌, ℤ, arith, inl, inr,
}
use net_os.Kernel.Heap.{Heap, init, malloc, free, ints_of}
use net_os.Kernel.Heap.Ghost.{Ghost, Whole, apart}
use net_os.Kernel.Heap.Start.{first_ghost, first_heap, init_run, first-Whole}
use net_os.Kernel.Heap.Frame.{Keeps}
use net_os.Kernel.Heap.Take.{Allocated}
use net_os.Kernel.Heap.Malloc.{malloc_lem, size_limit, room-ints_of, four_ints}
use net_os.Kernel.Heap.Free.{Released, free_lem}

-- A block `p` behind the pointer `p + 1`, free before, has `bytes` bytes between its header and its
-- footer, overlaps no block in use, and these are as they were.
pub record Given (g : Ghost) (h : Heap) (bytes p : ℕ) (g' : Ghost) (h' : Heap) : Type 0 where
  pub was_free : g.free p ≡ true
  pub starts : g'.start p ≡ true
  pub taken : g'.free p ≡ false
  pub room : bytes + 8 ≤ 4 * g'.size p
  pub inner : (p ≢ 0) × (p ≢ h'.len - 2)
  pub apart :
      (j : ℕ) → g.start j ≡ true → g.free j ≡ false → (j + g.size j ≤ p) ⊎ (p + g'.size p ≤ j)
  pub keeps : Keeps g h g' h' p

given :
    (panics : Bool) (want bytes : ℕ) {g : Ghost} {h : Heap} {p : ℕ} {g' : Ghost} {h' : Heap} {r : ℕ}
    → Whole g' h' r
    → want + 8 ≤ 4 * ints_of panics bytes
    → Allocated g h (ints_of panics bytes) p g' h'
    → Given g h want p g' h'
given panics want bytes {g} {h} {p} {g'} {h'} w small a =
    let four = four_ints panics bytes in
    record {
      was_free = a.was_free;
      starts = a.starts;
      taken = a.taken;
      room = omega (arith, small, a.enough);
      inner = (
        ground (arith, four, a.enough, w.0.geo.first),
        ground (arith, four, a.enough, w.0.geo.last),
      );
      apart = λ j s t.
          let ne : j ≢ p = ground (arith, t, a.was_free) in
          let k = a.keeps j s t ne in
          ground (
            arith,
            ne,
            k.0,
            k.2,
            a.starts,
            apart w.0.geo j p k.0 a.starts,
            apart w.0.geo p j a.starts k.0,
          );
      keeps = a.keeps;
    }

-- On an array of at least 8 ints the initialisation ends without an access outside the array and leaves
-- a whole heap with one free block, of all but 4 of the ints.
pub init-Whole :
    (a : ℕ → ℤ) (len : ℕ)
    → 8 ≤ len
    → (h : Heap) × (init a len ≡ some h) × (h.len ≡ len) × Whole (first_ghost len) h 1
init-Whole a len l = (first_heap a len, init_run a len l, refl, first-Whole a len l)

-- On a whole heap, with no two free blocks side by side, malloc of any number of bytes but 0, fewer
-- than 2 ^ 32 - 3 in the kernel and than 2 ^ 31 - 3 in user/heap.c, ends without a failed check and without an access outside the array: either it returns
-- the address behind the header of a block that was free and has room for the bytes, apart from the
-- blocks in use, which keep their places, sizes and contents, and leaves a whole heap; or every free
-- block is too small, the heap stays as it was, and the kernel panics where user/heap.c returns null.
-- More rounds than the list of free blocks has ranks are fuel enough.
pub malloc-Whole :
    {g : Ghost} {h : Heap} {r : ℕ}
    → Whole g h r
    → (panics : Bool) (fuel bytes : ℕ) → r < fuel
    → bytes ≢ 0
    → bytes + 3 < size_limit panics
    → ((p : ℕ) × (g' : Ghost) × (h' : Heap) × (malloc panics fuel bytes h ≡ some (some (p + 1), h'))
        × Whole g' h' (r + 1)
        × Given g h bytes p g' h')
      ⊎ (((i : ℕ) → g.free i ≡ true → g.size i < ints_of panics bytes)
          × (malloc panics fuel bytes h ≡ (if panics then none else some (none, h))))
malloc-Whole w panics fuel bytes f ne small = elim (malloc_lem panics w.0 w.1 fuel bytes f ne) [
  | inl t ↦
      inl (
        t.0,
        t.1,
        t.2,
        t.3,
        t.4,
        given panics bytes bytes t.4 (room-ints_of panics bytes small) t.5,
      )
  | inr t ↦ inr t
]

-- On a whole heap, with no two free blocks side by side, free of the address behind the header of a block
-- in use, other than the two at the ends, ends without a failed check and without an access outside the
-- array; the block lies in a free block then, the other blocks in use keep their places, sizes and
-- contents, and the heap is whole and has no two free blocks side by side again.
pub free-Whole :
    {g : Ghost} {h : Heap} {r : ℕ}
    → Whole g h r
    → (panics : Bool) (i : ℕ) → g.start i ≡ true
    → g.free i ≡ false
    → i ≢ 0
    → i ≢ h.len - 2
    → (p : ℕ) × (g' : Ghost) × (h' : Heap) × (free panics (some (suc i)) h ≡ some h')
      × Whole g' h' (r + 1)
      × Released g h i p g' h'
free-Whole w panics i s f a b = free_lem panics w.0 i s f a b w.1

-- Every block in use is one still, with its size and its content.
abbrev pub KeepsAll : Ghost → Heap → Ghost → Heap → Type 0
KeepsAll g h g' h' =
    (j : ℕ)
    → g.start j ≡ true
    → g.free j ≡ false
    → (g'.start j ≡ true)
      × (g'.free j ≡ false)
      × (g'.size j ≡ g.size j)
      × ((k : ℕ) → j ≤ k → k < j + g.size j → h'.array k ≡ h.array k)

-- On a whole heap in which some free block is large enough, malloc succeeds, the pointer that it returns
-- can be freed, and both calls together keep every block in use with its size and its content, and leave
-- a whole heap in which the block allocated is free again.
pub malloc-free :
    {g : Ghost} {h : Heap} {r : ℕ}
    → Whole g h r
    → (panics : Bool) (fuel bytes : ℕ) → r < fuel
    → bytes ≢ 0
    → bytes + 3 < 2 ^ 32
    → (i : ℕ) → g.free i ≡ true
    → ints_of panics bytes ≤ g.size i
    → (p : ℕ) × (h₁ : Heap) × (g₂ : Ghost) × (h₂ : Heap) × (malloc panics fuel bytes h
        ≡ some (some (p + 1), h₁))
      × (free panics (some (p + 1)) h₁ ≡ some h₂)
      × Whole g₂ h₂ (r + 1 + 1)
      × KeepsAll g h g₂ h₂
      × ((q : ℕ) × (g₂.free q ≡ true) × (q ≤ p) × (p + ints_of panics bytes ≤ q + g₂.size q))
malloc-free {g} w panics fuel bytes f ne small i free_i big =
    elim (malloc_lem panics w.0 w.1 fuel bytes f ne) [
      | inl t ↦
          let a = given panics 0 bytes t.4 (omega (arith, four_ints panics bytes)) t.5 in
          let u = free-Whole t.4 panics t.0 a.starts a.taken a.inner.0 a.inner.1 in
          (
            t.0,
            t.2,
            u.1,
            u.2,
            t.3,
            (let following : t.0 + 1 ≡ suc t.0 = omega arith in rw following u.3),
            u.4,
            λ j s e.
                let off : j ≢ t.0 = ground (arith, e, a.was_free) in
                let x = a.keeps j s e off in
                let y = u.5.keeps j x.0 x.1 off in
                (y.0, y.1, y.2 ∙ x.2, λ k lo hi. y.3 k lo (omega (arith, x.2, hi)) ∙ x.3 k lo hi),
            (u.0, u.5.is_free, u.5.low, omega (arith, u.5.high, t.5.enough)),
          )
      | inr t ↦ absurd (omega (arith, t.0 i free_i, big))
    ]

-- ===== src/Kernel/Heap/Free.antt =====
-- free of kernel/heap.cc.
use net_os.Base.{ℕ, suc, ◌+◌, ◌-◌, ◌≤◌, ◌≡◌, ◌≢◌, refl, ◌∙◌, Bool, true, false, some, ◌>>=◌, arith}
use net_os.Kernel.Heap.{Heap, absorb, free, make_avail}
use net_os.Kernel.Heap.Cells.{IsBlock, size_lem, left_lem, right_lem}
use net_os.Kernel.Heap.Ghost.{Ghost, Inv, Coalesced, Whole, last_end}
use net_os.Kernel.Heap.Remove.{sanity_start, IsBlock-start}
use net_os.Kernel.Heap.Opened.{taken-Open}
use net_os.Kernel.Heap.Push.{as_avail, push, make_avail_lem, push-Inv, avail_inside}
use net_os.Kernel.Heap.Frame.{Keeps, pushed_frame, is_taken_lem}
use net_os.Kernel.Heap.Span.{KeepsOpen, Spans, Clear, left_part, right_part, Spans-trans}

-- The open block goes to the head of the list.
module _ {g : Ghost} {h : Heap} {r i : ℕ} {g' : Ghost} {h' : Heap} {p : ℕ}
    (sp : Spans g h r i g' h' p) where
  push_run : make_avail h' p (g'.size p) ≡ some (as_avail p (g'.size p) h')
  push_run =
      let o = sp.opened in
      make_avail_lem h' p (g'.size p) (o.geo.inner_large p sp.starts sp.not_first sp.not_last)
        (o.geo.fits p sp.starts) (avail_inside o sp.starts)

  push-Keeps : Keeps g h (push p h'.avail r g') (as_avail p (g'.size p) h') i
  unfolding KeepsOpen
  push-Keeps j t u m =
      let x = sp.keeps j t u m in
      let o = sp.opened in
      (
        x.0,
        ground (arith, x.1, x.3),
        x.2,
        λ k lo hi.
            pushed_frame o j k
              (record { starts = x.0; taken = x.1; low = lo; high = omega (arith, x.2, hi) })
              sp.starts x.3 (o.geo.inner_large p sp.starts sp.not_first sp.not_last)
            ∙ x.4 k lo hi,
      )

push-Coalesced :
    (g : Ghost) (avail r p : ℕ)
    → 2 ≤ g.size p
    → ((j : ℕ) → g.free j ≡ true → g.start j ≡ true)
    → Clear g p
    → g.free (p + g.size p) ≡ false
    → Coalesced (push p avail r g)
push-Coalesced g avail r p a s c e j f = ground (arith, a, s j, c.0 j, c.1 j, e, f)

-- The block `i` lies in a free block `p`, and the other blocks in use are so still.
pub record Released (g : Ghost) (h : Heap) (i p : ℕ) (g' : Ghost) (h' : Heap) : Type 0 where
  pub is_free : g'.free p ≡ true
  pub low : p ≤ i
  pub high : i + g.size i ≤ p + g'.size p
  pub keeps : Keeps g h g' h' i

module _ {g : Ghost} {h : Heap} {r : ℕ} (panics : Bool) (o : Inv g h r) (i : ℕ)
    (s : g.start i ≡ true) (f : g.free i ≡ false) (nf : i ≢ 0) (nl : i ≢ h.len - 2) where
  free_run : free panics (some (suc i)) h ≡ (do
    (idx, sz, h₁) ← absorb panics h (g.before i) (g.before i) i (g.size i)
    (idx, sz, h₂) ← absorb panics h₁ (i + g.size i) idx idx sz
    make_avail h₂ idx sz)
  unfolding free
  free_run =
      let none_open : (j : ℕ) → g.start j ≡ true → j ≢ h.len =
        λ j t. omega (arith, o.geo.large j t, o.geo.fits j t) in
      let b = o.geo.prior i s nf in
      let block : (j : ℕ) (t : g.start j ≡ true) → IsBlock h j (g.size j) =
        λ j t. IsBlock-start o j t (none_open j t) in
      let t = o.geo.after i s (ground (arith, o.geo.fits i s, last_end o.geo i s)) in
      rw
        (
          sanity_start o panics i s (none_open i s),
          is_taken_lem o i s (none_open i s) f,
          size_lem h i (g.size i) (omega (arith, o.geo.large i s, o.geo.fits i s))
              (block i s).header,
          left_lem h panics (g.before i) (g.size (g.before i)) i (block (g.before i) b.0) b.1,
          right_lem h panics i (g.size i) (g.size (i + g.size i)) (block i s)
              (block (i + g.size i) t),
        )
        refl

  pub free_lem :
      Coalesced g
      → (p : ℕ) × (g' : Ghost) × (h' : Heap) × (free panics (some (suc i)) h ≡ some h')
        × Whole g' h' (r + 1)
        × Released g h i p g' h'
  free_lem c =
      let a = left_part panics (taken-Open o i s f) s nf nl in
      let x = a.4 in
      let b = right_part panics x.opened x.starts x.not_first x.not_last in
      let whole = Spans-trans x b.3 in
      let o₂ = whole.opened in
      let clear = b.4 (a.6 c) in
      (
        a.2,
        push a.2 b.1.avail r b.0,
        as_avail a.2 (b.0.size a.2) b.1,
        free_run ∙ rw (a.3, ← a.5, b.2) (push_run whole),
        (
          push-Inv o₂ whole.starts whole.not_first whole.not_last,
          push-Coalesced b.0 b.1.avail r a.2 (o₂.geo.large a.2 whole.starts) o₂.geo.free_start
              clear.0 clear.1,
        ),
        record {
          is_free = ground arith;
          low = whole.low;
          high = whole.high;
          keeps = push-Keeps whole;
        },
      )

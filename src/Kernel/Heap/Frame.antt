-- ===== src/Kernel/Heap/Frame.antt =====
-- What the operations leave of the blocks in use.
use net_os.Base.{
  ℕ, zero, suc, ◌+◌, ◌≤◌, ◌<◌, ◌≡◌, ◌≢◌, ◌⊎◌, refl, ap, Bool, true, false, some, arith,
}
use net_os.Kernel.Heap.{Heap, minus, positive, negative, is_avail, is_taken}
use net_os.Kernel.Heap.Cells.{load_lem}
use net_os.Kernel.Heap.Ghost.{Ghost, Open, tag, apart}
use net_os.Kernel.Heap.Remove.{relinked, listed_block}
use net_os.Kernel.Heap.Close.{as_taken}
use net_os.Kernel.Heap.Push.{pushed}

-- A block in use, and one of its ints.
pub record InUse (g : Ghost) (j k : ℕ) : Type 0 where
  pub starts : g.start j ≡ true
  pub taken : g.free j ≡ false
  pub low : j ≤ k
  pub high : k < j + g.size j

-- Every block in use but `i` is one still, with its size and its content.
abbrev pub Keeps : Ghost → Heap → Ghost → Heap → ℕ → Type 0
Keeps g h g' h' i =
    (j : ℕ)
    → g.start j ≡ true
    → g.free j ≡ false
    → j ≢ i
    → (g'.start j ≡ true)
      × (g'.free j ≡ false)
      × (g'.size j ≡ g.size j)
      × ((k : ℕ) → j ≤ k → k < j + g.size j → h'.array k ≡ h.array k)

module _ {g : Ghost} {h : Heap} {r p : ℕ} (o : Open g h r p) (j k : ℕ) (u : InUse g j k) where
  not_link : (q : ℕ) → g.listed q ≡ true → (k ≢ q + 1) × (k ≢ q + 2)
  not_link q l =
      let b = listed_block o q l in
      ground (
        arith,
        u.starts,
        u.taken,
        u.low,
        u.high,
        b.0,
        b.3,
        o.graph.listed_free q l,
        apart o.geo j q u.starts b.0,
        apart o.geo q j b.0 u.starts,
      )

  pub relinked_frame : (i : ℕ) → g.listed i ≡ true → relinked i g h.array k ≡ h.array k
  relinked_frame i l =
      ground (arith, not_link (g.nx i), not_link (g.pv i), o.graph.nxt i l, o.graph.prv i l)

  pub outside : (i : ℕ) → g.start i ≡ true → j ≢ i → (k < i) ⊎ (i + g.size i ≤ k)
  outside i s ne =
      ground (arith, u.low, u.high, apart o.geo j i u.starts s, apart o.geo i j s u.starts)

  pub pushed_frame : g.start p ≡ true → j ≢ p → 4 ≤ g.size p → pushed p (g.size p) h k ≡ h.array k
  pushed_frame s ne b = ground (arith, outside p s ne, not_link h.avail, o.graph.top)

  pub taken_frame :
      (n : ℕ)
      → g.start p ≡ true
      → j ≢ p
      → 2 ≤ n
      → n ≤ g.size p
      → (as_taken p n h).array k ≡ h.array k
  taken_frame n s ne b c = ground (arith, outside p s ne)

-- The tests of a header.
positive-tag : (f : Bool) (n : ℕ) → n ≢ 0 → positive (tag f n) ≡ f
positive-tag true zero ne = absurd (ne refl)
positive-tag true (suc n) ne = refl
positive-tag false zero ne = absurd (ne refl)
positive-tag false (suc n) ne = refl

negative-minus : (n : ℕ) → n ≢ 0 → negative (minus n) ≡ true
negative-minus zero ne = absurd (ne refl)
negative-minus (suc n) ne = refl

module _ {g : Ghost} {h : Heap} {r p : ℕ} (o : Open g h r p) (i : ℕ) (s : g.start i ≡ true)
    (ne : i ≢ p) where
  pub is_avail_lem : is_avail h i ≡ some (g.free i)
  unfolding is_avail
  is_avail_lem =
      rw (load_lem h i (omega (arith, o.geo.fits i s, o.geo.large i s)), o.mem.header i s ne)
        (ap some (positive-tag (g.free i) (g.size i) (omega (arith, o.geo.large i s))))

  pub is_taken_lem : g.free i ≡ false → is_taken h i ≡ some true
  unfolding is_taken
  is_taken_lem f =
      rw (load_lem h i (omega (arith, o.geo.fits i s, o.geo.large i s)), o.mem.header i s ne, f)
        (ap some (negative-minus (g.size i) (omega (arith, o.geo.large i s))))

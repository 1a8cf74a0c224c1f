-- ===== src/Kernel/Heap/Malloc.antt =====
-- The loop of malloc of kernel/heap.cc along the list of free blocks.
use net_os.Base.{
  ℕ, zero, suc, ◌+◌, ◌*◌, ◌%◌, ◌^◌, ◌≤◌, ◌<◌, ◌≡◌, ◌≢◌, ◌⊎◌, refl, sym, ap, ◌∙◌, Bool, true, false,
  not, ◌&&◌, Option, none, some, ◌==◌, ==_ne, eq_of_==, leb, ltb, ltb_of_lt, if◌then◌else◌, ◌>>=◌,
  arith, Bool-cases, inl, inr,
}
use mathlib.Core.Path.{transport}
use net_os.Kernel.Heap.{Heap, take_block, search, malloc, ints_of}
use net_os.Kernel.Heap.Cells.{size_lem}
use net_os.Kernel.Heap.Ghost.{Ghost, Inv, Coalesced, Whole}
use net_os.Kernel.Heap.Remove.{listed_block, next_start, IsBlock-start, sanity_link}
use net_os.Kernel.Heap.Frame.{is_avail_lem}
use net_os.Kernel.Heap.Take.{Allocated, take_block_lem}

-- What the loop does at a block that is large enough.
abbrev pub found : Bool → ℕ → ℕ → Heap → ℕ → Option (Option ℕ × Heap)
found panics sz ints h p = do h' ← take_block panics h p sz ints; some (some (p + 1), h')

search_zero :
    (panics : Bool) (fuel ints : ℕ) (h : Heap) → search panics (suc fuel) ints h 0 ≡ some (none, h)
unfolding search
search_zero panics fuel ints h = refl

guard_false : (panics : Bool) → (panics && not true) ≡ false
guard_false true = refl
guard_false false = refl

module _ {g : Ghost} {h : Heap} {r : ℕ} (panics : Bool) (o : Inv g h r) (c : Coalesced g)
    (ints : ℕ) where
  search_step :
      (fuel p : ℕ)
      → g.listed p ≡ true
      → search panics (suc fuel) ints h p ≡ (
          if leb ints (g.size p)
          then found panics (g.size p) ints h p
          else search panics fuel ints h (g.nx p))
  unfolding search
  search_step fuel p l =
      let b = listed_block o p l in
      let block = IsBlock-start o p b.0 b.1 in
      let inside : p < h.len = omega (arith, b.4) in
      rw
        (
          ==_ne p 0 b.2,
          is_avail_lem o p b.0 b.1,
          size_lem h p (g.size p) inside block.header,
          next_start o panics p l,
          o.graph.listed_free p l,
          guard_false panics,
        )
        refl

  -- A block that is large enough, if the loop finds one.
  abbrev pub Finds : ℕ → ℕ → Type 0
  Finds fuel p =
      (q : ℕ) × (g.listed q ≡ true)
      × (ints ≤ g.size q)
      × (search panics fuel ints h p ≡ found panics (g.size q) ints h q)

  pub search_lem :
      (fuel p : ℕ)
      → 0 < fuel
      → (p ≢ 0 → (g.listed p ≡ true) × (g.rank p + 1 < fuel))
      → (search panics fuel ints h p ≡ some (none, h)) ⊎ Finds fuel p
  search_lem zero p a l = absurd (omega (arith, a))
  search_lem (suc fuel) p a l = elim (Bool-cases (p == 0)) [
    | inl e ↦ inl (rw (eq_of_== p 0 e) (search_zero panics fuel ints h))
    | inr e ↦
        let k = l (ground (arith, e)) in
        elim (Bool-cases (leb ints (g.size p))) [
          | inl big ↦ inr (p, k.0, ground (arith, big), rw (search_step fuel p k.0, big) refl)
          | inr small ↦
              let step = rw small at (search_step fuel p k.0) in
              elim (search_lem fuel (g.nx p) (omega (arith, k.1))
                (λ ne. let n = o.graph.nxt p k.0 ne in (n.0, omega (arith, n.2, k.1)))) [
                  | inl m ↦ inl (step ∙ m)
                  | inr f ↦ inr (f.0, f.1, f.2, step ∙ f.3)
                ]
        ]
  ]

  -- From the block `p` the loop finds none.
  abbrev Fails : ℕ → Type 0
  Fails p = (fuel : ℕ) × (search panics fuel ints h p ≡ some (none, h))

  found-is_some :
      4 ≤ ints
      → (p : ℕ) → g.listed p ≡ true
      → ints ≤ g.size p
      → found panics (g.size p) ints h p ≢ some (none, h)
  found-is_some a p l b e =
      let t = take_block_lem panics o c p l ints a b in ground (arith, rw t.2 at e)

  Fails-step :
      4 ≤ ints
      → (fuel p : ℕ) → g.listed p ≡ true
      → search panics fuel ints h p ≡ some (none, h)
      → (g.size p < ints) × Fails (g.nx p)
  unfolding search
  Fails-step a zero p l e = ground (arith, e)
  Fails-step a (suc fuel) p l e = elim (Bool-cases (leb ints (g.size p))) [
    | inl big ↦
        absurd
          (found-is_some a p l (ground (arith, big)) (sym (rw big at (search_step fuel p l)) ∙ e))
    | inr small ↦ (ground (arith, small), (fuel, sym (rw small at (search_step fuel p l)) ∙ e))
  ]

  Fails-at : 4 ≤ ints → Fails h.avail → (n q : ℕ) → r ≤ g.rank q + n → g.listed q ≡ true → Fails q
  Fails-at a e zero q b l = absurd (omega (arith, b, o.graph.bound q l))
  Fails-at a e (suc n) q b l = elim (Bool-cases (g.pv q == 0)) [
    | inl z ↦ transport (ap Fails (o.graph.head q l (eq_of_== (g.pv q) 0 z))) e
    | inr s ↦
        let k = o.graph.prv q l (ground (arith, s)) in
        let next = o.graph.nxt (g.pv q) k.0 (ground (arith, k.1, l, o.graph.listed_zero)) in
        let before = Fails-at a e n (g.pv q) (ground (arith, next.2, k.1, b)) k.0 in
        transport (ap Fails k.1) (Fails-step a before.0 (g.pv q) k.0 before.1).1
  ]

  -- When it finds none from the head of the list on, every free block is too small.
  pub all_small :
      4 ≤ ints
      → (fuel : ℕ) → search panics fuel ints h h.avail ≡ some (none, h)
      → (i : ℕ) → g.free i ≡ true
      → g.size i < ints
  all_small a fuel e i f =
      let s = o.geo.free_start i f in
      let l = o.all_listed i f (omega (arith, o.geo.large i s, o.geo.fits i s)) in
      let at = Fails-at a (fuel, e) r i (omega arith) l in (Fails-step a at.0 i l at.1).0

pub four_ints : (panics : Bool) (bytes : ℕ) → 4 ≤ ints_of panics bytes
four_ints panics bytes = ground arith

-- The numbers of bytes that do not overflow.
abbrev pub size_limit : Bool → ℕ
size_limit panics = if panics then 2 ^ 32 else 2 ^ 31

pub room-ints_of :
    (panics : Bool) (bytes : ℕ)
    → bytes + 3 < size_limit panics
    → bytes + 8 ≤ 4 * ints_of panics bytes
room-ints_of true bytes a =
    let small : (bytes + 3) % 2 ^ 32 ≡ bytes + 3 = omega (arith, a) in rw small (ground arith)
room-ints_of false bytes a =
    let small : (bytes + 3) % 2 ^ 32 ≡ bytes + 3 = omega (arith, a) in
    let plus : ltb (bytes + 3) (2 ^ 31) ≡ true = ltb_of_lt _ _ (omega (arith, a)) in
    rw (small, plus) (ground arith)

same_if : {A : Type 0} {a : A} (c : Bool) → (if c then a else a) ≡ a
same_if true = refl
same_if false = refl

module _ {g : Ghost} {h : Heap} {r : ℕ} (panics : Bool) (o : Inv g h r) (c : Coalesced g)
    (fuel bytes : ℕ) (enough : r < fuel) (ne : bytes ≢ 0) where
  malloc_run : malloc panics fuel bytes h ≡ (do
    (res, h') ← search panics fuel (ints_of panics bytes) h h.avail
    if panics then (elim res [ none ↦ none | some q ↦ some (some q, h') ]) else some (res, h'))
  unfolding malloc
  malloc_run = rw (==_ne bytes 0 ne, sanity_link o panics h.avail (λ a. (o.graph.top a).0)) refl

  pub malloc_lem :
      ((q : ℕ) × (g' : Ghost) × (h' : Heap) × (malloc panics fuel bytes h ≡ some (some (q + 1), h'))
        × Whole g' h' (r + 1)
        × Allocated g h (ints_of panics bytes) q g' h')
      ⊎ (((i : ℕ) → g.free i ≡ true → g.size i < ints_of panics bytes)
          × (malloc panics fuel bytes h ≡ (if panics then none else some (none, h))))
  malloc_lem =
      let four = four_ints panics bytes in
      elim (search_lem panics o c (ints_of panics bytes) fuel h.avail (omega (arith, enough))
        (λ a. let t = (o.graph.top a).0 in (t, omega (arith, o.graph.bound h.avail t, enough)))) [
          | inl m ↦
              inr (all_small panics o c (ints_of panics bytes) four fuel m, malloc_run ∙ rw m refl)
          | inr f ↦
              let t = take_block_lem panics o c f.0 f.1 (ints_of panics bytes) four f.2 in
              inl (f.0, t.0, t.1, malloc_run ∙ rw (f.3, t.2) (same_if panics), t.3, t.4)
        ]

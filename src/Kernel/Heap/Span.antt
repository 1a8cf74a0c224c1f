-- ===== src/Kernel/Heap/Span.antt =====
-- The merges of free of kernel/heap.cc.
use net_os.Base.{
  ℕ, ◌+◌, ◌-◌, ◌≤◌, ◌<◌, ◌≡◌, ◌≢◌, refl, ap, ◌∙◌, Bool, true, false, some, arith, Bool-cases, inl,
  inr,
}
use net_os.Kernel.Heap.{Heap, abs, absorb}
use net_os.Kernel.Heap.Cells.{size_lem}
use net_os.Kernel.Heap.Ghost.{Coalesced, Ghost, Open, unlink, last_end, apart}
use net_os.Kernel.Heap.Remove.{without, remove_lem, listed_block, abs-tag, unlink-Mem}
use net_os.Kernel.Heap.Blocks.{merge}
use net_os.Kernel.Heap.Opened.{left-Open, right-Open}
use net_os.Kernel.Heap.Frame.{relinked_frame, is_avail_lem}

-- absorb at a block that is not the open one.
module _ {g : Ghost} {h : Heap} {r p : ℕ} (panics : Bool) (o : Open g h r p)
    (q start idx sz : ℕ) where
  absorb_taken :
      g.start q ≡ true
      → q ≢ p
      → g.free q ≡ false
      → absorb panics h q start idx sz ≡ some (idx, sz, h)
  unfolding absorb
  absorb_taken s ne f = rw (is_avail_lem o q s ne, f) refl

  absorb_listed :
      g.listed q ≡ true
      → absorb panics h q start idx sz ≡ some (start, sz + g.size q, without q g h)
  unfolding absorb
  absorb_listed l =
      let b = listed_block o q l in
      let header = ap abs ((unlink-Mem o q l).header q b.0 b.1) ∙ abs-tag (g.free q) (g.size q) in
      rw
        (
          is_avail_lem o q b.0 b.1,
          o.graph.listed_free q l,
          remove_lem o q l panics,
          size_lem (without q g h) q (g.size q) (omega (arith, b.4)) header,
        )
        refl

-- No block before the block `p` is free.
abbrev pub Clear : Ghost → ℕ → Type 0
Clear g p = Coalesced g × ((j : ℕ) → g.start j ≡ true → j + g.size j ≡ p → g.free j ≡ false)

-- Every block in use but `i` is one still, with its size and its content, and is not the open block `p`.
unfoldable pub KeepsOpen : Ghost → Heap → Ghost → Heap → ℕ → ℕ → Type 0
KeepsOpen g h g' h' i p =
    (j : ℕ)
    → g.start j ≡ true
    → g.free j ≡ false
    → j ≢ i
    → (g'.start j ≡ true)
      × (g'.free j ≡ false)
      × (g'.size j ≡ g.size j)
      × (j ≢ p)
      × ((k : ℕ) → j ≤ k → k < j + g.size j → h'.array k ≡ h.array k)

-- The block `p` is open, spans the block `i`, and the other blocks in use are kept.
pub record Spans (g : Ghost) (h : Heap) (r i : ℕ) (g' : Ghost) (h' : Heap) (p : ℕ) : Type 0 where
  pub opened : Open g' h' r p
  pub starts : g'.start p ≡ true
  pub not_first : p ≢ 0
  pub not_last : p ≢ h'.len - 2
  pub low : p ≤ i
  pub high : i + g.size i ≤ p + g'.size p
  pub keeps : KeepsOpen g h g' h' i p

module _ {g : Ghost} {h : Heap} {r i : ℕ} (panics : Bool) (o : Open g h r i) (s : g.start i ≡ true)
    (nf : i ≢ 0) (nl : i ≢ h.len - 2) where
  unchanged : Spans g h r i g h i
  unfolding KeepsOpen
  unchanged = record {
    opened = o;
    starts = s;
    not_first = nf;
    not_last = nl;
    low = omega arith;
    high = omega arith;
    keeps = λ j t f ne. (t, f, refl, ne, λ k a b. refl);
  }

  pub left_part :
      (g' : Ghost) × (h' : Heap) × (p : ℕ) × (absorb panics h (g.before i) (g.before i) i (g.size i)
        ≡ some (p, g'.size p, h'))
      × Spans g h r i g' h' p
      × (p + g'.size p ≡ i + g.size i)
      × (Coalesced g → Clear g' p)
  unfolding KeepsOpen
  left_part =
      let q = g.before i in
      let b = o.geo.prior i s nf in
      let ne : q ≢ i = omega (arith, b.1, o.geo.large q b.0) in
      elim (Bool-cases (g.free q)) [
        | inl f ↦
            let l = o.all_listed q f ne in
            let sizes : g.size i + g.size q ≡ (merge q i (unlink q g)).size q = ground arith in
            let c = listed_block o q l in
            (
              merge q i (unlink q g),
              without q g h,
              q,
              absorb_listed panics o q q i (g.size i) l
                  ∙ ap (λ n. some (q, n, without q g h)) sizes,
              record {
                opened = left-Open o s q l b.1 nl;
                starts = ground (arith, b.0, ne);
                not_first = c.2;
                not_last = ground (arith, o.geo.last, f);
                low = omega (arith, b.1);
                high = ground (arith, b.1);
                keeps = λ j t u m. (
                  ground (arith, t, m),
                  ground (arith, u, m),
                  ground (arith, u, f),
                  ground (arith, u, f),
                  λ k lo hi.
                      relinked_frame o j k (record { starts = t; taken = u; low = lo; high = hi }) q
                        l,
                );
              },
              ground (arith, b.1),
              λ c. (
                λ j u. ground (arith, u, c j),
                λ j t e. ground (arith, t, e, c j, f, o.geo.large q b.0),
              ),
            )
        | inr f ↦ (
          g,
          h,
          i,
          absorb_taken panics o q q i (g.size i) b.0 ne f,
          unchanged,
          refl,
          λ c. (
            c,
            λ j t e. ground (
              arith,
              apart o.geo j q t b.0,
              apart o.geo q j b.0 t,
              b.1,
              e,
              f,
              o.geo.large q b.0,
              o.geo.large j t,
            ),
          ),
        )
      ]

  pub right_part :
      (g' : Ghost) × (h' : Heap) × (absorb panics h (i + g.size i) i i (g.size i)
        ≡ some (i, g'.size i, h'))
      × Spans g h r i g' h' i
      × (Clear g i → Clear g' i × (g'.free (i + g'.size i) ≡ false))
  unfolding KeepsOpen
  right_part =
      let q = i + g.size i in
      let inner : i + g.size i < h.len = ground (arith, o.geo.fits i s, last_end o.geo i s) in
      let t = o.geo.after i s inner in
      let ne : q ≢ i = omega (arith, o.geo.large i s) in
      elim (Bool-cases (g.free q)) [
        | inl f ↦
            let l = o.all_listed q f ne in
            let sizes : g.size i + g.size q ≡ (merge i q (unlink q g)).size i = ground arith in
            (
              merge i q (unlink q g),
              without q g h,
              absorb_listed panics o q i i (g.size i) l
                  ∙ ap (λ n. some (i, n, without q g h)) sizes,
              record {
                opened = right-Open o s q l refl nf;
                starts = ground (arith, s, ne);
                not_first = nf;
                not_last = nl;
                low = omega arith;
                high = ground arith;
                keeps = λ j t u m. (
                  ground (arith, t, u, f),
                  ground (arith, u, m),
                  ground (arith, m),
                  m,
                  λ k lo hi.
                      relinked_frame o j k (record { starts = t; taken = u; low = lo; high = hi }) q
                        l,
                );
              },
              λ c. (
                (
                  λ j u. ground (arith, u, c.0 j),
                  λ j t e. ground (arith, t, e, c.1 j, o.geo.large i s),
                ),
                ground (arith, c.0 q f, o.geo.large q t),
              ),
            )
        | inr f ↦ (g, h, absorb_taken panics o q i i (g.size i) t ne f, unchanged, λ c. (c, f))
      ]

pub Spans-trans :
    {g₁ : Ghost} {h₁ : Heap} {g₂ : Ghost} {h₂ : Heap} {g₃ : Ghost} {h₃ : Heap} {r i p : ℕ}
    → Spans g₁ h₁ r i g₂ h₂ p
    → Spans g₂ h₂ r p g₃ h₃ p
    → Spans g₁ h₁ r i g₃ h₃ p
unfolding KeepsOpen
Spans-trans {g₁} a b = record {
  opened = b.opened;
  starts = b.starts;
  not_first = b.not_first;
  not_last = b.not_last;
  low = a.low;
  high = omega (arith, a.high, b.high);
  keeps = λ j t u m.
      let x = a.keeps j t u m in
      let y = b.keeps j x.0 x.1 x.3 in
      (y.0, y.1, y.2 ∙ x.2, y.3, λ k lo hi. y.4 k lo (omega (arith, x.2, hi)) ∙ x.4 k lo hi);
}

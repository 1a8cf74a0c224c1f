-- ===== src/Kernel/Heap/Remove.antt =====
-- Taking a block out of the list of free blocks.
use net_os.Base.{
  ℕ, ◌+◌, ◌-◌, ◌≤◌, ◌<◌, ◌≡◌, ◌≢◌, refl, sym, ap, ◌∙◌, Bool, true, false, not, ◌&&◌, some, ◌==◌,
  eq_of_==, if◌then◌else◌, ℤ, pos, arith, Bool-cases, inl, inr,
}
use mathlib.Core.Path.{fun_ext}
use net_os.Kernel.Heap.{Heap, abs, update, set_next, set_prev, sanity, next, prev, remove}
use net_os.Kernel.Heap.Cells.{
  IsBlock, abs-minus, store_lem, sanity_lem, sanity_zero, next_lem, prev_lem,
}
use net_os.Kernel.Heap.Ghost.{Ghost, Mem, Links, Open, tag, unlink, free_inner, apart}

pub abs-tag : (f : Bool) (n : ℕ) → abs (tag f n) ≡ n
abs-tag true n = refl
abs-tag false n = abs-minus n

-- A block of the heap is one that its header and its footer give.
module _ {g : Ghost} {h : Heap} {r p : ℕ} (o : Open g h r p) where
  pub IsBlock-start : (i : ℕ) → g.start i ≡ true → i ≢ p → IsBlock h i (g.size i)
  IsBlock-start i s ne = record {
    large = o.geo.large i s;
    inside = o.geo.fits i s;
    header = ap abs (o.mem.header i s ne) ∙ abs-tag (g.free i) (g.size i);
    footer = o.mem.footer i s ne ∙ sym (o.mem.header i s ne);
  }

  pub listed_block :
      (i : ℕ)
      → g.listed i ≡ true
      → (g.start i ≡ true) × (i ≢ p) × (i ≢ 0) × (4 ≤ g.size i) × (i + g.size i < h.len)
  listed_block i l = ground (arith, o.graph.listed_free i, free_inner o.geo i, o.unlisted)

  pub sanity_start : (panics : Bool) (i : ℕ) → g.start i ≡ true → i ≢ p → sanity panics h i ≡ some i
  sanity_start panics i s ne = sanity_lem h panics i (g.size i) (IsBlock-start i s ne)

  -- Of a link: the block that it leads to, or 0.
  pub sanity_link :
      (panics : Bool) (j : ℕ) → (j ≢ 0 → g.listed j ≡ true) → sanity panics h j ≡ some j
  sanity_link panics j l = elim (Bool-cases (j == 0)) [
    | inl e ↦ rw (eq_of_== j 0 e) (sanity_zero h panics)
    | inr e ↦ let b = listed_block j (l (ground (arith, e))) in sanity_start panics j b.0 b.1
  ]

  pub next_start : (panics : Bool) (i : ℕ) → g.listed i ≡ true → next panics h i ≡ some (g.nx i)
  next_start panics i l =
      let b = listed_block i l in
      next_lem h panics i (g.nx i) (omega (arith, b.3, b.4)) (o.links.next i l)
        (sanity_link panics (g.nx i) (λ ne. (o.graph.nxt i l ne).0))

  pub prev_start : (panics : Bool) (i : ℕ) → g.listed i ≡ true → prev panics h i ≡ some (g.pv i)
  prev_start panics i l =
      let b = listed_block i l in
      prev_lem h panics i (g.pv i) (omega (arith, b.3, b.4)) (o.links.prev i l)
        (sanity_link panics (g.pv i) (λ ne. (o.graph.prv i l ne).0))

  -- No header or footer stands where a listed block has its links.
  pub header_apart : (j q : ℕ) → g.start j ≡ true → g.listed q ≡ true → (j ≢ q + 1) × (j ≢ q + 2)
  header_apart j q s l = let b = listed_block q l in ground (arith, b.0, b.3, o.geo.within q j b.0)

  pub footer_apart :
      (j q : ℕ)
      → g.start j ≡ true
      → g.listed q ≡ true
      → (j + g.size j - 1 ≢ q + 1) × (j + g.size j - 1 ≢ q + 2)
  footer_apart j q s l =
      let b = listed_block q l in
      ground (arith, b.3, o.geo.large j s, apart o.geo j q s b.0, apart o.geo q j b.0 s)

-- The array and the first block after the links around `i` are closed.
abbrev pub relinked : ℕ → Ghost → (ℕ → ℤ) → ℕ → ℤ
relinked i g a k =
    if not (g.nx i == 0) && (k == g.nx i + 2)
    then pos (g.pv i)
    else if not (g.pv i == 0) && (k == g.pv i + 1)
    then pos (g.nx i)
    else a k

abbrev pub without : ℕ → Ghost → Heap → Heap
without i g h = record h {
  array = relinked i g h.array;
  avail = if g.pv i == 0 then g.nx i else h.avail;
}

module _ {g : Ghost} {h : Heap} {r p : ℕ} (o : Open g h r p) (i : ℕ) (l : g.listed i ≡ true) where
  nx_in : (g.nx i == 0) ≡ false → g.nx i + 2 < h.len
  nx_in f =
      let b = listed_block o (g.nx i) (o.graph.nxt i l (ground (arith, f))).0 in
      omega (arith, b.3, b.4)

  pv_in : (g.pv i == 0) ≡ false → g.pv i + 1 < h.len
  pv_in f =
      let b = listed_block o (g.pv i) (o.graph.prv i l (ground (arith, f))).0 in
      omega (arith, b.3, b.4)

  pub remove_lem : (panics : Bool) → remove panics h i ≡ some (without i g h)
  unfolding remove set_next set_prev
  remove_lem panics = elim (Bool-cases (g.pv i == 0)) [
    | inl e ↦ elim (Bool-cases (g.nx i == 0)) [
      | inl f ↦
          rw (prev_start o panics i l, next_start o panics i l, e, f)
            (ap (λ (a : ℕ → ℤ). some (record h { array = a; avail = g.nx i }))
              (fun_ext λ k. rw (e, f) refl))
      | inr f ↦
          rw
            (
              prev_start o panics i l,
              next_start o panics i l,
              e,
              f,
              store_lem (record h { avail = g.nx i }) (g.nx i + 2) (pos (g.pv i)) (nx_in f),
            )
            (ap (λ (a : ℕ → ℤ). some (record h { array = a; avail = g.nx i }))
              (fun_ext λ k. rw (e, f) refl))
    ]
    | inr e ↦ elim (Bool-cases (g.nx i == 0)) [
      | inl f ↦
          rw
            (
              prev_start o panics i l,
              next_start o panics i l,
              e,
              f,
              store_lem h (g.pv i + 1) (pos (g.nx i)) (pv_in e),
            )
            (ap (λ (a : ℕ → ℤ). some (record h { array = a; avail = h.avail }))
              (fun_ext λ k. rw (e, f) refl))
      | inr f ↦
          rw
            (
              prev_start o panics i l,
              next_start o panics i l,
              e,
              f,
              store_lem h (g.pv i + 1) (pos (g.nx i)) (pv_in e),
              store_lem (record h { array = update h.array (g.pv i + 1) (pos (g.nx i)) })
                  (g.nx i + 2) (pos (g.pv i)) (nx_in f),
            )
            (ap (λ (a : ℕ → ℤ). some (record h { array = a; avail = h.avail }))
              (fun_ext λ k. rw (e, f) refl))
    ]
  ]

  link_apart : (j q : ℕ) → g.listed j ≡ true → g.listed q ≡ true → j ≢ q + 1
  link_apart j q a b = (header_apart o j q (listed_block o j a).0 b).0

  pub unlink-Links : Links (unlink i g) (relinked i g h.array)
  unlink-Links = record {
    next = λ j a. ground (arith, o.links.next j, link_apart j (g.nx i), o.graph.nxt i);
    prev = λ j a. ground (arith, o.links.prev j, link_apart (g.pv i) j, o.graph.prv i);
  }

  pub unlink-Mem : Mem (unlink i g) (relinked i g h.array) p
  unlink-Mem = record {
    header = λ j s ne. ground (
      arith,
      o.mem.header j s ne,
      header_apart o j (g.nx i) s,
      header_apart o j (g.pv i) s,
      o.graph.nxt i,
      o.graph.prv i,
    );
    footer = λ j s ne. ground (
      arith,
      o.mem.footer j s ne,
      footer_apart o j (g.nx i) s,
      footer_apart o j (g.pv i) s,
      o.graph.nxt i,
      o.graph.prv i,
    );
  }

-- ===== src/Kernel/Heap/Push.antt =====
-- Putting a block at the head of the list of free blocks.
use net_os.Base.{
  ℕ, ◌+◌, ◌-◌, ◌≤◌, ◌<◌, ◌≡◌, ◌≢◌, refl, ap, true, not, ◌&&◌, some, ◌==◌, if◌then◌else◌, ℤ, pos,
  arith, Bool-cases, inl, inr,
}
use mathlib.Core.Path.{fun_ext}
use net_os.Kernel.Heap.{Heap, update, store, make_avail, footer_from_header, set_next, set_prev}
use net_os.Kernel.Heap.Cells.{store_lem}
use net_os.Kernel.Heap.Ghost.{Ghost, Mem, Links, Graph, Open, Inv, upd, apart}
use net_os.Kernel.Heap.Remove.{header_apart, footer_apart, listed_block}
use net_os.Kernel.Heap.Close.{footer_lem, abs-update, end_unlisted}

-- The array and the list with the block `p` at its head.
abbrev pub pushed : ℕ → ℕ → Heap → ℕ → ℤ
pushed p n h k =
    if not (h.avail == 0) && (k == h.avail + 2)
    then pos p
    else if k == p + 2
    then pos 0
    else if k == p + 1
    then pos h.avail
    else if k == p + n - 1
    then pos n
    else if k == p
    then pos n
    else h.array k

abbrev pub as_avail : ℕ → ℕ → Heap → Heap
as_avail p n h = record h { array = pushed p n h; avail = p }

abbrev pub push : ℕ → ℕ → ℕ → Ghost → Ghost
push p avail r g = record g {
  free = upd g.free p true;
  listed = upd g.listed p true;
  nx = upd g.nx p avail;
  pv = upd (upd g.pv avail p) p 0;
  rank = upd g.rank p r;
}

pub make_avail_lem :
    (h : Heap) (p n : ℕ)
    → 4 ≤ n
    → p + n ≤ h.len
    → (h.avail ≢ 0 → h.avail + 2 < h.len)
    → make_avail h p n ≡ some (as_avail p n h)
unfolding make_avail set_next set_prev
make_avail_lem h p n a b c =
    let h₁ = record h { array = update h.array p (pos n) } in
    let h₂ = record h { array = update h₁.array (p + n - 1) (pos n) } in
    let h₃ = record h { array = update h₂.array (p + 1) (pos h.avail) } in
    let h₄ = record h { array = update h₃.array (p + 2) (pos 0) } in
    let written : (store h p (pos n) ≡ some h₁)
        × (footer_from_header h₁ p ≡ some (p + n - 1))
        × (store h₁ (p + n - 1) (pos n) ≡ some h₂)
        × (store h₂ (p + 1) (pos h.avail) ≡ some h₃)
        × (store h₃ (p + 2) (pos 0) ≡ some h₄) =
      (
        store_lem h p (pos n) (omega arith),
        footer_lem h₁ p n (omega arith) (omega arith) (abs-update h.array p (pos n) n refl),
        store_lem h₁ (p + n - 1) (pos n) (omega arith),
        store_lem h₂ (p + 1) (pos h.avail) (omega arith),
        store_lem h₃ (p + 2) (pos 0) (omega arith),
      ) in
    elim (Bool-cases (h.avail == 0)) [
      | inl e ↦
          rw (written.0, written.1, written.2, written.3, written.4, e)
            (ap (λ (a : ℕ → ℤ). some (record h { array = a; avail = p })) (fun_ext λ k. rw e refl))
      | inr e ↦
          rw
            (
              written.0,
              written.1,
              written.2,
              written.3,
              written.4,
              e,
              store_lem h₄ (h.avail + 2) (pos p) (c (ground (arith, e))),
            )
            (ap (λ (a : ℕ → ℤ). some (record h { array = a; avail = p })) (fun_ext λ k. rw e refl))
    ]

module _ {g : Ghost} {h : Heap} {r p : ℕ} (o : Open g h r p) (s : g.start p ≡ true) where
  pub avail_inside : h.avail ≢ 0 → h.avail + 2 < h.len
  avail_inside ne = let b = listed_block o h.avail (o.graph.top ne).0 in omega (arith, b.3, b.4)

  push-Graph : p ≢ 0 → Graph (push p h.avail r g) p (r + 1)
  push-Graph a = record {
    nxt = λ j l ne.
        ground (
          arith,
          o.graph.nxt j,
          o.graph.top,
          o.graph.bound h.avail,
          o.unlisted,
          o.graph.listed_zero,
        );
    prv = λ j l ne. ground (arith, o.graph.prv j, o.graph.top, o.unlisted, o.graph.listed_zero);
    head = λ j l e. ground (arith, o.graph.head j, o.graph.listed_zero);
    top = λ ne. ground arith;
    bound = λ j l. ground (arith, o.graph.bound j);
    listed_zero = ground (arith, o.graph.listed_zero);
    listed_free = λ j l. ground (arith, o.graph.listed_free j);
  }

  push-Links : 4 ≤ g.size p → Links (push p h.avail r g) (pushed p (g.size p) h)
  push-Links b = record {
    next = λ j l. ground (
      arith,
      o.links.next j,
      o.unlisted,
      o.graph.top,
      header_apart o p h.avail s,
      header_apart o p j s,
      footer_apart o p j s,
      header_apart o j h.avail,
      listed_block o j,
      o.geo.within p j s,
    );
    prev = λ j l. ground (
      arith,
      o.links.prev j,
      o.unlisted,
      o.graph.top,
      header_apart o p h.avail s,
      header_apart o p j s,
      footer_apart o p j s,
      header_apart o h.avail j,
      listed_block o j,
      listed_block o h.avail,
      o.geo.within p j s,
      o.graph.listed_zero,
    );
  }

  push-Mem : 4 ≤ g.size p → Mem (push p h.avail r g) (pushed p (g.size p) h) h.len
  push-Mem b = record {
    header = λ j t ne.
        ground
          (arith, o.mem.header j t, o.graph.top, header_apart o j h.avail t, o.geo.within p j s);
    footer = λ j t ne. ground (
      arith,
      o.mem.footer j t,
      o.graph.top,
      footer_apart o j h.avail t,
      footer_apart o p h.avail s,
      o.geo.large j t,
      apart o.geo p j s t,
      apart o.geo j p t s,
    );
  }

  pub push-Inv : p ≢ 0 → p ≢ h.len - 2 → Inv (push p h.avail r g) (as_avail p (g.size p) h) (r + 1)
  push-Inv a b =
      let big = o.geo.inner_large p s a b in
      record {
        geo = record {
          first = ground (arith, o.geo.first);
          last = ground (arith, o.geo.last);
          large = o.geo.large;
          inner_large = o.geo.inner_large;
          fits = o.geo.fits;
          after = o.geo.after;
          within = o.geo.within;
          prior = o.geo.prior;
          free_start = λ i f. ground (arith, o.geo.free_start i);
        };
        mem = push-Mem big;
        links = push-Links big;
        graph = push-Graph a;
        all_listed = λ j f ne. ground (arith, o.all_listed j);
        unlisted = ground (arith, end_unlisted o, o.geo.fits p s);
      }

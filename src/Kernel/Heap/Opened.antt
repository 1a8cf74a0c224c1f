-- ===== src/Kernel/Heap/Opened.antt =====
-- Blocks that an operation has taken out of the list, and merges with them.
use net_os.Base.{ℕ, ◌+◌, ◌-◌, ◌≡◌, ◌≢◌, true, false, arith}
use net_os.Kernel.Heap.{Heap}
use net_os.Kernel.Heap.Ghost.{Ghost, Geo, Mem, Links, Graph, Open, Inv, unlink, unlink-Graph}
use net_os.Kernel.Heap.Remove.{without, unlink-Links, unlink-Mem, listed_block}
use net_os.Kernel.Heap.Blocks.{merge, merge-Geo}

unlink-Geo : (i : ℕ) {g : Ghost} {len : ℕ} → Geo g len → Geo (unlink i g) len
unlink-Geo i k = record {
  first = k.first;
  last = k.last;
  large = k.large;
  inner_large = k.inner_large;
  fits = k.fits;
  after = k.after;
  within = k.within;
  prior = k.prior;
  free_start = k.free_start;
}

-- A listed block of a whole heap, opened.
pub unlink-Open :
    {g : Ghost} {h : Heap} {r : ℕ} (o : Inv g h r) (i : ℕ)
    → g.listed i ≡ true
    → Open (unlink i g) (without i g h) r i
unlink-Open {g} {h} o i l =
    let m = unlink-Mem o i l in
    let no_block : (j : ℕ) → g.start j ≡ true → j ≢ h.len =
      λ j s. omega (arith, o.geo.large j s, o.geo.fits j s) in
    record {
      geo = unlink-Geo i o.geo;
      mem = record {
        header = λ j s ne. m.header j s (no_block j s);
        footer = λ j s ne. m.footer j s (no_block j s);
      };
      links = unlink-Links o i l;
      graph = unlink-Graph o.graph i l;
      all_listed = λ j f ne. ground (arith, o.all_listed j f (no_block j (o.geo.free_start j f)));
      unlisted = ground arith;
    }

-- A taken block of a whole heap, opened.
pub taken-Open :
    {g : Ghost} {h : Heap} {r : ℕ}
    → Inv g h r
    → (i : ℕ) → g.start i ≡ true
    → g.free i ≡ false
    → Open g h r i
taken-Open {g} {h} o i s f =
    let no_block : (j : ℕ) → g.start j ≡ true → j ≢ h.len =
      λ j s. omega (arith, o.geo.large j s, o.geo.fits j s) in
    record {
      geo = o.geo;
      mem = record {
        header = λ j s ne. o.mem.header j s (no_block j s);
        footer = λ j s ne. o.mem.footer j s (no_block j s);
      };
      links = o.links;
      graph = o.graph;
      all_listed = λ j f ne. o.all_listed j f (no_block j (o.geo.free_start j f));
      unlisted = ground (arith, o.graph.listed_free i);
    }

module _ {g : Ghost} {h : Heap} {r : ℕ} (x a b : ℕ) (geo : Geo g h.len) (mem : Mem g h.array x)
    (links : Links g h.array) (graph : Graph g h.avail r)
    (all : (j : ℕ) → g.free j ≡ true → j ≢ a → j ≢ b → g.listed j ≡ true) (ua : g.listed a ≡ false)
    (ub : g.listed b ≡ false) (sa : g.start a ≡ true) (sb : g.start b ≡ true) (e : a + g.size a ≡ b)
    (na : a ≢ 0) (nb : b ≢ h.len - 2) (which : (j : ℕ) → j ≢ a → j ≢ b → j ≢ x) where
  merge-Open : Open (merge a b g) h r a
  merge-Open = record {
    geo = merge-Geo geo a b sa sb e na nb;
    mem = record {
      header = λ j s ne. ground (arith, mem.header j, which j ne);
      footer = λ j s ne. ground (arith, mem.footer j, which j ne);
    };
    links = record { next = links.next; prev = links.prev };
    graph = record {
      nxt = graph.nxt;
      prv = graph.prv;
      head = graph.head;
      top = graph.top;
      bound = graph.bound;
      listed_zero = graph.listed_zero;
      listed_free = λ j l. ground (arith, graph.listed_free j);
    };
    all_listed = λ j f ne. ground (arith, all j);
    unlisted = ua;
  }

module _ {g : Ghost} {h : Heap} {r p : ℕ} (o : Open g h r p) (s : g.start p ≡ true) where
  -- The open block with the listed one behind it.
  pub right-Open :
      (q : ℕ)
      → g.listed q ≡ true
      → p + g.size p ≡ q
      → p ≢ 0
      → Open (merge p q (unlink q g)) (without q g h) r p
  right-Open q l e n =
      let b = listed_block o q l in
      merge-Open p p q (unlink-Geo q o.geo) (unlink-Mem o q l) (unlink-Links o q l)
        (unlink-Graph o.graph q l) (λ j f m k. ground (arith, o.all_listed j f m))
        (ground (arith, o.unlisted)) (ground arith) s b.0 e n
        (ground (arith, o.geo.last, b.4, o.graph.listed_free q)) (λ j m k. m)

  -- The listed block before the open one with it.
  pub left-Open :
      (q : ℕ)
      → g.listed q ≡ true
      → q + g.size q ≡ p
      → p ≢ h.len - 2
      → Open (merge q p (unlink q g)) (without q g h) r q
  left-Open q l e n =
      let b = listed_block o q l in
      merge-Open p q p (unlink-Geo q o.geo) (unlink-Mem o q l) (unlink-Links o q l)
        (unlink-Graph o.graph q l) (λ j f m k. ground (arith, o.all_listed j f k)) (ground arith)
        (ground (arith, o.unlisted)) b.0 s e b.2 n (λ j m k. k)

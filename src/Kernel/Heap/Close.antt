-- ===== src/Kernel/Heap/Close.antt =====
-- Writing the header and the footer of a block that an operation has opened.
use net_os.Base.{
  ℕ, ◌+◌, ◌-◌, ◌≤◌, ◌<◌, ◌≡◌, ◌≢◌, refl, true, false, some, ==_self, leb, ℤ, arith, Bool-cases, inl,
  inr,
}
use net_os.Kernel.Heap.{Heap, abs, minus, update, make_taken, footer_from_header}
use net_os.Kernel.Heap.Cells.{abs-minus, store_lem, size_lem}
use net_os.Kernel.Heap.Ghost.{Ghost, Open, Inv, upd, apart}
use net_os.Kernel.Heap.Remove.{header_apart, footer_apart, listed_block}
use net_os.Kernel.Heap.Blocks.{split, split-Geo}

pub footer_lem :
    (h : Heap) (p n : ℕ)
    → 2 ≤ n
    → p < h.len
    → abs (h.array p) ≡ n
    → footer_from_header h p ≡ some (p + n - 1)
unfolding footer_from_header
footer_lem h p n a b e =
    let one : leb 1 (p + n) ≡ true = ground arith in rw (size_lem h p n b e, one) refl

abbrev pub as_taken : ℕ → ℕ → Heap → Heap
as_taken p n h = record h { array = update (update h.array p (minus n)) (p + n - 1) (minus n) }

pub abs-update : (a : ℕ → ℤ) (p : ℕ) (v : ℤ) (n : ℕ) → abs v ≡ n → abs (update a p v p) ≡ n
abs-update a p v n e = rw (==_self p) e

pub make_taken_lem :
    (h : Heap) (p n : ℕ) → 2 ≤ n → p + n ≤ h.len → make_taken h p n ≡ some (as_taken p n h)
unfolding make_taken
make_taken_lem h p n a b =
    let h₁ = record h { array = update h.array p (minus n) } in
    rw
      (
        store_lem h p (minus n) (omega arith),
        footer_lem h₁ p n a (omega arith) (abs-update h.array p (minus n) n (abs-minus n)),
      )
      (store_lem h₁ (p + n - 1) (minus n) (omega arith))

abbrev pub occupy : ℕ → Ghost → Ghost
occupy p g = record g { free = upd g.free p false }

pub end_unlisted : {g : Ghost} {h : Heap} {r p : ℕ} → Open g h r p → g.listed h.len ≡ false
end_unlisted {g} {h} o = elim (Bool-cases (g.listed h.len)) [
  | inl l ↦ let b = listed_block o h.len l in absurd (omega (arith, b.4))
  | inr e ↦ e
]

module _ {g : Ghost} {h : Heap} {r p : ℕ} (o : Open g h r p) (s : g.start p ≡ true) where
  pub occupy-Inv : p ≢ 0 → p ≢ h.len - 2 → Inv (occupy p g) (as_taken p (g.size p) h) r
  occupy-Inv a b = record {
    geo = record {
      first = ground (arith, o.geo.first);
      last = ground (arith, o.geo.last);
      large = o.geo.large;
      inner_large = o.geo.inner_large;
      fits = o.geo.fits;
      after = o.geo.after;
      within = o.geo.within;
      prior = o.geo.prior;
      free_start = λ i f. ground (arith, o.geo.free_start i);
    };
    mem = record {
      header = λ j t ne. ground (arith, o.mem.header j t, o.geo.within p j s, o.geo.large p s);
      footer = λ j t ne. ground (
        arith,
        o.mem.footer j t,
        o.geo.large p s,
        o.geo.large j t,
        apart o.geo p j s t,
        apart o.geo j p t s,
      );
    };
    links = record {
      next =
          λ j l. ground (arith, o.links.next j l, header_apart o p j s l, footer_apart o p j s l);
      prev =
          λ j l. ground (arith, o.links.prev j l, header_apart o p j s l, footer_apart o p j s l);
    };
    graph = record {
      nxt = o.graph.nxt;
      prv = o.graph.prv;
      head = o.graph.head;
      top = o.graph.top;
      bound = o.graph.bound;
      listed_zero = o.graph.listed_zero;
      listed_free = λ j l. ground (arith, o.graph.listed_free j l, o.unlisted);
    };
    all_listed = λ j f ne. ground (arith, o.all_listed j);
    unlisted = end_unlisted o;
  }

  pub split-Open :
      (m : ℕ)
      → p ≢ 0
      → p ≢ h.len - 2
      → 4 ≤ m
      → m + 4 ≤ g.size p
      → Open (split p m g) (as_taken p m h) r (p + m)
  split-Open m a b l u = record {
    geo = split-Geo o.geo p m s a b l u;
    mem = record {
      header = λ j t ne. ground (arith, o.mem.header j, o.geo.within p j s);
      footer = λ j t ne.
          ground (arith, o.mem.footer j, o.geo.large j, apart o.geo p j s, apart o.geo j p);
    };
    links = record {
      next = λ j k. ground (
        arith,
        o.links.next j k,
        header_apart o p j s k,
        listed_block o j k,
        apart o.geo p j s,
        apart o.geo j p,
      );
      prev = λ j k. ground (
        arith,
        o.links.prev j k,
        header_apart o p j s k,
        listed_block o j k,
        apart o.geo p j s,
        apart o.geo j p,
      );
    };
    graph = record {
      nxt = o.graph.nxt;
      prv = o.graph.prv;
      head = o.graph.head;
      top = o.graph.top;
      bound = o.graph.bound;
      listed_zero = o.graph.listed_zero;
      listed_free = λ j k. ground (
        arith,
        o.graph.listed_free j k,
        o.unlisted,
        o.geo.within p (p + m) s,
        o.geo.free_start j,
      );
    };
    all_listed = λ j f ne. ground (arith, o.all_listed j);
    unlisted = elim (Bool-cases (g.listed (p + m))) [
      | inl k ↦ absurd (
          cc (
            (listed_block o (p + m) k).0,
            o.geo.within p (p + m) s (omega (arith, l)) (omega (arith, u)),
          ))
      | inr e ↦ e
    ];
  }

-- ===== src/Kernel/Heap/Blocks.antt =====
-- Merging and splitting blocks.
use net_os.Base.{ℕ, ◌+◌, ◌-◌, ◌≤◌, ◌<◌, ◌≡◌, ◌≢◌, true, false, ◌==◌, arith, Bool-cases, inl, inr}
use net_os.Kernel.Heap.Ghost.{Ghost, Geo, upd, apart}

-- The blocks `a` and `b`, which follow each other, as one.
abbrev pub merge : ℕ → ℕ → Ghost → Ghost
merge a b g = record g {
  start = upd g.start b false;
  free = upd (upd g.free b false) a false;
  size = upd g.size a (g.size a + g.size b);
  before = upd g.before (b + g.size b) a;
}

-- The block `a` as a block of `m` ints and the rest.
abbrev pub split : ℕ → ℕ → Ghost → Ghost
split a m g = record g {
  start = upd g.start (a + m) true;
  free = upd (upd g.free (a + m) false) a false;
  size = upd (upd g.size a m) (a + m) (g.size a - m);
  before = upd (upd g.before (a + m) a) (a + g.size a) (a + m);
}

module _ {g : Ghost} {len : ℕ} (k : Geo g len) where
  merge-after :
      (a b : ℕ)
      → g.start a ≡ true
      → g.start b ≡ true
      → a + g.size a ≡ b
      → (i : ℕ) → (merge a b g).start i ≡ true
      → i + (merge a b g).size i < len
      → (merge a b g).start (i + (merge a b g).size i) ≡ true
  merge-after a b sa sb e i s l = elim (Bool-cases (i == a)) [
    | inl q ↦
        let end : i + (g.size a + g.size b) ≡ b + g.size b = ground (arith, q, e) in
        let past : (b + g.size b == b) ≡ false = ground (arith, k.large b sb) in
        let inside : b + g.size b < len = ground (arith, q, e, l) in
        rw (q, end, past) (k.after b sb inside)
    | inr q ↦
        ground
          (arith, q, k.after i, apart k a i sa, apart k i a, k.large i, k.large a sa, k.large b sb)
  ]

  pub merge-Geo :
      (a b : ℕ)
      → g.start a ≡ true
      → g.start b ≡ true
      → a + g.size a ≡ b
      → a ≢ 0
      → b ≢ len - 2
      → Geo (merge a b g) len
  merge-Geo a b sa sb e na nb = record {
    first = ground (arith, k.first);
    last = ground (arith, k.last, k.large a sa, k.large b sb, k.fits b sb, k.first);
    large = λ i s. ground (arith, k.large i, k.large a sa);
    inner_large = λ i s n m.
        ground (arith, k.inner_large i, k.inner_large b sb, k.large a sa, k.large b sb, k.first);
    fits = λ i s. ground (arith, k.fits i, k.fits b sb);
    after = λ i s l. merge-after a b sa sb e i s l;
    within = λ i j s l u. ground (arith, k.within i j, k.within a j sa, k.within b j sb);
    prior = λ i s n. ground (arith, k.prior i, k.large a sa, k.large b sb);
    free_start = λ i f. ground (arith, k.free_start i);
  }

  pub split-Geo :
      (a m : ℕ)
      → g.start a ≡ true
      → a ≢ 0
      → a ≢ len - 2
      → 4 ≤ m
      → m + 4 ≤ g.size a
      → Geo (split a m g) len
  split-Geo a m sa na la lm lr = record {
    first = ground (arith, k.first);
    last = ground (arith, k.last, k.within a (a + m) sa, k.fits a sa);
    large = λ i s. ground (arith, k.large i);
    inner_large = λ i s n o. ground (arith, k.inner_large i);
    fits = λ i s. ground (arith, k.fits i, k.fits a sa);
    after = λ i s l. ground (arith, k.after i, k.after a sa);
    within =
        λ i j s l u. ground (arith, k.within i j, k.within a j sa, k.within a i sa, apart k i a);
    prior = λ i s n. ground (arith, k.prior i, k.within a (a + m) sa);
    free_start = λ i f. ground (arith, k.free_start i);
  }

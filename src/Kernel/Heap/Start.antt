-- ===== src/Kernel/Heap/Start.antt =====
-- Heap::init of kernel/heap.cc.
use net_os.Base.{ℕ, ◌-◌, ◌≤◌, ◌≡◌, refl, true, ◌||◌, some, ◌==◌, leb, if◌then◌else◌, ℤ, arith}
use net_os.Kernel.Heap.{Heap, init}
use net_os.Kernel.Heap.Ghost.{Ghost, Whole}
use net_os.Kernel.Heap.Close.{as_taken, make_taken_lem}
use net_os.Kernel.Heap.Push.{as_avail, make_avail_lem}

-- One free block between the two at the ends.
abbrev pub first_ghost : ℕ → Ghost
first_ghost len = record {
  start = λ i. i == 0 || (i == 2 || i == len - 2);
  free = λ i. i == 2;
  listed = λ i. i == 2;
  size = λ i. if i == 2 then len - 4 else 2;
  before = λ i. if i == 2 then 0 else 2;
  nx = λ i. 0;
  pv = λ i. 0;
  rank = λ i. 0;
}

abbrev pub first_heap : (ℕ → ℤ) → ℕ → Heap
first_heap a len =
    as_taken (len - 2) 2
      (as_avail 2 (len - 4) (as_taken 0 2 (record { array = a; len = len; avail = 0 })))

module _ (a : ℕ → ℤ) (len : ℕ) (l : 8 ≤ len) where
  pub init_run : init a len ≡ some (first_heap a len)
  unfolding init
  init_run =
      let h₀ : Heap = record { array = a; len = len; avail = 0 } in
      let room : leb 4 len ≡ true = ground (arith, l) in
      rw
        (
          make_taken_lem h₀ 0 2 (omega arith) (omega (arith, l)),
          room,
          make_avail_lem (as_taken 0 2 h₀) 2 (len - 4) (omega (arith, l)) (omega (arith, l))
              (λ ne. absurd (ne refl)),
        )
        (make_taken_lem (as_avail 2 (len - 4) (as_taken 0 2 h₀)) (len - 2) 2 (omega arith)
          (omega (arith, l)))

  pub first-Whole : Whole (first_ghost len) (first_heap a len) 1
  first-Whole = (
    record {
      geo = record {
        first = ground (arith, l);
        last = ground (arith, l);
        large = λ i s. ground (arith, l);
        inner_large = λ i s n m. ground (arith, l, s, n, m);
        fits = λ i s. ground (arith, l, s);
        after = λ i s u. ground (arith, l, s, u);
        within = λ i j s u v. ground (arith, l, s, u, v);
        prior = λ i s n. ground (arith, l, s, n);
        free_start = λ i f. ground (arith, f);
      };
      mem = record {
        header = λ j t ne. ground (arith, l, t);
        footer = λ j t ne. ground (arith, l, t);
      };
      links = record { next = λ j k. ground (arith, l, k); prev = λ j k. ground (arith, l, k) };
      graph = record {
        nxt = λ j k ne. absurd (ne refl);
        prv = λ j k ne. absurd (ne refl);
        head = λ j k e. ground (arith, k);
        top = λ ne. ground arith;
        bound = λ j k. ground arith;
        listed_zero = ground arith;
        listed_free = λ j k. k;
      };
      all_listed = λ j f ne. f;
      unlisted = ground (arith, l);
    },
    λ i f. ground (arith, l, f),
  )

-- ===== src/Kernel/Queue/Linked.antt =====
-- The operations of kernel/queue.h on a chain of nodes.
use net_os.Base.{
  ℕ, ◌+◌, ◌-◌, ◌≤◌, ◌<◌, ◌≡◌, ◌≢◌, refl, sym, false, none, some, ◌==◌, ==_ne, if◌then◌else◌, arith,
  Bool-cases, inl, inr,
}
use net_os.Kernel.Queue.{Queue, write, add_tail, is_empty, remove_head}

-- The nodes are numbered from `lo` up to `hi`; node `k` is at `place k` and has `val k`.
pub record Linked (q : Queue) (place val : ℕ → ℕ) (lo hi : ℕ) : Type 0 where
  pub ordered : lo ≤ hi
  pub there : (k : ℕ) → lo ≤ k → k < hi → place k ≢ 0
  pub apart : (j k : ℕ) → lo ≤ j → j < hi → lo ≤ k → k < hi → place j ≡ place k → j ≡ k
  pub node :
      (k : ℕ)
      → lo ≤ k
      → k < hi
      → q.nodes (place k)
        ≡ some (record {
          next = if k + 1 == hi then 0 else place (k + 1);
          prev = if k == lo then 0 else place (k - 1);
          value = val k;
        })
  pub first_is : q.first ≡ (if lo == hi then 0 else place lo)
  pub last_is : q.last ≡ (if lo == hi then 0 else place (hi - 1))

abbrev pub upd : (ℕ → ℕ) → ℕ → ℕ → ℕ → ℕ
upd f i v j = if j == i then v else f j

module _ {q : Queue} {place val : ℕ → ℕ} {lo hi : ℕ} (h : Linked q place val lo hi) where
  pub is_empty-Linked : is_empty q ≡ (lo == hi)
  unfolding is_empty
  is_empty-Linked = ground (arith, h.first_is, h.there lo, h.ordered)

  -- A new node is none of the chain.
  fresh : (n : ℕ) → q.nodes n ≡ none → (k : ℕ) → lo ≤ k → k < hi → place k ≢ n
  fresh n e k a b same = ground (arith, h.node k a b, rw (sym same) at e)

  pub add_tail-Linked :
      (n v : ℕ)
      → n ≢ 0
      → q.nodes n ≡ none
      → (q' : Queue) × (add_tail n v q ≡ some q')
        × Linked q' (upd place hi n) (upd val hi v) lo (hi + 1)
  unfolding add_tail
  add_tail-Linked n v ne e = elim (Bool-cases (lo == hi)) [
    | inl z ↦
        let no_last : q.last ≡ 0 = ground (arith, z, h.last_is) in
        let no_first : q.first ≡ 0 = ground (arith, z, h.first_is) in
        (
          record {
            nodes = write q.nodes n (some (record { value = v; prev = 0; next = 0 }));
            first = n;
            last = n;
          },
          rw (no_last, no_first) refl,
          record {
            ordered = omega (arith, h.ordered);
            there = λ k a b. ground (arith, z, ne);
            apart = λ j k a b c d s. ground (arith, z);
            node = λ k a b. ground (arith, z, a, b, h.ordered);
            first_is = ground (arith, z);
            last_is = ground (arith, z);
          },
        )
    | inr s ↦
        let room : lo ≤ hi - 1 = ground (arith, s, h.ordered) in
        let under : hi - 1 < hi = ground (arith, s, h.ordered) in
        let at_last : q.last ≡ place (hi - 1) = rw s at h.last_is in
        let at_first : q.first ≡ place lo = rw s at h.first_is in
        let other : (place (hi - 1) == n) ≡ false =
          ==_ne (place (hi - 1)) n (fresh n e (hi - 1) room under) in
        let last_there : (place (hi - 1) == 0) ≡ false =
          ==_ne (place (hi - 1)) 0 (h.there (hi - 1) room under) in
        let first_there : (place lo == 0) ≡ false =
          ==_ne (place lo) 0 (h.there lo (omega arith) (omega (arith, room, under))) in
        let made = write q.nodes n (some (record { value = v; prev = place (hi - 1); next = 0 })) in
        (
          record {
            nodes = write made (place (hi - 1)) (
                some (record {
                  next = n;
                  prev = if hi - 1 == lo then 0 else place (hi - 1 - 1);
                  value = val (hi - 1);
                }));
            first = place lo;
            last = n;
          },
          rw (at_last, at_first, last_there, other, h.node (hi - 1) room under, first_there) refl,
          record {
            ordered = omega (arith, h.ordered);
            there = λ k a b. ground (arith, ne, h.there k a);
            apart = λ j k a b c d m. ground (arith, m, h.apart j k a, fresh n e k c, fresh n e j a);
            node = λ k a b. ground (
              arith,
              a,
              b,
              s,
              other,
              fresh n e k a,
              h.node k a,
              h.apart k (hi - 1) a,
              room,
              under,
            );
            first_is = ground (arith, s, h.ordered);
            last_is = ground (arith, s, h.ordered);
          },
        )
  ]

  pub remove_head-Linked :
      lo < hi → (q' : Queue) × (remove_head q ≡ some (val lo, q')) × Linked q' place val (lo + 1) hi
  unfolding remove_head
  remove_head-Linked l =
      let some_left : (lo == hi) ≡ false = ground (arith, l) in
      let at_first : q.first ≡ place lo = rw some_left at h.first_is in
      let first_there : (place lo == 0) ≡ false = ==_ne (place lo) 0 (h.there lo (omega arith) l) in
      elim (Bool-cases (lo + 1 == hi)) [
        | inl z ↦ (
          record { nodes = write q.nodes (place lo) none; first = 0; last = 0 },
          rw (at_first, first_there, h.node lo (omega arith) l, z) refl,
          record {
            ordered = omega (arith, l);
            there = λ k a b. ground (arith, z, a, b);
            apart = λ j k a b c d m. ground (arith, z, a, b, c, d);
            node = λ k a b. absurd (ground (arith, z, a, b));
            first_is = ground (arith, z);
            last_is = ground (arith, z);
          },
        )
        | inr s ↦
            let more : lo + 1 < hi = ground (arith, s, l) in
            let next_there : (place (lo + 1) == 0) ≡ false =
              ==_ne (place (lo + 1)) 0 (h.there (lo + 1) (omega arith) more) in
            (
              record {
                nodes =
                    write
                      (write q.nodes (place (lo + 1)) (
                        some (record {
                          next = if lo + 1 + 1 == hi then 0 else place (lo + 1 + 1);
                          prev = 0;
                          value = val (lo + 1);
                        })))
                      (place lo) none;
                first = place (lo + 1);
                last = q.last;
              },
              rw
                  (
                    at_first,
                    first_there,
                    h.node lo (omega arith) l,
                    s,
                    next_there,
                    h.node (lo + 1) (omega arith) more,
                  )
                  refl,
              record {
                ordered = omega (arith, l);
                there = λ k a b. h.there k (omega (arith, a)) b;
                apart = λ j k a b c d m. h.apart j k (omega (arith, a)) b (omega (arith, c)) d m;
                node = λ k a b.
                    ground (arith, a, b, s, l, h.node k, h.apart k lo, h.apart k (lo + 1), more);
                first_is = ground (arith, s);
                last_is = ground (arith, s, h.last_is, some_left);
              },
            )
      ]

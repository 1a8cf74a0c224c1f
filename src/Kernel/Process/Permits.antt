-- ===== src/Kernel/Process/Permits.antt =====
-- dispatch, and the calls of up and down that do not block: they end without a panic and keep the
-- invariant.
use net_os.Base.{
  ℕ, suc, ◌+◌, ◌<◌, ◌^◌, ltb_of_lt, Bool, true, false, some, List, [], ◌∷◌, ◌++◌, ◌==◌,
  if◌then◌else◌, get_elem?, set, ◌≡◌, ◌∙◌, ap, refl, arith, ==_self, ==_ne, inl, inr,
}
use net_os.Kernel.Process.{
  Kernel, State, ready, running, blocked, terminated, Semaphore, update, dispatch, down, up,
}
use net_os.Kernel.Process.Interrupts.{disable_lem, enable_lem, make_ready_lem, enables_lem}
use net_os.Kernel.Process.Inv.{Inv, count, is_blocked, count-append, waits-set, get_elem?-set}

same_or_true : (b : Bool) → (if b then b else true) ≡ true
same_or_true true = refl
same_or_true false = refl

-- The kernel after `dispatch`, where `saved` holds what each process has still to enable.
module _ (k : Kernel) (depth me next : ℕ) where
  pub dispatch_lem :
      let saved : ℕ → ℕ = update k.pending me depth in
      k.disable_count next ≡ saved next
      → (count : ℕ → ℕ) × (dispatch depth (some me) next k
          ≡ some (record k {
            state = update k.state next running;
            pending = update saved next 0;
            current = some next;
            interrupts = true;
            disable_count = count;
          }))
        × ((p : ℕ) → count p ≡ (if p == next then 0 else k.disable_count p))
  unfolding dispatch
  dispatch_lem e =
      let saved : ℕ → ℕ = update k.pending me depth in
      let k₁ = record k {
        state = update k.state next running;
        pending = update saved next 0;
        current = some next;
        interrupts = k.disable_count next == 0;
      } in
      let (count, runs, zeroed) = enables_lem (saved next) k₁ refl e in
      let on : (if saved next == 0 then k.disable_count next == 0 else true) ≡ true =
        rw e (same_or_true (saved next == 0)) in
      (
        count,
        runs ∙ ap (λ b. some (record k₁ { disable_count = count; interrupts = b })) on,
        zeroed,
      )

pub is_blocked-pos : (s : State) → 0 < is_blocked s → s ≡ blocked
is_blocked-pos blocked h = refl
is_blocked-pos ready h = absurd (omega arith)
is_blocked-pos running h = absurd (omega arith)
is_blocked-pos terminated h = absurd (omega arith)

abbrev pub sem : ℕ → List ℕ → Semaphore
sem c w = record { count = c; waiting = w }

module _ (k : Kernel) (me : ℕ) (inv : Inv k me) where
  pub quiet : k.disable_count me < 7
  quiet = omega (arith, inv.counted me, inv.few me)

  -- The counts and the interrupts once `me` has disabled and enabled again.
  abbrev pub back : ℕ → ℕ
  back = update (update k.disable_count me (suc (k.disable_count me))) me (k.disable_count me)

  abbrev pub on : Bool
  on = if k.disable_count me == 0 then true else false

  abbrev pub masked : Kernel
  masked = record k {
    interrupts = false;
    disable_count = update k.disable_count me (suc (k.disable_count me));
  }

  module _ (i c : ℕ) (found : get_elem? k.sems i ≡ some (sem c [])) where
    abbrev pub released : Kernel
    released = record k {
      sems = set k.sems i (sem (c + 1) []);
      disable_count = back;
      interrupts = on;
    }

    pub up_free : c + 1 < 2 ^ 31 → up i k ≡ some released
    unfolding up
    up_free small =
        let off = disable_lem k inv.at quiet in
        rw (off, found, off, ltb_of_lt (c + 1) (2 ^ 31) small)
          (enable_lem (record masked { sems = set k.sems i (sem (c + 1) []) }) inv.at
            (k.disable_count me) (rw (==_self me)))

    pub released-Inv : Inv released me
    released-Inv = record {
      at = inv.at;
      runs = inv.runs;
      alone = inv.alone;
      queued = inv.queued;
      waiting = λ p. omega (arith, inv.waiting p, waits-set p i k.sems _ (sem (c + 1) []) found);
      idle_up = inv.idle_up;
      counted = λ p. ground (arith, inv.counted p);
      open_now = inv.open_now;
      few = inv.few;
      drained = λ j u e. elim (get_elem?-set i j k.sems _ _ u found e) [
        | inl new ↦ ground arith
        | inr old ↦ inv.drained j u old
      ];
    }

  module _ (i c : ℕ) (found : get_elem? k.sems i ≡ some (sem (suc c) [])) where
    abbrev pub taken : Kernel
    taken = record k { sems = set k.sems i (sem c []); disable_count = back; interrupts = on }

    pub down_free : down i k ≡ some taken
    unfolding down
    down_free =
        let off = disable_lem k inv.at quiet in
        rw (off, found, off)
          (enable_lem (record masked { sems = set k.sems i (sem c []) }) inv.at (k.disable_count me)
            (rw (==_self me)))

    pub taken-Inv : Inv taken me
    taken-Inv = record {
      at = inv.at;
      runs = inv.runs;
      alone = inv.alone;
      queued = inv.queued;
      waiting = λ p. omega (arith, inv.waiting p, waits-set p i k.sems _ (sem c []) found);
      idle_up = inv.idle_up;
      counted = λ p. ground (arith, inv.counted p);
      open_now = inv.open_now;
      few = inv.few;
      drained = λ j u e. elim (get_elem?-set i j k.sems _ _ u found e) [
        | inl new ↦ ground arith
        | inr old ↦ inv.drained j u old
      ];
    }

  module _ (i c p : ℕ) (rest : List ℕ) (found : get_elem? k.sems i ≡ some (sem c (p ∷ rest))) where
    abbrev pub woken : Kernel
    woken = record k {
      state = update k.state p ready;
      ready_queue = if p == k.idle then k.ready_queue else k.ready_queue ++ p ∷ [];
      sems = set k.sems i (sem c rest);
      disable_count =
          update
            (update
              (update (update k.disable_count me (suc (k.disable_count me))) me
                (suc (suc (k.disable_count me))))
              me (suc (k.disable_count me)))
            me (k.disable_count me);
      interrupts = on;
    }

    pub up_waking : up i k ≡ some woken
    unfolding up
    up_waking =
        let off = disable_lem k inv.at quiet in
        let k₁ = record masked { sems = set k.sems i (sem c rest) } in
        let ready_now = make_ready_lem k₁ inv.at p (ground (arith, inv.counted me, inv.few me)) in
        let n = k.disable_count me in
        let up_one : update k.disable_count me (suc n) me ≡ suc n = rw (==_self me) in
        let not_last : (suc n == 0) ≡ false = ==_ne (suc n) 0 (omega arith) in
        rw (off, found, off, ready_now)
          (rw (up_one, not_last)
            (enable_lem
              (record woken {
                disable_count = update (update masked.disable_count me (suc (suc n))) me (suc n);
                interrupts = false;
              })
              inv.at n (rw (==_self me))))

    pub was_blocked : k.state p ≡ blocked
    was_blocked =
        is_blocked-pos (k.state p)
          (ground (arith, inv.waiting p, waits-set p i k.sems _ (sem 0 []) found))

    pub woken-Inv : Inv woken me
    woken-Inv = record {
      at = inv.at;
      runs = ground (arith, was_blocked, inv.runs);
      alone = λ q h. ground (arith, inv.alone q);
      queued = λ q.
          ground
            (arith, was_blocked, inv.idle_up, inv.queued q, count-append q k.ready_queue (p ∷ []));
      waiting = λ q.
          ground (arith, was_blocked, inv.waiting q, waits-set q i k.sems _ (sem c rest) found);
      idle_up = ground (arith, inv.idle_up);
      counted = λ q. ground (arith, inv.counted q);
      open_now = inv.open_now;
      few = inv.few;
      drained = λ j u e. elim (get_elem?-set i j k.sems _ _ u found e) [
        | inl new ↦ ground (arith, inv.drained i _ found)
        | inr old ↦ inv.drained j u old
      ];
    }

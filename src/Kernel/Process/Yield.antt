-- ===== src/Kernel/Process/Yield.antt =====
-- A switch to another process: yield and the call of down that blocks.
use net_os.Base.{
  ℕ, suc, ◌≤◌, ◌<◌, false, Option, none, some, List, [], ◌∷◌, ◌++◌, ◌==◌, if◌then◌else◌, get_elem?,
  set, ◌≡◌, ◌∙◌, ap, ◌≢◌, refl, arith, ==_self, ==_ne, inl, inr, ◌⊎◌,
}
use net_os.Kernel.Process.{
  Kernel, State, ready, running, blocked, terminated, Semaphore, update, disable, dispatch, yield,
  down, enqueue, choose,
}
use net_os.Kernel.Process.Interrupts.{disable_lem, make_ready_lem}
use net_os.Kernel.Process.Inv.{
  Inv, count, waits, is_ready, is_blocked, Drained, count-append, waits-set, get_elem?-set,
}
use net_os.Kernel.Process.Permits.{dispatch_lem, quiet, masked, sem}

-- The first process of the ready queue, or the idle process.
abbrev Chosen : Kernel → ℕ → List ℕ → Type 0
Chosen k next rest =
    (k.ready_queue ≡ next ∷ rest) ⊎ ((k.ready_queue ≡ []) × (rest ≡ []) × (next ≡ k.idle))

choose_of_queue :
    (q : List ℕ) (k : Kernel)
    → k.ready_queue ≡ q
    → (next : ℕ) × (rest : List ℕ) × (choose k ≡ (next, record k { ready_queue = rest }))
      × Chosen k next rest
unfolding choose
choose_of_queue [] k e = (k.idle, [], rw e refl, inr (e, refl, refl))
choose_of_queue (p ∷ rest) k e = (p, rest, rw e, inl e)

-- The parts of yield, put together.
yield_run :
    (depth : ℕ) (q : Option ℕ) (k k₁ k₂ k₃ k' : Kernel) (me next : ℕ)
    → disable k ≡ k₁
    → k₁.current ≡ some me
    → enqueue q me k₁ ≡ some k₂
    → choose k₂ ≡ (next, k₃)
    → dispatch depth (some me) next k₃ ≡ some k'
    → yield depth q k ≡ some k'
unfolding yield
yield_run depth q k k₁ k₂ k₃ k' me next off at queued picked runs =
    rw (off, at, off, queued, picked) runs

-- The parts of a call of down that blocks.
down_run :
    (i : ℕ) (k k₁ k' : Kernel) (me : ℕ) (w : List ℕ)
    → disable k ≡ k₁
    → get_elem? k₁.sems i ≡ some (sem 0 w)
    → k₁.current ≡ some me
    → yield 2 (some i) k₁ ≡ some k'
    → down i k ≡ some k'
unfolding down
down_run i k k₁ k' me w off found at runs =
    let at' : (disable k).current ≡ some me = rw off at in
    let blocks : (elim (disable k).current as (λ _. Option Kernel) [
      | none ↦ none
      | some _ ↦ yield 2 (some i) (disable k)
    ])
        ≡ some k' =
      rw (at', off) runs in
    rw (off, found) blocks

-- The kernel between the end of one process's turn and the start of the next one's: nothing runs,
-- and `me` has `depth` calls of enable to make.
record Between (k : Kernel) (me depth : ℕ) : Type 0 where
  stopped : (p : ℕ) → k.state p ≢ running
  queued : (p : ℕ) → count p k.ready_queue ≡ (if p == k.idle then 0 else is_ready (k.state p))
  waiting : (p : ℕ) → waits p k.sems ≡ is_blocked (k.state p)
  idle_up : k.state k.idle ≡ ready
  counted : (p : ℕ) → k.disable_count p ≡ update k.pending me depth p
  few : (p : ℕ) → update k.pending me depth p ≤ 2
  drained : (i : ℕ) (s : Semaphore) → get_elem? k.sems i ≡ some s → Drained s

is_ready-pos : (s : State) → 0 < is_ready s → s ≡ ready
is_ready-pos ready h = refl
is_ready-pos blocked h = absurd (omega arith)
is_ready-pos running h = absurd (omega arith)
is_ready-pos terminated h = absurd (omega arith)

module _ (k : Kernel) (me depth : ℕ) (b : Between k me depth) where
  next_ready : (next : ℕ) (rest : List ℕ) → Chosen k next rest → k.state next ≡ ready
  next_ready next rest (inl e) =
      is_ready-pos (k.state next) (ground (arith, b.queued next, ap (count next) e))
  next_ready next rest (inr e) = rw e.2 b.idle_up

  next_count :
      (next : ℕ) (rest : List ℕ)
      → Chosen k next rest
      → (p : ℕ)
      → count p rest ≡ (if p == k.idle then 0 else is_ready (update k.state next running p))
  next_count next rest (inl e) p =
      ground (arith, b.queued p, ap (count p) e, next_ready next rest (inl e))
  next_count next rest (inr e) p = rw (e.1) (ground (arith, b.queued p, ap (count p) e.0, e.2))

  -- Where dispatch leads.
  switch-Inv :
      (next : ℕ) (rest : List ℕ)
      → Chosen k next rest
      → (k' : Kernel) × (dispatch depth (some me) next (record k { ready_queue = rest }) ≡ some k')
        × Inv k' next
        × (k'.sems ≡ k.sems)
  switch-Inv next rest ch =
      let k₁ = record k { ready_queue = rest } in
      let (counts, runs, zeroed) = dispatch_lem k₁ depth me next (b.counted next) in
      let was = next_ready next rest ch in
      (
        _,
        runs,
        record {
          at = refl;
          runs = rw (==_self next);
          alone = λ p h. ground (arith, b.stopped p);
          queued = next_count next rest ch;
          waiting = λ p. ground (arith, b.waiting p, was);
          idle_up = ground (arith, b.idle_up);
          counted = λ p. ground (arith, zeroed p, b.counted p);
          open_now = rw (==_self next);
          few = λ p. ground (arith, b.few p);
          drained = b.drained;
        },
        refl,
      )

module _ (k : Kernel) (me : ℕ) (inv : Inv k me) where
  abbrev queued_up : Kernel
  queued_up = record k {
    state = update k.state me ready;
    ready_queue = if me == k.idle then k.ready_queue else k.ready_queue ++ me ∷ [];
    disable_count =
        update
          (update (update k.disable_count me (suc (k.disable_count me))) me
            (suc (suc (k.disable_count me))))
          me (suc (k.disable_count me));
    interrupts = false;
  }

  queued_up-Between : Between queued_up me 1
  queued_up-Between = record {
    stopped = λ p. ground (arith, inv.alone p);
    queued = λ p. ground (arith, inv.runs, inv.queued p, count-append p k.ready_queue (me ∷ []));
    waiting = λ p. ground (arith, inv.waiting p, inv.runs);
    idle_up = ground (arith, inv.idle_up, inv.alone k.idle);
    counted = λ p. ground (arith, inv.counted p, inv.open_now);
    few = λ p. ground (arith, inv.few p);
    drained = inv.drained;
  }

  -- yield() with the caller on the ready queue: no panic, and the invariant holds for whoever runs.
  pub yield-Inv :
      (k' : Kernel) × (me' : ℕ) × (yield 1 none k ≡ some k') × Inv k' me' × (k'.sems ≡ k.sems)
  unfolding enqueue
  yield-Inv =
      let n = k.disable_count me in
      let up_one : update k.disable_count me (suc n) me ≡ suc n = rw (==_self me) in
      let not_last : (suc n == 0) ≡ false = ==_ne (suc n) 0 (omega arith) in
      let (next, rest, picked, ch) = choose_of_queue _ queued_up refl in
      let (k', runs, inv', kept) = switch-Inv queued_up me 1 queued_up-Between next rest ch in
      (
        k',
        next,
        yield_run 1 none k _ queued_up _ k' me next (disable_lem k inv.at (quiet k me inv)) inv.at
            (make_ready_lem (masked k me inv) inv.at me (ground (arith, inv.counted me, inv.few me))
              ∙ rw (up_one, not_last) refl)
            picked runs,
        inv',
        kept,
      )

  module _ (i : ℕ) (w : List ℕ) (found : get_elem? k.sems i ≡ some (sem 0 w))
      (flat : k.i_depth me ≡ 0) (real : me ≢ k.idle) where
    abbrev asleep : Kernel
    asleep = record k {
      state = update k.state me blocked;
      sems = set k.sems i (sem 0 (w ++ me ∷ []));
      disable_count =
          update (update k.disable_count me (suc (k.disable_count me))) me
            (suc (suc (k.disable_count me)));
      interrupts = false;
    }

    asleep-Between : Between asleep me 2
    asleep-Between = record {
      stopped = λ p. ground (arith, inv.alone p);
      queued = λ p. ground (arith, inv.runs, inv.queued p);
      waiting = λ p. ground (
        arith,
        inv.waiting p,
        inv.runs,
        count-append p w (me ∷ []),
        waits-set p i k.sems _ (sem 0 (w ++ me ∷ [])) found,
      );
      idle_up = ground (arith, inv.idle_up, inv.alone k.idle);
      counted = λ p. ground (arith, inv.counted p, inv.open_now);
      few = λ p. ground (arith, inv.few p);
      drained = λ j u e. elim (get_elem?-set i j k.sems _ _ u found e) [
        | inl new ↦ ground arith
        | inr old ↦ inv.drained j u old
      ];
    }

    -- down on a semaphore without permits, by a process that is not the idle process and not in an
    -- interrupt: it goes to the end of the semaphore's queue, and another process runs.
    pub down_blocking-Inv :
        (k' : Kernel) × (me' : ℕ) × (down i k ≡ some k')
        × Inv k' me'
        × (k'.sems ≡ set k.sems i (sem 0 (w ++ me ∷ [])))
    unfolding enqueue
    down_blocking-Inv =
        let n = k.disable_count me in
        let off = disable_lem k inv.at (quiet k me inv) in
        let up_one : update k.disable_count me (suc n) me ≡ suc n = rw (==_self me) in
        let off₂ =
          disable_lem (masked k me inv) inv.at (ground (arith, inv.counted me, inv.few me)) in
        let (next, rest, picked, ch) = choose_of_queue _ asleep refl in
        let (k', runs, inv', kept) = switch-Inv asleep me 2 asleep-Between next rest ch in
        let twice = record k {
          interrupts = false;
          disable_count = update (update k.disable_count me (suc n)) me (suc (suc n));
        } in
        let switched : yield 2 (some i) (masked k me inv) ≡ some k' =
          yield_run 2 (some i) (masked k me inv) twice asleep _ k' me next (off₂ ∙ rw up_one refl)
            inv.at (rw (flat, found) refl) picked runs in
        (k', next, down_run i k (masked k me inv) k' me w off found inv.at switched, inv', kept)

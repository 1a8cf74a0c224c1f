-- ===== src/Kernel/Timers/Wakes.antt =====
-- Runs of sleepUntil and the tick of kernel/process.cc.
use net_os.Base.{
  ℕ, ◌^◌, ◌≤◌, ◌<◌, ◌≡◌, refl, sym, ◌∙◌, List, [], ◌∷◌, ◌++◌, ◌==◌, eq_of_==, ltb, if◌then◌else◌,
  add32, add32_exact, arith, Bool-cases, inl, inr,
}
use net_os.Kernel.Timers.{Timer, Clock, insert, target_of, sleep_until, tick, pit_handler}
use net_os.Kernel.Timers.Sorted.{
  Rises, none_left, later, waits_for, waits_for_past, insert-Rises, waits_for-insert,
}

-- `sleeps millis me`: the process `me` calls sleepUntil(millis); `ticks`: an interrupt of the timer.
pub data Event : Type 0 where
  sleeps : ℕ → ℕ → Event
  ticks : Event

-- The processes that each tick of a run makes ready.
unfoldable pub run : ℕ → List Event → Clock → List (List ℕ)
run hz [] c = []
run hz (sleeps millis me ∷ es) c = run hz es (sleep_until hz millis me c)
run hz (ticks ∷ es) c = let (woken, c') = pit_handler c in woken ∷ run hz es c'

-- The processes among the sleepers, pairs of a target and a process, that have the target, and the others.
pub due : ℕ → List (ℕ × ℕ) → List ℕ
due now [] = []
due now ((target, me) ∷ s) = let rest = due now s in if target == now then me ∷ rest else rest

pub asleep : ℕ → List (ℕ × ℕ) → List (ℕ × ℕ)
asleep now [] = []
asleep now ((target, me) ∷ s) =
    let rest = asleep now s in if target == now then rest else (target, me) ∷ rest

-- The same of a list of the sleepers: a process whose target lies ahead goes to its end, and a tick wakes
-- those whose target has come.
pub wake_at : ℕ → List Event → ℕ → List (ℕ × ℕ) → List (List ℕ)
wake_at hz [] now s = []
wake_at hz (sleeps millis me ∷ es) now s =
    let target = target_of hz millis in
    let waits = wake_at hz es now (s ++ (target, me) ∷ []) in
    let returns = wake_at hz es now s in if ltb now target then waits else returns
wake_at hz (ticks ∷ es) now s =
    let now = add32 now 1 in due now s ∷ wake_at hz es now (asleep now s)

due_last :
    (now target me : ℕ) (s : List (ℕ × ℕ))
    → due now (s ++ (target, me) ∷ []) ≡ (if target == now then due now s ++ me ∷ [] else due now s)
unfolding due
due_last now target me [] = refl
due_last now target me ((u, you) ∷ s) = elim (Bool-cases (u == now)) [
  | inl e ↦ elim (Bool-cases (target == now)) [
    | inl f ↦ rw (e, due_last now target me s, f) refl
    | inr f ↦ rw (e, due_last now target me s, f) refl
  ]
  | inr e ↦ rw (e, due_last now target me s) refl
]

due-asleep :
    (now u : ℕ) (s : List (ℕ × ℕ)) → due u (asleep now s) ≡ (if u == now then [] else due u s)
unfolding due asleep
due-asleep now u [] = ground arith
due-asleep now u ((target, me) ∷ s) = elim (Bool-cases (target == now)) [
  | inl e ↦ rw (e, due-asleep now u s) (ground (arith, e))
  | inr e ↦ rw (e, due-asleep now u s) (ground (arith, e))
]

-- The timers hold the sleepers.
pub record Holds (now : ℕ) (timers : List Timer) (s : List (ℕ × ℕ)) : Type 0 where
  pub rises : Rises now timers
  pub same : (u : ℕ) → waits_for u timers ≡ due u s

insert-Holds :
    {now : ℕ} {ts : List Timer} {s : List (ℕ × ℕ)}
    → Holds now ts s
    → (target me : ℕ) → now < target
    → target < 2 ^ 32
    → Holds now (insert target me ts) (s ++ (target, me) ∷ [])
insert-Holds {s = s} h target me a b = record {
  rises = insert-Rises h.rises target me a b;
  same = λ u. waits_for-insert h.rises target me u ∙ rw (h.same u) (sym (due_last u target me s));
}

-- What a tick at `now` makes of the timers.
abbrev Wakes : ℕ → List Timer → List (ℕ × ℕ) → Type 0
Wakes now ts s =
    (woken : List ℕ) × (ts' : List Timer) × (tick (record { jiffies = now; timers = ts })
      ≡ (woken, record { jiffies = now; timers = ts' }))
    × (woken ≡ due now s)
    × Holds now ts' (asleep now s)

-- A tick at `now`, after which `now` has come.
tick_later :
    (now : ℕ) (t : Timer) (ts : List Timer) (s : List (ℕ × ℕ))
    → now ≤ t.target
    → t.target < 2 ^ 32
    → Rises t.target ts
    → ((u : ℕ) → waits_for u (t ∷ ts) ≡ due u s)
    → Wakes now (t ∷ ts) s
unfolding tick waits_for
tick_later now t ts s a b r same = elim (Bool-cases (now == t.target)) [
  | inl e ↦
      let at : now ≡ t.target = eq_of_== now t.target e in
      (
        t.waiting,
        ts,
        rw e refl,
        ground (arith, at, same now),
        record {
          rises = rw at r;
          same = λ u. rw (due-asleep now u s) (ground (arith, at, same u, waits_for_past r u));
        },
      )
  | inr e ↦
      let past : now < t.target = ground (arith, a, e) in
      let none_due : waits_for now (t ∷ ts) ≡ [] =
        waits_for_past (later past b r) now (omega arith) in
      (
        [],
        t ∷ ts,
        rw e refl,
        sym none_due ∙ same now,
        record {
          rises = later past b r;
          same = λ u. rw (due-asleep now u s) (ground (arith, same u, none_due));
        },
      )
]

tick-Holds :
    {now : ℕ} {ts : List Timer}
    → Rises now ts
    → (s : List (ℕ × ℕ)) → ((u : ℕ) → waits_for u ts ≡ due u s)
    → Wakes (add32 now 1) ts s
unfolding tick waits_for
tick-Holds {now} none_left s same = (
  [],
  [],
  refl,
  same (add32 now 1),
  record {
    rises = none_left;
    same = λ u. rw (due-asleep (add32 now 1) u s) (ground (arith, same u));
  },
)
tick-Holds {now} (later {t = t} {ts = ts} a b r) s same =
    let exact = add32_exact now 1 (omega (arith, a, b)) in
    tick_later (add32 now 1) t ts s (omega (arith, a, exact)) b r same

tick_run :
    (hz now : ℕ) (ts : List Timer) (s : List (ℕ × ℕ)) (es : List Event)
    → (w : Wakes (add32 now 1) ts s)
    → run hz es (record { jiffies = add32 now 1; timers = w.1 })
      ≡ wake_at hz es (add32 now 1) (asleep (add32 now 1) s)
    → run hz (ticks ∷ es) (record { jiffies = now; timers = ts }) ≡ wake_at hz (ticks ∷ es) now s
unfolding run wake_at pit_handler
tick_run hz now ts s es w rest = rw (w.2, w.3, rest) refl

-- The timers refine a list of the sleepers in the order in which they went to sleep: from timers that hold
-- the sleepers, in every run of sleepUntil and interrupts of the timer, with the counter of the ticks
-- wrapping around and all, each tick makes ready the processes whose target has come, no sooner and no
-- later, in the order of their calls.
pub run-wake_at :
    (hz : ℕ) (es : List Event) (now : ℕ) (ts : List Timer) (s : List (ℕ × ℕ))
    → Holds now ts s
    → run hz es (record { jiffies = now; timers = ts }) ≡ wake_at hz es now s
unfolding run wake_at sleep_until
run-wake_at hz [] now ts s h = refl
run-wake_at hz (sleeps millis me ∷ es) now ts s h =
    elim (Bool-cases (ltb now (target_of hz millis))) [
      | inl l ↦
          let next = insert-Holds h (target_of hz millis) me (ground (arith, l)) (omega arith) in
          rw l (
            run-wake_at hz es now (insert (target_of hz millis) me ts)
              (s ++ (target_of hz millis, me) ∷ []) next)
      | inr l ↦ rw l (run-wake_at hz es now ts s h)
    ]
run-wake_at hz (ticks ∷ es) now ts s h =
    let w = tick-Holds h.rises s h.same in
    tick_run hz now ts s es w (run-wake_at hz es (add32 now 1) w.1 (asleep (add32 now 1) s) w.4)

-- With no timer set nobody sleeps.
pub none-Holds : (now : ℕ) → Holds now [] []
unfolding waits_for due
none-Holds now = record { rises = none_left; same = λ u. refl }

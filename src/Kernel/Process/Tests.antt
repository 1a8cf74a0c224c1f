-- ===== src/Kernel/Process/Tests.antt =====
-- A kernel with an idle process 0, the current process 1, a ready process 2 and a process 3 that
-- waits, and the theorems at it.
use net_os.Base.{
  ℕ, ◌+◌, ◌≤◌, ◌≡◌, ◌≢◌, refl, true, some, List, [], ◌∷◌, ◌==◌, if◌then◌else◌, get_elem?, arith,
  length, inl,
}
use net_os.Kernel.Process.{Kernel, State, ready, running, blocked, terminated, Semaphore}
use net_os.Kernel.Process.Inv.{Inv, Drained}
use net_os.Kernel.Process.Permits.{sem}
use net_os.Kernel.Process.Calls.{
  Call, downs, run, LegalRun, MayBlock, AllBalanced, total, down_count, up_count, run-Inv,
  run_mutex,
}

abbrev state_of : ℕ → State
state_of p =
    if p == 1
    then running
    else if p == 3
    then blocked
    else if p == 0
    then ready
    else if p == 2
    then ready
    else terminated

abbrev start : Kernel
start = record {
  state = state_of;
  disable_count = λ p. if p == 3 then 2 else 0;
  i_depth = λ _. 0;
  pending = λ p. if p == 3 then 2 else 0;
  current = some 1;
  idle = 0;
  ready_queue = 2 ∷ [];
  sems = sem 1 [] ∷ sem 0 (3 ∷ []) ∷ [];
  interrupts = true;
}

start-Drained : (i : ℕ) (s : Semaphore) → get_elem? start.sems i ≡ some s → Drained s
start-Drained i s e = ground arith

start-Inv : Inv start 1
start-Inv = record {
  at = refl;
  runs = refl;
  alone = λ p h. ground arith;
  queued = λ p. ground arith;
  waiting = λ p. ground arith;
  idle_up = inl refl;
  counted = λ p. refl;
  open_now = refl;
  few = λ p. ground arith;
  drained = start-Drained;
}

start-MayBlock : MayBlock start
start-MayBlock = record { flat = λ p h. refl; real = λ h. ground arith }

-- The lock is taken; what comes then may be anything legal.
abbrev lock : List Call
lock = downs 0 ∷ []

lock-LegalRun : LegalRun lock start
lock-LegalRun = ((sem 1 [], refl, start-MayBlock), λ k' h. tt)

run-Inv_example :
    (k' : Kernel) × (me' : ℕ) × (run lock start ≡ some k')
    × Inv k' me'
    × AllBalanced (λ j. total (down_count j) lock) (λ j. total (up_count j) lock) start.sems k'.sems
run-Inv_example = run-Inv lock start 1 start-Inv lock-LegalRun

run_mutex_example :
    (k' : Kernel) × (t : Semaphore) × (run lock start ≡ some k')
    × (get_elem? k'.sems 0 ≡ some t)
    × (total (down_count 0) lock ≤ total (up_count 0) lock + 1 + length t.waiting)
    × ((t.waiting ≢ [])
        → total (down_count 0) lock ≡ total (up_count 0) lock + 1 + length t.waiting)
run_mutex_example = run_mutex lock start 1 start-Inv lock-LegalRun 0 refl

-- ===== src/Kernel/Process/Inv.antt =====
-- The invariant of the scheduler: every process stands on the one queue that its state names.
use net_os.Base.{
  ℕ, zero, suc, ◌+◌, ◌≤◌, some, List, [], ◌∷◌, ◌++◌, ◌==◌, if◌then◌else◌, get_elem?, set, ◌≡◌, ◌≢◌,
  arith, ◌⊎◌, inr,
}
use net_os.Kernel.Process.{Kernel, State, ready, running, blocked, Semaphore}

-- How often `p` stands in a queue, and in the queues of all the semaphores.
abbrev pub count : ℕ → List ℕ → ℕ
count p [] = 0
count p (q ∷ xs) = (if p == q then 1 else 0) + count p xs

abbrev pub waits : ℕ → List Semaphore → ℕ
waits p [] = 0
waits p (s ∷ ss) = count p s.waiting + waits p ss

abbrev pub is_ready : State → ℕ
is_ready ready = 1
is_ready _ = 0

abbrev pub is_blocked : State → ℕ
is_blocked blocked = 1
is_blocked _ = 0

-- A semaphore with waiting processes has no permits left.
abbrev pub Drained : Semaphore → Type 0
Drained s = (s.count ≡ 0) ⊎ (s.waiting ≡ [])

pub record Inv (k : Kernel) (me : ℕ) : Type 0 where
  pub at : k.current ≡ some me
  pub runs : k.state me ≡ running
  pub alone : (p : ℕ) → p ≢ me → k.state p ≢ running
  pub queued : (p : ℕ) → count p k.ready_queue ≡ (if p == k.idle then 0 else is_ready (k.state p))
  pub waiting : (p : ℕ) → waits p k.sems ≡ is_blocked (k.state p)
  pub idle_up : (k.state k.idle ≡ ready) ⊎ (k.state k.idle ≡ running)
  pub counted : (p : ℕ) → k.disable_count p ≡ k.pending p
  pub open_now : k.pending me ≡ 0
  pub few : (p : ℕ) → k.pending p ≤ 2
  pub drained : (i : ℕ) (s : Semaphore) → get_elem? k.sems i ≡ some s → Drained s

pub count-append : (p : ℕ) (xs ys : List ℕ) → count p (xs ++ ys) ≡ count p xs + count p ys
count-append p [] ys = omega arith
count-append p (q ∷ xs) ys = omega (arith, count-append p xs ys)

-- Changing one semaphore changes the count of waiting places by what its own queue changes.
pub waits-set :
    (p i : ℕ) (ss : List Semaphore) (s t : Semaphore)
    → get_elem? ss i ≡ some s
    → waits p (set ss i t) + count p s.waiting ≡ waits p ss + count p t.waiting
waits-set p i [] s t e = ground arith
waits-set p zero (x ∷ ss) s t e = ground arith
waits-set p (suc i) (x ∷ ss) s t e = omega (arith, waits-set p i ss s t e)

pub get_elem?-set :
    (i j : ℕ) (ss : List Semaphore) (s t u : Semaphore)
    → get_elem? ss i ≡ some s
    → get_elem? (set ss i t) j ≡ some u
    → (u ≡ t) ⊎ (get_elem? ss j ≡ some u)
get_elem?-set i j [] s t u e h = ground arith
get_elem?-set zero zero (x ∷ ss) s t u e h = ground arith
get_elem?-set zero (suc j) (x ∷ ss) s t u e h = inr h
get_elem?-set (suc i) zero (x ∷ ss) s t u e h = inr h
get_elem?-set (suc i) (suc j) (x ∷ ss) s t u e h = get_elem?-set i j ss s t u e h

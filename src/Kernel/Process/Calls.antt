-- ===== src/Kernel/Process/Calls.antt =====
-- Runs of calls into the scheduler: every interleaving is a list of calls, each made by the process
-- that is current when it comes.
use net_os.Base.{
  ℕ, zero, suc, ◌+◌, ◌≤◌, ◌<◌, ◌^◌, Option, none, some, List, [], ◌∷◌, ◌==◌, if◌then◌else◌,
  get_elem?, set, ◌≡◌, ◌∙◌, ap, ◌≢◌, refl, arith, ◌>>=◌, length, length-append,
}
use net_os.Kernel.Process.{Kernel, Semaphore, yield, down, up}
use net_os.Kernel.Process.Inv.{Inv}
use net_os.Kernel.Process.Permits.{
  sem, up_free, released-Inv, down_free, taken-Inv, up_waking, woken-Inv, released, taken, woken,
}
use net_os.Kernel.Process.Yield.{yield-Inv, down_blocking-Inv}

pub data Call : Type 0 where
  yields : Call
  downs ups : ℕ → Call

pub exec : Call → Kernel → Option Kernel
exec yields k = yield 1 none k
exec (downs i) k = down i k
exec (ups i) k = up i k

pub run : List Call → Kernel → Option Kernel
run [] k = some k
run (c ∷ cs) k = do k' ← exec c k; run cs k'

-- down is called outside interrupts, and not by the idle process; up is called while the count, an int, can grow.
pub record MayBlock (k : Kernel) : Type 0 where
  pub flat : (p : ℕ) → k.current ≡ some p → k.i_depth p ≡ 0
  pub real : k.current ≢ some k.idle

abbrev pub Legal : Call → Kernel → Type 0
Legal yields k = Unit
Legal (downs i) k = (s : Semaphore) × (get_elem? k.sems i ≡ some s) × MayBlock k
Legal (ups i) k = (s : Semaphore) × (get_elem? k.sems i ≡ some s) × (s.count + 1 < 2 ^ 31)

abbrev pub LegalRun : List Call → Kernel → Type 0
LegalRun [] k = Unit
LegalRun (c ∷ cs) k = Legal c k × ((k' : Kernel) → exec c k ≡ some k' → LegalRun cs k')

-- How many of the calls are down, and up, on semaphore `j`.
abbrev pub down_count : ℕ → Call → ℕ
down_count j (downs i) = if i == j then 1 else 0
down_count j _ = 0

abbrev pub up_count : ℕ → Call → ℕ
up_count j (ups i) = if i == j then 1 else 0
up_count j _ = 0

abbrev pub total : (Call → ℕ) → List Call → ℕ
total f [] = 0
total f (c ∷ cs) = f c + total f cs

-- Permits are neither made nor lost: `d` calls of down and `u` of up lead from `s` to `t`.
abbrev pub Balanced : ℕ → ℕ → Semaphore → Semaphore → Type 0
Balanced d u s t = t.count + d + length s.waiting ≡ s.count + u + length t.waiting

abbrev pub AllBalanced : (ℕ → ℕ) → (ℕ → ℕ) → List Semaphore → List Semaphore → Type 0
AllBalanced d u ss ts =
    (j : ℕ) (s : Semaphore)
    → get_elem? ss j ≡ some s
    → (t : Semaphore) × (get_elem? ts j ≡ some t) × Balanced (d j) (u j) s t

set-AllBalanced :
    (d u : ℕ → ℕ) (i : ℕ) (ss : List Semaphore) (s t : Semaphore)
    → get_elem? ss i ≡ some s
    → Balanced (d i) (u i) s t
    → ((j : ℕ) → j ≢ i → (d j ≡ 0) × (u j ≡ 0))
    → AllBalanced d u ss (set ss i t)
set-AllBalanced d u i [] s t e b others j x h = ground arith
set-AllBalanced d u zero (y ∷ ss) s t e b others zero x h = (t, refl, ground arith)
set-AllBalanced d u zero (y ∷ ss) s t e b others (suc j) x h =
    let o = others (suc j) (omega arith) in (x, h, omega (arith, o.0, o.1))
set-AllBalanced d u (suc i) (y ∷ ss) s t e b others zero x h =
    let o = others zero (omega arith) in (x, h, omega (arith, o.0, o.1))
set-AllBalanced d u (suc i) (y ∷ ss) s t e b others (suc j) x h =
    set-AllBalanced (λ n. d (suc n)) (λ n. u (suc n)) i ss s t e b
      (λ n o. others (suc n) (omega arith)) j x h

-- What a call does, from a kernel that satisfies the invariant.
abbrev Kept : Call → Kernel → Type 0
Kept c k =
    (k' : Kernel) × (me' : ℕ) × (exec c k ≡ some k')
    × Inv k' me'
    × AllBalanced (λ j. down_count j c) (λ j. up_count j c) k.sems k'.sems

module _ (k : Kernel) (me : ℕ) (inv : Inv k me) where
  up-Kept :
      (i c : ℕ) (w : List ℕ) → get_elem? k.sems i ≡ some (sem c w) → c + 1 < 2 ^ 31 → Kept (ups i) k
  unfolding exec
  up-Kept i c [] found small = (
    released k me inv i c found,
    me,
    up_free k me inv i c found small,
    released-Inv k me inv i c found,
    set-AllBalanced _ _ i k.sems _ _ found (ground arith) (λ j h. ground arith),
  )
  up-Kept i c (p ∷ rest) found small = (
    woken k me inv i c p rest found,
    me,
    up_waking k me inv i c p rest found,
    woken-Inv k me inv i c p rest found,
    set-AllBalanced _ _ i k.sems _ _ found (ground arith) (λ j h. ground arith),
  )

  down-Kept :
      (i c : ℕ) (w : List ℕ) → get_elem? k.sems i ≡ some (sem c w) → MayBlock k → Kept (downs i) k
  unfolding exec
  down-Kept i zero w found may =
      let (k', me', runs, inv', e) =
        down_blocking-Inv k me inv i w found (may.flat me inv.at)
          (λ e. may.real (inv.at ∙ ap some e)) in
      (
        k',
        me',
        runs,
        inv',
        rw e (
            set-AllBalanced _ _ i k.sems _ _ found (ground (arith, length-append w (me ∷ [])))
              (λ j h. ground arith)),
      )
  down-Kept i (suc c) [] found may = (
    taken k me inv i c found,
    me,
    down_free k me inv i c found,
    taken-Inv k me inv i c found,
    set-AllBalanced _ _ i k.sems _ _ found (ground arith) (λ j h. ground arith),
  )
  down-Kept i (suc c) (p ∷ w) found may = absurd (ground (arith, inv.drained i _ found))

  yield-Kept : Kept yields k
  unfolding exec
  yield-Kept =
      let (k', me', runs, inv', e) = yield-Inv k me inv in
      (k', me', runs, inv', rw e (λ j s h. (s, h, omega arith)))

  exec-Kept : (c : Call) → Legal c k → Kept c k
  exec-Kept yields legal = yield-Kept
  exec-Kept (downs i) (s, found, may) = down-Kept i s.count s.waiting found may
  exec-Kept (ups i) (s, found, small) = up-Kept i s.count s.waiting found small

module _ (ss ts us : List Semaphore) (d u d' u' : ℕ → ℕ) where
  AllBalanced-add :
      AllBalanced d u ss ts
      → AllBalanced d' u' ts us
      → AllBalanced (λ j. d j + d' j) (λ j. u j + u' j) ss us
  AllBalanced-add b b' j s h =
      let (t, ht, e) = b j s h in let (r, hr, e') = b' j t ht in (r, hr, omega arith)

-- Any legal run of calls, whichever process makes each of them, ends without a panic, with every
-- process on exactly the queue that its state names, and with no permit made or lost. A run is legal when the
-- semaphores of its calls exist, down comes neither from the idle process nor in an interrupt, and no up makes a count
-- leave the range of an int; when the process that blocks leaves no other ready, the idle process runs.
pub run-Inv :
    (cs : List Call) (k : Kernel) (me : ℕ)
    → Inv k me
    → LegalRun cs k
    → (k' : Kernel) × (me' : ℕ) × (run cs k ≡ some k')
      × Inv k' me'
      × AllBalanced (λ j. total (down_count j) cs) (λ j. total (up_count j) cs) k.sems k'.sems
unfolding run
run-Inv [] k me inv legal = (k, me, refl, inv, λ j s h. (s, h, omega arith))
run-Inv (c ∷ cs) k me inv legal =
    let (k₁, me₁, first, inv₁, b₁) = exec-Kept k me inv c legal.0 in
    let (k₂, me₂, rest, inv₂, b₂) = run-Inv cs k₁ me₁ inv₁ (legal.1 k₁ first) in
    (k₂, me₂, rw first rest, inv₂, AllBalanced-add _ _ _ _ _ _ _ b₁ b₂)

-- A mutex (a semaphore made with one permit) excludes: of the calls of down (lock) in a legal run,
-- those that are not still waiting exceed the calls of up (unlock) by at most one, and by exactly one
-- while a process waits. In a legal run no count leaves the range of an int.
pub run_mutex :
    (cs : List Call) (k : Kernel) (me : ℕ)
    → Inv k me
    → LegalRun cs k
    → (j : ℕ) → get_elem? k.sems j ≡ some (sem 1 [])
    → (k' : Kernel) × (t : Semaphore) × (run cs k ≡ some k')
      × (get_elem? k'.sems j ≡ some t)
      × (total (down_count j) cs ≤ total (up_count j) cs + 1 + length t.waiting)
      × ((t.waiting ≢ []) → total (down_count j) cs ≡ total (up_count j) cs + 1 + length t.waiting)
run_mutex cs k me inv legal j fresh =
    let (k', me', runs, inv', b) = run-Inv cs k me inv legal in
    let (t, found, e) = b j (sem 1 []) fresh in
    (k', t, runs, found, omega arith, λ waits. ground (arith, inv'.drained j t found))

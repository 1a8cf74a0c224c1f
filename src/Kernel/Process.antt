-- ===== src/Kernel/Process.antt =====
-- The scheduler of kernel/process.cc and the semaphores of kernel/semaphore.cc on one processor.
-- A process is a number; each field of class Process is a function from processes. A semaphore is
-- its place in `sems`. A panic is `none`. A context switch saves how many calls of enable the
-- process that leaves has still to make (`pending`), and goes on with those of the one that enters.
pub mod Interrupts
pub mod Inv
pub mod Permits
pub mod Yield
pub mod Calls
mod Tests
use net_os.Base.{
  ℕ, zero, suc, ◌+◌, ◌-◌, Bool, true, false, Option, none, some, List, [], ◌∷◌, ◌++◌, ◌==◌,
  if◌then◌else◌, ltb, ◌^◌, add32, get_elem?, set, ◌>>=◌,
}

-- Process::State
pub data State : Type 0 where
  ready running blocked terminated : State

pub record Semaphore : Type 0 where
  pub count : ℕ
  pub waiting : List ℕ

pub record Kernel : Type 0 where
  pub state : ℕ → State
  pub disable_count : ℕ → ℕ
  pub i_depth : ℕ → ℕ
  pub pending : ℕ → ℕ
  pub current : Option ℕ
  pub idle : ℕ
  pub ready_queue : List ℕ
  pub sems : List Semaphore
  pub interrupts : Bool

abbrev pub update {ℓ} : {A : Type ℓ} → (ℕ → A) → ℕ → A → ℕ → A
update f p v q = if q == p then v else f q

-- Process::disable
pub disable : Kernel → Kernel
disable k = elim k.current [
  | none ↦ record k { interrupts = false }
  | some me ↦ record k {
    interrupts = false;
    disable_count = update k.disable_count me (add32 (k.disable_count me) 1);
  }
]

-- Process::enable
pub enable : Kernel → Option Kernel
enable k = elim k.current [
  | none ↦ some k
  | some me ↦ elim (k.disable_count me) [
    | zero ↦ none
    | suc zero ↦ some (record k { disable_count = update k.disable_count me 0; interrupts = true })
    | suc (suc c) ↦ some (record k { disable_count = update k.disable_count me (suc c) })
  ]
]

-- Calls of enable in a row.
pub enables : ℕ → Kernel → Option Kernel
unfolding enable
enables zero k = some k
enables (suc n) k = do k' ← enable k; enables n k'

-- Process::makeReady
pub make_ready : ℕ → Kernel → Option Kernel
unfolding disable enable
make_ready p k =
    let k₁ = disable k in
    let k₂ = record k₁ { state = update k₁.state p ready } in
    enable (if p == k₂.idle then k₂ else record k₂ { ready_queue = k₂.ready_queue ++ p ∷ [] })

-- `q->addTail(me)` for the queue of a semaphore, or makeReady
pub enqueue : Option ℕ → ℕ → Kernel → Option Kernel
unfolding make_ready
enqueue none me k = make_ready me k
enqueue (some i) me k = elim (k.i_depth me) [
  | zero ↦ do
    s ← get_elem? k.sems i
    some (record k {
      state = update k.state me blocked;
      sems = set k.sems i (record s { waiting = s.waiting ++ me ∷ [] });
    })
  | suc _ ↦ none
]

-- Process::dispatch of `next` by `prev`, which has `depth` calls of enable to make, and what `next`
-- then does on its way out of the kernel.
pub dispatch : ℕ → Option ℕ → ℕ → Kernel → Option Kernel
unfolding enables
dispatch depth prev next k =
    let saved : ℕ → ℕ = elim prev [ none ↦ k.pending | some me ↦ update k.pending me depth ] in
    enables (saved next) (record k {
      state = update k.state next running;
      pending = update saved next 0;
      current = some next;
      interrupts = k.disable_count next == 0;
    })

-- Picks the process to run next.
pub choose : Kernel → ℕ × Kernel
choose k = elim k.ready_queue [ [] ↦ (k.idle, k) | p ∷ rest ↦ (p, record k { ready_queue = rest }) ]

-- Process::yield, `depth` counting its own last enable and those of its callers.
pub yield : ℕ → Option ℕ → Kernel → Option Kernel
yield depth q k = do
  let k₁ = disable k
  k₂ ← elim k₁.current [ none ↦ some k₁ | some me ↦ enqueue q me k₁ ]
  let (next, k₃) = choose k₂
  dispatch depth k₁.current next k₃

-- Semaphore::down
pub down : ℕ → Kernel → Option Kernel
down i k = do
  let k₁ = disable k
  s ← get_elem? k₁.sems i
  elim s.count [
    | zero ↦ elim k₁.current [ none ↦ none | some _ ↦ yield 2 (some i) k₁ ]
    | suc c ↦ enable (record k₁ { sems = set k₁.sems i (record s { count = c }) })
  ]

-- Semaphore::up. The count is an int, and `none` is also its overflow.
pub up : ℕ → Kernel → Option Kernel
up i k = do
  let k₁ = disable k
  s ← get_elem? k₁.sems i
  elim s.waiting [
    | [] ↦
        let raised =
          enable (record k₁ { sems = set k₁.sems i (record s { count = s.count + 1 }) }) in
        if ltb (s.count + 1) (2 ^ 31) then raised else none
    | p ∷ rest ↦ do
      k₂ ← make_ready p (record k₁ { sems = set k₁.sems i (record s { waiting = rest }) })
      enable k₂
  ]

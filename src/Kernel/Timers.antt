-- ===== src/Kernel/Timers.antt =====
-- The timers of kernel/process.cc and the ticks of kernel/pit.cc. A timer is its target and the processes
-- that wait for it; `timers` is the linked list. What sleepUntil does with the process besides, and how
-- a process that tick wakes becomes ready, is in Kernel.Process: tick gives the processes in the order
-- in which it makes them ready. `hz` is Pit::hz.
pub mod Sorted
pub mod Wakes
mod Tests
use net_os.Base.{
  ℕ, suc, ◌+◌, ◌*◌, ◌/◌, ◌%◌, ◌^◌, Bool, List, [], ◌∷◌, ◌++◌, ◌==◌, ltb, if◌then◌else◌, add32,
}

-- class Timer
pub record Timer : Type 0 where
  pub target : ℕ
  pub waiting : List ℕ

pub record Clock : Type 0 where
  pub jiffies : ℕ
  pub timers : List Timer

-- The loop of sleepUntil, with the process at the end of the queue of its timer.
pub insert : ℕ → ℕ → List Timer → List Timer
insert target me [] = (record { target = target; waiting = me ∷ [] }) ∷ []
insert target me (p ∷ next) =
    let rest = insert target me next in
    if p.target == target
    then (record p { waiting = p.waiting ++ me ∷ [] }) ∷ next
    else if ltb target p.target
    then (record { target = target; waiting = me ∷ [] }) ∷ p ∷ next
    else p ∷ rest

-- `millis * Pit::hz / 1000`
abbrev pub target_of : ℕ → ℕ → ℕ
target_of hz millis = millis * hz % 2 ^ 32 / 1000

-- Process::sleepUntil of the process `me`.
pub sleep_until : ℕ → ℕ → ℕ → Clock → Clock
sleep_until hz millis me c =
    let target = target_of hz millis in
    if ltb c.jiffies target then record c { timers = insert target me c.timers } else c

-- Process::tick: the processes that become ready.
pub tick : Clock → List ℕ × Clock
tick c = elim c.timers [
  | [] ↦ ([], c)
  | first ∷ next ↦
      if c.jiffies == first.target then (first.waiting, record c { timers = next }) else ([], c)
]

-- Pit::handler
pub pit_handler : Clock → List ℕ × Clock
pit_handler c = tick (record c { jiffies = add32 c.jiffies 1 })

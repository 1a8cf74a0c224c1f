-- ===== src/Kernel/Queue.antt =====
-- SimpleQueue of kernel/queue.h. A node is at an address, 0 being null; `new` gives an address that is
-- an argument. An access through null or to a node that is not there is `none`.
pub mod Linked
pub mod Refines
mod Tests
use net_os.Base.{ℕ, Bool, Option, none, some, ◌==◌, if◌then◌else◌, ◌>>=◌}

-- Node
pub record Node : Type 0 where
  pub next : ℕ
  pub prev : ℕ
  pub value : ℕ

pub record Queue : Type 0 where
  pub nodes : ℕ → Option Node
  pub first : ℕ
  pub last : ℕ

abbrev pub write : (ℕ → Option Node) → ℕ → Option Node → ℕ → Option Node
write nodes i n j = if j == i then n else nodes j

-- The node behind a pointer.
abbrev pub deref : Queue → ℕ → Option Node
deref q p = if p == 0 then none else q.nodes p

-- addTail, with the node at `n`.
pub add_tail : ℕ → ℕ → Queue → Option Queue
add_tail n v q = do
  let made = write q.nodes n (some (record { value = v; prev = q.last; next = 0 }))
  let q₁ = record q { nodes = made }
  q₂ ←
      (if q.last == 0 then some q₁ else do
        l ← deref q₁ q.last
        some (record q₁ { nodes = write made q.last (some (record l { next = n })) }))
  some (record q₂ { last = n; first = if q.first == 0 then n else q.first })

pub is_empty : Queue → Bool
is_empty q = q.first == 0

-- removeHead
pub remove_head : Queue → Option (ℕ × Queue)
remove_head q = do
  p ← deref q q.first
  let q₁ = record q { first = p.next }
  q₂ ←
      (if p.next == 0 then some (record q₁ { last = 0 }) else do
        f ← deref q₁ p.next
        some (record q₁ { nodes = write q.nodes p.next (some (record f { prev = 0 })) }))
  some (p.value, record q₂ { nodes = write q₂.nodes q.first none })

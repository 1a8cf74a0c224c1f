-- ===== src/Kernel/Table.antt =====
-- Resource tables, kernel/table.cc, and the reference counts of kernel/resource.h. A resource is a
-- number; `count` and `deleted` hold what the object of each has. A null pointer is `none`. The mutex
-- makes each operation one step.
pub mod Counts
pub mod Steps
pub mod Slots
pub mod Get
mod Tests
use net_os.Base.{
  ℕ, zero, suc, ◌+◌, Bool, true, false, Option, none, some, List, [], ◌∷◌, ◌==◌, if◌then◌else◌,
  add32, sub32, get_elem?, set, length,
}
use net_os.Kernel.Process.{update}

pub record Table : Type 0 where
  pub array : List (Option ℕ)
  pub count : ℕ → ℕ
  pub deleted : ℕ → Bool

-- Resource::ref of a resource
pub ref : ℕ → Table → Table
ref p t = record t { count = update t.count p (add32 (t.count p) 1) }

-- Resource::unref
pub unref : Option ℕ → Table → Table
unref none t = t
unref (some p) t = record t {
  count = update t.count p (sub32 (t.count p) 1);
  deleted = if t.count p == 1 then update t.deleted p true else t.deleted;
}

-- The loop of open from the slot `i` on.
pub free_slot : List (Option ℕ) → ℕ → Option ℕ
free_slot [] i = none
free_slot (none ∷ slots) i = some i
free_slot (some p ∷ slots) i = free_slot slots (i + 1)

-- `for (i=1; ...)`
pub first_slot : List (Option ℕ) → Option ℕ
first_slot [] = none
first_slot (slot ∷ slots) = free_slot slots 1

-- Table::open. `none` is ERR_NO_ID.
pub open_slot : ℕ → Table → Option ℕ × Table
open_slot p t = elim (first_slot t.array) [
  | none ↦ (none, t)
  | some i ↦ (some i, let t' = ref p t in record t' { array = set t'.array i (some p) })
]

-- `Resource::unref(array[i]); array[i] = nullptr` in a slot that holds `old`.
pub drop_slot : ℕ → Option ℕ → Table → Table
drop_slot i old t = let t' = unref old t in record t' { array = set t'.array i none }

-- Table::close of an index that is not negative. `false` is ERR_INVALID_ID.
pub close_slot : ℕ → Table → Bool × Table
close_slot i t = elim (get_elem? t.array i) [
  | none ↦ (false, t)
  | some old ↦ (elim old [ none ↦ false | some p ↦ true ], drop_slot i old t)
]

-- The loop of Table::closeAll at the slot `i`, with `n` slots left.
pub close_all_loop : ℕ → ℕ → Table → Table
close_all_loop zero i t = t
close_all_loop (suc n) i t = elim (get_elem? t.array i) [
  | none ↦ t
  | some old ↦ close_all_loop n (i + 1) (drop_slot i old t)
]

pub close_all : Table → Table
close_all t = close_all_loop (length t.array) 0 t

pub data ResourceType : Type 0 where
  process semaphore file table other : ResourceType

pub index : ResourceType → ℕ
index process = 0
index semaphore = 1
index file = 2
index table = 3
index other = 4

-- Table::get of an index that is not negative, `kind` being the field `type` of each resource: the null
-- pointer or a resource. `none` outside is the read of `res->type` through a null pointer.
pub get_slot : (ℕ → ResourceType) → ℕ → ResourceType → Table → Option (Option ℕ)
get_slot kind fd type t = elim (get_elem? t.array fd) [
  | none ↦ some none
  | some res ↦ elim res [
    | none ↦ none
    | some r ↦ some (if index (kind r) == index type then some r else none)
  ]
]

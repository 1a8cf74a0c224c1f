-- ===== src/Kernel/BoundedBuffer.antt =====
-- The bounded buffer of kernel/bb.h. Its semaphores nFull and nEmpty stand as their counts; `none` is
-- a call that waits, or an access outside the array. The mutex makes each call one step.
pub mod Fifo
pub mod Refines
mod Tests
use net_os.Base.{
  ℕ, zero, suc, ◌+◌, ◌==◌, if◌then◌else◌, ltb, Option, none, some, List, get_elem?, set, length,
  ◌>>=◌, replicate,
}

pub record Bb : Type 0 where
  pub arr : List ℕ
  pub n : ℕ
  pub head : ℕ
  pub tail : ℕ
  pub n_full : ℕ
  pub n_empty : ℕ

-- BB::put
pub put : ℕ → Bb → Option Bb
put v b = elim b.n_empty [
  | zero ↦ none
  | suc e ↦
      if ltb b.tail (length b.arr)
      then some (record b {
        arr = set b.arr b.tail v;
        tail = if b.tail + 1 == b.n then 0 else b.tail + 1;
        n_empty = e;
        n_full = b.n_full + 1;
      })
      else none
]

-- BB::get
pub get : Bb → Option (ℕ × Bb)
get b = elim b.n_full [
  | zero ↦ none
  | suc f ↦ do
    v ← get_elem? b.arr b.head
    some (
      v,
      record b {
        head = if b.head + 1 == b.n then 0 else b.head + 1;
        n_full = f;
        n_empty = b.n_empty + 1;
      },
    )
]

-- BB::BB on an array that holds `junk`
pub make : ℕ → ℕ → Bb
make n junk = record { arr = replicate n junk; n = n; head = 0; tail = 0; n_full = 0; n_empty = n }

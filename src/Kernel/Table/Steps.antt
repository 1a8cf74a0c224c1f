-- ===== src/Kernel/Table/Steps.antt =====
-- The operations of a table, and runs of them.
use net_os.Base.{
  ℕ, zero, suc, ◌+◌, ◌^◌, ◌<◌, ◌≡◌, refl, false, Option, none, some, List, [], ◌∷◌, Option-cases,
  inl, inr, get_elem?, set, length,
}
use net_os.Kernel.Table.{
  Table, ref, first_slot, open_slot, drop_slot, close_slot, close_all_loop, close_all,
}
use net_os.Kernel.Table.Counts.{Inv, first_slot-none, fill-Inv, drop_slot-Inv}

-- The two ways that open ends.
pub open_full : (p : ℕ) (t : Table) → first_slot t.array ≡ none → open_slot p t ≡ (none, t)
unfolding open_slot
open_full p t e = rw (e, open_slot) refl

pub open_found :
    (p i : ℕ) (t : Table)
    → first_slot t.array ≡ some i
    → open_slot p t ≡ (some i, record (ref p t) { array = set t.array i (some p) })
unfolding open_slot ref
open_found p i t e = rw (e, open_slot) refl

pub close_found :
    (i : ℕ) (old : Option ℕ) (t : Table)
    → get_elem? t.array i ≡ some old
    → (close_slot i t).1 ≡ drop_slot i old t
unfolding close_slot
close_found i old t e = rw (e, close_slot) refl

close_missing : (i : ℕ) (t : Table) → get_elem? t.array i ≡ none → (close_slot i t).1 ≡ t
unfolding close_slot
close_missing i t e = rw (e, close_slot) refl

open_slot-Inv :
    (others : ℕ → ℕ) (p : ℕ) (t : Table)
    → Inv others t
    → t.deleted p ≡ false
    → t.count p + 1 < 2 ^ 32
    → Inv others (open_slot p t).1
open_slot-Inv others p t inv live h = elim (Option-cases (first_slot t.array)) [
  | inl e ↦ rw (open_full p t e) inv
  | inr (i, e) ↦
      rw (open_found p i t e) (fill-Inv others p i t inv live h (first_slot-none t.array i e))
]

close_slot-Inv : (others : ℕ → ℕ) (i : ℕ) (t : Table) → Inv others t → Inv others (close_slot i t).1
close_slot-Inv others i t inv = elim (Option-cases (get_elem? t.array i)) [
  | inl e ↦ rw (close_missing i t e) inv
  | inr (old, e) ↦ rw (close_found i old t e) (drop_slot-Inv others i old t e inv)
]

close_all_loop-Inv :
    (others : ℕ → ℕ) (n i : ℕ) (t : Table) → Inv others t → Inv others (close_all_loop n i t)
unfolding close_all_loop
close_all_loop-Inv others zero i t inv = inv
close_all_loop-Inv others (suc n) i t inv = elim (Option-cases (get_elem? t.array i)) [
  | inl e ↦ rw (e, close_all_loop) inv
  | inr (old, e) ↦
      rw (e, close_all_loop)
        (close_all_loop-Inv others n (i + 1) (drop_slot i old t)
          (drop_slot-Inv others i old t e inv))
]

-- A call of a method of the table.
pub data Call : Type 0 where
  opens closes : ℕ → Call
  closes_all : Call

abbrev pub after : Call → Table → Table
after (opens p) t = (open_slot p t).1
after (closes i) t = (close_slot i t).1
after closes_all t = close_all t

-- What is opened is a resource not deleted, and its count does not overflow.
abbrev pub Legal : Call → Table → Type 0
Legal (opens p) t = (t.deleted p ≡ false) × (t.count p + 1 < 2 ^ 32)
Legal (closes i) t = Unit
Legal closes_all t = Unit

abbrev pub run : List Call → Table → Table
run [] t = t
run (call ∷ calls) t = run calls (after call t)

abbrev pub AllLegal : List Call → Table → Type 0
AllLegal [] t = Unit
AllLegal (call ∷ calls) t = Legal call t × AllLegal calls (after call t)

after-Inv :
    (others : ℕ → ℕ) (call : Call) (t : Table)
    → Inv others t
    → Legal call t
    → Inv others (after call t)
unfolding close_all
after-Inv others (opens p) t inv h = open_slot-Inv others p t inv h.0 h.1
after-Inv others (closes i) t inv h = close_slot-Inv others i t inv
after-Inv others closes_all t inv h = close_all_loop-Inv others (length t.array) 0 t inv

-- Through any legal run of open, close and closeAll, with the references from outside the table staying
-- as they are, the count of every resource is the number of slots and other places that refer to it,
-- and a deleted resource has no reference left.
pub run_calls-Inv :
    (others : ℕ → ℕ) (calls : List Call) (t : Table)
    → Inv others t
    → AllLegal calls t
    → Inv others (run calls t)
run_calls-Inv others [] t inv h = inv
run_calls-Inv others (call ∷ calls) t inv h =
    run_calls-Inv others calls (after call t) (after-Inv others call t inv h.0) h.1

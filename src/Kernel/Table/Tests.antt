-- ===== src/Kernel/Table/Tests.antt =====
-- Runs of a table of three slots.
use net_os.Base.{ℕ, ◌≡◌, refl, true, false, none, [], ◌∷◌, add32, sub32, arith}
use net_os.Kernel.Table.{
  Table, ref, unref, free_slot, first_slot, open_slot, drop_slot, close_slot, close_all_loop,
  close_all,
}
use net_os.Kernel.Table.Counts.{Inv, references, refers}
use net_os.Kernel.Table.Steps.{opens, closes, closes_all, run, run_calls-Inv}

abbrev fresh : Table
fresh = record { array = none ∷ none ∷ none ∷ []; count = λ r. 0; deleted = λ r. false }

program : Unit {0}
unfolding add32 sub32 ref unref free_slot first_slot open_slot drop_slot close_slot close_all_loop
    close_all references refers
program = tt

abbrev nobody : ℕ → ℕ
nobody r = 0

fresh-Inv : Inv nobody fresh
unfolding program
fresh-Inv r = (refl, λ e. absurd (cc e), omega arith)

abbrev opened : Table
opened = (open_slot 5 fresh).1

opened-Inv : Inv nobody opened
opened-Inv = run_calls-Inv nobody (opens 5 ∷ []) fresh fresh-Inv ((refl, omega arith), tt)

last_closed : (run (opens 5 ∷ opens 5 ∷ closes 1 ∷ closes_all ∷ []) fresh).deleted 5 ≡ true
unfolding program
last_closed = refl

no_slot_left : (open_slot 6 (run (opens 5 ∷ opens 5 ∷ []) fresh)).0 ≡ none
unfolding program
no_slot_left = refl

run_calls-Inv_example : Inv nobody (run (opens 5 ∷ opens 5 ∷ closes 1 ∷ closes_all ∷ []) fresh)
unfolding program
run_calls-Inv_example =
    run_calls-Inv nobody (opens 5 ∷ opens 5 ∷ closes 1 ∷ closes_all ∷ []) fresh fresh-Inv
      ((refl, omega arith), ((refl, omega arith), (tt, (tt, tt))))

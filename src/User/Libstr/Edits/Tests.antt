-- ===== src/User/Libstr/Edits/Tests.antt =====
-- Runs of the functions of Edits on small texts.
use net_os.Base.{◌≡◌, some, none, [], ◌∷◌, refl, arith}
use net_os.User.Memory.{load, store, memcpy, strlen}
use net_os.User.Libstr.Tests.{dirty}
use net_os.User.Libstr.Edits.{append, add_char, delete_char, str_equals}
use net_os.User.Libstr.Edits.Insert.{append-inserts, delete_char-faults}

program : Unit {0}
unfolding dirty load store memcpy strlen append add_char delete_char str_equals
program = tt

one_inserted : add_char dirty (b'a' ∷ b'c' ∷ 0 ∷ []) 1 b'b' ≡ some (b'a' ∷ b'b' ∷ b'c' ∷ 0 ∷ [])
unfolding program
one_inserted = refl

last_deleted : delete_char dirty (b'a' ∷ 0 ∷ 9 ∷ []) 0 ≡ none
unfolding program
last_deleted = refl

append-inserts_example :
    append dirty (b'a' ∷ b'b' ∷ 0 ∷ 9 ∷ []) (b'x' ∷ b'y' ∷ 0 ∷ []) 1
    ≡ some (b'a' ∷ b'x' ∷ b'y' ∷ b'b' ∷ 0 ∷ [])
append-inserts_example =
    append-inserts dirty (b'a' ∷ []) (b'b' ∷ []) (b'x' ∷ b'y' ∷ []) (9 ∷ []) [] (omega arith)
      (omega arith) (omega arith)

delete_char-faults_example : delete_char dirty (b'a' ∷ b'b' ∷ b'c' ∷ 0 ∷ []) 1 ≡ none
delete_char-faults_example =
    delete_char-faults dirty (b'a' ∷ []) (b'c' ∷ []) [] b'b' (omega arith) (omega arith)

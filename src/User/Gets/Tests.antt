-- ===== src/User/Gets/Tests.antt =====
-- "hat" is typed, with an arrow back to make it "heat", and the theorem at it.
use net_os.Base.{ℕ, ◌≡◌, refl, Bool, true, false, Option, none, List, [], ◌∷◌, some}
use net_os.User.Gets.{
  Turn, gets, gets_loop, grow, clear, store, handle, type, load, left, push, show,
}
use net_os.User.Gets.Line.{line, fits, entered, key_of, insert_at, delete_at}
use net_os.User.Gets.Edits.{Answers, gets-line}

abbrev typed_keys : List ℕ
typed_keys = 104 ∷ 120 ∷ 8 ∷ 97 ∷ 116 ∷ 240 ∷ 240 ∷ 101 ∷ 241 ∷ 242 ∷ 13 ∷ 65 ∷ []

keys_fit : fits typed_keys [] 0 ≡ true
unfolding fits key_of insert_at delete_at
keys_fit = refl

heat_entered : line typed_keys [] 0 ≡ entered (104 ∷ 101 ∷ 97 ∷ 116 ∷ [])
unfolding line key_of insert_at delete_at
heat_entered = refl

gets-line_example : Answers (gets (λ k. 7) typed_keys) (line typed_keys [] 0)
gets-line_example = gets-line (λ k. 7) typed_keys keys_fit

-- Nine characters, and three more put in five places before the end: the third makes an access behind the
-- block.
abbrev long_line : List ℕ
long_line =
    49 ∷ 50 ∷ 51 ∷ 52 ∷ 53 ∷ 54 ∷ 55 ∷ 56 ∷ 57 ∷ 240 ∷ 240 ∷ 240 ∷ 240 ∷ 240 ∷ 65 ∷ 65 ∷ 65 ∷ []

abbrev faults : Option Turn → Bool
faults none = true
faults (some t) = false

third_runs_off : faults (gets (λ k. 7) long_line) ≡ true
unfolding gets gets_loop grow clear store handle type load left push show
third_runs_off = refl

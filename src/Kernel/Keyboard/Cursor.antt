-- ===== src/Kernel/Keyboard/Cursor.antt =====
-- The cursor keys of kernel/kbd.cc, whose codes follow the prefix 0xe0.
use net_os.Base.{ℕ, zero, suc, ◌+◌, ◌≡◌, refl, Bool, true, false, List, [], ◌∷◌, replicate}
use net_os.Kernel.Keyboard.{Keyboard, handler}

-- The code of a cursor key and its character.
data Cursor : ℕ → ℕ → Type 0 where
  left : Cursor 0x4b 0xf0
  right : Cursor 0x4d 0xf1
  up : Cursor 0x48 0xf2
  down : Cursor 0x50 0xf3

-- The state between the keys: no prefix is pending.
abbrev between : Bool → Bool → Keyboard
between shift control = record { shift = shift; control = control; direction = false }

-- A cursor key pressed and released types its character once and leads back to the state before it,
-- with shift and control pressed or not.
handler-Cursor :
    (shift control : Bool) {a v : ℕ}
    → Cursor a v
    → handler (0xe0 ∷ a ∷ 0xe0 ∷ (a + 128) ∷ []) (between shift control)
      ≡ (v ∷ [], between shift control)
unfolding handler
handler-Cursor shift true left = refl
handler-Cursor shift true right = refl
handler-Cursor shift true up = refl
handler-Cursor shift true down = refl
handler-Cursor shift false left = refl
handler-Cursor shift false right = refl
handler-Cursor shift false up = refl
handler-Cursor shift false down = refl

-- What a keyboard sends for a key held down: its press `2 * n` times.
held : ℕ → ℕ → List ℕ
held zero a = []
held (suc n) a = 0xe0 ∷ a ∷ 0xe0 ∷ a ∷ held n a

two_presses :
    (shift control : Bool) {a v : ℕ} (rest : List ℕ)
    → Cursor a v
    → handler (0xe0 ∷ a ∷ 0xe0 ∷ a ∷ rest) (between shift control)
      ≡ (v ∷ (handler rest (between shift control)).0, (handler rest (between shift control)).1)
unfolding handler
two_presses shift true rest left = refl
two_presses shift true rest right = refl
two_presses shift true rest up = refl
two_presses shift true rest down = refl
two_presses shift false rest left = refl
two_presses shift false rest right = refl
two_presses shift false rest up = refl
two_presses shift false rest down = refl

no_codes : (s : Keyboard) → handler [] s ≡ ([], s)
unfolding handler
no_codes s = refl

-- A cursor key held down types one character for two presses that the keyboard repeats.
handler-held :
    (shift control : Bool) {a v : ℕ} (n : ℕ)
    → Cursor a v
    → handler (held n a) (between shift control) ≡ (replicate n v, between shift control)
unfolding held
handler-held shift control zero key = no_codes (between shift control)
handler-held shift control {a} (suc n) key =
    rw (two_presses shift control (held n a) key, handler-held shift control n key) refl

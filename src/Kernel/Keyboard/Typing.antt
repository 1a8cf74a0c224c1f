-- ===== src/Kernel/Keyboard/Typing.antt =====
-- Texts and cursor keys as sequences of scan codes.
use net_os.Base.{
  ℕ, zero, suc, ◌+◌, ◌≤◌, ◌<◌, ◌≡◌, refl, ap, Bool, true, false, not, ◌&&◌, Option, none, some,
  List, [], ◌∷◌, ◌++◌, ◌==◌, if◌then◌else◌, eq_of_==, Bool-cases, inl, inr, arith,
}
use net_os.Kernel.Keyboard.{Keyboard, kbd_get, handler}

handler-append :
    (a b : List ℕ) (s : Keyboard)
    → handler (a ++ b) s
      ≡ ((handler a s).0 ++ (handler b (handler a s).1).0, (handler b (handler a s).1).1)
unfolding handler
handler-append [] b s = refl
handler-append (c ∷ a) b s =
    rw (handler-append a b (kbd_get c s).1)
      (elim (Bool-cases ((kbd_get c s).0 == 255)) [ inl e ↦ rw e refl | inr e ↦ rw e refl ])

-- The state that the file starts in.
abbrev pub start : Keyboard
start = record { shift = false; control = false; direction = false }

-- A US keyboard: keys with codes that follow each other, and what they type without the shift key and with it.
pub record Row : Type 0 where
  pub first : ℕ
  pub lower : List ℕ
  pub upper : List ℕ

abbrev pub us_layout : List Row
us_layout =
    record {
      first = 0x02;
      lower =
          b'1' ∷ b'2' ∷ b'3' ∷ b'4' ∷ b'5' ∷ b'6' ∷ b'7' ∷ b'8' ∷ b'9' ∷ b'0' ∷ b'-' ∷ b'=' ∷ [];
      upper =
          b'!' ∷ b'@' ∷ b'#' ∷ b'$' ∷ b'%' ∷ b'^' ∷ b'&' ∷ b'*' ∷ b'(' ∷ b')' ∷ b'_' ∷ b'+' ∷ [];
    }
    ∷ record {
      first = 0x10;
      lower =
          b'q' ∷ b'w' ∷ b'e' ∷ b'r' ∷ b't' ∷ b'y' ∷ b'u' ∷ b'i' ∷ b'o' ∷ b'p' ∷ b'[' ∷ b']' ∷ [];
      upper =
          b'Q' ∷ b'W' ∷ b'E' ∷ b'R' ∷ b'T' ∷ b'Y' ∷ b'U' ∷ b'I' ∷ b'O' ∷ b'P' ∷ b'{' ∷ b'}' ∷ [];
    }
    ∷ record {
      first = 0x1e;
      lower =
          b'a' ∷ b's' ∷ b'd' ∷ b'f' ∷ b'g' ∷ b'h' ∷ b'j' ∷ b'k' ∷ b'l' ∷ b';' ∷ b'\'' ∷ b'`' ∷ [];
      upper =
          b'A' ∷ b'S' ∷ b'D' ∷ b'F' ∷ b'G' ∷ b'H' ∷ b'J' ∷ b'K' ∷ b'L' ∷ b':' ∷ b'"' ∷ b'~' ∷ [];
    }
    ∷ record {
      first = 0x2b;
      lower = b'\\' ∷ b'z' ∷ b'x' ∷ b'c' ∷ b'v' ∷ b'b' ∷ b'n' ∷ b'm' ∷ b',' ∷ b'.' ∷ b'/' ∷ [];
      upper = b'|' ∷ b'Z' ∷ b'X' ∷ b'C' ∷ b'V' ∷ b'B' ∷ b'N' ∷ b'M' ∷ b'<' ∷ b'>' ∷ b'?' ∷ [];
    }
    ∷ record { first = 0x39; lower = b' ' ∷ []; upper = [] }
    ∷ []

-- How the key at a place of a row is hit: it is pressed and released, with the shift key held down or not.
abbrev pub hit : ℕ → List ℕ
hit code = code ∷ (code + 128) ∷ []

abbrev pub hit_shifted : ℕ → List ℕ
hit_shifted code = 0x2a ∷ code ∷ (code + 128) ∷ 0xaa ∷ []

-- The code of the key for `c` among keys from `code` on.
unfoldable pub key_among : List ℕ → ℕ → ℕ → Option ℕ
key_among [] code c = none
key_among (d ∷ ds) code c =
    let rest = key_among ds (code + 1) c in if d == c then some code else rest

-- How a character is typed.
unfoldable pub hit_for : List Row → ℕ → List ℕ
hit_for [] c = []
hit_for (r ∷ rows) c =
    let rest = hit_for rows c in
    elim (key_among r.lower r.first c) [
      | some code ↦ hit code
      | none ↦ elim (key_among r.upper r.first c) [ some code ↦ hit_shifted code | none ↦ rest ]
    ]

abbrev pub press : ℕ → List ℕ
press c = hit_for us_layout c

-- How a text is typed, key by key.
unfoldable pub presses : List ℕ → List ℕ
presses [] = []
presses (c ∷ text) = press c ++ presses text

-- Whether the codes of `c` type it and lead back to the first state.
types : List ℕ × Keyboard → ℕ → Bool
types ([], s) c = false
types (x ∷ y ∷ xs, s) c = false
types (x ∷ [], s) c = (x == c) && (not s.shift && (not s.control && not s.direction))

typed : ℕ → Bool
unfolding types hit_for key_among handler
typed c = types (handler (press c) start) c

-- A test of `n` numbers from `a` on.
all_from : (ℕ → Bool) → ℕ → ℕ → Bool
all_from p zero a = true
all_from p (suc n) a = p a && all_from p n (a + 1)

and_parts : (a b : Bool) → (a && b) ≡ true → (a ≡ true) × (b ≡ true)
and_parts true b e = (refl, e)
and_parts false b e = absurd (cc e)

all_from-each : (p : ℕ → Bool) (n a c : ℕ) → all_from p n a ≡ true → a ≤ c → c < a + n → p c ≡ true
unfolding all_from
all_from-each p zero a c e l h = absurd (omega arith)
all_from-each p (suc n) a c e l h =
    let (first, rest) = and_parts (p a) (all_from p n (a + 1)) e in
    elim (Bool-cases (a == c)) [
      | inl q ↦ rw (← eq_of_== a c q) first
      | inr q ↦ all_from-each p n (a + 1) c rest (ground (arith, q)) (omega arith)
    ]

all_typed : all_from typed 95 32 ≡ true
unfolding all_from typed
all_typed = refl

at_start :
    (s k d : Bool)
    → (not s && (not k && not d)) ≡ true
    → record { shift = s; control = k; direction = d } ≡ start
at_start true k d e = absurd (cc e)
at_start false true d e = absurd (cc e)
at_start false false true e = absurd (cc e)
at_start false false false e = refl

types_lem : (r : List ℕ × Keyboard) (c : ℕ) → types r c ≡ true → r ≡ (c ∷ [], start)
unfolding types
types_lem ([], s) c e = absurd (cc e)
types_lem (x ∷ y ∷ xs, s) c e = absurd (cc e)
types_lem (x ∷ [], s) c e =
    let (char, state) = and_parts (x == c) (not s.shift && (not s.control && not s.direction)) e in
    rw (eq_of_== x c char) (ap (λ z. (c ∷ [], z)) (at_start s.shift s.control s.direction state))

press-typed : (c : ℕ) → typed c ≡ true → handler (press c) start ≡ (c ∷ [], start)
unfolding typed
press-typed c e = types_lem (handler (press c) start) c e

-- Printable ASCII.
abbrev pub Printable : List ℕ → Type 0
Printable [] = Unit
Printable (c ∷ text) = (32 ≤ c) × (c < 127) × Printable text

no_codes : handler [] start ≡ ([], start)
unfolding handler
no_codes = refl

-- Whoever types a printable text on a US keyboard, each key pressed and released in turn, with the shift key pressed
-- before and released behind it where the character needs it, makes the handler put just that text, from the first
-- state back to the first state.
pub handler-types : (text : List ℕ) → Printable text → handler (presses text) start ≡ (text, start)
unfolding presses
handler-types [] h = no_codes
handler-types (c ∷ text) (l, u, h) =
    rw
      (
        handler-append (press c) (presses text) start,
        press-typed c (all_from-each typed 95 32 c all_typed l (omega arith)),
        handler-types text h,
      )
      refl

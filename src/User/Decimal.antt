-- ===== src/User/Decimal.antt =====
-- putdec of user/libc.c. What putchar prints is a list.
pub mod Value
mod Tests
use net_os.Base.{
  ℕ, zero, suc, ◌+◌, ◌/◌, ◌%◌, leb, if◌then◌else◌, Option, none, some, List, [], ◌∷◌, ◌++◌,
  get_elem?, ◌>>=◌,
}

abbrev pub hex_digits : List ℕ
hex_digits =
    b'0' ∷ b'1' ∷ b'2' ∷ b'3' ∷ b'4' ∷ b'5' ∷ b'6' ∷ b'7' ∷ b'8' ∷ b'9' ∷ b'a' ∷ b'b' ∷ b'c' ∷ b'd'
    ∷ b'e' ∷ b'f' ∷ []

-- With fuel for the calls of itself; `none` is the fuel used up, or a read outside hexDigits.
pub putdec : ℕ → ℕ → Option (List ℕ)
putdec zero v = none
putdec (suc fuel) v = do
  let called = putdec fuel (v / 10)
  before ← (if leb 10 v then called else some [])
  c ← get_elem? hex_digits (v % 10)
  some (before ++ c ∷ [])

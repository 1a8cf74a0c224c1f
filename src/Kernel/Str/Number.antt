-- ===== src/Kernel/Str/Number.antt =====
-- strtol of kernel/string.cc on decimal numerals.
use net_os.Base.{
  ℕ, ◌+◌, ◌-◌, ◌*◌, ◌^◌, ◌≤◌, ◌<◌, ◌≡◌, ◌⊎◌, refl, Bool, true, false, ◌&&◌, ◌||◌, none, some, List,
  [], ◌∷◌, ◌++◌, ◌==◌, ==_ne, leb, ltb, ltb_of_lt, if◌then◌else◌, ℤ, pos, sub_ℕ, arith, Bool-cases,
  inl, inr,
}
use net_os.User.Decimal.{putdec}
use net_os.User.Decimal.Value.{value, Digits, Numeral, putdec-Numeral}
use net_os.Kernel.Str.{strtol, gobble, sign, prefix, digit, digits}

value_mono : (n : ℕ) (s : List ℕ) → n ≤ value n s
unfolding value
value_mono n [] = omega arith
value_mono n (c ∷ s) = omega (arith, value_mono (n * 10 + (c - b'0')) s)

-- The character that ends a decimal numeral.
abbrev pub NoDigit : ℕ → Type 0
NoDigit c = (leb b'0' c && leb c b'9') ≡ false

digit_lem : (c : ℕ) → b'0' ≤ c → c ≤ b'9' → digit c ≡ some (c - b'0')
unfolding digit
digit_lem c a b = ground arith

digit_stop :
    (c : ℕ) → NoDigit c → (digit c ≡ none) ⊎ ((dig : ℕ) × (digit c ≡ some dig) × (10 ≤ dig))
unfolding digit
digit_stop c h = elim (Bool-cases (leb b'a' c && leb c b'z')) [
  | inl e ↦ inr (c - b'a' + 10, rw (h, e) refl, omega arith)
  | inr e ↦ elim (Bool-cases (leb b'A' c && leb c b'Z')) [
    | inl e' ↦ inr (c - b'A' + 10, rw (h, e, e') refl, omega arith)
    | inr e' ↦ inl (rw (h, e, e') refl)
  ]
]

digits_stop :
    (val c : ℕ) (rest : List ℕ) → NoDigit c → digits 10 val (c ∷ rest) ≡ some (val, c ∷ rest)
unfolding digits
digits_stop val c rest h = elim (digit_stop c h) [
  | inl e ↦ rw (e, digits) refl
  | inr (dig, e, l) ↦ let large : leb 10 dig ≡ true = ground arith in rw (e, digits, large) refl
]

digits_lem :
    (s : List ℕ) (val c : ℕ) (rest : List ℕ)
    → Digits s
    → NoDigit c
    → value val s < 2 ^ 31
    → digits 10 val (s ++ c ∷ rest) ≡ some (value val s, c ∷ rest)
unfolding digits value
digits_lem [] val c rest h stop l = digits_stop val c rest stop
digits_lem (d ∷ s) val c rest (a, b, h) stop l =
    let small : ltb (val * 10 + (d - b'0')) (2 ^ 31) ≡ true =
      ltb_of_lt _ _ (omega (arith, value_mono (val * 10 + (d - b'0')) s, l)) in
    let below : leb 10 (d - b'0') ≡ false = ground arith in
    rw (digit_lem d a b, digits, below, small)
      (digits_lem s (val * 10 + (d - b'0')) c rest h stop l)

-- Spaces and tabs.
abbrev pub Blank : List ℕ → Type 0
Blank [] = Unit
Blank (c ∷ s) = ((c == b' ') || (c == b'\t') ≡ true) × Blank s

gobble_lem :
    (pre : List ℕ) (c : ℕ) (rest : List ℕ)
    → Blank pre
    → ((c == b' ') || (c == b'\t')) ≡ false
    → gobble (pre ++ c ∷ rest) ≡ some (c ∷ rest)
unfolding gobble
gobble_lem [] c rest h e = rw e refl
gobble_lem (d ∷ pre) c rest (a, h) e = rw a (gobble_lem pre c rest h e)

abbrev pub minus : Bool → List ℕ → List ℕ
minus neg s = if neg then b'-' ∷ s else s

-- A number with its sign.
abbrev pub signed : Bool → ℕ → ℤ
signed neg v = if neg then sub_ℕ 0 v else pos v

strtol_run :
    (s s₁ s₂ s₃ s₄ : List ℕ) (neg : Bool) (v : ℕ)
    → gobble s ≡ some s₁
    → sign s₁ ≡ some (neg, s₂)
    → prefix 10 s₂ ≡ some (10, s₃)
    → digits 10 0 s₃ ≡ some (v, s₄)
    → strtol s 10 ≡ some (signed neg v, s₄)
unfolding strtol
strtol_run s s₁ s₂ s₃ s₄ neg v a b c d = rw (a, b, c, d) refl

signed_lem :
    (neg : Bool) (pre : List ℕ) (d : ℕ) (ds : List ℕ) (c : ℕ) (rest : List ℕ)
    → Blank pre
    → Digits (d ∷ ds)
    → NoDigit c
    → value 0 (d ∷ ds) < 2 ^ 31
    → strtol (pre ++ minus neg (d ∷ (ds ++ c ∷ rest))) 10
      ≡ some (signed neg (value 0 (d ∷ ds)), c ∷ rest)
unfolding sign prefix
signed_lem true pre d ds c rest blank h stop l =
    strtol_run (pre ++ b'-' ∷ d ∷ (ds ++ c ∷ rest)) (b'-' ∷ d ∷ (ds ++ c ∷ rest))
      (d ∷ (ds ++ c ∷ rest)) (d ∷ (ds ++ c ∷ rest)) (c ∷ rest) true (value 0 (d ∷ ds))
      (gobble_lem pre b'-' (d ∷ (ds ++ c ∷ rest)) blank refl) refl refl
      (digits_lem (d ∷ ds) 0 c rest h stop l)
signed_lem false pre d ds c rest blank h stop l =
    strtol_run (pre ++ d ∷ (ds ++ c ∷ rest)) (d ∷ (ds ++ c ∷ rest)) (d ∷ (ds ++ c ∷ rest))
      (d ∷ (ds ++ c ∷ rest)) (c ∷ rest) false (value 0 (d ∷ ds))
      (gobble_lem pre d (ds ++ c ∷ rest) blank (ground (arith, h.0)))
      (rw (==_ne d b'+' (omega (arith, h.0)), ==_ne d b'-' (omega (arith, h.0))) refl) refl
      (digits_lem (d ∷ ds) 0 c rest h stop l)

-- What putdec prints of a number below 2 ^ 31, behind any spaces and tabs and with a minus sign or
-- none, strtol with base 10 reads back as the number with that sign, and stops behind it, at any
-- character that is no digit.
pub strtol-putdec :
    (fuel v : ℕ) (neg : Bool) (pre : List ℕ) (c : ℕ) (rest : List ℕ)
    → v < fuel
    → v < 2 ^ 31
    → Blank pre
    → NoDigit c
    → (s : List ℕ) × (putdec fuel v ≡ some s)
      × (strtol (pre ++ minus neg (s ++ c ∷ rest)) 10 ≡ some (signed neg v, c ∷ rest))
strtol-putdec fuel v neg pre c rest h l blank stop =
    let (s, runs, n) = putdec-Numeral fuel v h in
    (s, runs, read_back s v neg pre c rest n l blank stop)
  where
    read_back :
        (s : List ℕ) (v : ℕ) (neg : Bool) (pre : List ℕ) (c : ℕ) (rest : List ℕ)
        → Numeral v s
        → v < 2 ^ 31
        → Blank pre
        → NoDigit c
        → strtol (pre ++ minus neg (s ++ c ∷ rest)) 10 ≡ some (signed neg v, c ∷ rest)
    read_back [] v neg pre c rest n l blank stop = absurd (n.3 refl)
    read_back (d ∷ ds) v neg pre c rest (e, h, n, filled) l blank stop =
        rw (← e) (signed_lem neg pre d ds c rest blank h stop (rw e l))

-- ===== src/User/Decimal/Value.antt =====
-- The number that putdec prints.
use net_os.Base.{
  ℕ, zero, suc, ◌+◌, ◌-◌, ◌*◌, ◌/◌, ◌%◌, ◌≤◌, ◌<◌, ◌≡◌, ◌≢◌, refl, ◌∙◌, leb, Bool-cases, inl, inr,
  some, List, [], ◌∷◌, ◌++◌, get_elem?, arith,
}
use net_os.User.Decimal.{hex_digits, putdec}

-- The value of a numeral, read from the left, from `n` on.
unfoldable pub value : ℕ → List ℕ → ℕ
value n [] = n
value n (c ∷ s) = value (n * 10 + (c - b'0')) s

-- All characters are decimal digits.
abbrev pub Digits : List ℕ → Type 0
Digits [] = Unit
Digits (c ∷ s) = (b'0' ≤ c) × (c ≤ b'9') × Digits s

-- No zero leads.
abbrev pub NoLeadingZero : List ℕ → Type 0
NoLeadingZero [] = Unit
NoLeadingZero (c ∷ s) = c ≢ b'0'

digit : (d : ℕ) → d < 10 → get_elem? hex_digits d ≡ some (b'0' + d)
digit zero h = refl
digit (suc zero) h = refl
digit (suc (suc zero)) h = refl
digit (suc (suc (suc zero))) h = refl
digit (suc (suc (suc (suc zero)))) h = refl
digit (suc (suc (suc (suc (suc zero))))) h = refl
digit (suc (suc (suc (suc (suc (suc zero)))))) h = refl
digit (suc (suc (suc (suc (suc (suc (suc zero))))))) h = refl
digit (suc (suc (suc (suc (suc (suc (suc (suc zero)))))))) h = refl
digit (suc (suc (suc (suc (suc (suc (suc (suc (suc zero))))))))) h = refl
digit (suc (suc (suc (suc (suc (suc (suc (suc (suc (suc d)))))))))) h = absurd (omega arith)

value-snoc : (n : ℕ) (s : List ℕ) (c : ℕ) → value n (s ++ c ∷ []) ≡ value n s * 10 + (c - b'0')
unfolding value
value-snoc n [] c = refl
value-snoc n (d ∷ s) c = value-snoc (n * 10 + (d - b'0')) s c

Digits-snoc : (s : List ℕ) (c : ℕ) → Digits s → b'0' ≤ c → c ≤ b'9' → Digits (s ++ c ∷ [])
Digits-snoc [] c h l u = (l, u, tt)
Digits-snoc (d ∷ s) c (a, b, h) l u = (a, b, Digits-snoc s c h l u)

-- What a numeral of `v` is.
abbrev pub Numeral : ℕ → List ℕ → Type 0
Numeral v s = (value 0 s ≡ v) × Digits s × (0 < v → NoLeadingZero s) × (s ≢ [])

extended :
    (v : ℕ) (s : List ℕ) → 10 ≤ v → Numeral (v / 10) s → Numeral v (s ++ (b'0' + v % 10) ∷ [])
extended v [] h (e, digits, lead, filled) = absurd (filled refl)
extended v (c ∷ s) h (e, digits, lead, filled) = (
  value-snoc 0 (c ∷ s) (b'0' + v % 10) ∙ omega (arith, e),
  Digits-snoc (c ∷ s) (b'0' + v % 10) digits (omega arith) (omega arith),
  λ pos. lead (omega arith),
  λ z. absurd (cc z),
)

single : (v : ℕ) → v < 10 → Numeral v ((b'0' + v) ∷ [])
unfolding value
single v h = (omega arith, (omega arith, omega arith, tt), λ pos. omega arith, λ z. absurd (cc z))

-- putdec ends on every number and prints a numeral of it: decimal digits with that value, at least one,
-- and no leading zero unless the number is zero. One call more than the number is fuel enough.
pub putdec-Numeral : (fuel v : ℕ) → v < fuel → (s : List ℕ) × (putdec fuel v ≡ some s) × Numeral v s
unfolding putdec
putdec-Numeral zero v h = absurd (omega arith)
putdec-Numeral (suc fuel) v h = elim (Bool-cases (leb 10 v)) [
  | inl e ↦
      let large : 10 ≤ v = ground (arith, e) in
      let (s, runs, n) = putdec-Numeral fuel (v / 10) (omega arith) in
      (
        s ++ (b'0' + v % 10) ∷ [],
        rw (e, runs, digit (v % 10) (omega arith)) refl,
        extended v s large n,
      )
  | inr e ↦
      let small : v < 10 = ground (arith, e) in
      let same : v % 10 ≡ v = omega arith in
      ((b'0' + v) ∷ [], rw (e, same, digit v small) refl, single v small)
]

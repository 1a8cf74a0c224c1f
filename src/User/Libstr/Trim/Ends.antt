-- ===== src/User/Libstr/Trim/Ends.antt =====
-- The loops of trimSpace that replace tabs and find the first and the last word.
use net_os.Base.{
  ℕ, zero, suc, ◌+◌, ◌≡◌, ◌≢◌, refl, sym, ap, ◌∙◌, true, some, List, [], ◌∷◌, ◌++◌, length,
  if◌then◌else◌, ◌==◌, arith, Bool-cases, inl, inr, ◌⊎◌, ==_ne, append-nil, append_assoc,
  length-append, ltb_of_lt, ltb_of_le,
}
use net_os.User.Memory.{load}
use net_os.User.Memory.Laws.{NoNul, load-at, split_last}
use net_os.User.Libstr.{untab, leading, trailing}
use net_os.User.Libstr.Words.{detab, Spaces, EndsWord, starts_word}

pub untab_lem : (s rest : List ℕ) → NoNul s → untab (s ++ 0 ∷ rest) ≡ some (detab s ++ 0 ∷ rest)
unfolding untab detab
untab_lem [] rest h = refl
untab_lem (c ∷ s) rest h = rw (==_ne c 0 h.0, untab_lem s rest h.1)

pub NoNul-detab : (s : List ℕ) → NoNul s → NoNul (detab s)
unfolding detab
NoNul-detab [] h = tt
NoNul-detab (c ∷ s) h = (ground arith, NoNul-detab s h.1)

-- Where the first word starts.
pub leading_lem :
    (s rest : List ℕ)
    → NoNul s
    → (sp : List ℕ) × (t : List ℕ) × (s ≡ sp ++ t)
      × Spaces sp
      × ((t ≡ []) ⊎ (starts_word t ≡ true))
      × (leading (s ++ 0 ∷ rest) ≡ some (length sp))
unfolding leading
leading_lem [] rest h = ([], [], refl, tt, inl refl, refl)
leading_lem (c ∷ s) rest h = elim (Bool-cases (c == b' ')) [
  | inl sp ↦
      let (before, t, e, spaces, starts, runs) = leading_lem s rest h.1 in
      let c32 : c ≡ b' ' = ground arith in
      let one : length before + 1 ≡ suc (length before) = omega arith in
      (c ∷ before, t, ap (λ l. c ∷ l) e, (c32, spaces), starts, rw (sp, runs, one))
  | inr ch ↦ ([], c ∷ s, refl, tt, inr (rw ch), rw ch)
]

EndsWord-snoc : (c d : ℕ) (s : List ℕ) → d ≢ b' ' → EndsWord c (s ++ d ∷ [])
EndsWord-snoc c d [] h = h
EndsWord-snoc c d (x ∷ s) h = EndsWord-snoc x d s h

Spaces-snoc : (s : List ℕ) (d : ℕ) → Spaces s → d ≡ b' ' → Spaces (s ++ d ∷ [])
Spaces-snoc [] d hs hd = (hd, tt)
Spaces-snoc (c ∷ s) d hs hd = (hs.0, Spaces-snoc s d hs.1 hd)

-- One round of the loop from the end, at the character `y`.
module _ (pre : List ℕ) (c : ℕ) (x : List ℕ) (y : ℕ) (tail : List ℕ) where
  regroup : pre ++ (c ∷ ((x ++ y ∷ []) ++ tail)) ≡ (pre ++ c ∷ x) ++ y ∷ tail
  regroup = simp append_assoc

  regroup' : pre ++ (c ∷ ((x ++ y ∷ []) ++ tail)) ≡ pre ++ (c ∷ (x ++ y ∷ tail))
  regroup' = simp append_assoc

  trailing_step :
      trailing
        (length pre)
        (pre ++ (c ∷ ((x ++ y ∷ []) ++ tail)))
        (length pre + suc (suc (length x)))
      ≡ (if y == b' '
          then trailing (length pre) (pre ++ (c ∷ (x ++ y ∷ tail))) (length pre + suc (length x))
          else some (length pre + suc (suc (length x))))
  unfolding trailing
  trailing_step =
      let a : length pre + suc (suc (length x)) ≡ suc (length pre + suc (length x)) = omega arith in
      let here : load (pre ++ (c ∷ ((x ++ y ∷ []) ++ tail))) (length pre + suc (length x))
          ≡ some y =
        rw regroup (load-at (pre ++ c ∷ x) y tail _ (omega (arith, length-append pre (c ∷ x)))) in
      rw (a, ltb_of_lt (length pre) (length pre + suc (length x)) (omega arith), here)
        (ap
          (λ b.
            if y == b' '
            then trailing (length pre) b (length pre + suc (length x))
            else some (suc (length pre + suc (length x))))
          regroup')

-- Where the last word of a text that starts with `c`, not a space, ends.
abbrev Trailed : List ℕ → ℕ → List ℕ → List ℕ → Type 0
Trailed pre c u tail =
    (s : List ℕ) × (sp : List ℕ) × (u ≡ s ++ sp)
    × Spaces sp
    × EndsWord c s
    × (trailing (length pre) (pre ++ (c ∷ (u ++ tail))) (length pre + suc (length u))
        ≡ some (length pre + suc (length s)))

Trailed-snoc :
    (pre : List ℕ) (c : ℕ) (x : List ℕ) (y : ℕ) (tail : List ℕ)
    → c ≢ b' '
    → Trailed pre c x (y ∷ tail)
    → Trailed pre c (x ++ y ∷ []) tail
Trailed-snoc pre c x y tail h (s, sp, e, spaces, ends, runs) =
    let l : length (x ++ y ∷ []) ≡ suc (length x) = omega (arith, length-append x (y ∷ [])) in
    elim (Bool-cases (y == b' ')) [
      | inl blank ↦ (
        s,
        sp ++ y ∷ [],
        rw e (append_assoc s sp (y ∷ [])),
        Spaces-snoc sp y spaces (ground arith),
        ends,
        rw l (trailing_step pre c x y tail ∙ rw blank runs),
      )
      | inr ch ↦ (
        x ++ y ∷ [],
        [],
        sym (append-nil _),
        tt,
        EndsWord-snoc c y x (ground arith),
        rw l (trailing_step pre c x y tail ∙ rw ch refl),
      )
    ]

pub trailing_lem :
    (k : ℕ) (pre : List ℕ) (c : ℕ) (u tail : List ℕ)
    → length u ≡ k
    → c ≢ b' '
    → Trailed pre c u tail
unfolding trailing
trailing_lem zero pre c [] tail e h =
    let a : length pre + 1 ≡ suc (length pre) = omega arith in
    ([], [], refl, tt, h, rw (a, ltb_of_le (length pre) (length pre) (omega arith)))
trailing_lem zero pre c (x ∷ u) tail e h = absurd (omega arith)
trailing_lem (suc k) pre c u tail e h =
    let (x, y, last, lx) = split_last k u e in
    rw last (Trailed-snoc pre c x y tail h (trailing_lem k pre c x (y ∷ tail) lx h))

-- ===== src/Kernel/Fs/Directory/Names.antt =====
-- Names in the entries of a directory of kernel/fs.cc.
use net_os.Base.{
  ℕ, zero, suc, ◌+◌, ◌<◌, ◌≡◌, ◌≢◌, refl, ◌∙◌, true, false, some, List, [], ◌∷◌, ◌++◌, length,
  get_or, slice, slice-shift, ◌==◌, ==_self, ==_ne, eq_of_==, arith, Bool-cases, inl, inr,
}
use net_os.User.Memory.Laws.{NoNul}
use net_os.Kernel.Fs.Directory.{matches}

-- A name padded with 0 or cut to `n` bytes.
abbrev pub padded : List ℕ → ℕ → List ℕ
padded name n = slice (λ j. get_or name j 0) 0 n

padded_tail :
    (c : ℕ) (name : List ℕ) (n : ℕ) → slice (λ j. get_or (c ∷ name) j 0) 1 n ≡ padded name n
padded_tail c name n =
    slice-shift (λ j. get_or (c ∷ name) j 0) (λ j. get_or name j 0) 1 0 n
      (λ i l.
        let e : 1 + i ≡ suc i = omega arith in let z : 0 + i ≡ i = omega arith in rw (e, z) refl)

matches_shift :
    (entry name : List ℕ) (c i : ℕ) → matches entry (c ∷ name) (suc i) ≡ matches entry name i
unfolding matches
matches_shift [] name c i = refl
matches_shift (x ∷ entry) name c i =
    let e : suc i + 1 ≡ suc (i + 1) = omega arith in rw (e, matches_shift entry name c (i + 1)) refl

pub matches_same :
    (name : List ℕ) (n : ℕ)
    → NoNul name
    → length name < n
    → matches (padded name n) (name ++ 0 ∷ []) 0 ≡ some true
unfolding matches
matches_same [] zero c l = elim l [ ]
matches_same [] (suc n) c l = refl
matches_same (x ∷ name) zero c l = absurd (omega (arith, l))
matches_same (x ∷ name) (suc n) c l =
    rw (==_self x, ==_ne x 0 c.0, padded_tail x name n)
      (matches_shift (padded name n) (name ++ 0 ∷ []) x 0
        ∙ matches_same name n c.1 (omega (arith, l)))

pub matches_other :
    (other name : List ℕ) (n : ℕ)
    → NoNul other
    → NoNul name
    → other ≢ name
    → matches (padded other n) (name ++ 0 ∷ []) 0 ≡ some false
unfolding matches
matches_other other name zero c d ne = refl
matches_other [] [] (suc n) c d ne = absurd (ne refl)
matches_other [] (y ∷ name) (suc n) c d ne =
    let e : (0 == y) ≡ false = ground (arith, d.0) in rw e refl
matches_other (x ∷ other) [] (suc n) c d ne = rw (==_ne x 0 c.0) refl
matches_other (x ∷ other) (y ∷ name) (suc n) c d ne = elim (Bool-cases (x == y)) [
  | inl e ↦
      let same : x ≡ y = eq_of_== x y e in
      let differ : other ≢ name = λ q. ne (rw (same, q) refl) in
      rw (e, ==_ne x 0 c.0, padded_tail x other n)
        (matches_shift (padded other n) (name ++ 0 ∷ []) y 0
          ∙ matches_other other name n c.1 d.1 differ)
  | inr e ↦ rw e refl
]

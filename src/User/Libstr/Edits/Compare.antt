-- ===== src/User/Libstr/Edits/Compare.antt =====
-- strEquals of user/libstr.c.
use net_os.Base.{
  ℕ, Bool-cases, inl, inr, ◌<◌, ◌≡◌, refl, some, List, [], ◌∷◌, ◌++◌, arith, ==_ne, ltb,
}
use net_os.User.Memory.Laws.{NoNul}
use net_os.User.Libstr.Edits.{Compared, equal, above, below, str_equals}

-- How two texts lie: equal, or with a common start behind which one ends or has the smaller byte.
data Order : Compared → List ℕ → List ℕ → Type 0 where
  same : (s : List ℕ) → Order equal s s
  ends_first : (p : List ℕ) (d : ℕ) (t : List ℕ) → Order below p (p ++ d ∷ t)
  ends_last : (p : List ℕ) (c : ℕ) (s : List ℕ) → Order above (p ++ c ∷ s) p
  smaller : (p : List ℕ) (c d : ℕ) (s t : List ℕ) → c < d → Order below (p ++ c ∷ s) (p ++ d ∷ t)
  greater : (p : List ℕ) (c d : ℕ) (s t : List ℕ) → d < c → Order above (p ++ c ∷ s) (p ++ d ∷ t)

longer : (c : ℕ) {r : Compared} {s t : List ℕ} → Order r s t → Order r (c ∷ s) (c ∷ t)
longer c (same s) = same (c ∷ s)
longer c (ends_first p d t) = ends_first (c ∷ p) d t
longer c (ends_last p d s) = ends_last (c ∷ p) d s
longer c (smaller p a b s t h) = smaller (c ∷ p) a b s t h
longer c (greater p a b s t h) = greater (c ∷ p) a b s t h

at_equal : (c d : ℕ) {r : Compared} {s t : List ℕ} → c ≡ d → Order r s t → Order r (c ∷ s) (d ∷ t)
at_equal c d e o = rw (← e) (longer c o)

-- strEquals ends on any two C strings without an access outside them and returns 0 on equal texts, -1
-- when the first ends first or has the smaller byte behind a common start, and 1 in the other cases.
str_equals-Order :
    (s t rest rest' : List ℕ)
    → NoNul s
    → NoNul t
    → (r : Compared) × (str_equals (s ++ 0 ∷ rest) (t ++ 0 ∷ rest') ≡ some r) × Order r s t
unfolding str_equals
str_equals-Order [] [] rest rest' cs ct = (equal, refl, same [])
str_equals-Order [] (d ∷ t) rest rest' cs ct = (below, rw (==_ne d 0 ct.0) refl, ends_first [] d t)
str_equals-Order (c ∷ s) [] rest rest' cs ct = (above, rw (==_ne c 0 cs.0) refl, ends_last [] c s)
str_equals-Order (c ∷ s) (d ∷ t) rest rest' cs ct =
    let (r, runs, order) = str_equals-Order s t rest rest' cs.1 ct.1 in
    rw (==_ne c 0 cs.0, ==_ne d 0 ct.0)
      (elim (Bool-cases (ltb c d)) [
        | inl e ↦ (below, rw e refl, smaller [] c d s t (ground (arith, e)))
        | inr e ↦ elim (Bool-cases (ltb d c)) [
          | inl e' ↦ (above, rw (e, e') refl, greater [] c d s t (ground (arith, e')))
          | inr e' ↦ (r, rw (e, e') runs, at_equal c d (ground (arith, e, e')) order)
        ]
      ])

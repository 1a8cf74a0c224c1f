-- ===== src/Base/Slices.antt =====
-- A memory as a function from addresses, and the cells of a range of it in order.
use Prim.Native.Nat.{ℕ, zero, suc, ◌+◌, ◌≤◌, ◌<◌}
use mathlib.Core.Path.{◌≡◌, refl, ap, ◌∙◌}
use mathlib.Core.List.{List, [], ◌∷◌, ◌++◌}
use mathlib.Core.Option.{some}
use native.Mathlib.Omega.{arith}
use net_os.Base.Lists.{length, take, drop, get_elem?}

module _ {ℓ} {A : Type ℓ} where
  abbrev pub get_or : List A → ℕ → A → A
  get_or [] i d = d
  get_or (x ∷ xs) zero d = x
  get_or (x ∷ xs) (suc i) d = get_or xs i d

  -- the cells `off`, `off + 1`, ... of `f`, `n` of them
  abbrev pub slice : (ℕ → A) → ℕ → ℕ → List A
  slice f off zero = []
  slice f off (suc n) = f off ∷ slice f (suc off) n

module _ {ℓ} {A : Type ℓ} where
  pub length-slice : (f : ℕ → A) (off n : ℕ) → length (slice f off n) ≡ n
  length-slice f off zero = refl
  length-slice f off (suc n) = ap suc (length-slice f (suc off) n)

  pub slice-append :
      (f : ℕ → A) (off n m : ℕ) → slice f off n ++ slice f (off + n) m ≡ slice f off (n + m)
  slice-append f off zero m =
      let e : off + 0 ≡ off = omega arith in let e' : 0 + m ≡ m = omega arith in rw (e, e')
  slice-append f off (suc n) m =
      let e : off + suc n ≡ suc off + n = omega arith in
      let e' : suc n + m ≡ suc (n + m) = omega arith in
      rw (e, e') (ap (λ l. f off ∷ l) (slice-append f (suc off) n m))

  -- two memories that agree on shifted ranges have the same slices
  pub slice-shift :
      (f g : ℕ → A) (a b n : ℕ)
      → ((i : ℕ) → i < n → f (a + i) ≡ g (b + i))
      → slice f a n ≡ slice g b n
  slice-shift f g a b zero h = refl
  slice-shift f g a b (suc n) h =
      let ea : a + 0 ≡ a = omega arith in
      let eb : b + 0 ≡ b = omega arith in
      let first : f a ≡ g b = rw (ea, eb) at (h 0 (omega arith)) in
      let rest : slice f (suc a) n ≡ slice g (suc b) n = slice-shift f g (suc a) (suc b) n (λ i p.
        let sa : a + suc i ≡ suc a + i = omega arith in
        let sb : b + suc i ≡ suc b + i = omega arith in rw (sa, sb) at (h (suc i) (omega arith))) in
      rw (first, rest)

  take-drop_step :
      (xs : List A) (o m : ℕ) (d : A)
      → o < length xs
      → take (suc m) (drop o xs) ≡ get_or xs o d ∷ take m (drop (suc o) xs)
  take-drop_step [] o m d h = elim h [ ]
  take-drop_step (x ∷ xs) zero m d h = refl
  take-drop_step (x ∷ xs) (suc o) m d h = take-drop_step xs o m d (omega arith)

  pub take-drop :
      (xs : List A) (o m : ℕ) (d : A)
      → o + m ≤ length xs
      → take m (drop o xs) ≡ slice (λ i. get_or xs i d) o m
  take-drop xs o zero d h = refl
  take-drop xs o (suc m) d h =
      take-drop_step xs o m d (omega arith)
      ∙ ap (λ l. get_or xs o d ∷ l) (take-drop xs (suc o) m d (omega arith))

module _ {ℓ} {A : Type ℓ} where
  pub get_or-append :
      (xs ys : List A) (k : ℕ) (d : A) → k < length xs → get_or (xs ++ ys) k d ≡ get_or xs k d
  get_or-append [] ys k d l = absurd (omega (arith, l))
  get_or-append (x ∷ xs) ys zero d l = refl
  get_or-append (x ∷ xs) ys (suc k) d l = get_or-append xs ys k d (omega (arith, l))

  pub get_or-slice : (f : ℕ → A) (o n k : ℕ) (d : A) → k < n → get_or (slice f o n) k d ≡ f (o + k)
  get_or-slice f o zero k d l = absurd (omega (arith, l))
  get_or-slice f o (suc n) zero d l = ap f (omega arith)
  get_or-slice f o (suc n) (suc k) d l =
      get_or-slice f (suc o) n k d (omega (arith, l)) ∙ ap f (omega arith)

  pub get_elem?-slice :
      (f : ℕ → A) (o n k : ℕ) → k < n → get_elem? (slice f o n) k ≡ some (f (o + k))
  get_elem?-slice f o zero k l = absurd (omega (arith, l))
  get_elem?-slice f o (suc n) zero l = ap (λ x. some (f x)) (omega arith)
  get_elem?-slice f o (suc n) (suc k) l =
      get_elem?-slice f (suc o) n k (omega (arith, l)) ∙ ap (λ x. some (f x)) (omega arith)

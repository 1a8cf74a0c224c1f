-- ===== src/User/Memory/Laws.antt =====
-- Buffers taken apart as lists.
use net_os.Base.{
  ℕ, zero, suc, ◌+◌, ◌≡◌, ◌≢◌, refl, ap, some, List, [], ◌∷◌, ◌++◌, get_elem?, set, length, arith,
  length-append, ltb_of_lt,
}
use net_os.User.Memory.{load, store, memcpy, strlen}

-- No byte is the terminator.
abbrev pub NoNul : List ℕ → Type 0
NoNul [] = Unit
NoNul (c ∷ s) = (c ≢ 0) × NoNul s

pub NoNul-append : (s t : List ℕ) → NoNul s → NoNul t → NoNul (s ++ t)
NoNul-append [] t hs ht = ht
NoNul-append (c ∷ s) t hs ht = (hs.0, NoNul-append s t hs.1 ht)

pub NoNul-left : (s t : List ℕ) → NoNul (s ++ t) → NoNul s
NoNul-left [] t h = tt
NoNul-left (c ∷ s) t h = (h.0, NoNul-left s t h.1)

pub NoNul-right : (s t : List ℕ) → NoNul (s ++ t) → NoNul t
NoNul-right [] t h = h
NoNul-right (c ∷ s) t h = NoNul-right s t h.1

pub get_elem?-append :
    (xs : List ℕ) (y : ℕ) (ys : List ℕ) → get_elem? (xs ++ y ∷ ys) (length xs) ≡ some y
get_elem?-append [] y ys = refl
get_elem?-append (x ∷ xs) y ys = get_elem?-append xs y ys

pub set-append :
    (xs : List ℕ) (y v : ℕ) (ys : List ℕ) → set (xs ++ y ∷ ys) (length xs) v ≡ xs ++ v ∷ ys
set-append [] y v ys = refl
set-append (x ∷ xs) y v ys = ap (λ l. x ∷ l) (set-append xs y v ys)

pub snoc : (l : List ℕ) (z : ℕ) (t : List ℕ) → l ++ z ∷ t ≡ (l ++ z ∷ []) ++ t
snoc [] z t = refl
snoc (x ∷ l) z t = ap (λ m. x ∷ m) (snoc l z t)

-- A load and a store behind a prefix of known length.
pub load-at :
    (xs : List ℕ) (y : ℕ) (ys : List ℕ) (i : ℕ) → i ≡ length xs → load (xs ++ y ∷ ys) i ≡ some y
unfolding load
load-at xs y ys i e = rw e (get_elem?-append xs y ys)

pub store-at :
    (xs : List ℕ) (y v : ℕ) (ys : List ℕ) (i : ℕ)
    → i ≡ length xs
    → store (xs ++ y ∷ ys) i v ≡ some (xs ++ v ∷ ys)
unfolding store
store-at xs y v ys i e = rw (
  e,
  ltb_of_lt (length xs) (length (xs ++ y ∷ ys)) (omega (arith, length-append xs (y ∷ ys))),
  set-append xs y v ys,
)

-- Any list splits at a length that it reaches.
pub split :
    (n m : ℕ) (b : List ℕ)
    → length b ≡ n + m
    → (xs : List ℕ) × (ys : List ℕ) × (b ≡ xs ++ ys) × (length xs ≡ n) × (length ys ≡ m)
split zero m b e = ([], b, refl, refl, omega arith)
split (suc n) m [] e = absurd (omega arith)
split (suc n) m (x ∷ b) e =
    let (xs, ys, e', lx, ly) = split n m b (omega arith) in
    (x ∷ xs, ys, ap (λ l. x ∷ l) e', ap suc lx, ly)

pub split_one :
    (n m : ℕ) (b : List ℕ)
    → length b ≡ n + suc m
    → (xs : List ℕ) × (y : ℕ) × (ys : List ℕ) × (b ≡ xs ++ y ∷ ys) × (length xs ≡ n)
split_one n m [] e = absurd (omega arith)
split_one zero m (x ∷ b) e = ([], x, b, refl, refl)
split_one (suc n) m (x ∷ b) e =
    let (xs, y, ys, e', lx) = split_one n m b (omega arith) in
    (x ∷ xs, y, ys, ap (λ l. x ∷ l) e', ap suc lx)

pub split_last :
    (n : ℕ) (b : List ℕ)
    → length b ≡ suc n
    → (xs : List ℕ) × (y : ℕ) × (b ≡ xs ++ y ∷ []) × (length xs ≡ n)
split_last n [] e = absurd (omega arith)
split_last zero (x ∷ []) e = ([], x, refl, refl)
split_last zero (x ∷ z ∷ b) e = absurd (omega arith)
split_last (suc n) (x ∷ b) e =
    let (xs, y, e', lx) = split_last n b (omega arith) in (x ∷ xs, y, ap (λ l. x ∷ l) e', ap suc lx)

pub memcpy_lem :
    (d₁ d₂ d₃ s₁ s₂ s₃ : List ℕ) (d s n : ℕ)
    → d ≡ length d₁
    → s ≡ length s₁
    → n ≡ length s₂
    → length d₂ ≡ length s₂
    → memcpy (d₁ ++ (d₂ ++ d₃)) d (s₁ ++ (s₂ ++ s₃)) s n ≡ some (d₁ ++ (s₂ ++ d₃))
unfolding memcpy
memcpy_lem d₁ [] d₃ s₁ [] s₃ d s n ed es en el = rw en
memcpy_lem d₁ [] d₃ s₁ (y ∷ s₂) s₃ d s n ed es en el = absurd (omega arith)
memcpy_lem d₁ (x ∷ d₂) d₃ s₁ [] s₃ d s n ed es en el = absurd (omega arith)
memcpy_lem d₁ (x ∷ d₂) d₃ s₁ (y ∷ s₂) s₃ d s n ed es en el =
    rw
      (
        en,
        load-at s₁ y (s₂ ++ s₃) s es,
        store-at d₁ x y (d₂ ++ d₃) d ed,
        snoc d₁ y (d₂ ++ d₃),
        snoc s₁ y (s₂ ++ s₃),
        snoc d₁ y (s₂ ++ d₃),
      )
      (memcpy_lem (d₁ ++ y ∷ []) d₂ d₃ (s₁ ++ y ∷ []) s₂ s₃ (d + 1) (s + 1) (length s₂)
        (omega (arith, length-append d₁ (y ∷ []))) (omega (arith, length-append s₁ (y ∷ []))) refl
        (omega arith))

pub strlen_lem : (s rest : List ℕ) → NoNul s → strlen (s ++ 0 ∷ rest) ≡ some (length s)
unfolding strlen
strlen_lem [] rest h = refl
strlen_lem (zero ∷ s) rest h = absurd (h.0 refl)
strlen_lem (suc c ∷ s) rest h = rw (strlen_lem s rest h.1)

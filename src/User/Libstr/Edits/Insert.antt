-- ===== src/User/Libstr/Edits/Insert.antt =====
-- append, addChar and deleteChar of user/libstr.c, on a text cut in two at the position.
use net_os.Base.{
  ℕ, suc, ◌+◌, ◌-◌, ◌≤◌, ◌≡◌, refl, none, some, List, [], ◌∷◌, ◌++◌, append-nil, append_assoc,
  length, length-append, arith, ltb_of_le,
}
use net_os.User.Memory.{Buffer, Malloc, store, memcpy, strlen}
use net_os.User.Memory.Laws.{
  NoNul, NoNul-append, snoc, split, split_last, store-at, memcpy_lem, strlen_lem,
}
use net_os.User.Libstr.Edits.{append, delete_char, add_char}

-- A block of `a + (b + (c + 1))` bytes in its four parts.
abbrev Parts : ℕ → ℕ → ℕ → Buffer → Type 0
Parts a b c buf =
    (xs ys zs : List ℕ) × (z : ℕ) × (buf ≡ xs ++ (ys ++ (zs ++ z ∷ [])))
    × (length xs ≡ a)
    × (length ys ≡ b)
    × (length zs ≡ c)

cut : (a b c : ℕ) (buf : Buffer) → length buf ≡ a + (b + suc c) → Parts a b c buf
cut a b c buf e =
    let (xs, u, e₁, lx, lu) = split a (b + suc c) buf e in
    let (ys, v, e₂, ly, lv) = split b (suc c) u lu in
    let (zs, z, e₃, lz) = split_last c v lv in (xs, ys, zs, z, rw (← e₃, ← e₂) e₁, lx, ly, lz)

module _ (m : Malloc) where
  append_run :
      (s t b₁ b₂ b₃ out : Buffer) (n k pos : ℕ)
      → strlen s ≡ some n
      → strlen t ≡ some k
      → memcpy (m.fresh (n + k + 1)) 0 s 0 pos ≡ some b₁
      → memcpy b₁ pos t 0 k ≡ some b₂
      → memcpy b₂ (pos + k) s pos (n - pos) ≡ some b₃
      → store b₃ (n + k) 0 ≡ some out
      → append m s t pos ≡ some out
  unfolding append
  append_run s t b₁ b₂ b₃ out n k pos e₁ e₂ e₃ e₄ e₅ e₆ = rw (e₁, e₂, e₃, e₄, e₅, e₆)

  add_char_run :
      (s b₁ b₂ b₃ out : Buffer) (n pos c : ℕ)
      → strlen s ≡ some n
      → memcpy (m.fresh (n + 2)) 0 s 0 pos ≡ some b₁
      → memcpy b₁ (pos + 1) s pos (n - pos) ≡ some b₂
      → store b₂ (n + 1) 0 ≡ some b₃
      → store b₃ pos c ≡ some out
      → add_char m s pos c ≡ some out
  unfolding add_char
  add_char_run s b₁ b₂ b₃ out n pos c e₁ e₂ e₃ e₄ e₅ = rw (e₁, e₂, e₃, e₄, e₅)

  delete_char_run :
      (s b₁ b₂ : Buffer) (n pos : ℕ)
      → strlen s ≡ some n
      → memcpy (m.fresh n) 0 s 0 pos ≡ some b₁
      → memcpy b₁ pos s (pos + 1) (n - pos) ≡ some b₂
      → store b₂ n 0 ≡ none
      → delete_char m s pos ≡ none
  unfolding delete_char
  delete_char_run s b₁ b₂ n pos e₁ e₂ e₃ e₄ = rw (e₁, e₂, e₃, e₄)

strlen_cut :
    (s t rest : List ℕ)
    → NoNul s
    → NoNul t
    → strlen (s ++ (t ++ 0 ∷ rest)) ≡ some (length s + length t)
strlen_cut s t rest cs ct =
    rw (← append_assoc s t (0 ∷ rest), ← length-append s t)
      (strlen_lem (s ++ t) rest (NoNul-append s t cs ct))

-- The copies and the stores, on blocks cut into their parts.
module _ (s t rest xs ys zs : List ℕ) (z : ℕ) (lx : length xs ≡ length s)
    (lz : length zs ≡ length t) where
  head_copy :
      memcpy (xs ++ (ys ++ (zs ++ z ∷ []))) 0 (s ++ (t ++ 0 ∷ rest)) 0 (length s)
      ≡ some (s ++ (ys ++ (zs ++ z ∷ [])))
  head_copy =
      memcpy_lem [] xs (ys ++ (zs ++ z ∷ [])) [] s (t ++ 0 ∷ rest) 0 0 (length s) refl refl refl lx

  tail_copy :
      (ins : List ℕ) (d : ℕ)
      → d ≡ length s + length ins
      → memcpy
          (s ++ (ins ++ (zs ++ z ∷ [])))
          d
          (s ++ (t ++ 0 ∷ rest))
          (length s)
          (length s + length t - length s)
        ≡ some (s ++ (ins ++ (t ++ z ∷ [])))
  tail_copy ins d ed =
      rw (← append_assoc s ins (zs ++ z ∷ []), ← append_assoc s ins (t ++ z ∷ []))
        (memcpy_lem (s ++ ins) zs (z ∷ []) s t (0 ∷ rest) d (length s)
          (length s + length t - length s) (omega (arith, length-append s ins)) refl (omega arith)
          lz)

  end_store :
      (ins : List ℕ) (d : ℕ)
      → d ≡ length s + length ins + length t
      → store (s ++ (ins ++ (t ++ z ∷ []))) d 0 ≡ some (s ++ (ins ++ (t ++ 0 ∷ [])))
  end_store ins d ed =
      let flat : (v : ℕ) → s ++ (ins ++ (t ++ v ∷ [])) ≡ (s ++ (ins ++ t)) ++ v ∷ [] =
        λ v. simp append_assoc in
      rw (flat z, flat 0)
        (store-at (s ++ (ins ++ t)) z 0 [] d
          (omega (arith, length-append s (ins ++ t), length-append ins t)))

one_byte : (ys : List ℕ) → length ys ≡ 1 → (y : ℕ) × (ys ≡ y ∷ [])
one_byte [] h = absurd (omega arith)
one_byte (y ∷ []) h = (y, refl)
one_byte (y ∷ z ∷ ys) h = absurd (omega arith)

-- What stands behind the deleted byte, with its terminator.
delete_copy :
    (s t rest ys : List ℕ) (d : ℕ)
    → length ys ≡ suc (length t)
    → memcpy
        (s ++ ys)
        (length s)
        (s ++ d ∷ (t ++ 0 ∷ rest))
        (length s + 1)
        (length s + suc (length t) - length s)
      ≡ some (s ++ (t ++ 0 ∷ []))
delete_copy s t rest ys d l =
    let copied : memcpy (s ++ (ys ++ [])) (length s) ((s ++ d ∷ []) ++ ((t ++ 0 ∷ []) ++ rest))
          (length s + 1) (length s + suc (length t) - length s)
        ≡ some (s ++ ((t ++ 0 ∷ []) ++ [])) =
      memcpy_lem s ys [] (s ++ d ∷ []) (t ++ 0 ∷ []) rest (length s) (length s + 1)
        (length s + suc (length t) - length s) refl (omega (arith, length-append s (d ∷ [])))
        (omega (arith, length-append t (0 ∷ []))) (omega (arith, l, length-append t (0 ∷ []))) in
    rw (snoc s d (t ++ 0 ∷ rest), snoc t 0 rest)
      (rw (append-nil ys, append-nil (t ++ 0 ∷ [])) at copied)

store-beyond : (b : Buffer) (i v : ℕ) → length b ≤ i → store b i v ≡ none
unfolding store
store-beyond b i v h = rw (ltb_of_le i (length b) h)

module _ (m : Malloc) where
  -- append at the end of the first part of a text ends without an access outside its buffers and
  -- returns the text with the other text between its two parts, terminated.
  pub append-inserts :
      (s t ins rest rest' : List ℕ)
      → NoNul s
      → NoNul t
      → NoNul ins
      → append m (s ++ (t ++ 0 ∷ rest)) (ins ++ 0 ∷ rest') (length s)
        ≡ some (s ++ (ins ++ (t ++ 0 ∷ [])))
  append-inserts s t ins rest rest' cs ct ci =
      let (xs, ys, zs, z, e, lx, ly, lz) =
        cut (length s) (length ins) (length t) (m.fresh (length s + length t + length ins + 1))
          (omega (arith, m.size (length s + length t + length ins + 1))) in
      append_run m (s ++ (t ++ 0 ∷ rest)) (ins ++ 0 ∷ rest') (s ++ (ys ++ (zs ++ z ∷ [])))
        (s ++ (ins ++ (zs ++ z ∷ []))) (s ++ (ins ++ (t ++ z ∷ []))) (s ++ (ins ++ (t ++ 0 ∷ [])))
        (length s + length t) (length ins) (length s) (strlen_cut s t rest cs ct)
        (strlen_lem ins rest' ci) (rw e (head_copy s t rest xs ys zs z lx lz))
        (memcpy_lem s ys (zs ++ z ∷ []) [] ins (0 ∷ rest') (length s) 0 (length ins) refl refl refl
          ly)
        (tail_copy s t rest xs ys zs z lx lz ins (length s + length ins) refl)
        (end_store s t rest xs ys zs z lx lz ins (length s + length t + length ins) (omega arith))

  -- addChar at the end of the first part of a text ends without an access outside its buffers and
  -- returns the text with the character between its two parts, terminated.
  pub add_char-inserts :
      (s t rest : List ℕ) (c : ℕ)
      → NoNul s
      → NoNul t
      → add_char m (s ++ (t ++ 0 ∷ rest)) (length s) c ≡ some (s ++ c ∷ (t ++ 0 ∷ []))
  add_char-inserts s t rest c cs ct =
      let (xs, ys, zs, z, e, lx, ly, lz) =
        cut (length s) 1 (length t) (m.fresh (length s + length t + 2))
          (omega (arith, m.size (length s + length t + 2))) in
      let (y, one) = one_byte ys ly in
      add_char_run m (s ++ (t ++ 0 ∷ rest)) (s ++ (ys ++ (zs ++ z ∷ [])))
        (s ++ (ys ++ (t ++ z ∷ []))) (s ++ (ys ++ (t ++ 0 ∷ []))) (s ++ c ∷ (t ++ 0 ∷ []))
        (length s + length t) (length s) c (strlen_cut s t rest cs ct)
        (rw e (head_copy s t rest xs ys zs z lx lz))
        (tail_copy s t rest xs ys zs z lx lz ys (length s + 1) (omega (arith, ly)))
        (end_store s t rest xs ys zs z lx lz ys (length s + length t + 1) (omega (arith, ly)))
        (rw one (store-at s y c (t ++ 0 ∷ []) (length s) refl))

  -- deleteChar of any character of any C string writes outside the block that it allocates.
  pub delete_char-faults :
      (s t rest : List ℕ) (d : ℕ)
      → NoNul s
      → NoNul (d ∷ t)
      → delete_char m (s ++ d ∷ (t ++ 0 ∷ rest)) (length s) ≡ none
  delete_char-faults s t rest d cs ct =
      let n : ℕ = length s + suc (length t) in
      let (xs, ys, e, lx, ly) = split (length s) (suc (length t)) (m.fresh n) (m.size n) in
      delete_char_run m (s ++ d ∷ (t ++ 0 ∷ rest)) (s ++ ys) (s ++ (t ++ 0 ∷ [])) n (length s)
        (strlen_cut s (d ∷ t) rest cs ct)
        (rw e (memcpy_lem [] xs ys [] s (d ∷ (t ++ 0 ∷ rest)) 0 0 (length s) refl refl refl lx))
        (delete_copy s t rest ys d ly)
        (store-beyond (s ++ (t ++ 0 ∷ [])) n 0
          (omega (arith, length-append s (t ++ 0 ∷ []), length-append t (0 ∷ []))))

-- ===== src/User/Getbuf/Keys.antt =====
-- What each key of getbuf of user/edit.c does to lines that are C strings.
use net_os.Base.{
  ℕ, zero, suc, ◌+◌, ◌-◌, ◌≤◌, ◌≡◌, refl, ap, ◌∙◌, sym, inl, inr, min, some, List, [], ◌∷◌, ◌++◌,
  ltb, take, drop, length, length-append, length-take, append_assoc, append-nil, arith, Bool-cases,
}
use net_os.User.Memory.{Buffer, Malloc, store, memcpy, strlen}
use net_os.User.Memory.Laws.{
  NoNul, NoNul-left, NoNul-right, split_last, store-at, memcpy_lem, strlen_lem,
}
use net_os.User.Libstr.Edits.{add_char}
use net_os.User.Libstr.Edits.Insert.{add_char-inserts}
use net_os.User.Edit.Spec.{AllNoNul, strings}
use net_os.User.Getbuf.{
  Editor, left_arrow, right_arrow, up_arrow, down_arrow, clip, realloc, new_line, type_char,
}
use net_os.User.Getbuf.Text.{Text, IsText, above_line, below_line, split_line, insert_char}

-- The lines as blocks.
abbrev pub image : Text → Editor
image t = record {
  before = strings t.above;
  line = t.line ++ 0 ∷ [];
  after = strings t.below;
  offset = t.at;
}

pub image-left_arrow : (t : Text) → left_arrow (image t) ≡ image (record t { at = t.at - 1 })
unfolding left_arrow
image-left_arrow t = elim (Bool-cases (ltb 0 t.at)) [
  | inl e ↦ rw e refl
  | inr e ↦ let same : t.at - 1 ≡ t.at = ground (arith, e) in rw (e, same) refl
]

pub image-right_arrow :
    (t : Text)
    → IsText t
    → right_arrow (image t) ≡ some (image (record t { at = min (length t.line) (t.at + 1) }))
unfolding right_arrow
image-right_arrow t h = elim (Bool-cases (ltb t.at (length t.line))) [
  | inl e ↦
      let to : min (length t.line) (t.at + 1) ≡ t.at + 1 = ground (arith, e) in
      rw (strlen_lem t.line [] h.line, e, to) refl
  | inr e ↦
      let to : min (length t.line) (t.at + 1) ≡ t.at = ground (arith, e, h.inside) in
      rw (strlen_lem t.line [] h.line, e, to) refl
]

image-clip :
    (t : Text)
    → NoNul t.line
    → clip (image t) ≡ some (image (record t { at = min (length t.line) t.at }))
unfolding clip
image-clip t h = elim (Bool-cases (ltb (length t.line) t.at)) [
  | inl e ↦
      let to : min (length t.line) t.at ≡ length t.line = ground (arith, e) in
      rw (strlen_lem t.line [] h, e, to) refl
  | inr e ↦
      let to : min (length t.line) t.at ≡ t.at = ground (arith, e) in
      rw (strlen_lem t.line [] h, e, to) refl
]

up_at :
    (above : List (List ℕ)) (line : List ℕ) (below : List (List ℕ)) (at : ℕ)
    → AllNoNul above
    → up_arrow (image (record { above = above; line = line; below = below; at = at }))
      ≡ some (image (above_line (record { above = above; line = line; below = below; at = at })))
unfolding up_arrow
up_at [] line below at h = refl
up_at (l ∷ above) line below at h =
    rw (strlen_lem l [] (h.0))
      (image-clip (record { above = above; line = l; below = line ∷ below; at = at }) (h.0))

pub image-up_arrow : (t : Text) → IsText t → up_arrow (image t) ≡ some (image (above_line t))
image-up_arrow t h = up_at t.above t.line t.below t.at h.above

down_at :
    (above : List (List ℕ)) (line : List ℕ) (below : List (List ℕ)) (at : ℕ)
    → NoNul line
    → AllNoNul below
    → down_arrow (image (record { above = above; line = line; below = below; at = at }))
      ≡ some (image (below_line (record { above = above; line = line; below = below; at = at })))
unfolding down_arrow
down_at above line [] at h h' = refl
down_at above line (l ∷ below) at h h' =
    rw (strlen_lem line [] h)
      (image-clip (record { above = line ∷ above; line = l; below = below; at = at }) (h'.0))

pub image-down_arrow : (t : Text) → IsText t → down_arrow (image t) ≡ some (image (below_line t))
image-down_arrow t h = down_at t.above t.line t.below t.at h.line h.below

pub take-drop_append : (n : ℕ) (xs : List ℕ) → take n xs ++ drop n xs ≡ xs
take-drop_append zero xs = refl
take-drop_append (suc n) [] = refl
take-drop_append (suc n) (x ∷ xs) = ap (λ l. x ∷ l) (take-drop_append n xs)

take-more : (a : List ℕ) (z : ℕ) (zs : List ℕ) → take (suc (length a)) (a ++ z ∷ zs) ≡ a ++ z ∷ []
take-more [] z zs = refl
take-more (x ∷ a) z zs = ap (λ l. x ∷ l) (take-more a z zs)

drop-all : (n : ℕ) (xs : List ℕ) → length xs ≤ n → drop n xs ≡ []
drop-all zero [] h = refl
drop-all zero (x ∷ xs) h = absurd (omega (arith, h))
drop-all (suc n) [] h = refl
drop-all (suc n) (x ∷ xs) h = drop-all n xs (omega (arith, h))

-- The rest of a line behind `a`, copied into a block with room for a terminator.
copy_rest :
    (f a b : List ℕ) (k : ℕ)
    → k ≡ length b
    → length f ≡ k + 1
    → (y : ℕ) × (memcpy f 0 ((a ++ b) ++ 0 ∷ []) (length a) k ≡ some (b ++ y ∷ []))
copy_rest f a b k e l =
    let (xs, y, e', l') = split_last k f (omega (arith, l)) in
    (
      y,
      rw (e', append_assoc a b (0 ∷ []))
          (memcpy_lem [] xs (y ∷ []) a b (0 ∷ []) 0 (length a) k refl refl e (l' ∙ e)),
    )

module _ (m : Malloc) where
  newline_run :
      (e : Editor) (n : ℕ) (new₁ new₂ line : Buffer)
      → strlen e.line ≡ some n
      → memcpy (m.fresh (n - e.offset + 1)) 0 e.line e.offset (n - e.offset) ≡ some new₁
      → store new₁ (n - e.offset) 0 ≡ some new₂
      → store (realloc m e.line (e.offset + 1)) e.offset 0 ≡ some line
      → new_line m e
        ≡ some (record { before = line ∷ e.before; line = new₂; after = e.after; offset = 0 })
  unfolding new_line
  newline_run e n new₁ new₂ line a b c d = rw (a, b, c, d) refl

  realloc_lem :
      (a : List ℕ) (z : ℕ) (zs : List ℕ) → realloc m (a ++ z ∷ zs) (length a + 1) ≡ a ++ z ∷ []
  unfolding realloc
  realloc_lem a z zs =
      let gone : drop (length (a ++ z ∷ zs)) (m.fresh (length a + 1)) ≡ [] =
        drop-all (length (a ++ z ∷ zs)) (m.fresh (length a + 1))
          (omega (arith, m.size (length a + 1), length-append a (z ∷ zs))) in
      let one : length a + 1 ≡ suc (length a) = omega arith in
      ap (λ n. take n (a ++ z ∷ zs) ++ drop (length (a ++ z ∷ zs)) (m.fresh (length a + 1))) one
      ∙ ap (λ l. take (suc (length a)) (a ++ z ∷ zs) ++ l) gone
      ∙ append-nil (take (suc (length a)) (a ++ z ∷ zs))
      ∙ take-more a z zs

  cut_short :
      (a b : List ℕ)
      → store (realloc m ((a ++ b) ++ 0 ∷ []) (length a + 1)) (length a) 0 ≡ some (a ++ 0 ∷ [])
  cut_short a [] = rw (append-nil a, realloc_lem a 0 []) (store-at a 0 0 [] (length a) refl)
  cut_short a (z ∷ b) =
      rw (append_assoc a (z ∷ b) (0 ∷ []), realloc_lem a z (b ++ 0 ∷ []))
        (store-at a z 0 [] (length a) refl)

  newline_lem :
      (a b : List ℕ) (before after : List Buffer)
      → NoNul (a ++ b)
      → new_line m
          (record { before = before; line = (a ++ b) ++ 0 ∷ []; after = after; offset = length a })
        ≡ some (record {
          before = (a ++ 0 ∷ []) ∷ before;
          line = b ++ 0 ∷ [];
          after = after;
          offset = 0;
        })
  newline_lem a b before after h =
      let n = length (a ++ b) in
      let rest : n - length a ≡ length b = omega (arith, length-append a b) in
      let (y, copied) =
        copy_rest (m.fresh (n - length a + 1)) a b (n - length a) rest
          (m.size (n - length a + 1)) in
      newline_run _ n (b ++ y ∷ []) (b ++ 0 ∷ []) (a ++ 0 ∷ []) (strlen_lem (a ++ b) [] h) copied
        (store-at b y 0 [] (n - length a) rest) (cut_short a b)

  abbrev place : List Buffer → List ℕ → List Buffer → ℕ → Editor
  place before line after n = record {
    before = before;
    line = line ++ 0 ∷ [];
    after = after;
    offset = n;
  }

  pub image-new_line : (t : Text) → IsText t → new_line m (image t) ≡ some (image (split_line t))
  image-new_line t h =
      let a = take t.at t.line in
      let b = drop t.at t.line in
      let parts : a ++ b ≡ t.line = take-drop_append t.at t.line in
      let size : length a ≡ t.at = omega (arith, length-take t.at t.line, h.inside) in
      ap (λ l. new_line m (place (strings t.above) l (strings t.below) t.at)) (sym parts)
      ∙ ap (λ n. new_line m (place (strings t.above) (a ++ b) (strings t.below) n)) (sym size)
      ∙ newline_lem a b (strings t.above) (strings t.below) (rw parts h.line)

  insert_lem :
      (a b : List ℕ) (c : ℕ) (before after : List Buffer)
      → NoNul (a ++ b)
      → type_char m c (place before (a ++ b) after (length a))
        ≡ some (place before (a ++ c ∷ b) after (length a + 1))
  unfolding type_char
  insert_lem a b c before after h =
      let added : add_char m ((a ++ b) ++ 0 ∷ []) (length a) c ≡ some ((a ++ c ∷ b) ++ 0 ∷ []) =
        ap (λ l. add_char m l (length a) c) (append_assoc a b (0 ∷ []))
        ∙ add_char-inserts m a b [] c (NoNul-left a b h) (NoNul-right a b h)
        ∙ ap some (sym (append_assoc a (c ∷ b) (0 ∷ []))) in
      rw added refl

  pub image-type_char :
      (c : ℕ) (t : Text) → IsText t → type_char m c (image t) ≡ some (image (insert_char c t))
  image-type_char c t h =
      let a = take t.at t.line in
      let b = drop t.at t.line in
      let parts : a ++ b ≡ t.line = take-drop_append t.at t.line in
      let size : length a ≡ t.at = omega (arith, length-take t.at t.line, h.inside) in
      ap (λ l. type_char m c (place (strings t.above) l (strings t.below) t.at)) (sym parts)
      ∙ ap (λ n. type_char m c (place (strings t.above) (a ++ b) (strings t.below) n)) (sym size)
      ∙ insert_lem a b c (strings t.above) (strings t.below) (rw parts h.line)
      ∙ ap (λ n. some (place (strings t.above) (a ++ c ∷ b) (strings t.below) (n + 1))) size

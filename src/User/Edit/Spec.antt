-- ===== src/User/Edit/Spec.antt =====
-- Lines of text and the file they stand in, for user/edit.c.
use net_os.Base.{
  ℕ, ◌≡◌, ◌≢◌, refl, if◌then◌else◌, ◌==◌, ==_ne, List, [], ◌∷◌, ◌++◌, append_assoc, arith,
  Bool-cases, inl, inr,
}
use net_os.User.Memory.Laws.{NoNul, NoNul-append}

-- No byte is a newline.
abbrev pub NoLine : List ℕ → Type 0
NoLine [] = Unit
NoLine (c ∷ s) = (c ≢ 10) × NoLine s

-- The lines of a text that end, with `cur` before the first.
unfoldable pub lines_of : List ℕ → List ℕ → List (List ℕ)
lines_of cur [] = []
lines_of cur (c ∷ rest) =
    let ended = lines_of [] rest in
    let inside = lines_of (cur ++ c ∷ []) rest in if c == 10 then cur ∷ ended else inside

-- The text of lines, each with a newline behind it.
abbrev pub text_of : List (List ℕ) → List ℕ
text_of [] = []
text_of (l ∷ ls) = l ++ 10 ∷ text_of ls

-- The lines as C strings.
abbrev pub strings : List (List ℕ) → List (List ℕ)
strings [] = []
strings (l ∷ ls) = (l ++ 0 ∷ []) ∷ strings ls

abbrev pub AllNoNul : List (List ℕ) → Type 0
AllNoNul [] = Unit
AllNoNul (l ∷ ls) = NoNul l × AllNoNul ls

no_lines : (cur tail : List ℕ) → NoLine tail → lines_of cur tail ≡ []
unfolding lines_of
no_lines cur [] h = refl
no_lines cur (c ∷ tail) h = rw (==_ne c 10 (h.0)) (no_lines (cur ++ c ∷ []) tail (h.1))

pub text_of-lines_of :
    (cur body tail : List ℕ)
    → NoLine tail
    → text_of (lines_of cur (body ++ 10 ∷ tail)) ≡ cur ++ (body ++ 10 ∷ [])
unfolding lines_of
text_of-lines_of cur [] tail h = rw (no_lines [] tail h) refl
text_of-lines_of cur (c ∷ body) tail h = elim (Bool-cases (c == 10)) [
  | inl e ↦ let at : c ≡ 10 = ground (arith, e) in rw (e, text_of-lines_of [] body tail h, at) refl
  | inr e ↦
      rw (e, text_of-lines_of (cur ++ c ∷ []) body tail h)
        (append_assoc cur (c ∷ []) (body ++ 10 ∷ []))
]

pub AllNoNul-lines_of : (cur text : List ℕ) → NoNul cur → NoNul text → AllNoNul (lines_of cur text)
unfolding lines_of
AllNoNul-lines_of cur [] h t = tt
AllNoNul-lines_of cur (c ∷ text) h t = elim (Bool-cases (c == 10)) [
  | inl e ↦ rw e (h, AllNoNul-lines_of [] text tt (t.1))
  | inr e ↦
      rw e (AllNoNul-lines_of (cur ++ c ∷ []) text (NoNul-append cur (c ∷ []) h (t.0, tt)) (t.1))
]

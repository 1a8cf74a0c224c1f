-- ===== src/User/Libstr/Words.antt =====
-- What the README asks of the shell's input line: words separated by single spaces. The words of a
-- text, how they are joined, and the loop of trimSpace as a function on lists.
use net_os.Base.{
  ℕ, ◌≡◌, ◌≢◌, refl, sym, ap, ◌∙◌, Bool, false, not, List, [], ◌∷◌, ◌++◌, if◌then◌else◌, ◌==◌,
  arith, Bool-cases, inl, inr, ==_ne,
}

-- Tabs count as spaces.
unfoldable pub detab : List ℕ → List ℕ
detab [] = []
detab (c ∷ s) = (if c == b'\t' then b' ' else c) ∷ detab s

abbrev pub starts_word : List ℕ → Bool
starts_word [] = false
starts_word (c ∷ s) = not (c == b' ')

-- Puts a character in front of the first word.
abbrev pub prepend : ℕ → List (List ℕ) → List (List ℕ)
prepend c [] = (c ∷ []) ∷ []
prepend c (w ∷ ws) = (c ∷ w) ∷ ws

-- The maximal runs of characters other than the space, in order.
unfoldable pub words : List ℕ → List (List ℕ)
words [] = []
words (c ∷ s) =
    let rest = words s in
    if c == b' ' then rest else if starts_word s then prepend c rest else (c ∷ []) ∷ rest

unfoldable pub join : List (List ℕ) → List ℕ
join [] = []
join (w ∷ ws) = elim ws [ [] ↦ w | _ ∷ _ ↦ w ++ b' ' ∷ join ws ]

-- The characters that the loop keeps, `before` standing in front of the text.
unfoldable pub squeeze : ℕ → List ℕ → List ℕ
squeeze before [] = []
squeeze before (c ∷ s) =
    let rest = squeeze c s in
    if c == b' ' then (if before == b' ' then rest else b' ' ∷ rest) else c ∷ rest

abbrev pub Spaces : List ℕ → Type 0
Spaces [] = Unit
Spaces (c ∷ s) = (c ≡ b' ') × Spaces s

-- The last character, `before` if there is none, is not a space.
abbrev pub EndsWord : ℕ → List ℕ → Type 0
EndsWord before [] = before ≢ b' '
EndsWord before (c ∷ s) = EndsWord c s

join-prepend : (c : ℕ) (ws : List (List ℕ)) → join (prepend c ws) ≡ c ∷ join ws
unfolding join
join-prepend c [] = refl
join-prepend c (w ∷ []) = refl
join-prepend c (w ∷ v ∷ ws) = refl

join-one : (w : List ℕ) → join (w ∷ []) ≡ w
unfolding join
join-one w = refl

join-cons : (w : List ℕ) (ws : List (List ℕ)) → ws ≢ [] → join (w ∷ ws) ≡ w ++ b' ' ∷ join ws
unfolding join
join-cons w [] h = absurd (h refl)
join-cons w (v ∷ ws) h = refl

prepend-ne-nil : (c : ℕ) (ws : List (List ℕ)) → prepend c ws ≢ []
prepend-ne-nil c [] h = ground arith
prepend-ne-nil c (w ∷ ws) h = ground arith

words-ne-nil : (s : List ℕ) → EndsWord b' ' s → words s ≢ []
unfolding words
words-ne-nil [] h e = h refl
words-ne-nil (c ∷ s) h e = elim (Bool-cases (c == b' ')) [
  | inl sp ↦ let c32 : c ≡ b' ' = ground arith in words-ne-nil s (rw c32 at h) (rw sp at e)
  | inr ch ↦ elim (Bool-cases (starts_word s)) [
    | inl st ↦ prepend-ne-nil c (words s) (rw (ch, st) at e)
    | inr st ↦ cc (rw (ch, st) at e)
  ]
]

-- The loop on a text that ends in a word joins its words.
squeeze-join :
    (s : List ℕ) (c : ℕ)
    → EndsWord c s
    → (c ≢ b' ' → c ∷ squeeze c s ≡ join (words (c ∷ s)))
      × (c ≡ b' ' → squeeze c s ≡ join (words s))
unfolding squeeze words
squeeze-join [] c h = (λ ch. rw (==_ne c b' ' ch) (sym (join-one (c ∷ []))), λ sp. absurd (h sp))
squeeze-join (d ∷ s) c h = elim (Bool-cases (d == b' ')) [
  | inl sp ↦
      let d32 : d ≡ b' ' = ground arith in
      let ih = (squeeze-join s d h).1 d32 in
      let some_word = words-ne-nil s (rw d32 at h) in
      (
        λ ch.
            rw (==_ne c b' ' ch, sp, join-cons (c ∷ []) (words s) some_word)
              (ap (λ l. c ∷ b' ' ∷ l) ih),
        λ e. rw (sp, ap (λ n. n == b' ') e) ih,
      )
  | inr ch ↦
      let ih = (squeeze-join s d h).0 (ground arith) in
      (
        λ cn.
            rw (==_ne c b' ' cn, ch) (sym (join-prepend c _ ∙ ap (λ l. c ∷ l) (sym (rw ch at ih)))),
        λ e. rw ch (rw ch at ih),
      )
]

-- Spaces around a text leave its words alone.
pub words-skip : (sp s : List ℕ) → Spaces sp → words (sp ++ s) ≡ words s
unfolding words
words-skip [] s h = refl
words-skip (c ∷ sp) s h = rw h.0 (words-skip sp s h.1)

pub words-Spaces : (sp : List ℕ) → Spaces sp → words sp ≡ []
unfolding words
words-Spaces [] h = refl
words-Spaces (c ∷ sp) h = rw h.0 (words-Spaces sp h.1)

starts_word-append : (s sp : List ℕ) → Spaces sp → starts_word (s ++ sp) ≡ starts_word s
starts_word-append [] [] h = refl
starts_word-append [] (c ∷ sp) h = rw h.0
starts_word-append (c ∷ s) sp h = refl

pub words-append-Spaces : (s sp : List ℕ) → Spaces sp → words (s ++ sp) ≡ words s
unfolding words
words-append-Spaces [] sp h = words-Spaces sp h
words-append-Spaces (c ∷ s) sp h = rw (words-append-Spaces s sp h, starts_word-append s sp h)

-- What the loop makes of a text that starts and ends in a word.
pub squeeze-words :
    (c : ℕ) (s : List ℕ) → c ≢ b' ' → EndsWord c s → c ∷ squeeze c s ≡ join (words (c ∷ s))
squeeze-words c s h e = (squeeze-join s c e).0 h

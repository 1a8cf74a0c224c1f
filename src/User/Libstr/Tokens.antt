-- ===== src/User/Libstr/Tokens.antt =====
-- tokenize of user/libstr.c: it splits a line into its words.
use net_os.Base.{
  ℕ, zero, suc, ◌+◌, ◌<◌, ◌≤◌, ◌≡◌, ◌≢◌, refl, ap, ◌∙◌, true, false, ◌||◌, Option, none, some, List,
  [], ◌∷◌, ◌++◌, length, ◌==◌, arith, Bool-cases, inl, inr, ==_ne, append_assoc, ◌>>=◌,
  length-append,
}
use net_os.User.Memory.{Buffer, Malloc, load, strlen}
use net_os.User.Memory.Laws.{NoNul, NoNul-append, load-at, store-at, strlen_lem, snoc}
use net_os.User.Libstr.{trim_space, count_spaces, copy_token, token_loop, tokenize}
use net_os.User.Libstr.Words.{detab, words, join, prepend, starts_word}
use net_os.User.Libstr.Trim.{Holds, trim_space-words}
use net_os.User.Libstr.Trim.Ends.{NoNul-detab}

-- Neither spaces nor terminators.
abbrev pub Plain : List ℕ → Type 0
Plain [] = Unit
Plain (c ∷ w) = (c ≢ b' ') × (c ≢ 0) × Plain w

abbrev pub AllWords : List (List ℕ) → Type 0
AllWords [] = Unit
AllWords (w ∷ ws) = Plain w × (w ≢ []) × AllWords ws

AllWords-prepend :
    (c : ℕ) (ws : List (List ℕ)) → c ≢ b' ' → c ≢ 0 → AllWords ws → AllWords (prepend c ws)
AllWords-prepend c [] h z all = ((h, z, tt), λ e. cc, tt)
AllWords-prepend c (w ∷ ws) h z all = ((h, z, all.0), λ e. cc, all.2)

words-AllWords : (s : List ℕ) → NoNul s → AllWords (words s)
unfolding words
words-AllWords [] h = tt
words-AllWords (c ∷ s) h = elim (Bool-cases (c == b' ')) [
  | inl sp ↦ rw sp (words-AllWords s h.1)
  | inr ch ↦ elim (Bool-cases (starts_word s)) [
    | inl st ↦ rw (ch, st) (AllWords-prepend c (words s) (ground arith) h.0 (words-AllWords s h.1))
    | inr st ↦ rw (ch, st) ((ground arith, h.0, tt), λ e. cc, words-AllWords s h.1)
  ]
]

Plain-NoNul : (w : List ℕ) → Plain w → NoNul w
Plain-NoNul [] h = tt
Plain-NoNul (c ∷ w) h = (h.1, Plain-NoNul w h.2)

join-NoNul : (ws : List (List ℕ)) → AllWords ws → NoNul (join ws)
unfolding join
join-NoNul [] h = tt
join-NoNul (w ∷ []) h = Plain-NoNul w h.0
join-NoNul (w ∷ v ∷ ws) h =
    NoNul-append w _ (Plain-NoNul w h.0) ((λ e. absurd (omega (arith, e))), join-NoNul (v ∷ ws) h.2)

count_spaces-Plain : (w b : List ℕ) → Plain w → count_spaces (w ++ b) ≡ count_spaces b
unfolding count_spaces
count_spaces-Plain [] b h = refl
count_spaces-Plain (c ∷ w) b h =
    rw (==_ne c 0 h.1, ==_ne c b' ' h.0, count_spaces-Plain w b h.2) (same (count_spaces b))
  where
    same : (o : Option ℕ) → (o >>= λ n. some n) ≡ o
    same none = refl
    same (some n) = refl

count_spaces-join :
    (w : List ℕ) (ws : List (List ℕ)) (rest : List ℕ)
    → AllWords (w ∷ ws)
    → count_spaces (join (w ∷ ws) ++ 0 ∷ rest) ≡ some (length ws)
unfolding join count_spaces
count_spaces-join w [] rest h = count_spaces-Plain w (0 ∷ rest) h.0
count_spaces-join w (v ∷ ws) rest h =
    let one : length ws + 1 ≡ suc (length ws) = omega arith in
    rw (
      append_assoc w (b' ' ∷ join (v ∷ ws)) (0 ∷ rest),
      count_spaces-Plain w (b' ' ∷ (join (v ∷ ws) ++ 0 ∷ rest)) h.0,
      count_spaces-join v ws rest h.2,
      one,
    )

-- The inner loop copies one word, up to the space or the terminator `d`, into a large enough buffer.
copy_token_lem :
    (w p : List ℕ) (d : ℕ) (q done gap : List ℕ) (fuel start j : ℕ)
    → Plain w
    → ((d == b' ') || (d == 0)) ≡ true
    → length w < length gap
    → length w < fuel
    → start ≡ length p
    → j ≡ length done
    → (rest : List ℕ) × (copy_token fuel (p ++ (w ++ d ∷ q)) (done ++ gap) start j
        ≡ some (done ++ (w ++ 0 ∷ rest), start + length w))
unfolding copy_token
copy_token_lem w p d q done gap zero start j plain stop room fuel es ej = elim fuel [ ]
copy_token_lem w p d q done [] (suc f) start j plain stop room fuel es ej = elim room [ ]
copy_token_lem [] p d q done (x ∷ gap) (suc f) start j plain stop room fuel es ej =
    let z : start + 0 ≡ start = omega arith in
    (gap, rw (load-at p d q start es, stop, store-at done x 0 gap j ej, z))
copy_token_lem (c ∷ w) p d q done (x ∷ gap) (suc f) start j plain stop room fuel es ej =
    let (rest, runs) =
      copy_token_lem w (p ++ c ∷ []) d q (done ++ c ∷ []) gap f (start + 1) (j + 1) plain.2 stop
        (omega arith) (omega arith) (omega (arith, length-append p (c ∷ [])))
        (omega (arith, length-append done (c ∷ []))) in
    let one : start + 1 + length w ≡ start + suc (length w) = omega arith in
    (
      rest,
      rw
          (
            load-at p c (w ++ d ∷ q) start es,
            ==_ne c b' ' plain.0,
            ==_ne c 0 plain.1,
            store-at done x c gap j ej,
            snoc p c (w ++ d ∷ q),
            snoc done c gap,
          )
          (runs ∙ rw (one, snoc done c (w ++ 0 ∷ rest))),
    )

abbrev pub AllHold : List Buffer → List (List ℕ) → Type 0
AllHold [] [] = Unit
AllHold (b ∷ bs) (w ∷ ws) = Holds b w × AllHold bs ws
AllHold _ _ = ⊥

le-join : (w : List ℕ) (ws : List (List ℕ)) → length w ≤ length (join (w ∷ ws))
unfolding join
le-join w [] = omega arith
le-join w (v ∷ ws) = omega (arith, length-append w (b' ' ∷ join (v ∷ ws)))

module _ (m : Malloc) where
  token_step :
      (n len start start' : ℕ) (str s : Buffer) (ts : List Buffer)
      → strlen str ≡ some len
      → copy_token (len + 1) str (m.fresh (len + 1)) start 0 ≡ some (s, start')
      → token_loop m n str (start' + 1) ≡ some ts
      → token_loop m (suc n) str start ≡ some (s ∷ ts)
  unfolding token_loop
  token_step n len start start' str s ts e₁ e₂ e₃ = rw (e₁, e₂, e₃)

  -- The token at a word `w` with `d` behind it.
  one_token :
      (p w : List ℕ) (d : ℕ) (q : List ℕ) (len : ℕ)
      → Plain w
      → ((d == b' ') || (d == 0)) ≡ true
      → length w ≤ len
      → (rest : List ℕ) × (copy_token (len + 1) (p ++ (w ++ d ∷ q)) (m.fresh (len + 1)) (length p) 0
          ≡ some (w ++ 0 ∷ rest, length p + length w))
  one_token p w d q len plain stop room =
      copy_token_lem w p d q [] (m.fresh (len + 1)) (len + 1) (length p) 0 plain stop
        (omega (arith, m.size (len + 1))) (omega arith) refl refl

  token_loop_lem :
      (w : List ℕ) (ws : List (List ℕ)) (pre rest : List ℕ)
      → AllWords (w ∷ ws)
      → NoNul pre
      → (ts : List Buffer) × (token_loop m
            (suc (length ws))
            (pre ++ (join (w ∷ ws) ++ 0 ∷ rest))
            (length pre)
          ≡ some ts)
        × AllHold ts (w ∷ ws)
  unfolding join token_loop
  token_loop_lem w [] pre rest all clean =
      let len : strlen (pre ++ (w ++ 0 ∷ rest)) ≡ some (length (pre ++ w)) =
        rw (← append_assoc pre w (0 ∷ rest))
          (strlen_lem (pre ++ w) rest (NoNul-append pre w clean (Plain-NoNul w all.0))) in
      let (junk, copied) =
        one_token pre w 0 rest (length (pre ++ w)) all.0 refl
          (omega (arith, length-append pre w)) in
      (
        (w ++ 0 ∷ junk) ∷ [],
        token_step 0 (length (pre ++ w)) (length pre) (length pre + length w) _ (w ++ 0 ∷ junk) []
            len copied refl,
        ((junk, refl), tt),
      )
  token_loop_lem w (v ∷ ws) pre rest all clean =
      let tail = join (v ∷ ws) ++ 0 ∷ rest in
      let text = w ++ b' ' ∷ join (v ∷ ws) in
      let str = pre ++ (text ++ 0 ∷ rest) in
      let len : strlen str ≡ some (length (pre ++ text)) = rw (← append_assoc pre text (0 ∷ rest)) (
        strlen_lem (pre ++ text) rest
          (NoNul-append pre text clean (join-NoNul (w ∷ v ∷ ws) all))) in
      let pre' = (pre ++ w) ++ b' ' ∷ [] in
      let at_space : str ≡ pre ++ (w ++ b' ' ∷ tail) = simp append_assoc in
      let at_next : str ≡ pre' ++ tail = simp append_assoc in
      let clean' : NoNul pre' =
        NoNul-append (pre ++ w) (b' ' ∷ []) (NoNul-append pre w clean (Plain-NoNul w all.0))
          ((λ e. absurd (omega (arith, e))), tt) in
      let here =
        one_token pre w b' ' tail (length (pre ++ text)) all.0 refl
          (omega (arith, length-append pre text, length-append w (b' ' ∷ join (v ∷ ws)))) in
      let next = token_loop_lem v ws pre' rest all.2 clean' in
      let place : length pre + length w + 1 ≡ length pre' =
        omega (arith, length-append (pre ++ w) (b' ' ∷ []), length-append pre w) in
      (
        (w ++ 0 ∷ here.0) ∷ next.0,
        token_step (suc (length ws)) (length (pre ++ text)) (length pre) (length pre + length w) str
            (w ++ 0 ∷ here.0) next.0 len (rw at_space here.1) (rw (place, at_next) next.1),
        ((here.0, refl), next.2),
      )

-- What tokenize should return for a line with the words `ws`: the null pointer for an empty line,
-- otherwise a token for each word, and their number.
abbrev pub Tokenized : Option (Option (List Buffer × ℕ)) → List (List ℕ) → Type 0
Tokenized none ws = ⊥
Tokenized (some none) ws = ws ≡ []
Tokenized (some (some (ts, argc))) ws = AllHold ts ws × (argc ≡ length ws) × (ws ≢ [])

load_end : (rest : List ℕ) → load (join [] ++ 0 ∷ rest) 0 ≡ some 0
unfolding join load
load_end rest = refl

first_char :
    (w : List ℕ) (ws : List (List ℕ)) (rest : List ℕ)
    → AllWords (w ∷ ws)
    → (c : ℕ) × (load (join (w ∷ ws) ++ 0 ∷ rest) 0 ≡ some c) × ((c == 0) ≡ false)
unfolding join load
first_char [] ws rest all = absurd (all.1 refl)
first_char (c ∷ w) [] rest all = (c, refl, ==_ne c 0 (all.0).1)
first_char (c ∷ w) (v ∷ ws) rest all = (c, refl, ==_ne c 0 (all.0).1)

module _ (m : Malloc) where
  tokens_of :
      (ws : List (List ℕ)) (str rest : List ℕ)
      → AllWords ws
      → trim_space m str ≡ some (join ws ++ 0 ∷ rest)
      → Tokenized (tokenize m str) ws
  unfolding tokenize
  tokens_of [] str rest all trimmed = rw (trimmed, load_end rest) refl
  tokens_of (w ∷ ws) str rest all trimmed =
      let (c, first, more) = first_char w ws rest all in
      let (ts, runs, held) = token_loop_lem m w ws [] rest all tt in
      let one : length ws + 1 ≡ suc (length ws) = omega arith in
      rw (trimmed, first, more, count_spaces-join w ws rest all, one, runs) (held, refl, λ e. cc)

  -- tokenize ends on every C string without an access outside its buffers. It returns the null
  -- pointer if the line has no word, and otherwise the words of the line in order, tabs being spaces,
  -- each a C string of its own, and sets `*argc` to their number.
  pub tokenize-words :
      (s rest : List ℕ) → NoNul s → Tokenized (tokenize m (s ++ 0 ∷ rest)) (words (detab s))
  tokenize-words s rest h =
      let (out, runs, holds) = trim_space-words m s rest h in
      tokens_of (words (detab s)) (s ++ 0 ∷ rest) holds.0
        (words-AllWords (detab s) (NoNul-detab s h)) (runs ∙ ap some holds.1)

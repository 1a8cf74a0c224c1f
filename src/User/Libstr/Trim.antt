-- ===== src/User/Libstr/Trim.antt =====
-- trimSpace of user/libstr.c, loop by loop, and whole.
pub mod Squeeze
pub mod Ends
use net_os.Base.{
  ℕ, zero, suc, ◌+◌, ◌-◌, ◌<◌, ◌≤◌, ◌≡◌, ◌≢◌, refl, sym, ap, ◌∙◌, Bool, true, false, not, Option,
  none, some, List, [], ◌∷◌, ◌++◌, length, if◌then◌else◌, ◌==◌, arith, Bool-cases, inl, inr, ◌⊎◌,
  ==_ne, append-nil, append_assoc, ◌>>=◌, ltb, length-append, ltb_of_lt, ltb_of_le,
}
use net_os.User.Memory.{Buffer, Malloc, load, store, memcpy, strlen}
use net_os.User.Memory.Laws.{NoNul}
use net_os.User.Libstr.{trim_space}
use net_os.User.Memory.Laws.{
  split, split_one, load-at, NoNul-left, NoNul-right, store-at, memcpy_lem, strlen_lem,
  NoNul-append,
}
use net_os.User.Libstr.{untab, leading, trailing, squeeze_loop, squeeze_round}
use net_os.User.Libstr.Words.{
  detab, words, join, squeeze, Spaces, EndsWord, starts_word, words-skip, words-append-Spaces,
  words-Spaces, squeeze-words,
}
use net_os.User.Libstr.Trim.Ends.{untab_lem, NoNul-detab, leading_lem, trailing_lem}
use net_os.User.Libstr.Trim.Squeeze.{squeeze_loop_lem}

nil_of_length : (ys : List ℕ) → length ys ≡ 0 → ys ≡ []
nil_of_length [] h = refl
nil_of_length (y ∷ ys) h = absurd (omega arith)

-- A buffer that starts with the text `s` and its terminator.
abbrev pub Holds : Buffer → List ℕ → Type 0
Holds b s = (rest : List ℕ) × (b ≡ s ++ 0 ∷ rest)

module _ (m : Malloc) where
  -- `malloc(n + 1)`, a copy of the text `s` of length `n` that stands behind `pre`, and the terminator.
  pub copy_lem :
      (pre s rest : List ℕ) (i n : ℕ)
      → i ≡ length pre
      → n ≡ length s
      → (copy : Buffer) × (memcpy (m.fresh (n + 1)) 0 (pre ++ (s ++ rest)) i n ≡ some copy)
        × (store copy n 0 ≡ some (s ++ 0 ∷ []))
  copy_lem pre s rest i n ei en =
      let (xs, y, ys, e, lx) = split_one n 0 (m.fresh (n + 1)) (omega (arith, m.size (n + 1))) in
      let none_left : ys ≡ [] =
        nil_of_length ys (omega (arith, m.size (n + 1), ap length e, length-append xs (y ∷ ys))) in
      (
        s ++ y ∷ [],
        rw (e, none_left) (memcpy_lem [] xs (y ∷ []) pre s rest 0 i n refl ei en (omega arith)),
        store-at s y 0 [] n en,
      )

-- A text without spaces at its ends.
data Core : List ℕ → Type 0 where
  empty : Core []
  text : {c : ℕ} {s : List ℕ} → c ≢ b' ' → EndsWord c s → Core (c ∷ s)

-- What the two loops find: spaces, a text without spaces at its ends, spaces.
record Bounds (u core sp tr : List ℕ) : Type 0 where
  parts : u ≡ sp ++ (core ++ tr)
  before : Spaces sp
  behind : Spaces tr
  is_core : Core core
  first : leading (u ++ 0 ∷ []) ≡ some (length sp)
  end : trailing (length sp) (u ++ 0 ∷ []) (length u) ≡ some (length sp + length core)

trailing_at_start : (n : ℕ) (b : Buffer) → trailing n b n ≡ some n
unfolding trailing
trailing_at_start zero b = refl
trailing_at_start (suc n) b = rw (ltb_of_le (suc n) n (omega arith))

Bounds-of :
    (u sp t : List ℕ)
    → u ≡ sp ++ t
    → Spaces sp
    → (t ≡ []) ⊎ (starts_word t ≡ true)
    → leading (u ++ 0 ∷ []) ≡ some (length sp)
    → (core : List ℕ) × (tr : List ℕ) × Bounds u core sp tr
Bounds-of u sp [] e spaces start first =
    let all : u ≡ sp = e ∙ append-nil sp in
    let z : length sp + 0 ≡ length sp = omega arith in
    (
      [],
      [],
      record {
        parts = e;
        before = spaces;
        behind = tt;
        is_core = empty;
        first = first;
        end = rw (z, all) (trailing_at_start (length sp) (sp ++ 0 ∷ []));
      },
    )
Bounds-of u sp (c ∷ t) e spaces start first =
    let word : c ≢ b' ' = ground (arith, start) in
    let (s, tr, e', behind, ends, runs) = trailing_lem (length t) sp c t (0 ∷ []) refl word in
    let l : length u ≡ length sp + suc (length t) =
      omega (arith, ap length e, length-append sp (c ∷ t)) in
    let b : u ++ 0 ∷ [] ≡ sp ++ (c ∷ (t ++ 0 ∷ [])) = rw e (append_assoc sp (c ∷ t) (0 ∷ [])) in
    (
      c ∷ s,
      tr,
      record {
        parts = e ∙ ap (λ l. sp ++ c ∷ l) e';
        before = spaces;
        behind = behind;
        is_core = text word ends;
        first = first;
        end = rw (l, b) runs;
      },
    )

-- The words of a text are those of its core.
Bounds-words : {u core sp tr : List ℕ} → Bounds u core sp tr → words u ≡ words core
Bounds-words {u} {core} {sp} {tr} b =
    rw b.parts (words-skip sp (core ++ tr) b.before ∙ words-append-Spaces core tr b.behind)

store_in :
    (xs rest : List ℕ)
    → (end : Buffer) × (store (xs ++ (rest ++ 0 ∷ [])) (length xs) 0 ≡ some end) × Holds end xs
store_in xs [] = (xs ++ 0 ∷ [], store-at xs 0 0 [] (length xs) refl, ([], refl))
store_in xs (y ∷ rest) = (
  xs ++ 0 ∷ (rest ++ 0 ∷ []),
  store-at xs y 0 (rest ++ 0 ∷ []) (length xs) refl,
  (rest ++ 0 ∷ [], refl),
)

first_round : (c : ℕ) (b : Buffer) → c ≢ b' ' → squeeze_round (c ∷ b) 0 0 ≡ some (c ∷ b, 1)
unfolding squeeze_round
first_round c b h = rw (load-at [] c b 0 refl, ==_ne c b' ' h, store-at [] c c b 0 refl)

finish_text :
    (c : ℕ) (s : List ℕ)
    → c ≢ b' '
    → (out : Buffer) × (j : ℕ) × (end : Buffer) × (squeeze_loop
          (suc (length s))
          (c ∷ (s ++ 0 ∷ []))
          0
          0
        ≡ some (out, j))
      × (store out j 0 ≡ some end)
      × Holds end (c ∷ squeeze c s)
unfolding squeeze_loop
finish_text c s h =
    let (rest, runs) = squeeze_loop_lem s (c ∷ []) [] c (0 ∷ []) ([], refl) in
    let (end, stores, holds) = store_in (c ∷ squeeze c s) rest in
    let one : 1 + length (squeeze c s) ≡ suc (length (squeeze c s)) = omega arith in
    (
      (c ∷ squeeze c s) ++ (rest ++ 0 ∷ []),
      suc (length (squeeze c s)),
      end,
      rw (first_round c (s ++ 0 ∷ []) h) (rw one at runs),
      stores,
      holds,
    )

finish_words :
    (c : ℕ) (s : List ℕ)
    → c ≢ b' '
    → EndsWord c s
    → (out : Buffer) × (j : ℕ) × (end : Buffer) × (squeeze_loop
          (suc (length s))
          (c ∷ (s ++ 0 ∷ []))
          0
          0
        ≡ some (out, j))
      × (store out j 0 ≡ some end)
      × Holds end (join (words (c ∷ s)))
finish_words c s word ends = rw (← squeeze-words c s word ends) (finish_text c s word)

-- The last loop and the last terminator, on a copy of the core.
finish_lem :
    {core : List ℕ}
    → Core core
    → (out : Buffer) × (j : ℕ) × (end : Buffer) × (squeeze_loop (length core) (core ++ 0 ∷ []) 0 0
        ≡ some (out, j))
      × (store out j 0 ≡ some end)
      × Holds end (join (words core))
unfolding squeeze_loop words join
finish_lem empty = (0 ∷ [], 0, 0 ∷ [], refl, store-at [] 0 0 [] 0 refl, ([], refl))
finish_lem (text {c} {s} word ends) = finish_words c s word ends

-- The calls of trimSpace, put together.
module _ (m : Malloc) where
  trim_run :
      (strr b₁ b₂ b₃ b₄ b₅ out e : Buffer) (n len first end size len' j : ℕ)
      → strlen strr ≡ some n
      → memcpy (m.fresh (n + 1)) 0 strr 0 n ≡ some b₁
      → store b₁ n 0 ≡ some b₂
      → untab b₂ ≡ some b₃
      → strlen b₃ ≡ some len
      → leading b₃ ≡ some first
      → trailing first b₃ len ≡ some end
      → (if ltb (end - first) len then end - first else len) ≡ size
      → memcpy (m.fresh (size + 1)) 0 b₃ first size ≡ some b₄
      → store b₄ size 0 ≡ some b₅
      → strlen b₅ ≡ some len'
      → squeeze_loop len' b₅ 0 0 ≡ some (out, j)
      → store out j 0 ≡ some e
      → trim_space m strr ≡ some e
  unfolding trim_space
  trim_run strr b₁ b₂ b₃ b₄ b₅ out e n len first end size len' j e₁ e₂ e₃ e₄ e₅ e₆ e₇ e₈ e₉ f₁ f₂ f₃
        f₄ =
      rw (e₁, e₂, e₃, e₄, e₅, e₆, e₇, e₈, e₉, f₁, f₂, f₃, f₄)

  -- From the first copy on, without its tabs.
  trim_copied :
      (strr b₁ b₂ : Buffer) (n : ℕ) (u : List ℕ)
      → strlen strr ≡ some n
      → memcpy (m.fresh (n + 1)) 0 strr 0 n ≡ some b₁
      → store b₁ n 0 ≡ some b₂
      → untab b₂ ≡ some (u ++ 0 ∷ [])
      → NoNul u
      → (out : Buffer) × (trim_space m strr ≡ some out) × Holds out (join (words u))
  trim_copied strr b₁ b₂ n u e₁ e₂ e₃ e₄ clean =
      let (sp, t, e, spaces, start, first) = leading_lem u [] clean in
      let (core, tr, b) = Bounds-of u sp t e spaces start first in
      let c = copy_lem m sp core (tr ++ 0 ∷ []) (length sp) (length core) refl refl in
      let (out, j, end, loop, last, holds) = finish_lem b.is_core in
      let all : u ++ 0 ∷ [] ≡ sp ++ (core ++ (tr ++ 0 ∷ [])) = rw (b.parts) (simp append_assoc) in
      let clean_core : NoNul core =
        NoNul-left core tr (NoNul-right sp (core ++ tr) (rw b.parts at clean)) in
      let size : (if ltb (length sp + length core - length sp) (length u)
            then length sp + length core - length sp
            else length u)
          ≡ length core =
        ground (arith, ap length b.parts, length-append sp (core ++ tr), length-append core tr) in
      (
        end,
        trim_run strr b₁ b₂ (u ++ 0 ∷ []) c.0 (core ++ 0 ∷ []) out end n (length u) (length sp)
            (length sp + length core) (length core) (length core) j e₁ e₂ e₃ e₄
            (strlen_lem u [] clean) b.first b.end size (rw all c.1) c.2
            (strlen_lem core [] clean_core) loop last,
        rw (Bounds-words b) holds,
      )

  -- trimSpace ends on every C string, without a read or a write outside its buffers, and returns the
  -- words of the text (tabs being spaces), separated by single spaces.
  pub trim_space-words :
      (s rest : List ℕ)
      → NoNul s
      → (out : Buffer) × (trim_space m (s ++ 0 ∷ rest) ≡ some out)
        × Holds out (join (words (detab s)))
  trim_space-words s rest h =
      let c = copy_lem m [] s (0 ∷ rest) 0 (length s) refl refl in
      trim_copied (s ++ 0 ∷ rest) c.0 (s ++ 0 ∷ []) (length s) (detab s) (strlen_lem s rest h) c.1
        c.2 (untab_lem s [] h) (NoNul-detab s h)

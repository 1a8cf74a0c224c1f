-- ===== src/User/Gets/Line.antt =====
-- A line of text with a cursor, as gets of user/libc.c lets the user edit it.
use net_os.Base.{
  ℕ, zero, suc, ◌+◌, ◌-◌, ◌≤◌, ◌<◌, ◌≡◌, refl, Bool, true, List, [], ◌∷◌, ltb, ◌==◌, ◌||◌, ◌&&◌,
  if◌then◌else◌, length, get_or, arith,
}

unfoldable pub insert_at : List ℕ → ℕ → ℕ → List ℕ
insert_at text zero c = c ∷ text
insert_at [] (suc i) c = c ∷ []
insert_at (x ∷ text) (suc i) c = x ∷ insert_at text i c

unfoldable pub delete_at : List ℕ → ℕ → List ℕ
delete_at [] i = []
delete_at (x ∷ text) zero = text
delete_at (x ∷ text) (suc i) = x ∷ delete_at text i

pub data Key : Type 0 where
  to_left to_right nothing rub_out done : Key
  typed : ℕ → Key

-- What the characters of getchar stand for.
unfoldable pub key_of : ℕ → Key
key_of c =
    if c == 240
    then to_left
    else if c == 241
    then to_right
    else if (c == 242) || (c == 243)
    then nothing
    else if c == 254
    then nothing
    else if c == 253
    then nothing
    else if (c == 8) || (c == 127)
    then rub_out
    else if c == 13
    then done
    else typed c

-- The line and the cursor after a key.
abbrev pub edit : Key → List ℕ → ℕ → List ℕ × ℕ
edit to_left text i = (text, i - 1)
edit to_right text i = (text, if ltb i (length text) then i + 1 else i)
edit nothing text i = (text, i)
edit rub_out text i = (if ltb 0 i then delete_at text (i - 1) else text, i - 1)
edit done text i = (text, i)
edit (typed c) text i = (insert_at text i c, i + 1)

-- A line that is entered, or that is still edited.
pub data Result : Type 0 where
  entered : List ℕ → Result
  editing : List ℕ → ℕ → Result

abbrev pub unless_done : Key → List ℕ → Result → Result
unless_done done text rest = entered text
unless_done key text rest = rest

-- What comes of a line under the characters.
unfoldable pub line : List ℕ → List ℕ → ℕ → Result
line [] text i = editing text i
line (c ∷ keys) text i =
    let (text', i') = edit (key_of c) text i in
    let rest = line keys text' i' in unless_done (key_of c) text rest

-- A character that is not 0, at the end of the line or in a line of fewer than 10 characters.
abbrev pub allowed : Key → List ℕ → ℕ → Bool
allowed (typed c) text i = ltb 0 c && ((i == length text) || ltb (length text) 10)
allowed key text i = true

-- All the characters are allowed where they are typed.
unfoldable pub fits : List ℕ → List ℕ → ℕ → Bool
fits [] text i = true
fits (c ∷ keys) text i =
    let (text', i') = edit (key_of c) text i in
    let rest = fits keys text' i' in allowed (key_of c) text i && rest

pub length-insert_at : (text : List ℕ) (i c : ℕ) → length (insert_at text i c) ≡ length text + 1
unfolding insert_at
length-insert_at text zero c = omega arith
length-insert_at [] (suc i) c = omega arith
length-insert_at (x ∷ text) (suc i) c = omega (arith, length-insert_at text i c)

pub length-delete_at :
    (text : List ℕ) (i : ℕ) → i < length text → length (delete_at text i) ≡ length text - 1
unfolding delete_at
length-delete_at [] i l = absurd (omega (arith, l))
length-delete_at (x ∷ text) zero l = omega arith
length-delete_at (x ∷ text) (suc i) l = omega (arith, l, length-delete_at text i (omega (arith, l)))

-- Where the characters of the edited line come from.
pub insert_before :
    (text : List ℕ) (i c k : ℕ)
    → k < i
    → i ≤ length text
    → get_or (insert_at text i c) k 0 ≡ get_or text k 0
unfolding insert_at
insert_before text zero c k l b = absurd (omega (arith, l))
insert_before [] (suc i) c k l b = absurd (omega (arith, b))
insert_before (x ∷ text) (suc i) c zero l b = refl
insert_before (x ∷ text) (suc i) c (suc k) l b =
    insert_before text i c k (omega (arith, l)) (omega (arith, b))

pub insert_here : (text : List ℕ) (i c : ℕ) → i ≤ length text → get_or (insert_at text i c) i 0 ≡ c
unfolding insert_at
insert_here text zero c l = refl
insert_here [] (suc i) c l = absurd (omega (arith, l))
insert_here (x ∷ text) (suc i) c l = insert_here text i c (omega (arith, l))

insert_behind :
    (text : List ℕ) (i c k : ℕ)
    → i ≤ k
    → i ≤ length text
    → get_or (insert_at text i c) (suc k) 0 ≡ get_or text k 0
unfolding insert_at
insert_behind text zero c k le l = refl
insert_behind [] (suc i) c k le l = absurd (omega (arith, l))
insert_behind (x ∷ text) (suc i) c zero le l = absurd (omega (arith, le))
insert_behind (x ∷ text) (suc i) c (suc k) le l =
    insert_behind text i c k (omega (arith, le)) (omega (arith, l))

pub delete_before :
    (text : List ℕ) (i k : ℕ) → k < i → get_or (delete_at text i) k 0 ≡ get_or text k 0
unfolding delete_at
delete_before [] i k l = refl
delete_before (x ∷ text) zero k l = absurd (omega (arith, l))
delete_before (x ∷ text) (suc i) zero l = refl
delete_before (x ∷ text) (suc i) (suc k) l = delete_before text i k (omega (arith, l))

pub delete_behind :
    (text : List ℕ) (i k : ℕ) → i ≤ k → get_or (delete_at text i) k 0 ≡ get_or text (suc k) 0
unfolding delete_at
delete_behind [] i k l = refl
delete_behind (x ∷ text) zero k l = refl
delete_behind (x ∷ text) (suc i) zero l = absurd (omega (arith, l))
delete_behind (x ∷ text) (suc i) (suc k) l = delete_behind text i k (omega (arith, l))

pub get_or-behind : (text : List ℕ) (k : ℕ) → length text ≤ k → get_or text k 0 ≡ 0
get_or-behind [] k l = refl
get_or-behind (x ∷ text) zero l = absurd (omega (arith, l))
get_or-behind (x ∷ text) (suc k) l = get_or-behind text k (omega (arith, l))

pub insert_after :
    (text : List ℕ) (i c k : ℕ)
    → i < k
    → i ≤ length text
    → get_or (insert_at text i c) k 0 ≡ get_or text (k - 1) 0
insert_after text i c zero l b = absurd (omega (arith, l))
insert_after text i c (suc k) l b =
    let e : suc k - 1 ≡ k = omega arith in rw e (insert_behind text i c k (omega (arith, l)) b)

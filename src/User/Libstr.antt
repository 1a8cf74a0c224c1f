-- ===== src/User/Libstr.antt =====
-- user/libstr.c. A `char*` is a buffer, or a buffer with an index.
pub mod Words
pub mod Trim
pub mod Tokens
pub mod Edits
mod Tests
use net_os.Base.{
  ℕ, zero, suc, ◌+◌, ◌-◌, ◌*◌, ◌≡◌, Bool, ◌||◌, Option, none, some, List, [], ◌∷◌, ltb,
  if◌then◌else◌, ◌>>=◌, ◌==◌,
}
use net_os.User.Memory.{Buffer, Malloc, load, store, memcpy, strlen}

-- `while(c != '\0'){ if(c == '\t') str[z] = ' '; ... }`
pub untab : Buffer → Option Buffer
untab [] = none
untab (c ∷ b) =
    let rest = untab b in
    if c == 0 then some (c ∷ b) else do b' ← rest; some ((if c == b'\t' then b' ' else c) ∷ b')

-- How far `while((*str) == ' ') str++` goes.
pub leading : Buffer → Option ℕ
leading [] = none
leading (c ∷ b) = let rest = leading b in if c == b' ' then (do n ← rest; some (n + 1)) else some 0

-- `while(end > str && (*end) == ' ') end--; end++` with `end` counted from one.
pub trailing : ℕ → Buffer → ℕ → Option ℕ
trailing str b zero = some 0
trailing str b (suc end) =
    let rest = trailing str b end in
    if ltb str end
    then (do c ← load b end; if c == b' ' then rest else some (suc end))
    else some (suc end)

-- `newstr[i-1]`
pub load_before : Buffer → ℕ → Option ℕ
load_before b zero = none
load_before b (suc i) = load b i

-- One round of the loop that joins spaces: the buffer and the next `j`.
pub squeeze_round : Buffer → ℕ → ℕ → Option (Buffer × ℕ)
squeeze_round b i j = do
  c ← load b i
  if c == b' '
      then (do
        before ← load_before b i
        if before == b' ' then some (b, j) else (do b' ← store b j b' '; some (b', j + 1)))
      else (do b' ← store b j c; some (b', j + 1))

-- `for (; i<len;)`, with `n` rounds left.
pub squeeze_loop : ℕ → Buffer → ℕ → ℕ → Option (Buffer × ℕ)
squeeze_loop zero b i j = some (b, j)
squeeze_loop (suc n) b i j = do (b', j') ← squeeze_round b i j; squeeze_loop n b' (i + 1) j'

-- The loop that counts the tokens.
pub count_spaces : Buffer → Option ℕ
count_spaces [] = none
count_spaces (c ∷ b) =
    let rest = count_spaces b in
    if c == 0 then some 0 else (do n ← rest; some (if c == b' ' then n + 1 else n))

-- `while(c != ' ' && c != 0)`, the terminator, and where it stops in `str`.
pub copy_token : ℕ → Buffer → Buffer → ℕ → ℕ → Option (Buffer × ℕ)
copy_token zero str s start j = none
copy_token (suc fuel) str s start j = do
  c ← load str start
  let more = do s' ← store s j c; copy_token fuel str s' (start + 1) (j + 1)
  if (c == b' ') || (c == 0) then (do s' ← store s j 0; some (s', start)) else more

-- `if(newstr...)` and the rest of the string functions allocate.
module _ (m : Malloc) where
  pub strdup : Buffer → Option Buffer
  strdup str = do len ← strlen str; out ← memcpy (m.fresh (len + 1)) 0 str 0 len; store out len 0

  pub trim_space : Buffer → Option Buffer
  trim_space strr = do
    n ← strlen strr
    str ← memcpy (m.fresh (n + 1)) 0 strr 0 n
    str ← store str n 0
    str ← untab str
    len ← strlen str
    first ← leading str
    end ← trailing first str len
    let size = if ltb (end - first) len then end - first else len
    newstr ← memcpy (m.fresh (size + 1)) 0 str first size
    newstr ← store newstr size 0
    len ← strlen newstr
    (output, j) ← squeeze_loop len newstr 0 0
    store output j 0

  -- `for(i=0; i<length; i++)`, with `n` tokens left.
  pub token_loop : ℕ → Buffer → ℕ → Option (List Buffer)
  token_loop zero str start = some []
  token_loop (suc n) str start = do
    len ← strlen str
    (s, start) ← copy_token (len + 1) str (m.fresh (len + 1)) start 0
    rest ← token_loop n str (start + 1)
    some (s ∷ rest)

  -- `none` inside is the null pointer; otherwise the tokens and `*argc`.
  pub tokenize : Buffer → Option (Option (List Buffer × ℕ))
  tokenize str = do
    str ← trim_space str
    c ← load str 0
    let tokens = do n ← count_spaces str; ts ← token_loop (n + 1) str 0; some (some (ts, n + 1))
    if c == 0 then some none else tokens

-- ===== src/Kernel/Str.antt =====
-- The string functions of kernel/string.cc. A pointer into a string is what stands from there on, a
-- pointer to write through is a buffer with an index, and an access outside a buffer is `none`.
pub mod Copy
pub mod Compare
pub mod Number
mod Tests
use net_os.Base.{
  ℕ, zero, suc, ◌+◌, ◌-◌, ◌*◌, ◌%◌, ◌^◌, Bool, true, false, not, ◌&&◌, ◌||◌, Option, none, some,
  List, [], ◌∷◌, ◌==◌, leb, ltb, if◌then◌else◌, ◌>>=◌, ℤ, pos, sub_ℕ,
}
use net_os.User.Memory.{Buffer, store}

pub strlen : Buffer → Option ℕ
strlen [] = none
strlen (c ∷ s) = let rest = strlen s in if c == 0 then some 0 else do n ← rest; some (n + 1)

pub strnlen : ℕ → Buffer → Option ℕ
strnlen zero s = some 0
strnlen (suc size) [] = none
strnlen (suc size) (c ∷ s) =
    let rest = strnlen size s in if c == 0 then some 0 else do n ← rest; some (n + 1)

-- The loop of strcpy, which writes from the index `i` on.
pub strcpy_loop : Buffer → ℕ → Buffer → Option Buffer
strcpy_loop dst i [] = none
strcpy_loop dst i (c ∷ src) = do
  dst' ← store dst i c
  let rest = strcpy_loop dst' (i + 1) src
  if c == 0 then some dst' else rest

pub strcpy : Buffer → Buffer → Option Buffer
strcpy dst src = strcpy_loop dst 0 src

pub strcat : Buffer → Buffer → Option Buffer
strcat dst src = do len ← strlen dst; strcpy_loop dst len src

-- The loop of strncpy, with `n` rounds left.
pub strncpy_loop : ℕ → Buffer → ℕ → Buffer → Option Buffer
strncpy_loop zero dst i src = some dst
strncpy_loop (suc n) dst i [] = none
strncpy_loop (suc n) dst i (c ∷ src) = do
  dst' ← store dst i c
  strncpy_loop n dst' (i + 1) (if c == 0 then c ∷ src else src)

pub strncpy : Buffer → Buffer → ℕ → Option Buffer
strncpy dst src size = strncpy_loop size dst 0 src

-- The loop of strlcpy, `size` having been decremented: the buffer and how many bytes stand before the
-- terminator.
pub strlcpy_loop : ℕ → Buffer → ℕ → Buffer → Option (Buffer × ℕ)
strlcpy_loop zero dst i src = do dst' ← store dst i 0; some (dst', i)
strlcpy_loop (suc size) dst i [] = none
strlcpy_loop (suc size) dst i (c ∷ src) =
    let more = (do dst' ← store dst i c; strlcpy_loop size dst' (i + 1) src) in
    if c == 0 then (do dst' ← store dst i 0; some (dst', i)) else more

pub strlcpy : Buffer → Buffer → ℕ → Option (Buffer × ℕ)
strlcpy dst src zero = some (dst, 0)
strlcpy dst src (suc size) = strlcpy_loop size dst 0 src

pub strcmp : Buffer → Buffer → Option ℤ
strcmp [] q = none
strcmp (c ∷ p) [] = none
strcmp (c ∷ p) (d ∷ q) =
    let rest = strcmp p q in if not (c == 0) && (c == d) then rest else some (sub_ℕ c d)

pub strncmp : ℕ → Buffer → Buffer → Option ℤ
strncmp zero p q = some (pos 0)
strncmp (suc n) [] q = none
strncmp (suc n) (c ∷ p) [] = none
strncmp (suc n) (c ∷ p) (d ∷ q) =
    let rest = strncmp n p q in if not (c == 0) && (c == d) then rest else some (sub_ℕ c d)

-- `none` inside is the null pointer; otherwise the string from the character on.
pub strchr : Buffer → ℕ → Option (Option Buffer)
strchr [] c = none
strchr (d ∷ s) c =
    let rest = strchr s c in
    if d == 0 then some none else if d == c then some (some (d ∷ s)) else rest

pub strfind : Buffer → ℕ → Option Buffer
strfind [] c = none
strfind (d ∷ s) c =
    let rest = strfind s c in if d == 0 then some (d ∷ s) else if d == c then some (d ∷ s) else rest

pub memcmp : ℕ → Buffer → Buffer → Option ℤ
memcmp zero p q = some (pos 0)
memcmp (suc n) [] q = none
memcmp (suc n) (c ∷ p) [] = none
memcmp (suc n) (c ∷ p) (d ∷ q) =
    let rest = memcmp n p q in if c == d then rest else some (sub_ℕ c d)

pub memfind : ℕ → Buffer → ℕ → Option Buffer
memfind zero s c = some s
memfind (suc n) [] c = none
memfind (suc n) (d ∷ s) c = let rest = memfind n s c in if d == c % 256 then some (d ∷ s) else rest

-- `while (*s == ' ' || *s == '\t')`
pub gobble : Buffer → Option Buffer
gobble [] = none
gobble (c ∷ s) = let rest = gobble s in if (c == b' ') || (c == b'\t') then rest else some (c ∷ s)

-- The sign: `neg`, and what follows.
pub sign : Buffer → Option (Bool × Buffer)
sign [] = none
sign (c ∷ s) =
    if c == b'+' then some (false, s) else if c == b'-' then some (true, s) else some (false, c ∷ s)

-- `s[0] == '0' && s[1] == 'x'`
pub is_hex : Buffer → Option Bool
is_hex [] = none
is_hex (c ∷ s) =
    if c == b'0' then (elim s [ [] ↦ none | d ∷ s' ↦ some (d == b'x') ]) else some false

abbrev pub skip : ℕ → Buffer → Buffer
skip zero s = s
skip (suc n) [] = []
skip (suc n) (c ∷ s) = skip n s

-- The prefix of the base: the base, and what follows.
pub prefix : ℕ → Buffer → Option (ℕ × Buffer)
prefix base [] = none
prefix base (c ∷ s) = do
  hex ← (if (base == 0) || (base == 16) then is_hex (c ∷ s) else some false)
  if hex
      then some (16, skip 2 (c ∷ s))
      else if (base == 0) && (c == b'0')
      then some (8, s)
      else if base == 0
      then some (10, c ∷ s)
      else some (base, c ∷ s)

-- `dig`, with `none` for the break.
pub digit : ℕ → Option ℕ
digit c =
    if leb b'0' c && leb c b'9'
    then some (c - b'0')
    else if leb b'a' c && leb c b'z'
    then some (c - b'a' + 10)
    else if leb b'A' c && leb c b'Z'
    then some (c - b'A' + 10)
    else none

-- The loop over the digits. `val` is a signed long of 32 bits, and its overflow is `none`.
pub digits : ℕ → ℕ → Buffer → Option (ℕ × Buffer)
digits base val [] = none
digits base val (c ∷ s) = elim (digit c) [
  | none ↦ some (val, c ∷ s)
  | some dig ↦
      let more = digits base (val * base + dig) s in
      if leb base dig
      then some (val, c ∷ s)
      else if ltb (val * base + dig) (2 ^ 31)
      then more
      else none
]

-- The value and `*endptr`.
pub strtol : Buffer → ℕ → Option (ℤ × Buffer)
strtol s base = do
  s ← gobble s
  (neg, s) ← sign s
  (base, s) ← prefix base s
  (val, s) ← digits base 0 s
  some (if neg then sub_ℕ 0 val else pos val, s)

-- ===== src/User/Libstr/Edits.antt =====
-- The other functions of user/libstr.c, which user/edit.c changes lines with: append, addChar and
-- deleteChar, and strEquals.
pub mod Insert
pub mod Compare
mod Tests
use net_os.Base.{ℕ, ◌+◌, ◌-◌, Option, none, some, List, [], ◌∷◌, ltb, if◌then◌else◌, ◌>>=◌, ◌==◌}
use net_os.User.Memory.{Buffer, Malloc, store, memcpy, strlen}

module _ (m : Malloc) where
  -- The two buffers passed are freed.
  pub append : Buffer → Buffer → ℕ → Option Buffer
  append subject insert pos = do
    n ← strlen subject
    k ← strlen insert
    buf ← memcpy (m.fresh (n + k + 1)) 0 subject 0 pos
    buf ← memcpy buf pos insert 0 k
    buf ← memcpy buf (pos + k) subject pos (n - pos)
    store buf (n + k) 0

  -- Allocates `strlen(str)` bytes.
  pub delete_char : Buffer → ℕ → Option Buffer
  delete_char str pos = do
    n ← strlen str
    new_char ← memcpy (m.fresh n) 0 str 0 pos
    new_char ← memcpy new_char pos str (pos + 1) (n - pos)
    store new_char n 0

  pub add_char : Buffer → ℕ → ℕ → Option Buffer
  add_char str pos c = do
    n ← strlen str
    new_char ← memcpy (m.fresh (n + 2)) 0 str 0 pos
    new_char ← memcpy new_char (pos + 1) str pos (n - pos)
    new_char ← store new_char (n + 1) 0
    store new_char pos c

-- What strEquals returns: 0, 1 or -1.
pub data Compared : Type 0 where
  equal above below : Compared

-- strEquals on two pointers into C strings.
unfoldable pub str_equals : Buffer → Buffer → Option Compared
str_equals [] q = none
str_equals (c ∷ p) [] = none
str_equals (c ∷ p) (d ∷ q) =
    let rest = str_equals p q in
    if c == 0
    then (if d == 0 then some equal else some below)
    else if d == 0
    then some above
    else if ltb c d
    then some below
    else if ltb d c
    then some above
    else rest

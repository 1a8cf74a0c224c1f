-- ===== src/User/Memory.antt =====
-- Buffers of bytes as user/*.c sees them. A buffer that malloc returns is a list of as many bytes as
-- were asked for, with unknown content; an access outside a buffer is `none`. `malloc` of
-- user/heap.c enters the string functions through `Malloc`, and memcpy of user/machine.S as a loop.
pub mod Laws
use net_os.Base.{
  ℕ, zero, suc, ◌+◌, ◌≡◌, Option, none, some, List, [], ◌∷◌, get_elem?, set, length, ltb,
  if◌then◌else◌, ◌>>=◌, ◌==◌,
}

abbrev pub Buffer : Type 0
Buffer = List ℕ

-- What a fresh block holds, and that it has the size asked for.
pub record Malloc : Type 0 where
  pub fresh : ℕ → Buffer
  pub size : (n : ℕ) → length (fresh n) ≡ n

unfoldable pub load : Buffer → ℕ → Option ℕ
load b i = get_elem? b i

unfoldable pub store : Buffer → ℕ → ℕ → Option Buffer
store b i v = if ltb i (length b) then some (set b i v) else none

-- `memcpy(dst + d, src + s, n)`
unfoldable pub memcpy : Buffer → ℕ → Buffer → ℕ → ℕ → Option Buffer
unfolding load store
memcpy dst d src s zero = some dst
memcpy dst d src s (suc n) = do
  v ← load src s
  dst' ← store dst d v
  memcpy dst' (d + 1) src (s + 1) n

-- strlen of user/libstr.c at the start of a buffer.
unfoldable pub strlen : Buffer → Option ℕ
strlen [] = none
strlen (c ∷ b) = elim c [
  | zero ↦ some 0
  | suc _ ↦ elim (strlen b) [ none ↦ none | some n ↦ some (suc n) ]
]

-- ===== src/Kernel/Str/Tests.antt =====
-- Runs of the string functions.
use net_os.Base.{ℕ, ◌≡◌, refl, true, some, List, [], ◌∷◌, ◌++◌, arith, ◌>>=◌, pos, negsuc}
use net_os.User.Memory.{store}
use net_os.User.Decimal.{putdec}
use net_os.User.Libstr.Edits.{str_equals}
use net_os.Kernel.Str.{
  strlen, strnlen, strcpy, strcpy_loop, strcat, strncpy, strncpy_loop, strlcpy, strlcpy_loop,
  strcmp, strncmp, strchr, strfind, memcmp, memfind, strtol, gobble, sign, prefix, is_hex, digit,
  digits,
}
use net_os.Kernel.Str.Copy.{strlcpy_lem}
use net_os.Kernel.Str.Compare.{sign_of, str_equals-strcmp}
use net_os.Kernel.Str.Number.{signed, strtol-putdec}

program : Unit {0}
unfolding store strlen strnlen strcpy strcpy_loop strcat strncpy strncpy_loop strlcpy strlcpy_loop
    strcmp strncmp strchr strfind memcmp memfind strtol gobble sign prefix is_hex digit digits
program = tt

hex_read : strtol (b' ' ∷ b'0' ∷ b'x' ∷ b'1' ∷ b'F' ∷ b';' ∷ []) 0 ≡ some (pos 31, b';' ∷ [])
unfolding program
hex_read = refl

octal_read : strtol (b'-' ∷ b'0' ∷ b'1' ∷ b'7' ∷ 0 ∷ []) 0 ≡ some (negsuc 14, 0 ∷ [])
unfolding program
octal_read = refl

padded : strncpy (9 ∷ 9 ∷ 9 ∷ 9 ∷ []) (b'a' ∷ 0 ∷ []) 3 ≡ some (b'a' ∷ 0 ∷ 0 ∷ 9 ∷ [])
unfolding program
padded = refl

second_found : strchr (b'a' ∷ b'b' ∷ 0 ∷ []) b'b' ≡ some (some (b'b' ∷ 0 ∷ []))
unfolding program
second_found = refl

compared : memcmp 2 (b'a' ∷ b'b' ∷ []) (b'a' ∷ b'd' ∷ []) ≡ some (negsuc 1)
unfolding program
compared = refl

strlcpy_example :
    strlcpy (9 ∷ 9 ∷ 9 ∷ 9 ∷ []) (b'a' ∷ b'b' ∷ b'c' ∷ 0 ∷ []) 3
    ≡ some (b'a' ∷ b'b' ∷ 0 ∷ 9 ∷ [], 2)
strlcpy_example =
    strlcpy_lem 2 (b'a' ∷ b'b' ∷ b'c' ∷ []) (9 ∷ 9 ∷ 9 ∷ 9 ∷ []) [] (omega arith) (omega arith)

str_equals-strcmp_example :
    str_equals (b'a' ∷ 0 ∷ []) (b'b' ∷ 0 ∷ [])
    ≡ (do d ← strcmp (b'a' ∷ 0 ∷ []) (b'b' ∷ 0 ∷ []); some (sign_of d))
str_equals-strcmp_example = str_equals-strcmp (b'a' ∷ 0 ∷ []) (b'b' ∷ 0 ∷ [])

strtol-putdec_example :
    (s : List ℕ) × (putdec 306 305 ≡ some s)
    × (strtol (b' ' ∷ b'-' ∷ (s ++ 0 ∷ [])) 10 ≡ some (signed true 305, 0 ∷ []))
strtol-putdec_example =
    strtol-putdec 306 305 true (b' ' ∷ []) 0 [] (omega arith) (omega arith) (refl, tt) refl

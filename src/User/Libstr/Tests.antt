-- ===== src/User/Libstr/Tests.antt =====
-- A malloc whose blocks hold 170 everywhere, an input line, and the theorems at it.
use net_os.Base.{
  ℕ, ◌≡◌, refl, some, none, List, [], ◌∷◌, ◌++◌, length, replicate, arith, ap, zero, suc,
}
use net_os.User.Memory.{Malloc, Buffer, load, store, memcpy, strlen}
use net_os.User.Libstr.{
  trim_space, tokenize, untab, leading, trailing, load_before, squeeze_round, squeeze_loop,
  count_spaces, copy_token, token_loop,
}
use net_os.User.Libstr.Words.{detab, words, join}
use net_os.User.Libstr.Trim.{Holds, trim_space-words}
use net_os.User.Libstr.Tokens.{Tokenized, tokenize-words}

length-replicate : (n a : ℕ) → length (replicate n a) ≡ n
length-replicate zero a = refl
length-replicate (suc n) a = ap suc (length-replicate n a)

unfoldable pub dirty : Malloc
unfolding length-replicate
dirty = record { fresh = λ n. replicate n 170; size = λ n. length-replicate n 170 }

-- " ls \t a" with the terminator and a byte behind it.
abbrev line : List ℕ
line = b' ' ∷ b'l' ∷ b's' ∷ b' ' ∷ b'\t' ∷ b' ' ∷ b'a' ∷ []

program : Unit {0}
unfolding dirty load store memcpy strlen untab leading trailing load_before squeeze_round
    squeeze_loop count_spaces copy_token token_loop trim_space tokenize
program = tt

line_tokens :
    tokenize dirty (line ++ 0 ∷ 7 ∷ [])
    ≡ some (some ((b'l' ∷ b's' ∷ 0 ∷ 170 ∷ 170 ∷ []) ∷ (b'a' ∷ 0 ∷ 170 ∷ 170 ∷ 170 ∷ []) ∷ [], 2))
unfolding program
line_tokens = refl

blank_line : tokenize dirty (b' ' ∷ b'\t' ∷ 0 ∷ []) ≡ some none
unfolding program
blank_line = refl

trim_space-words_example :
    (out : Buffer) × (trim_space dirty (line ++ 0 ∷ 7 ∷ []) ≡ some out)
    × Holds out (b'l' ∷ b's' ∷ b' ' ∷ b'a' ∷ [])
unfolding detab words join
trim_space-words_example = trim_space-words dirty line (7 ∷ []) (omega arith)

tokenize-words_example :
    Tokenized (tokenize dirty (line ++ 0 ∷ 7 ∷ [])) ((b'l' ∷ b's' ∷ []) ∷ (b'a' ∷ []) ∷ [])
unfolding detab words
tokenize-words_example = tokenize-words dirty line (7 ∷ []) (omega arith)

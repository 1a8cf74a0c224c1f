-- ===== src/Kernel/Str/Compare.antt =====
-- The comparisons of kernel/string.cc, and strEquals of user/libstr.c.
use net_os.Base.{
  ℕ, zero, suc, ◌≡◌, refl, some, List, [], ◌∷◌, ◌++◌, take, arith, ◌>>=◌, ==_ne, ℤ, pos, negsuc,
}
use net_os.User.Memory.{Buffer}
use net_os.User.Memory.Laws.{NoNul}
use net_os.User.Libstr.Edits.{Compared, equal, above, below, str_equals}
use net_os.Kernel.Str.{strcmp, strncmp}

-- What strEquals makes of the difference that strcmp returns.
abbrev pub sign_of : ℤ → Compared
sign_of (pos zero) = equal
sign_of (pos (suc n)) = above
sign_of (negsuc n) = below

-- strEquals of user/libstr.c and strcmp of kernel/string.cc compare alike: on any two buffers the one
-- returns the sign of what the other returns, or both read outside a buffer.
pub str_equals-strcmp : (p q : Buffer) → str_equals p q ≡ (do d ← strcmp p q; some (sign_of d))
unfolding str_equals strcmp
str_equals-strcmp [] q = refl
str_equals-strcmp (c ∷ p) [] = refl
str_equals-strcmp (c ∷ p) (d ∷ q) = ground (arith, str_equals-strcmp p q)

-- strncmp compares as strcmp does the two texts cut off behind `n` bytes.
strncmp-strcmp :
    (n : ℕ) (s t rest rest' : List ℕ)
    → NoNul s
    → NoNul t
    → strncmp n (s ++ 0 ∷ rest) (t ++ 0 ∷ rest')
      ≡ strcmp (take n s ++ 0 ∷ rest) (take n t ++ 0 ∷ rest')
unfolding strncmp strcmp
strncmp-strcmp zero s t rest rest' hs ht = refl
strncmp-strcmp (suc n) [] [] rest rest' hs ht = refl
strncmp-strcmp (suc n) [] (d ∷ t) rest rest' hs ht = refl
strncmp-strcmp (suc n) (c ∷ s) [] rest rest' hs ht = rw (==_ne c 0 hs.0) refl
strncmp-strcmp (suc n) (c ∷ s) (d ∷ t) rest rest' hs ht =
    rw (strncmp-strcmp n s t rest rest' hs.1 ht.1) refl

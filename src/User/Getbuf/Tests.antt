-- ===== src/User/Getbuf/Tests.antt =====
-- A file of two lines, some keys, and the theorem at them.
use net_os.Base.{◌≡◌, refl, List, [], ◌∷◌, replicate, length-replicate, ℕ}
use net_os.User.Memory.{Malloc}
use net_os.User.Getbuf.Text.{key_effect, keys_effect, all}
use net_os.User.Getbuf.Typing.{start}

abbrev unknown : Malloc
unknown = record { fresh = λ n. replicate n 170; size = λ n. length-replicate n 170 }

-- A backspace, an x, the enter key, the arrows to the right and down, ^w and ^q.
abbrev session : List ℕ
session = 8 ∷ b'x' ∷ 13 ∷ 0xf1 ∷ 0xf3 ∷ 0xfd ∷ 0xfe ∷ []

abbrev file : List ℕ
file = b'a' ∷ b'b' ∷ 10 ∷ b'c' ∷ 10 ∷ []

written :
    (keys_effect session [] (start (b'a' ∷ b'b' ∷ []) ((b'c' ∷ []) ∷ []))).0
    ≡ (b'x' ∷ 10 ∷ b'a' ∷ b'b' ∷ 10 ∷ b'c' ∷ 10 ∷ []) ∷ []
unfolding keys_effect key_effect all
written = refl

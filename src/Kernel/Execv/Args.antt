-- ===== src/Kernel/Execv/Args.antt =====
-- What a program finds of its arguments behind execv of kernel/process.cc.
use net_os.Base.{
  ℕ, zero, suc, ◌+◌, ◌*◌, ◌/◌, ◌%◌, ◌^◌, ◌≤◌, ◌<◌, ◌≡◌, refl, ap, ◌∙◌, ◌⊎◌, inl, true, false, some,
  ==_self, List, [], ◌∷◌, ◌==◌, length, get_elem?, arith,
}
use net_os.Kernel.Execv.{
  Memory, put, put_word, copy_bytes, str_dup, argv, strings_start, user_esp, args_loop, copy_args,
}

-- The word at an address.
abbrev pub word_at : Memory → ℕ → ℕ
word_at mem a = mem a + mem (a + 1) * 2 ^ 8 + mem (a + 2) * 2 ^ 16 + mem (a + 3) * 2 ^ 24

-- A string with its terminator.
pub record Holds (str : List ℕ) (a : ℕ) (mem : Memory) : Type 0 where
  pub bytes : (j c : ℕ) → get_elem? str j ≡ some c → mem (a + j) ≡ c
  pub ends : mem (a + length str) ≡ 0

-- The pointers from number `i` on are to the strings, one behind the other from `a` on.
unfoldable pub Passed : List (List ℕ) → ℕ → ℕ → Memory → Type 0
Passed [] i a mem = Unit
Passed (str ∷ args) i a mem =
    (word_at mem (argv + 4 * i) ≡ a)
    × Holds str a mem
    × Passed args (i + 1) (a + (length str + 1)) mem

-- How many bytes the strings take.
unfoldable pub total : List (List ℕ) → ℕ
total [] = 0
total (str ∷ args) = length str + 1 + total args

pub same_word :
    (mem mem' : Memory) (a : ℕ)
    → ((x : ℕ) → a ≤ x → x ≤ a + 3 → mem x ≡ mem' x)
    → word_at mem a ≡ word_at mem' a
same_word mem mem' a same =
    let b0 = same a (omega arith) (omega arith) in
    let b1 = same (a + 1) (omega arith) (omega arith) in
    let b2 = same (a + 2) (omega arith) (omega arith) in
    let b3 = same (a + 3) (omega arith) (omega arith) in omega (arith, b0, b1, b2, b3)

put_word-outside : (a v x : ℕ) (mem : Memory) → (x < a) ⊎ (a + 3 < x) → put_word a v mem x ≡ mem x
unfolding put_word
put_word-outside a v x mem h = ground (arith, h)

word_at-put_word : (a v : ℕ) (mem : Memory) → v < 2 ^ 32 → word_at (put_word a v mem) a ≡ v
unfolding put_word
word_at-put_word a v mem h =
    let w = put_word a v mem in
    let b0 : w a ≡ v % 2 ^ 8 = ground arith in
    let b1 : w (a + 1) ≡ v / 2 ^ 8 % 2 ^ 8 = ground arith in
    let b2 : w (a + 2) ≡ v / 2 ^ 16 % 2 ^ 8 = ground arith in
    let b3 : w (a + 3) ≡ v / 2 ^ 24 % 2 ^ 8 = ground arith in omega (arith, b0, b1, b2, b3, h)

pub copy_bytes-outside :
    (str : List ℕ) (a x : ℕ) (mem : Memory)
    → (x < a) ⊎ (a + length str ≤ x)
    → copy_bytes str a mem x ≡ mem x
unfolding copy_bytes
copy_bytes-outside [] a x mem h = refl
copy_bytes-outside (c ∷ str) a x mem h =
    copy_bytes-outside str (a + 1) x (put a c mem) (omega (arith, h)) ∙ ground (arith, h)

pub copy_bytes-inside :
    (str : List ℕ) (a j c : ℕ) (mem : Memory)
    → get_elem? str j ≡ some c
    → copy_bytes str a mem (a + j) ≡ c
unfolding copy_bytes
copy_bytes-inside [] a j c mem e = absurd (cc e)
copy_bytes-inside (b ∷ str) a zero c mem e =
    copy_bytes-outside str (a + 1) (a + 0) (put a b mem) (omega arith)
    ∙ (let at : (a + 0 == a) ≡ true = ground arith in rw at (cc e))
copy_bytes-inside (b ∷ str) a (suc j) c mem e =
    ap (copy_bytes str (a + 1) (put a b mem)) (omega arith)
    ∙ copy_bytes-inside str (a + 1) j c (put a b mem) e

str_dup-outside :
    (str : List ℕ) (a x : ℕ) (mem : Memory)
    → (x < a) ⊎ (a + length str < x)
    → str_dup str a mem x ≡ mem x
unfolding str_dup
str_dup-outside str a x mem h =
    let apart : (x == a + length str) ≡ false = ground (arith, h) in
    rw apart (copy_bytes-outside str a x mem (omega (arith, h)))

pub get_elem?-bound : (str : List ℕ) (j c : ℕ) → get_elem? str j ≡ some c → j < length str
get_elem?-bound [] j c e = absurd (cc e)
get_elem?-bound (b ∷ str) zero c e = omega arith
get_elem?-bound (b ∷ str) (suc j) c e = omega (arith, get_elem?-bound str j c e)

-- What str_dup leaves holds the string, also when memory elsewhere changes.
str_dup-Holds :
    (str : List ℕ) (a : ℕ) (mem mem' : Memory)
    → ((x : ℕ) → a ≤ x → x ≤ a + length str → mem' x ≡ str_dup str a mem x)
    → Holds str a mem'
unfolding str_dup
str_dup-Holds str a mem mem' same = record {
  bytes = λ j c e.
      let l = get_elem?-bound str j c e in
      let apart : (a + j == a + length str) ≡ false = ground (arith, l) in
      same (a + j) (omega arith) (omega (arith, l))
      ∙ (rw apart (copy_bytes-inside str a j c mem e));
  ends = same (a + length str) (omega arith) (omega arith) ∙ (rw (==_self (a + length str)) refl);
}

-- The loop writes the strings and the pointers from `i` on, and nothing else.
Elsewhere : List (List ℕ) → ℕ → ℕ → ℕ → Type 0
Elsewhere args i a x =
    ((x < a) ⊎ (a + total args ≤ x)) × ((x < argv + 4 * i) ⊎ (argv + 4 * (i + length args) ≤ x))

args_loop-outside :
    (args : List (List ℕ)) (i a x : ℕ) (mem : Memory)
    → Elsewhere args i a x
    → args_loop args i a mem x ≡ mem x
unfolding args_loop Elsewhere total
args_loop-outside [] i a x mem h = refl
args_loop-outside (str ∷ args) i a x mem h =
    args_loop-outside args (i + 1) (a + (length str + 1)) x
      (put_word (argv + 4 * i) a (str_dup str a mem)) (omega (arith, h.0, h.1), omega (arith, h.1))
    ∙ put_word-outside (argv + 4 * i) a x (str_dup str a mem) (omega (arith, h.1))
    ∙ str_dup-outside str a x mem (omega (arith, h.0))

args_loop-Passed :
    (args : List (List ℕ)) (i a : ℕ) (mem : Memory)
    → a + total args ≤ argv
    → Passed args i a (args_loop args i a mem)
unfolding args_loop Passed total Elsewhere
args_loop-Passed [] i a mem h = tt
args_loop-Passed (str ∷ args) i a mem h =
    let mem₁ = str_dup str a mem in
    let mem₂ = put_word (argv + 4 * i) a mem₁ in
    let mem₃ = args_loop args (i + 1) (a + (length str + 1)) mem₂ in
    let kept : (x : ℕ) → (argv + 4 * i ≤ x) → (x ≤ argv + 4 * i + 3) → mem₃ x ≡ mem₂ x = λ x l u.
      args_loop-outside args (i + 1) (a + (length str + 1)) x mem₂
        (omega (arith, h, l), omega (arith, u)) in
    let string : (x : ℕ) → a ≤ x → x ≤ a + length str → mem₃ x ≡ mem₁ x = λ x l u.
      args_loop-outside args (i + 1) (a + (length str + 1)) x mem₂
        (omega (arith, u), omega (arith, h, u))
      ∙ put_word-outside (argv + 4 * i) a x mem₁ (omega (arith, h, u)) in
    (
      same_word mem₃ mem₂ (argv + 4 * i) kept
          ∙ word_at-put_word (argv + 4 * i) a mem₁ (omega (arith, h)),
      str_dup-Holds str a mem mem₃ string,
      args_loop-Passed args (i + 1) (a + (length str + 1)) mem₂ (omega (arith, h)),
    )

-- The pointers and the strings stay where memory below `user_esp` does.
pub Passed-same :
    (args : List (List ℕ)) (i a : ℕ) (mem mem' : Memory)
    → ((x : ℕ) → a ≤ x → x < user_esp → mem' x ≡ mem x)
    → a + total args ≤ argv
    → argv + 4 * (i + length args) ≤ user_esp
    → Passed args i a mem
    → Passed args i a mem'
unfolding Passed total
Passed-same [] i a mem mem' same h h' p = tt
Passed-same (str ∷ args) i a mem mem' same h h' (word, holds, rest) = (
  same_word mem' mem (argv + 4 * i) (λ x l u. same x (omega (arith, h, l)) (omega (arith, h', u)))
      ∙ word,
  record {
    bytes = λ j c e.
        same (a + j) (omega arith) (omega (arith, h, get_elem?-bound str j c e))
        ∙ holds.bytes j c e;
    ends = same (a + length str) (omega arith) (omega (arith, h)) ∙ holds.ends;
  },
  Passed-same args (i + 1) (a + (length str + 1)) mem mem' (λ x l. same x (omega (arith, l)))
      (omega (arith, h)) (omega (arith, h')) rest,
)

-- execv passes the arguments: if the strings with their terminators take at most 0xf0000 bytes and there are at most
-- 0x3ffc of them, the program finds on its stack their number and the address of the pointers, each pointer leads to
-- its string, terminated, and memory below the strings is as it was.
pub copy_args-Passed :
    (args : List (List ℕ)) (mem : Memory)
    → total args ≤ 0xf0000
    → length args ≤ 0x3ffc
    → (word_at (copy_args args mem) user_esp ≡ length args)
      × (word_at (copy_args args mem) (user_esp + 4) ≡ argv)
      × Passed args 0 strings_start (copy_args args mem)
      × ((x : ℕ) → x < strings_start → copy_args args mem x ≡ mem x)
unfolding copy_args Elsewhere
copy_args-Passed args mem h h' =
    let mem₁ = args_loop args 0 strings_start mem in
    let mem₂ = put_word user_esp (length args) mem₁ in
    let mem₃ = put_word (user_esp + 4) argv mem₂ in
    let stays : (x : ℕ) → x < user_esp → mem₃ x ≡ mem₁ x = λ x l.
      put_word-outside (user_esp + 4) argv x mem₂ (inl (omega (arith, l)))
      ∙ put_word-outside user_esp (length args) x mem₁ (inl l) in
    let count : (x : ℕ) → user_esp ≤ x → x ≤ user_esp + 3 → mem₃ x ≡ mem₂ x =
      λ x l u. put_word-outside (user_esp + 4) argv x mem₂ (inl (omega (arith, u))) in
    (
      same_word mem₃ mem₂ user_esp count
          ∙ word_at-put_word user_esp (length args) mem₁ (omega (arith, h')),
      word_at-put_word (user_esp + 4) argv mem₂ (omega arith),
      Passed-same args 0 strings_start mem₁ mem₃ (λ x l. stays x) (omega (arith, h))
          (omega (arith, h')) (args_loop-Passed args 0 strings_start mem (omega (arith, h))),
      λ x l.
          stays x (omega (arith, l))
          ∙ args_loop-outside args 0 strings_start x mem (inl l, inl (omega (arith, l))),
    )

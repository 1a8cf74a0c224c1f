-- ===== src/Kernel/Str/Copy.antt =====
-- The copying functions of kernel/string.cc.
use net_os.Base.{
  ℕ, zero, suc, ◌+◌, ◌-◌, ◌≤◌, ◌<◌, ◌≡◌, refl, ap, ◌∙◌, some, List, [], ◌∷◌, ◌++◌, length,
  length-append, take, drop, ==_ne, arith, ◌>>=◌,
}
use net_os.User.Memory.{Buffer}
use net_os.User.Memory.Laws.{NoNul, snoc, store-at}
use net_os.Kernel.Str.{strlen, strcpy, strcpy_loop, strcat, strlcpy, strlcpy_loop}

-- The buffer `done ++ dst` after the bytes of `s` and a terminator behind `done`.
strlcpy_loop_lem :
    (n : ℕ) (s done dst rest : List ℕ) (i : ℕ)
    → NoNul s
    → i ≡ length done
    → length (take n s) < length dst
    → strlcpy_loop n (done ++ dst) i (s ++ 0 ∷ rest)
      ≡ some (done ++ (take n s ++ 0 ∷ drop (suc (length (take n s))) dst), i + length (take n s))
unfolding strlcpy_loop
strlcpy_loop_lem zero s done [] rest i h e l = absurd (omega arith)
strlcpy_loop_lem zero s done (y ∷ dst) rest i h e l =
    let same : i + 0 ≡ i = omega arith in rw (store-at done y 0 dst i e, same) refl
strlcpy_loop_lem (suc n) [] done [] rest i h e l = absurd (omega arith)
strlcpy_loop_lem (suc n) [] done (y ∷ dst) rest i h e l =
    let same : i + 0 ≡ i = omega arith in rw (store-at done y 0 dst i e, same) refl
strlcpy_loop_lem (suc n) (c ∷ s) done [] rest i h e l = absurd (omega arith)
strlcpy_loop_lem (suc n) (c ∷ s) done (y ∷ dst) rest i h e l =
    let same : i + suc (length (take n s)) ≡ i + 1 + length (take n s) = omega arith in
    rw
      (
        ==_ne c 0 h.0,
        store-at done y c dst i e,
        snoc done c dst,
        same,
        snoc done c (take n s ++ 0 ∷ drop (suc (length (take n s))) dst),
      )
      (strlcpy_loop_lem n s (done ++ c ∷ []) dst rest (i + 1) h.1
        (omega (arith, e, length-append done (c ∷ []))) (omega (arith, l)))

-- strlcpy into a buffer of at least `size` bytes, `size` not 0, ends without an access outside the
-- buffers: it writes the first `size - 1` bytes of the text, or all of a shorter one, and a terminator,
-- leaves the rest of the buffer, and returns how many bytes of the text it wrote.
pub strlcpy_lem :
    (n : ℕ) (s dst rest : List ℕ)
    → NoNul s
    → n < length dst
    → strlcpy dst (s ++ 0 ∷ rest) (suc n)
      ≡ some (take n s ++ 0 ∷ drop (suc (length (take n s))) dst, length (take n s))
unfolding strlcpy
strlcpy_lem n s dst rest h l =
    strlcpy_loop_lem n s [] dst rest 0 h refl (omega (arith, length-take n s))
    ∙ ap (λ z. some (take n s ++ 0 ∷ drop (suc (length (take n s))) dst, z)) (omega arith)
  where
    length-take : (n : ℕ) (s : List ℕ) → length (take n s) ≤ n
    length-take zero s = omega arith
    length-take (suc n) [] = omega arith
    length-take (suc n) (c ∷ s) = omega (arith, length-take n s)

-- strcpy is strlcpy with room enough.
strcpy_loop_lem :
    (s done dst rest : List ℕ) (i : ℕ)
    → NoNul s
    → i ≡ length done
    → length s < length dst
    → strcpy_loop (done ++ dst) i (s ++ 0 ∷ rest)
      ≡ some (done ++ (s ++ 0 ∷ drop (suc (length s)) dst))
unfolding strcpy_loop
strcpy_loop_lem [] done [] rest i h e l = absurd (omega arith)
strcpy_loop_lem [] done (y ∷ dst) rest i h e l = rw (store-at done y 0 dst i e) refl
strcpy_loop_lem (c ∷ s) done [] rest i h e l = absurd (omega arith)
strcpy_loop_lem (c ∷ s) done (y ∷ dst) rest i h e l =
    rw
      (
        ==_ne c 0 h.0,
        store-at done y c dst i e,
        snoc done c dst,
        snoc done c (s ++ 0 ∷ drop (suc (length s)) dst),
      )
      (strcpy_loop_lem s (done ++ c ∷ []) dst rest (i + 1) h.1
        (omega (arith, e, length-append done (c ∷ []))) (omega (arith, l)))

strlen_lem : (s rest : List ℕ) → NoNul s → strlen (s ++ 0 ∷ rest) ≡ some (length s)
unfolding strlen
strlen_lem [] rest h = refl
strlen_lem (c ∷ s) rest h =
    let next : length s + 1 ≡ suc (length s) = omega arith in
    rw (==_ne c 0 h.0, strlen_lem s rest h.1, next) refl

length-drop : (n : ℕ) (b : Buffer) → length (drop n b) ≡ length b - n
length-drop zero b = omega arith
length-drop (suc n) [] = omega arith
length-drop (suc n) (x ∷ b) = omega (arith, length-drop n b)

copy_run :
    (dst b b' s t : Buffer) (n : ℕ)
    → strcpy dst s ≡ some b
    → strlen b ≡ some n
    → strcpy_loop b n t ≡ some b'
    → (strcpy dst s >>= λ d. strcat d t) ≡ some b'
unfolding strcat
copy_run dst b b' s t n e f g = rw (e, f) g

copied :
    (s dst rest : List ℕ)
    → NoNul s
    → length s < length dst
    → strcpy dst (s ++ 0 ∷ rest) ≡ some (s ++ 0 ∷ drop (suc (length s)) dst)
unfolding strcpy
copied s dst rest h l = strcpy_loop_lem s [] dst rest 0 h refl l

-- strcpy of a text and then strcat of another, in a buffer with room for both and a terminator, end
-- without an access outside the buffers and leave the one text behind the other, terminated.
strcpy-strcat :
    (s t dst rest rest' : List ℕ)
    → NoNul s
    → NoNul t
    → length s + length t < length dst
    → (tail : Buffer) × ((strcpy dst (s ++ 0 ∷ rest) >>= λ d. strcat d (t ++ 0 ∷ rest'))
        ≡ some (s ++ (t ++ 0 ∷ tail)))
strcpy-strcat s t dst rest rest' hs ht l =
    let behind = 0 ∷ drop (suc (length s)) dst in
    (
      drop (length t) (drop (suc (length s)) dst),
      copy_run dst (s ++ behind) (s ++ (t ++ 0 ∷ drop (length t) (drop (suc (length s)) dst)))
          (s ++ 0 ∷ rest) (t ++ 0 ∷ rest') (length s) (copied s dst rest hs (omega (arith, l)))
          (strlen_lem s (drop (suc (length s)) dst) hs)
          (strcpy_loop_lem t s behind rest' (length s) ht refl
            (omega (arith, length-drop (suc (length s)) dst))),
    )

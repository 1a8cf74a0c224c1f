-- ===== src/User/Edit/Save.antt =====
-- What writeFile of user/edit.c makes of a list of lines.
use net_os.Base.{
  ℕ, zero, suc, ◌+◌, ◌≡◌, refl, sym, ap, ◌∙◌, some, List, [], ◌∷◌, ◌++◌, length, replicate,
  length-replicate, take-append, length-append, append_assoc, arith,
}
use net_os.User.Memory.{Malloc}
use net_os.User.Memory.Laws.{store-at, memcpy_lem, strlen_lem, snoc}
use net_os.User.Edit.{tally, zero_loop, copy_loop, write_file}
use net_os.User.Edit.Spec.{strings, text_of, AllNoNul}

abbrev zeros : ℕ → List ℕ
zeros n = replicate n 0

replicate-add : (a b : ℕ) → zeros (a + b) ≡ zeros a ++ zeros b
replicate-add zero b = let e : 0 + b ≡ b = omega arith in rw e refl
replicate-add (suc a) b =
    let e : suc a + b ≡ suc (a + b) = omega arith in rw e (ap (λ l. 0 ∷ l) (replicate-add a b))

put_together :
    (done l text rest : List ℕ)
    → ((done ++ l) ++ 10 ∷ []) ++ (text ++ rest) ≡ done ++ ((l ++ 10 ∷ text) ++ rest)
put_together done l text rest =
    sym (snoc (done ++ l) 10 (text ++ rest))
    ∙ append_assoc done l (10 ∷ (text ++ rest))
    ∙ ap (λ b. done ++ b) (sym (append_assoc l (10 ∷ text) rest))

module _ (m : Malloc) where
  tally-text_of :
      (size : ℕ) (ls : List (List ℕ))
      → AllNoNul ls
      → tally m size (strings ls) ≡ some (size + length (text_of ls))
  unfolding tally
  tally-text_of size [] h = ap some (omega arith)
  tally-text_of size (l ∷ ls) h = rw (strlen_lem l [] (h.0)) (
      tally-text_of (size + length l + 1) ls (h.1)
      ∙ ap some (omega (arith, length-append l (10 ∷ text_of ls))))

  zero_loop_lem :
      (xs ys : List ℕ) (i : ℕ)
      → i ≡ length xs
      → zero_loop m (length ys) i (xs ++ ys) ≡ some (xs ++ zeros (length ys))
  unfolding zero_loop
  zero_loop_lem xs [] i e = refl
  zero_loop_lem xs (y ∷ ys) i e =
      rw (store-at xs y 0 ys i e, snoc xs 0 ys, snoc xs 0 (zeros (length ys)))
        (zero_loop_lem (xs ++ 0 ∷ []) ys (i + 1) (omega (arith, e, length-append xs (0 ∷ []))))

  copy_loop-text_of :
      (ls : List (List ℕ))
      → AllNoNul ls
      → (done : List ℕ) (val k : ℕ) → val ≡ length done
      → copy_loop m (strings ls) val (done ++ zeros (length (text_of ls) + k))
        ≡ some (done ++ (text_of ls ++ zeros k))
  unfolding copy_loop
  copy_loop-text_of [] h done val k e = let z : 0 + k ≡ k = omega arith in rw z refl
  copy_loop-text_of (l ∷ ls) h done val k e =
      let n = length (text_of ls) + k in
      let cells : length (l ++ 10 ∷ text_of ls) + k ≡ length l + suc n =
        omega (arith, length-append l (10 ∷ text_of ls)) in
      let cleared : zeros (length (l ++ 10 ∷ text_of ls) + k) ≡ zeros (length l) ++ 0 ∷ zeros n =
        ap (λ c. zeros c) cells ∙ replicate-add (length l) (suc n) in
      let copied =
        memcpy_lem done (zeros (length l)) (0 ∷ zeros n) [] l (0 ∷ []) val 0 (length l) e refl refl
          (length-replicate (length l) 0) in
      let stored =
        store-at (done ++ l) 0 10 (zeros n) (val + length l)
          (omega (arith, e, length-append done l)) in
      rw
        (
          cleared,
          strlen_lem l [] (h.0),
          copied,
          ← append_assoc done l (0 ∷ zeros n),
          stored,
          snoc (done ++ l) 10 (zeros n),
          copy_loop-text_of ls (h.1) ((done ++ l) ++ 10 ∷ []) (val + length l + 1) k
              (omega (arith, e, length-append done l, length-append (done ++ l) (10 ∷ []))),
        )
        (ap some (put_together done l (text_of ls) (zeros k)))

  pub write_file-text_of :
      (ls : List (List ℕ)) → AllNoNul ls → write_file m (strings ls) ≡ some (text_of ls)
  unfolding write_file
  write_file-text_of ls h =
      let n = length (text_of ls) in
      let size : tally m 0 (strings ls) ≡ some n = tally-text_of 0 ls h ∙ ap some (omega arith) in
      let cleared : zero_loop m (n + 1) 0 (m.fresh (n + 1)) ≡ some (zeros (n + 1)) =
        rw (m.size (n + 1)) at (zero_loop_lem [] (m.fresh (n + 1)) 0 refl) in
      rw
        (
          size,
          cleared,
          copy_loop-text_of ls h [] 0 1 refl,
          store-at (text_of ls) 0 0 [] n refl,
          store-at (text_of ls) 0 0 [] n refl,
        )
        (ap some (take-append (text_of ls) (0 ∷ [])))

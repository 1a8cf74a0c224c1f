-- ===== src/User/Edit/Read.antt =====
-- The list of lines that main of user/edit.c makes of a file.
use net_os.Base.{
  ℕ, suc, ◌+◌, ◌-◌, ◌≡◌, refl, sym, ap, ◌∙◌, true, ◌==◌, Option, some, List, [], ◌∷◌, ◌++◌, length,
  length-append, append_assoc, append-nil, arith, Bool-cases, inl, inr,
}
use net_os.User.Memory.{Buffer, Malloc, load, store, memcpy}
use net_os.User.Memory.Laws.{load-at, store-at, split_last, memcpy_lem, snoc}
use net_os.User.Edit.{read_loop, read_lines}
use net_os.User.Edit.Spec.{lines_of, strings}

module _ (m : Malloc) where
  -- The block of a line before its terminator is put in.
  line_lem :
      (before cur rest : List ℕ) (h k : ℕ)
      → h ≡ length before
      → k ≡ length cur
      → (y : ℕ) × (memcpy (m.fresh (k + 1)) 0 (before ++ (cur ++ rest)) h k ≡ some (cur ++ y ∷ []))
  line_lem before cur rest h k eh ek =
      let (xs, y, e, len) = split_last k (m.fresh (k + 1)) (omega (arith, m.size (k + 1))) in
      (
        y,
        rw e (memcpy_lem [] xs (y ∷ []) before cur rest 0 h k refl eh ek (omega (arith, len, ek))),
      )

  -- A round at a newline.
  ended :
      (buffer : Buffer) (n : ℕ) (lines : List Buffer) (h t c : ℕ) (line line' : Buffer)
      (r : Option (List Buffer))
      → load buffer t ≡ some c
      → (c == 10) ≡ true
      → memcpy (m.fresh (t - h + 1)) 0 buffer h (t - h) ≡ some line
      → store line (t - h) 0 ≡ some line'
      → read_loop m buffer n (lines ++ line' ∷ []) (t + 1) (t + 1) ≡ r
      → read_loop m buffer (suc n) lines h t ≡ r
  unfolding read_loop
  ended buffer n lines h t c line line' r got newline copied stored rest =
      rw (got, newline, copied, stored) rest

  read_loop-lines_of :
      (before cur rest : List ℕ) (lines : List Buffer) (buffer : Buffer) (h t : ℕ)
      → buffer ≡ before ++ (cur ++ rest)
      → h ≡ length before
      → t ≡ length before + length cur
      → read_loop m buffer (length rest) lines h t ≡ some (lines ++ strings (lines_of cur rest))
  unfolding read_loop lines_of
  read_loop-lines_of before cur [] lines buffer h t eb eh et = ap some (sym (append-nil lines))
  read_loop-lines_of before cur (c ∷ rest) lines buffer h t eb eh et =
      let whole : buffer ≡ (before ++ cur) ++ c ∷ rest =
        eb ∙ sym (append_assoc before cur (c ∷ rest)) in
      let at : t ≡ length (before ++ cur) = omega (arith, et, length-append before cur) in
      let got : load buffer t ≡ some c = rw whole (load-at (before ++ cur) c rest t at) in
      elim (Bool-cases (c == 10)) [
        | inr e ↦
            let on : cur ++ c ∷ rest ≡ (cur ++ c ∷ []) ++ rest = snoc cur c rest in
            rw (got, e)
              (read_loop-lines_of before (cur ++ c ∷ []) rest lines buffer h (t + 1) (rw on at eb)
                eh (omega (arith, et, length-append cur (c ∷ []))))
        | inl e ↦
            let (y, copied) = line_lem before cur (c ∷ rest) h (t - h) eh (omega (arith, eh, et)) in
            let stored = store-at cur y 0 [] (t - h) (omega (arith, eh, et)) in
            let next : buffer ≡ ((before ++ cur) ++ c ∷ []) ++ ([] ++ rest) =
              whole ∙ snoc (before ++ cur) c rest in
            let len : t + 1 ≡ length ((before ++ cur) ++ c ∷ []) =
              omega (arith, at, length-append (before ++ cur) (c ∷ [])) in
            rw e (
              ended buffer (length rest) lines h t c (cur ++ y ∷ []) (cur ++ 0 ∷ []) _ got e
                (ap (λ b. memcpy (m.fresh (t - h + 1)) 0 b h (t - h)) eb ∙ copied) stored
                (read_loop-lines_of ((before ++ cur) ++ c ∷ []) [] rest
                  (lines ++ (cur ++ 0 ∷ []) ∷ []) buffer (t + 1) (t + 1) next len
                  (omega (arith, len)))
              ∙ ap some (append_assoc lines ((cur ++ 0 ∷ []) ∷ []) (strings (lines_of [] rest))))
      ]

  pub read_lines-lines_of :
      (text l : List ℕ) (ls : List (List ℕ))
      → lines_of [] text ≡ l ∷ ls
      → read_lines m text ≡ some (strings (l ∷ ls))
  unfolding read_lines
  read_lines-lines_of text l ls e =
      rw (read_loop-lines_of [] [] text [] text 0 0 refl refl refl, e) refl

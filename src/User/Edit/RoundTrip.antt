-- ===== src/User/Edit/RoundTrip.antt =====
-- Reading a file into the editor of user/edit.c and writing it back.
use net_os.Base.{ℕ, ◌≡◌, refl, ap, ◌∙◌, some, List, [], ◌∷◌, ◌++◌, length, length-append, arith}
use net_os.User.Memory.{Buffer, Malloc}
use net_os.User.Memory.Laws.{NoNul}
use net_os.User.Edit.{read_lines, write_file}
use net_os.User.Edit.Spec.{
  NoLine, lines_of, text_of, text_of-lines_of, AllNoNul, AllNoNul-lines_of, strings,
}
use net_os.User.Edit.Read.{read_lines-lines_of}
use net_os.User.Edit.Save.{write_file-text_of}

some_line :
    (body : List ℕ) (ls : List (List ℕ))
    → text_of ls ≡ body ++ 10 ∷ []
    → (l : List ℕ) × (more : List (List ℕ)) × (ls ≡ l ∷ more)
some_line body [] e = absurd (omega (arith, ap length e, length-append body (10 ∷ [])))
some_line body (l ∷ more) e = (l, more, refl)

writes_back :
    (m : Malloc) (text : List ℕ) (ls : List (List ℕ)) (l : List ℕ) (more : List (List ℕ))
    (out : List ℕ)
    → lines_of [] text ≡ ls
    → ls ≡ l ∷ more
    → AllNoNul ls
    → text_of ls ≡ out
    → (lines : List Buffer) × (read_lines m text ≡ some lines) × (write_file m lines ≡ some out)
writes_back m text ls l more out e e' h same = (
  strings (l ∷ more),
  read_lines-lines_of m text l more (e ∙ e'),
  write_file-text_of m (l ∷ more) (rw e' at h) ∙ ap some (rw e' at same),
)

-- The editor reads a file with at least one newline and no byte 0 into its lines, without an access outside a
-- block, whatever malloc returns holds, and writeFile then writes the bytes of the file up to its last
-- newline: all of a file that ends with a newline, and nothing of what stands behind the last newline.
pub read_lines-write_file :
    (m : Malloc) (body tail : List ℕ)
    → NoNul (body ++ 10 ∷ tail)
    → NoLine tail
    → (lines : List Buffer) × (read_lines m (body ++ 10 ∷ tail) ≡ some lines)
      × (write_file m lines ≡ some (body ++ 10 ∷ []))
read_lines-write_file m body tail plain last =
    let text = body ++ 10 ∷ tail in
    let same = text_of-lines_of [] body tail last in
    let (l, more, e) = some_line body (lines_of [] text) same in
    writes_back m text (lines_of [] text) l more (body ++ 10 ∷ []) refl e
      (AllNoNul-lines_of [] text tt plain) same

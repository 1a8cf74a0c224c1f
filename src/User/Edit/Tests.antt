-- ===== src/User/Edit/Tests.antt =====
-- A file of two lines with bytes behind its last newline, and the theorem at it.
use net_os.Base.{◌≡◌, refl, none, some, List, [], ◌∷◌, ◌++◌, replicate, length-replicate, arith}
use net_os.User.Memory.{Buffer, Malloc, load}
use net_os.User.Edit.{read_lines, read_loop, write_file}
use net_os.User.Edit.RoundTrip.{read_lines-write_file}

abbrev dirty : Malloc
dirty = record { fresh = λ n. replicate n 170; size = λ n. length-replicate n 170 }

read_lines-write_file_example :
    (lines : List Buffer) × (read_lines dirty ((97 ∷ 98 ∷ 10 ∷ 99 ∷ []) ++ 10 ∷ 100 ∷ [])
      ≡ some lines)
    × (write_file dirty lines ≡ some ((97 ∷ 98 ∷ 10 ∷ 99 ∷ []) ++ 10 ∷ []))
read_lines-write_file_example =
    read_lines-write_file dirty (97 ∷ 98 ∷ 10 ∷ 99 ∷ []) (100 ∷ [])
      (
        λ e. omega (arith, e),
        (
          λ e. omega (arith, e),
          (
            λ e. omega (arith, e),
            (λ e. omega (arith, e), (λ e. omega (arith, e), (λ e. omega (arith, e), tt))),
          ),
        ),
      )
      (λ e. omega (arith, e), tt)

-- A file without a newline ends at an access through null.
no_newline : read_lines dirty (97 ∷ []) ≡ none
unfolding read_lines read_loop load
no_newline = refl

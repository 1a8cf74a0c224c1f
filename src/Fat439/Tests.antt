-- ===== src/Fat439/Tests.antt =====
-- An image of two files.
use net_os.Base.{
  ℕ, zero, suc, ◌+◌, ◌-◌, ◌%◌, ◌<◌, ◌≡◌, ◌≢◌, refl, some, List, [], ◌∷◌, get_elem?, slice, arith,
  min, unwrap, ap, get_or, ◌>>=◌,
}
use net_os.User.Memory.Laws.{NoNul}
use net_os.Kernel.Fs.{read_fully, ok}
use net_os.Fat439.{
  File, Image, main, get_block, write, to_ptr, word, one_file, one_file_loop, files_loop, link_loop,
  format,
}
use net_os.Fat439.OneFile.{Reads}
use net_os.Fat439.Files.{all_blocks, blocks_of}
use net_os.Fat439.Build.{Fits}
use net_os.Fat439.Mounted.{read_block, table}
use net_os.Fat439.RoundTrip.{CanFind, IsThere, main-read_fully}

-- read(2) that brings all that fits.
abbrev all_at_once : ℕ → ℕ → ℕ
all_at_once rest asked = min rest asked

all_at_once-Reads : Reads all_at_once
all_at_once-Reads = record { most = λ r a. omega arith; some_read = λ r a p q. omega (arith, p, q) }

-- "a" of 3 bytes, and "bc" of 600.
abbrev one : File
one = record { name = 97 ∷ []; size = 3; byte = λ i. 65 + i }

abbrev two : File
two = record { name = 98 ∷ 99 ∷ []; size = 600; byte = λ i. i % 256 }

abbrev files : List File
files = one ∷ two ∷ []

abbrev zeros : ℕ → ℕ
zeros i = 0

abbrev no_files : ℕ → ℕ
no_files i = 255

files-Fits : Fits 10 files zeros
unfolding all_blocks blocks_of
files-Fits = record { small = omega arith; room = omega arith; few = omega arith; fresh = refl }

no_other :
    (j : ℕ) (f' : File) → j < 1 → get_elem? files j ≡ some f' → NoNul f'.name × (f'.name ≢ two.name)
no_other zero f' l e =
    rw (← unwrap e) ((ground arith, tt), λ q. ground (arith, ap (λ l. get_or l 0 0) q))
no_other (suc j) f' l e = absurd (omega (arith, l))

two-CanFind : CanFind files 1 two
two-CanFind = record {
  at = refl;
  plain = (ground arith, (ground arith, tt));
  short = omega arith;
  no_dot = λ e. ground (arith, ap (λ l. get_or l 0 0) e);
  first = no_other;
}

main-read_fully_example :
    (img : Image) × (s : ℕ) × (main all_at_once 10 files zeros no_files ≡ some img)
    × IsThere img files two s
    × (read_fully
          (read_block img)
          (table img)
          (record { start = s; type = 1; length = 600 })
          500
          200
        ≡ ok (
          slice two.byte 500 (min 200 (600 - 500)),
          min 200 (600 - 500),
          500 + min 200 (600 - 500),
        ))
main-read_fully_example =
    main-read_fully all_at_once all_at_once-Reads 10 files zeros no_files files-Fits 1 two
      two-CanFind 500 200 (omega arith) (omega arith)

-- The file of 3 bytes starts in block 8, the other in block 7, and goes on in block 6.
links :
    (do
      img ← main all_at_once 10 files zeros no_files
      some (img.root ∷ img.avail ∷ img.fat 8 ∷ img.fat 7 ∷ img.fat 6 ∷ []))
    ≡ some (9 ∷ 5 ∷ 0 ∷ 6 ∷ 0 ∷ [])
unfolding main format files_loop one_file one_file_loop get_block write to_ptr word link_loop
links = refl

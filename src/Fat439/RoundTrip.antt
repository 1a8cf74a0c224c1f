-- ===== src/Fat439/RoundTrip.antt =====
-- Building an image with fat439/mkfs.c and reading it with kernel/fs.cc.
use net_os.Base.{
  ℕ, ◌+◌, ◌-◌, ◌^◌, ◌≤◌, ◌<◌, ◌≡◌, ◌≢◌, refl, some, List, [], ◌∷◌, ◌++◌, length, get_elem?, slice,
  arith, min,
}
use net_os.User.Memory.Laws.{NoNul}
use net_os.Kernel.Fs.{OpenFile, read_fully, ok}
use net_os.Kernel.Fs.Directory.{open_file, lookup}
use net_os.Fat439.{File, Image, main}
use net_os.Fat439.OneFile.{Reads}
use net_os.Fat439.Build.{Built, Fits, main-Built}
use net_os.Fat439.Mounted.{read_block, table, open_file_lem, read_fully_lem}
use net_os.Fat439.Found.{opened_root, open_root_lem, lookup_skips, lookup_name}

-- A file of the list whose name can be looked up: a C string of fewer than 12 bytes, not ".", which no
-- earlier file has.
pub record CanFind (files : List File) (k : ℕ) (f : File) : Type 0 where
  pub at : get_elem? files k ≡ some f
  pub plain : NoNul f.name
  pub short : length f.name < 12
  pub no_dot : f.name ≢ 46 ∷ []
  pub first :
      (j : ℕ) (f' : File) → j < k → get_elem? files j ≡ some f' → NoNul f'.name × (f'.name ≢ f.name)

-- The file is in the image: the root directory can be opened, a lookup of the name finds a block, and the
-- file there opens with its length and as a file.
pub record IsThere (img : Image) (files : List File) (f : File) (s : ℕ) : Type 0 where
  pub root : OpenFile
  pub open_root : open_file (read_block img) img.root ≡ some root
  pub root_type : root.type ≡ 2
  pub looked_up : lookup (read_block img) (table img) img.root root (f.name ++ 0 ∷ []) ≡ ok s
  pub open_found :
      open_file (read_block img) s ≡ some (record { start = s; type = 1; length = f.size })

found-IsThere :
    (n_blocks : ℕ) (files : List File)
    → length files ≤ 31
    → (k : ℕ) (f : File) → CanFind files k f
    → (img : Image) → Built n_blocks files img
    → (offset n : ℕ) → n < 2 ^ 32
    → offset ≤ f.size
    → (s : ℕ) × IsThere img files f s
      × (read_fully
            (read_block img)
            (table img)
            (record { start = s; type = 1; length = f.size })
            offset
            n
          ≡ ok (
            slice f.byte offset (min n (f.size - offset)),
            min n (f.size - offset),
            offset + min n (f.size - offset),
          ))
found-IsThere n_blocks files few k f c img built offset n a b =
    let (s, below, entry, stored) = built.loaded.file k f c.at in
    let h = built.root in
    let r = n_blocks - 1 in
    let all : length files - 0 ≡ length files = omega arith in
    let k_on : 0 + k ≡ k = omega arith in
    let found =
      lookup_skips h few files f s k built.loaded c.at refl (rw k_on at entry)
        (omega (arith, h.inside, h.small, below)) c.plain c.short c.first k 0 k_on in
    (
      s,
      record {
        root = opened_root h few;
        open_root = rw h.root_is (open_root_lem h few);
        root_type = refl;
        looked_up = rw h.root_is (lookup_name h few f.name s c.plain c.no_dot (rw all at found));
        open_found = open_file_lem stored h.small;
      },
      read_fully_lem stored h.small offset n a b,
    )

-- mkfs builds an image of any files that fit it, at most 31, on a new image file, however read(2) cuts them
-- up; in the image the kernel's root directory has each file whose name can be looked up, with its
-- length, and readFully of any range from an offset inside the file brings the bytes of the file on the host.
pub main-read_fully :
    (got : ℕ → ℕ → ℕ)
    → Reads got
    → (n_blocks : ℕ) (files : List File) (fat bytes : ℕ → ℕ) → Fits n_blocks files fat
    → (k : ℕ) (f : File) → CanFind files k f
    → (offset n : ℕ) → n < 2 ^ 32
    → offset ≤ f.size
    → (img : Image) × (s : ℕ) × (main got n_blocks files fat bytes ≡ some img)
      × IsThere img files f s
      × (read_fully
            (read_block img)
            (table img)
            (record { start = s; type = 1; length = f.size })
            offset
            n
          ≡ ok (
            slice f.byte offset (min n (f.size - offset)),
            min n (f.size - offset),
            offset + min n (f.size - offset),
          ))
main-read_fully got reads n_blocks files fat bytes fits k f c offset n a b =
    let (img, runs, built) = main-Built got reads n_blocks files fat bytes fits in
    let (s, there, reads) = found-IsThere n_blocks files fits.few k f c img built offset n a b in
    (img, s, runs, there, reads)

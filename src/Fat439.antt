-- ===== src/Fat439.antt =====
-- fat439/mkfs.c, which builds the image of a file system. The mapped image is a record of its three parts:
-- the words of the super block, the file allocation table, and the bytes of the blocks; the blocks that are
-- ever given lie behind the table, so that the parts do not overlap. A file on the host is its size and its
-- bytes. The parameter `got` is read(2) on such a file: how many bytes a call brings of the ones left, when
-- `asked` fit the buffer. `none` is an exit, or an access outside the mapping.
pub mod Alloc
pub mod OneFile
pub mod Stored
pub mod Files
pub mod Build
pub mod Mounted
pub mod Found
pub mod RoundTrip
mod Tests
use net_os.Base.{
  ℕ, zero, suc, ◌+◌, ◌-◌, ◌*◌, ◌/◌, ◌%◌, ◌^◌, Bool, Option, none, some, List, [], ◌∷◌, length,
  get_or, ◌&&◌, leb, ltb, ◌==◌, if◌then◌else◌, ◌>>=◌, add32,
}

pub record File : Type 0 where
  pub name : List ℕ
  pub size : ℕ
  pub byte : ℕ → ℕ

pub record Image : Type 0 where
  pub n_blocks : ℕ
  pub avail : ℕ
  pub root : ℕ
  pub fat : ℕ → ℕ
  pub bytes : ℕ → ℕ

abbrev pub update : (ℕ → ℕ) → ℕ → ℕ → ℕ → ℕ
update f i v j = if j == i then v else f j

-- `n` bytes from `a` on.
abbrev pub written : (ℕ → ℕ) → ℕ → ℕ → (ℕ → ℕ) → ℕ → ℕ
written bytes a n v j = if leb a j && ltb j (a + n) then v (j - a) else bytes j

pub write : ℕ → ℕ → (ℕ → ℕ) → Image → Option Image
write a n v img =
    if leb (a + n) (img.n_blocks * 512)
    then some (record img { bytes = written img.bytes a n v })
    else none

-- The bytes of a word.
unfoldable pub word : ℕ → ℕ → ℕ
word v zero = v % 256
word v (suc k) = word (v / 256) k

pub get_block : Image → Option (ℕ × Image)
get_block img =
    let idx = img.avail in
    if idx == 0
    then none
    else some (idx, record img { avail = img.fat idx; fat = update img.fat idx 0 })

pub to_ptr : ℕ → ℕ → ℕ
to_ptr idx offset = idx * 512 % 2 ^ 32 + offset

module _ (got : ℕ → ℕ → ℕ) where
  -- The loop of oneFile, with `pos` bytes of the file read.
  pub one_file_loop : File → ℕ → ℕ → ℕ → ℕ → ℕ → ℕ → Image → Option (ℕ × Image)
  one_file_loop f zero pos current_block block_offset left_in_block total_size img = none
  one_file_loop f (suc fuel) pos current_block block_offset left_in_block total_size img =
      let next : Option (ℕ × ℕ × ℕ × Image) =
        (if left_in_block == 0
          then (do
            (b, img) ← get_block img
            some (b, 0, 512, record img { fat = update img.fat current_block b }))
          else some (current_block, block_offset, left_in_block, img)) in
      do
        (current_block, block_offset, left_in_block, img) ← next
        let n = got (f.size - pos) left_in_block
        let again = (do
          img ← write (to_ptr current_block block_offset) n (λ i. f.byte (pos + i)) img
          one_file_loop f fuel (pos + n) current_block (block_offset + n) (left_in_block - n)
              (add32 total_size n) img)
        if n == 0 then some (total_size, img) else again

  -- oneFile: the first block.
  pub one_file : File → Image → Option (ℕ × Image)
  one_file f img = do
    (start, img) ← get_block img
    img ← write (to_ptr start 0) 4 (word 1) img
    (total, img) ← one_file_loop f (f.size + 1) 0 start 8 504 0 img
    img ← write (to_ptr start 0 + 4) 4 (word total) img
    some (start, img)

  -- The loop of main over the files: strncpy of the name to `i * 16` in the root directory, padded with 0
  -- to 12 bytes, and the number of the first block.
  pub files_loop : ℕ → ℕ → List File → Image → Option Image
  files_loop root_data i [] img = some img
  files_loop root_data i (f ∷ fs) img = do
    (x, img) ← one_file f img
    img ← write (root_data + i * 16) 12 (λ j. get_or f.name j 0) img
    img ← write (root_data + i * 16 + 12) 4 (word x) img
    files_loop root_data (i + 1) fs img

-- `for (i = avail; i > lastAvail; i--) fat[i] = i - 1`, with `k` rounds.
pub link_loop : ℕ → ℕ → (ℕ → ℕ) → ℕ → ℕ
link_loop zero i fat = fat
link_loop (suc k) i fat = link_loop k (i - 1) (update fat i (i - 1))

-- main from the super block to the root directory: the image and where the directory's entries go.
pub format : ℕ → ℕ → (ℕ → ℕ) → (ℕ → ℕ) → Option (ℕ × Image)
format n_blocks n_files fat bytes =
    let fat_blocks = (n_blocks * 4 + 511) / 512 in
    let last_avail = 1 + fat_blocks in
    let avail = n_blocks - 1 in
    do
      let img : Image = record {
        n_blocks = n_blocks;
        avail = avail;
        root = 0;
        fat = link_loop (avail - last_avail) avail fat;
        bytes = bytes;
      }
      (root, img) ← get_block img
      let img = record img { root = root }
      img ← write (to_ptr root 0) 4 (word 2) img
      img ← write (to_ptr root 0 + 4) 4 (word (n_files * 16)) img
      some (to_ptr root 8, img)

-- main on an image file of which `fat` and `bytes` are what it holds already.
pub main : (ℕ → ℕ → ℕ) → ℕ → List File → (ℕ → ℕ) → (ℕ → ℕ) → Option Image
main got n_blocks files fat bytes = do
  (root_data, img) ← format n_blocks (length files) fat bytes
  files_loop got root_data 0 files img

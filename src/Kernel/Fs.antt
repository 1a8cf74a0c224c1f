-- ===== src/Kernel/Fs.antt =====
-- Reading files of the FAT439 file system: class File of kernel/fs.h, classes OpenFile, Fat439File
-- and Fat439Directory of kernel/fs.cc. The disk is the parameter `read_block` of Kernel/Block.antt,
-- in blocks of 512 bytes; the file allocation table is the list `fat`.
pub mod Chain
pub mod ReadFile
pub mod Directory
pub mod Write
pub mod OpenFiles
mod Tests
use net_os.Base.{
  ℕ, zero, suc, ◌+◌, ◌-◌, ◌*◌, ◌/◌, ◌%◌, ◌^◌, Option, none, some, List, [], ◌++◌, ◌==◌,
  if◌then◌else◌, ltb, min, add32, sub32, get_elem?,
}
use net_os.Kernel.Block

-- How a read ends: with a value, with a negative result, by a read outside `fat`, or with the fuel
-- used up.
pub data Result {ℓ} (A : Type ℓ) : Type ℓ where
  ok : A → Result A
  too_long fault out_of_fuel : Result A

infixl 5 ◌>>=◌
abbrev pub ◌>>=◌ {ℓ κ} : {A : Type ℓ} {B : Type κ} → Result A → (A → Result B) → Result B
ok a >>= f = f a
too_long >>= f = too_long
fault >>= f = fault
out_of_fuel >>= f = out_of_fuel

-- A count returned as an int32_t: from 2 ^ 31 on the result is negative.
pub as_int32 {ℓ} : {A : Type ℓ} → ℕ → A → Result A
as_int32 n a = if ltb n (2 ^ 31) then ok a else too_long

pub record OpenFile : Type 0 where
  pub start : ℕ
  pub type : ℕ
  pub length : ℕ

-- `for (i = 0; i < blockInFile; i++) blockNumber = fat[blockNumber]`
unfoldable pub walk : List ℕ → ℕ → ℕ → Option ℕ
walk fat zero block = some block
walk fat (suc k) block = elim (get_elem? fat block) [ none ↦ none | some b ↦ walk fat k b ]

module _ (read_block : ℕ → List ℕ) (fat : List ℕ) (f : OpenFile) where
  -- OpenFile::read: the bytes put into `buf` and the count.
  pub read_at : ℕ → ℕ → Result (List ℕ × ℕ)
  unfolding walk
  read_at offset length =
      if ltb f.length offset
      then too_long
      else let len = min length (f.length - offset) in
        let actual_offset = add32 offset 8 in
        elim (walk fat (actual_offset / 512) f.start) [
          | none ↦ fault
          | some b ↦ ok (Block.read 512 read_block ((b * 512 + actual_offset % 512) % 2 ^ 32) len)
        ]

  -- OpenFile::readFully. `offset` stays as it is from round to round.
  pub read_fully_at_loop : ℕ → ℕ → ℕ → ℕ → Result (List ℕ × ℕ)
  unfolding read_at
  read_fully_at_loop zero length offset togo = out_of_fuel
  read_fully_at_loop (suc fuel) length offset togo =
      let round : Result (List ℕ × ℕ) = (do
        (bytes, cnt) ← read_at offset togo
        let again = read_fully_at_loop fuel length offset (sub32 togo cnt)
        if cnt == 0
            then ok ([], sub32 length togo)
            else do (more, total) ← again; ok (bytes ++ more, total)) in
      if togo == 0 then ok ([], length) else round

  pub read_fully_at : ℕ → ℕ → Result (List ℕ × ℕ)
  unfolding read_fully_at_loop as_int32
  read_fully_at offset length = do
    (bytes, total) ← read_fully_at_loop (length + 1) length offset length
    as_int32 total (bytes, total)

  -- Fat439File::read: the bytes, the count, and the file's new offset.
  pub read : ℕ → ℕ → Result (List ℕ × ℕ × ℕ)
  unfolding read_at
  read offset length = do
    (bytes, cnt) ← read_at offset length
    ok (bytes, cnt, if ltb 0 cnt then add32 offset cnt else offset)

  -- File::readFully.
  pub read_fully_loop : ℕ → ℕ → ℕ → ℕ → Result (List ℕ × ℕ × ℕ)
  unfolding read
  read_fully_loop zero length offset togo = out_of_fuel
  read_fully_loop (suc fuel) length offset togo =
      let round : Result (List ℕ × ℕ × ℕ) = (do
        (bytes, c, offset') ← read offset togo
        let again = read_fully_loop fuel length offset' (sub32 togo c)
        if c == 0
            then ok ([], sub32 length togo, offset')
            else do (more, total, end) ← again; ok (bytes ++ more, total, end)) in
      if togo == 0 then ok ([], length, offset) else round

  pub read_fully : ℕ → ℕ → Result (List ℕ × ℕ × ℕ)
  unfolding read_fully_loop as_int32
  read_fully offset length = do
    (bytes, total, end) ← read_fully_loop (length + 1) length offset length
    as_int32 total (bytes, total, end)

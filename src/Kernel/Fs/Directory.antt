-- ===== src/Kernel/Fs/Directory.antt =====
-- Opening a file and looking names up in kernel/fs.cc: the constructor of OpenFile, and the class
-- Fat439Directory. A name is a C string: a buffer of bytes, of which a read outside is `none`.
-- lookup does not look at what readFully returns: a read that fails leaves the entry unknown, and is no
-- result here.
pub mod Names
use net_os.Base.{
  ℕ, zero, suc, ◌+◌, ◌*◌, ◌/◌, ◌%◌, ◌^◌, Bool, true, false, Option, none, some, List, [], ◌∷◌, ◌==◌,
  ◌&&◌, if◌then◌else◌, ◌>>=◌, take, drop, get_elem?, add32,
}
use net_os.Kernel.Block
use net_os.Kernel.Fs.{OpenFile, Result, ok, too_long, fault, out_of_fuel, read_fully_at}

-- The value of the bytes of a word in memory.
unfoldable pub value : List ℕ → ℕ
value [] = 0
value (b ∷ bytes) = b + 256 * value bytes

-- The inner loop of lookup from character `i` on, with the rest of the name in the entry.
unfoldable pub matches : List ℕ → List ℕ → ℕ → Option Bool
matches [] name i = some false
matches (x ∷ entry) name i = do
  c ← get_elem? name i
  let rest = matches entry name (i + 1)
  if x == c then (if x == 0 then some true else rest) else some false

module _ (read_block : ℕ → List ℕ) where
  -- OpenFile::OpenFile
  unfoldable pub open_file : ℕ → Option OpenFile
  open_file start = do
    meta_data ← Block.read_fully 512 read_block (start * 512 % 2 ^ 32) 8
    some (record {
      start = start;
      type = value (take 4 meta_data);
      length = value (drop 4 meta_data);
    })

  module _ (fat : List ℕ) where
    -- The loop of lookup with `k` entries to go: the block of the file, 0 if there is none.
    unfoldable pub lookup_loop : OpenFile → List ℕ → ℕ → ℕ → Result ℕ
    lookup_loop content name zero offset = ok 0
    lookup_loop content name (suc k) offset =
        let rest = lookup_loop content name k (add32 offset 16) in
        elim (read_fully_at read_block fat content offset 16) [
          | ok (entry, n) ↦ elim (matches (take 12 entry) name 0) [
            | none ↦ fault
            | some found ↦ if found then ok (value (drop 12 entry)) else rest
          ]
          | too_long ↦ too_long
          | fault ↦ fault
          | out_of_fuel ↦ out_of_fuel
        ]

    -- Fat439Directory::lookup of the directory that starts at the block `start`, with `content` open. Its
    -- `entries` is what the constructor makes of the length.
    unfoldable pub lookup : ℕ → OpenFile → List ℕ → Result ℕ
    lookup start content name =
        let entries = content.length / 16 in
        let found = lookup_loop content name entries 0 in
        elim (get_elem? name 0) [
          | none ↦ fault
          | some c ↦ elim (get_elem? name 1) [
            | none ↦ if c == 46 then fault else found
            | some d ↦ if (c == 46) && (d == 0) then ok start else found
          ]
        ]

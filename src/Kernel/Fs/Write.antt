-- ===== src/Kernel/Fs/Write.antt =====
-- Writing a file: OpenFile::write of kernel/fs.cc with findFreeBlock and addToAvail of kernel/fs.h and
-- BlockDevice::write of kernel/block.cc. The device is what its blocks hold; its writeBlock puts the bytes
-- at the start of a block and the parameter `pad` behind them. `none` is an access outside `fat`, or the
-- fuel used up.
pub mod Layout
pub mod Store
pub mod Saved
pub mod RoundTrip
mod Tests
use net_os.Base.{
  ℕ, zero, suc, ◌+◌, ◌-◌, ◌*◌, ◌/◌, ◌%◌, ◌^◌, Bool, true, false, Option, none, some, List, [], ◌∷◌,
  ◌++◌, slice, min, ltb, ◌==◌, if◌then◌else◌, ◌>>=◌,
}

pub record Volume : Type 0 where
  pub disk : ℕ → List ℕ
  pub n_blocks : ℕ
  pub fat : ℕ → ℕ
  pub avail : ℕ

abbrev pub update {ℓ} : {A : Type ℓ} → (ℕ → A) → ℕ → A → ℕ → A
update f i v j = if j == i then v else f j

-- `fat[i]` and `fat[i] = x`
pub fat_get : Volume → ℕ → Option ℕ
fat_get v i = if ltb i v.n_blocks then some (v.fat i) else none

pub fat_set : Volume → ℕ → ℕ → Option Volume
fat_set v i x = if ltb i v.n_blocks then some (record v { fat = update v.fat i x }) else none

-- Fat439::findFreeBlock
pub find_free_block : Volume → Option (ℕ × Volume)
find_free_block v = do next ← fat_get v v.avail; some (v.avail, record v { avail = next })

-- `while (fat[val] != 0) val = fat[val]`
pub list_end : Volume → ℕ → ℕ → Option ℕ
list_end v zero val = none
list_end v (suc fuel) val = do
  next ← fat_get v val
  let further = list_end v fuel next
  if next == 0 then some val else further

-- `while (val != 0) val = fat[val]`
pub list_out : Volume → ℕ → ℕ → Option ℕ
list_out v zero val = none
list_out v (suc fuel) val = do
  let further : Option ℕ = (do next ← fat_get v val; list_out v fuel next)
  if val == 0 then some val else further

-- Fat439::addToAvail
pub add_to_avail : ℕ → Volume → Option Volume
add_to_avail block v = do val ← list_end v (v.n_blocks + 1) v.avail; fat_set v val block

-- The header that BlockDevice::write puts before the first bytes of a file.
pub header : ℕ → List ℕ
header size =
    0 ∷ 0 ∷ 0 ∷ 1 ∷ size % 256 ∷ size / 256 % 256 ∷ size / 65536 % 256 ∷ size / 16777216 % 256 ∷ []

module _ (pad : List ℕ → List ℕ) where
  -- BlockDevice::write of the bytes `buf`, on blocks of 512 bytes.
  pub block_write : ℕ → List ℕ → Bool → ℕ → Volume → Volume
  block_write offset buf first header_size v =
      let bytes = if first then header header_size ++ buf else buf in
      record v { disk = update v.disk (offset / 512) (bytes ++ pad bytes) }

  -- The loop of OpenFile::write, with `length` bytes to go.
  pub write_loop : (ℕ → ℕ) → ℕ → ℕ → ℕ → ℕ → Bool → ℕ → Volume → Option (ℕ × ℕ × Volume)
  write_loop buf zero block_number old_block offset first length v = none
  write_loop buf (suc fuel) block_number old_block offset first length v =
      let allocated : Option (ℕ × Volume) =
        (if block_number == 0
          then (do
            (b, v) ← find_free_block v
            v ← fat_set v b 0
            v ← fat_set v old_block b
            some (b, v))
          else some (block_number, v)) in
      let num_to_write = if first then min 504 length else min 512 length in
      let round = (do
        (b, v) ← allocated
        let v = block_write (b * 512 % 2 ^ 32) (slice buf offset num_to_write) first length v
        next ← fat_get v b
        write_loop buf fuel next b (offset + num_to_write) false (length - num_to_write) v) in
      if length == 0 then some (block_number, old_block, v) else round

  -- OpenFile::write to the file that starts at `start`.
  pub write : ℕ → (ℕ → ℕ) → ℕ → Volume → Option Volume
  write start buf length v = do
    (block_number, old_block, v) ← write_loop buf (length + 1) start 0 0 true length v
    let rest : Option Volume = (do
      val ← list_out v (v.n_blocks + 1) v.avail
      val ← list_out v (v.n_blocks + 1) block_number
      v ← add_to_avail block_number v
      fat_set v old_block 0)
    if block_number == 0 then some v else rest

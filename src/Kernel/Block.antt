-- ===== src/Kernel/Block.antt =====
-- BlockDevice of kernel/block.h and kernel/block.cc. The device itself, the virtual `readBlock`, is
-- a parameter: the bytes that a block holds.
pub mod ReadFully
mod Tests
use net_os.Base.{
  ℕ, zero, suc, ◌+◌, ◌-◌, ◌*◌, ◌/◌, Option, none, some, List, [], ◌++◌, ◌==◌, if◌then◌else◌, ◌>>=◌,
  take, drop, min, add32, sub32,
}

module _ (block_size : ℕ) (read_block : ℕ → List ℕ) where
  -- The bytes put into `buf`, and the count returned.
  pub read : ℕ → ℕ → List ℕ × ℕ
  read offset n =
      let sector = offset / block_size in
      let block = read_block sector in
      let data_offset = offset - sector * block_size in
      let m = min n (block_size - data_offset) in (take m (drop data_offset block), m)

  -- `while (togo > 0)`, a round for each unit of fuel.
  pub read_fully_loop : ℕ → ℕ → ℕ → Option (List ℕ)
  read_fully_loop zero offset togo = none
  read_fully_loop (suc fuel) offset togo =
      let (bytes, c) = read offset togo in
      let rest = read_fully_loop fuel (add32 offset c) (sub32 togo c) in
      if togo == 0 then some [] else do more ← rest; some (bytes ++ more)

  -- All of `buf` at the end.
  pub read_fully : ℕ → ℕ → Option (List ℕ)
  unfolding read_fully_loop
  read_fully offset n = read_fully_loop (n + 1) offset n

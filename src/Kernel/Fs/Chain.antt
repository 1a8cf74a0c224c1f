-- ===== src/Kernel/Fs/Chain.antt =====
-- The bytes of a file in the order of its chain of blocks, and one read against them.
use net_os.Base.{
  ℕ, ◌+◌, ◌-◌, ◌*◌, ◌/◌, ◌%◌, ◌^◌, ◌≤◌, ◌<◌, ◌≡◌, some, List, arith, slice, slice-shift, length,
  min, add32_exact, ltb_of_le,
}
use net_os.Kernel.Block
use net_os.Kernel.Block.ReadFully.{byte_at, read_lem}
use net_os.Kernel.Fs.{OpenFile, walk, read_at, ok}

-- The walk from the first block stays inside `fat` and meets the blocks `blk 0`, `blk 1`, ..., up
-- to the block where the file ends; their addresses fit 32 bits.
pub record IsChain (fat : List ℕ) (f : OpenFile) (blk : ℕ → ℕ) : Type 0 where
  pub step : (k : ℕ) → k ≤ (f.length + 8) / 512 → walk fat k f.start ≡ some (blk k)
  pub small : (k : ℕ) → blk k < 2 ^ 23
  pub fits : f.length + 8 < 2 ^ 32

-- The byte of the file at `i`: the 8 bytes of the header are not part of the file.
abbrev pub content : (ℕ → List ℕ) → (ℕ → ℕ) → ℕ → ℕ
content read_block blk i = byte_at 512 read_block (blk ((i + 8) / 512) * 512 + (i + 8) % 512)

-- How much one read from `offset` brings: it stops at the end of the file and of the block.
abbrev pub amount : OpenFile → ℕ → ℕ → ℕ
amount f offset n = min (min n (f.length - offset)) (512 - (offset + 8) % 512)

module _ (read_block : ℕ → List ℕ) (fat : List ℕ) (f : OpenFile) (blk : ℕ → ℕ)
    (full : (s : ℕ) → length (read_block s) ≡ 512) (chain : IsChain fat f blk) where
  block_read :
      (b o n : ℕ)
      → b < 2 ^ 23
      → o < 512
      → Block.read 512 read_block ((b * 512 + o) % 2 ^ 32) n
        ≡ (slice (byte_at 512 read_block) (b * 512 + o) (min n (512 - o)), min n (512 - o))
  block_read b o n hb ho =
      let e : (b * 512 + o) % 2 ^ 32 ≡ b * 512 + o = omega arith in
      let e' : (b * 512 + o) % 512 ≡ o = omega arith in
      rw e (rw e' at (read_lem 512 read_block (omega arith) full (b * 512 + o) n))

  content-slice :
      (offset m : ℕ)
      → (offset + 8) % 512 + m ≤ 512
      → slice (byte_at 512 read_block) (blk ((offset + 8) / 512) * 512 + (offset + 8) % 512) m
        ≡ slice (content read_block blk) offset m
  content-slice offset m h =
      slice-shift (byte_at 512 read_block) (content read_block blk) _ offset m λ i p.
        let q : (offset + i + 8) / 512 ≡ (offset + 8) / 512 = omega arith in
        let r : (offset + i + 8) % 512 ≡ (offset + 8) % 512 + i = omega arith in
        let t = blk ((offset + 8) / 512) * 512 in
        let a : t + ((offset + 8) % 512 + i) ≡ t + (offset + 8) % 512 + i = omega arith in
        rw (q, r, a)

  pub read_at-content :
      (offset n : ℕ)
      → offset ≤ f.length
      → read_at read_block fat f offset n
        ≡ ok (slice (content read_block blk) offset (amount f offset n), amount f offset n)
  unfolding read_at
  read_at-content offset n h =
      let fits = chain.fits in
      rw (
        ltb_of_le f.length offset h,
        add32_exact offset 8 (omega arith),
        chain.step ((offset + 8) / 512) (omega arith),
        add32_exact offset 8 (omega arith),
        block_read (blk ((offset + 8) / 512)) ((offset + 8) % 512) (min n (f.length - offset))
            (chain.small _) (omega arith),
        content-slice offset (amount f offset n) (omega arith),
      )

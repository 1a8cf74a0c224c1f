-- ===== src/Kernel/Block/ReadFully.antt =====
-- `readFully` of kernel/block.cc against the device as one array of bytes.
use net_os.Base.{
  ℕ, zero, suc, ◌+◌, ◌-◌, ◌*◌, ◌/◌, ◌%◌, ◌^◌, ◌≤◌, ◌<◌, ◌≡◌, ◌∙◌, inl, inr, some, List, arith, ◌==◌,
  Bool-cases, get_or, slice, slice-shift, slice-append, take-drop, length, min, add32_exact,
  sub32_exact,
}
use net_os.Kernel.Block.{read, read_fully_loop, read_fully}

module _ (block_size : ℕ) (read_block : ℕ → List ℕ) where
  -- The byte at an address of the device.
  abbrev pub byte_at : ℕ → ℕ
  byte_at a = get_or (read_block (a / block_size)) (a % block_size) 0

module _ (block_size : ℕ) (read_block : ℕ → List ℕ) (0<size : 0 < block_size)
    (full : (s : ℕ) → length (read_block s) ≡ block_size) where
  read_count : (offset n : ℕ) → 0 < n → 0 < (read block_size read_block offset n).1
  unfolding read
  read_count offset n h = omega arith

  read-le : (offset n : ℕ) → (read block_size read_block offset n).1 ≤ n
  unfolding read
  read-le offset n = omega arith

  -- Inside one block the address splits into the block's number and the place in it.
  split_address :
      (offset i : ℕ)
      → offset - offset / block_size * block_size + i < block_size
      → ((offset + i) / block_size ≡ offset / block_size)
        × ((offset + i) % block_size ≡ offset - offset / block_size * block_size + i)
  split_address offset i h = grind arith

  read_count-eq :
      (offset n : ℕ)
      → (read block_size read_block offset n).1 ≡ min n (block_size - offset % block_size)
  unfolding read
  read_count-eq offset n =
      let e : offset - offset / block_size * block_size ≡ offset % block_size = grind arith in rw e

  read-slice :
      (offset n : ℕ)
      → (read block_size read_block offset n).0
        ≡ slice (byte_at block_size read_block) offset (read block_size read_block offset n).1
  unfolding read
  read-slice offset n =
      let sector = offset / block_size in
      let o = offset - sector * block_size in
      let m = min n (block_size - o) in
      take-drop (read_block sector) o m 0 (omega (arith, full sector))
      ∙ slice-shift (λ i. get_or (read_block sector) i 0) (byte_at block_size read_block) o offset m
          (λ i h. let e = split_address offset i (omega arith) in rw (e.0, e.1))

  -- One read stops at the end of its block.
  pub read_lem :
      (offset n : ℕ)
      → read block_size read_block offset n ≡ (
        slice (byte_at block_size read_block) offset (min n (block_size - offset % block_size)),
        min n (block_size - offset % block_size),
      )
  read_lem offset n = let e = read_count-eq offset n in rw (← e, ← read-slice offset n)

  read_fully_loop-slice :
      (fuel offset n : ℕ)
      → n < fuel
      → offset + n < 2 ^ 32
      → read_fully_loop block_size read_block fuel offset n
        ≡ some (slice (byte_at block_size read_block) offset n)
  unfolding read_fully_loop
  read_fully_loop-slice zero offset n h fits = elim h [ ]
  read_fully_loop-slice (suc fuel) offset n h fits = elim (Bool-cases (n == 0)) [
    | inl done ↦ let e : n ≡ 0 = ground arith in rw e
    | inr more ↦
        let c = (read block_size read_block offset n).1 in
        let some_read = read_count offset n (ground arith) in
        let few_read = read-le offset n in
        let e : c + (n - c) ≡ n = omega arith in
        rw (
          more,
          add32_exact offset c (omega arith),
          sub32_exact n c few_read (omega arith),
          read_fully_loop-slice fuel (offset + c) (n - c) (omega arith) (omega arith),
          read-slice offset n,
          slice-append _ offset c (n - c),
          e,
        )
  ]

  -- `readFully` ends, and fills the buffer with the bytes of the device from `offset` on, in order,
  -- however the range lies across blocks. The range ends below 2^32.
  pub read_fully-slice :
      (offset n : ℕ)
      → offset + n < 2 ^ 32
      → read_fully block_size read_block offset n
        ≡ some (slice (byte_at block_size read_block) offset n)
  unfolding read_fully
  read_fully-slice offset n fits = read_fully_loop-slice (n + 1) offset n (omega arith) fits

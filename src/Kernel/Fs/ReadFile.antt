-- ===== src/Kernel/Fs/ReadFile.antt =====
-- File::readFully of kernel/fs.h on a FAT439 file, and OpenFile::readFully of kernel/fs.cc.
use net_os.Base.{
  ℕ, zero, suc, ◌+◌, ◌-◌, ◌%◌, ◌^◌, ◌≤◌, ◌<◌, ◌≡◌, refl, ap, inl, inr, List, ◌++◌, arith, ◌==◌,
  Bool-cases, slice, slice-shift, false, ◌⊎◌, slice-append, length, min, ltb_of_lt, add32_exact,
  sub32_exact, ltb,
}
use native.Mathlib.Nat.{add-mod_left}
use net_os.Kernel.Fs.{
  OpenFile, read, read_fully_loop, read_fully, read_fully_at_loop, read_fully_at, as_int32, Result,
  ok,
}
use net_os.Kernel.Fs.Chain.{IsChain, content, amount, read_at-content}

-- A read of `c` bytes followed by one of `m`.
read_on :
    (g : ℕ → ℕ) (offset c m total before before' : ℕ)
    → total ≡ c + m
    → before ≡ before' + c
    → ◌≡◌ {A = Result (List ℕ × ℕ × ℕ)}
        (ok (slice g offset c ++ slice g (offset + c) m, before + m, offset + c + m))
        (ok (slice g offset total, before' + total, offset + total))
read_on g offset c m total before before' e e' =
    let a : before' + c + m ≡ before' + (c + m) = omega arith in
    let b : offset + c + m ≡ offset + (c + m) = omega arith in
    rw (e, e', slice-append g offset c m, a, b)

-- The same for a round that leaves the offset alone.
read_again :
    (g : ℕ → ℕ) (c m togo n : ℕ)
    → togo ≡ c + m
    → slice g 0 m ≡ slice g c m
    → ◌≡◌ {A = Result (List ℕ × ℕ)} (ok (slice g 0 c ++ slice g 0 m, n)) (ok (slice g 0 togo, n))
read_again g c m togo n e same =
    let a : 0 + c ≡ c = omega arith in
    rw (same, e) (ap (λ l. ok (l, n)) (rw a at (slice-append g 0 c m)))

module _ (read_block : ℕ → List ℕ) (fat : List ℕ) (f : OpenFile) (blk : ℕ → ℕ)
    (full : (s : ℕ) → length (read_block s) ≡ 512) (chain : IsChain fat f blk) where
  read-content :
      (offset n : ℕ)
      → offset ≤ f.length
      → read read_block fat f offset n
        ≡ ok (
          slice (content read_block blk) offset (amount f offset n),
          amount f offset n,
          offset + amount f offset n,
        )
  unfolding read
  read-content offset n h =
      let fits = chain.fits in
      let c = amount f offset n in
      rw (read_at-content read_block fat f blk full chain offset n h) (elim (Bool-cases (ltb 0 c)) [
        | inl e ↦ rw (e, add32_exact offset c (omega arith))
        | inr e ↦
            let z : c ≡ 0 = ground arith in let z' : offset + 0 ≡ offset = omega arith in rw (z, z')
      ])

  read_fully_loop-content :
      (fuel n offset togo : ℕ)
      → togo < fuel
      → togo ≤ n
      → n < 2 ^ 32
      → offset ≤ f.length
      → let m = min togo (f.length - offset) in
        read_fully_loop read_block fat f fuel n offset togo
        ≡ ok (slice (content read_block blk) offset m, n - togo + m, offset + m)
  unfolding read_fully_loop
  read_fully_loop-content zero n offset togo h le fits inside = elim h [ ]
  read_fully_loop-content (suc fuel) n offset togo h le fits inside =
      elim (Bool-cases (togo == 0)) [
        | inl done ↦
            let none_left : min togo (f.length - offset) ≡ 0 = ground arith in
            let a : n - togo + 0 ≡ n = ground arith in
            let b : offset + 0 ≡ offset = omega arith in rw (done, none_left, a, b)
        | inr more ↦ elim (Bool-cases (amount f offset togo == 0)) [
          | inl eof ↦
              let none_left : min togo (f.length - offset) ≡ 0 = ground arith in
              let a : n - togo + 0 ≡ n - togo = omega arith in
              let e : offset + min 0 (512 - (offset + 8) % 512) ≡ offset + 0 = omega arith in
              rw
                (
                  more,
                  read-content offset togo inside,
                  eof,
                  sub32_exact n togo le fits,
                  none_left,
                  a,
                )
                (rw e)
          | inr some ↦
              let c = amount f offset togo in
              let m' = min (togo - c) (f.length - (offset + c)) in
              rw
                (
                  more,
                  read-content offset togo inside,
                  some,
                  sub32_exact togo c (omega arith) (omega arith),
                  read_fully_loop-content fuel n (offset + c) (togo - c) (ground arith)
                      (omega arith) fits (omega arith),
                )
                (read_on (content read_block blk) offset c m' (min togo (f.length - offset))
                  (n - (togo - c)) (n - togo) (omega arith) (omega arith))
        ]
      ]

  -- File::readFully on an open file, from an offset within it: it ends, fills the buffer with the
  -- bytes of the file from the offset on, through all the blocks of the chain, returns their number,
  -- the length asked for or what the file has left, when an int32_t holds it, and moves the offset behind them.
  pub read_fully-content :
      (offset n : ℕ)
      → n < 2 ^ 32
      → offset ≤ f.length
      → min n (f.length - offset) < 2 ^ 31
      → read_fully read_block fat f offset n
        ≡ ok (
          slice (content read_block blk) offset (min n (f.length - offset)),
          min n (f.length - offset),
          offset + min n (f.length - offset),
        )
  unfolding read_fully as_int32
  read_fully-content offset n fits inside small =
      let m = min n (f.length - offset) in
      let e : n - n + m ≡ m = omega arith in
      rw
        (
          read_fully_loop-content (n + 1) n offset n (omega arith) (omega arith) fits inside,
          e,
          ltb_of_lt m (2 ^ 31) small,
        )
        refl

  -- What one round of OpenFile::readFully brings at most.
  abbrev reach : ℕ → ℕ
  reach offset = min (f.length - offset) (512 - (offset + 8) % 512)

  -- The first `reach` bytes from the offset, over and over.
  abbrev cycle : ℕ → ℕ → ℕ
  cycle offset i = content read_block blk (offset + i % reach offset)

  cycle-content :
      (offset c : ℕ)
      → c ≤ reach offset
      → slice (content read_block blk) offset c ≡ slice (cycle offset) 0 c
  cycle-content offset c h =
      slice-shift (content read_block blk) (cycle offset) offset 0 c
        λ i p. let e : (0 + i) % reach offset ≡ i = grind arith in rw e

  -- Another round starts where the cycle starts, if there is anything left to read.
  cycle_again :
      (offset c m : ℕ)
      → (c ≡ reach offset) ⊎ (m ≡ 0)
      → slice (cycle offset) 0 m ≡ slice (cycle offset) c m
  cycle_again offset c m (inl full) =
      slice-shift (cycle offset) (cycle offset) 0 c m
        λ i p. let z : 0 + i ≡ i = omega arith in rw (full, z, add-mod_left (reach offset) i)
  cycle_again offset c m (inr nothing) = rw nothing

  read_fully_at_loop-cycle :
      (fuel n offset togo : ℕ)
      → togo < fuel
      → togo < 2 ^ 32
      → offset < f.length
      → read_fully_at_loop read_block fat f fuel n offset togo ≡ ok (slice (cycle offset) 0 togo, n)
  unfolding read_fully_at_loop
  read_fully_at_loop-cycle zero n offset togo h fits inside = elim h [ ]
  read_fully_at_loop-cycle (suc fuel) n offset togo h fits inside =
      let c = amount f offset togo in
      let r = reach offset in
      elim (Bool-cases (togo == 0)) [
        | inl done ↦ let e : togo ≡ 0 = ground arith in rw e
        | inr more ↦
            let some : (c == 0) ≡ false = ground arith in
            let rest =
              read_fully_at_loop-cycle fuel n offset (togo - c) (ground arith) (omega arith)
                inside in
            rw
              (
                more,
                read_at-content read_block fat f blk full chain offset togo (omega arith),
                some,
                sub32_exact togo c (omega arith) fits,
                rest,
                cycle-content offset c (omega arith),
              )
              (read_again (cycle offset) c (togo - c) togo n (omega arith)
                (cycle_again offset c (togo - c) (ground arith)))
      ]

  -- OpenFile::readFully, which does not move its offset between rounds, ends and fills the whole
  -- buffer, of fewer than 2 ^ 31 bytes, from any offset inside the file, and the byte at `i` is the file's byte at
  -- `offset + i % r`, with `r` what is left of the block or of the file: it is the file's byte at
  -- `offset + i` for requests of at most `r` bytes, and the first `r` bytes repeat behind them.
  pub read_fully_at-cycle :
      (offset n : ℕ)
      → n < 2 ^ 31
      → offset < f.length
      → read_fully_at read_block fat f offset n
        ≡ ok (
          slice
              (λ i.
                content read_block blk
                  (offset + i % min (f.length - offset) (512 - (offset + 8) % 512)))
              0
              n,
          n,
        )
  unfolding read_fully_at as_int32
  read_fully_at-cycle offset n fits inside =
      rw
        (
          read_fully_at_loop-cycle (n + 1) n offset n (omega arith) (omega (arith, fits)) inside,
          ltb_of_lt n (2 ^ 31) fits,
        )
        refl

  -- So a request that stays inside one block and inside the file gets the file's bytes.
  pub read_fully_at-content :
      (offset n : ℕ)
      → n < 2 ^ 31
      → n ≤ f.length - offset
      → (offset + 8) % 512 + n ≤ 512
      → offset < f.length
      → read_fully_at read_block fat f offset n ≡ ok (slice (content read_block blk) offset n, n)
  read_fully_at-content offset n fits le one inside =
      rw (cycle-content offset n (omega arith)) (read_fully_at-cycle offset n fits inside)

-- ===== src/Kernel/Fs/Write/RoundTrip.antt =====
-- Reading with kernel/fs.cc what OpenFile::write of kernel/fs.cc has written.
use net_os.Base.{
  ℕ, zero, suc, ◌+◌, ◌-◌, ◌*◌, ◌/◌, ◌%◌, ◌^◌, ◌≤◌, ◌<◌, ◌≡◌, refl, ap, ◌∙◌, ◌⊎◌, true, false, some,
  List, ◌++◌, length, take, drop, get_or, get_elem?, slice, slice-shift, length-slice,
  get_or-append, get_or-slice, get_elem?-slice, arith, min, inl, inr, ◌==◌, Bool-cases, ltb,
  ltb_of_lt,
}
use net_os.Kernel.Block.ReadFully.{byte_at, read_fully-slice}
use net_os.Kernel.Fs.{OpenFile, walk, read_fully, ok}
use net_os.Kernel.Fs.Chain.{IsChain, content}
use net_os.Kernel.Fs.ReadFile.{read_fully-content}
use net_os.Kernel.Fs.Directory.{value, open_file}
use net_os.Kernel.Fs.Write.{Volume, header, write}
use net_os.Kernel.Fs.Write.Layout.{Layout, Frame, Other, block_at}
use net_os.Kernel.Fs.Write.Store.{block_data, n_blocks_of}
use net_os.Kernel.Fs.Write.Saved.{Saved, write-Saved}

-- The table as a list, and the file as it is opened again.
abbrev pub table : Volume → List ℕ
table v = slice v.fat 0 v.n_blocks

abbrev pub opened : ℕ → ℕ → OpenFile
opened start n = record { start = start; type = 2 ^ 24; length = n }

-- A device of blocks of 512 bytes, which fills up a block that is written in part.
abbrev pub Full : (ℕ → List ℕ) → Type 0
Full disk = (s : ℕ) → length (disk s) ≡ 512

abbrev pub Pads : (List ℕ → List ℕ) → Type 0
Pads pad = (bytes : List ℕ) → length bytes ≤ 512 → length (bytes ++ pad bytes) ≡ 512

length-block_data : (buf : ℕ → ℕ) (n i : ℕ) → length (block_data buf n i) ≤ 512
unfolding header
length-block_data buf n zero = let e = length-slice buf 0 (min 504 n) in omega (arith, e)
length-block_data buf n (suc i) =
    let e = length-slice buf (512 * suc i - 8) (min 512 (n - (512 * suc i - 8))) in
    let behind : (suc i == 0) ≡ false = ground arith in rw behind (omega (arith, e))

-- Byte `r` of block `q`, which is byte `512 * q + r - 8` of what is written.
block_byte :
    (buf : ℕ → ℕ) (n : ℕ) (rest : List ℕ) (q r : ℕ)
    → r < 512
    → 8 ≤ 512 * q + r
    → 512 * q + r < n + 8
    → get_or (block_data buf n q ++ rest) r 0 ≡ buf (512 * q + r - 8)
unfolding header
block_byte buf n rest zero r a b c =
    let e : r ≡ suc (suc (suc (suc (suc (suc (suc (suc (r - 8)))))))) = omega (arith, b) in
    let len = length-slice buf 0 (min 504 n) in
    rw e (
      get_or-append (slice buf 0 (min 504 n)) rest (r - 8) 0 (omega (arith, a, b, c, len))
      ∙ get_or-slice buf 0 (min 504 n) (r - 8) 0 (omega (arith, a, b, c))
      ∙ ap buf (omega (arith, b)))
block_byte buf n rest (suc q) r a b c =
    let o = 512 * suc q - 8 in
    let m = min 512 (n - o) in
    let len = length-slice buf o m in
    let behind : (suc q == 0) ≡ false = ground arith in
    rw behind (
      get_or-append (slice buf o m) rest r 0 (omega (arith, a, c, len))
      ∙ get_or-slice buf o m r 0 (omega (arith, a, c))
      ∙ ap buf (omega arith))

-- The header, read as two words.
opened_value :
    (start n : ℕ)
    → n < 2 ^ 32
    → ◌≡◌ {A = OpenFile}
        (record {
          start = start;
          type = value (take 4 (header n));
          length = value (drop 4 (header n));
        })
        (opened start n)
unfolding header value
opened_value start n fits = let e : value (drop 4 (header n)) ≡ n = omega (arith, fits) in rw e refl

-- A block is one of the blocks, or it is not.
among : (w : ℕ → ℕ) (p s : ℕ) → ((j : ℕ) × (j < p) × (s ≡ w j)) ⊎ Other w p s
among w zero s = inr (λ j l e. omega (arith, l))
among w (suc p) s = elim (Bool-cases (s == w p)) [
  | inl e ↦ inl (p, omega arith, ground (arith, e))
  | inr e ↦ elim (among w p s) [
    | inl (j, l, e') ↦ inl (j, omega (arith, l), e')
    | inr o ↦ inr (λ j l e'. elim (Bool-cases (j == p)) [
      | inl last ↦ ground (arith, e, e', last)
      | inr before ↦ o j (ground (arith, before, l)) e'
    ])
  ]
]

module _ {pad : List ℕ → List ℕ} {buf : ℕ → ℕ} {n : ℕ} {w : ℕ → ℕ} {p : ℕ} {v v' : Volume}
    (saved : Saved pad buf n w v') (frame : Frame w p (n_blocks_of n) v v')
    (room : n_blocks_of n ≤ p) where
  -- Where the bytes of the file are on the device.
  stored_byte :
      (q r : ℕ)
      → r < 512
      → 8 ≤ 512 * q + r
      → 512 * q + r < n + 8
      → (block_at w (n_blocks_of n) q * 512 + r) / 512 ≡ w q
      → byte_at 512 v'.disk (block_at w (n_blocks_of n) q * 512 + r) ≡ buf (512 * q + r - 8)
  stored_byte q r a b c at =
      let rem : (block_at w (n_blocks_of n) q * 512 + r) % 512 ≡ r = omega (arith, a) in
      rw (at, rem, saved.blocks q (omega (arith, a, c)))
        (block_byte buf n (pad (block_data buf n q)) q r a b c)

  content_lem : (i : ℕ) → i < n → content v'.disk (block_at w (n_blocks_of n)) i ≡ buf i
  content_lem i l =
      let q = (i + 8) / 512 in
      let r = (i + 8) % 512 in
      let here : ltb q (n_blocks_of n) ≡ true = ltb_of_lt q (n_blocks_of n) (omega (arith, l)) in
      stored_byte q r (omega arith) (omega arith) (omega (arith, l)) (rw here (omega arith))
      ∙ ap buf (omega arith)

  walk_lem :
      (inside : (j : ℕ) → j < p → w j < v.n_blocks) (k j : ℕ)
      → j + k ≤ n_blocks_of n
      → walk (table v') k (block_at w (n_blocks_of n) j) ≡ some (block_at w (n_blocks_of n) (j + k))
  unfolding walk
  walk_lem inside zero j le = let e : j + 0 ≡ j = omega arith in rw e refl
  walk_lem inside (suc k) j le =
      let l : j < n_blocks_of n = omega (arith, le) in
      let here : ltb j (n_blocks_of n) ≡ true = ltb_of_lt j (n_blocks_of n) l in
      let on : j + suc k ≡ j + 1 + k = omega arith in
      let from : 0 + w j ≡ w j = omega arith in
      let next : get_elem? (table v') (w j) ≡ some (block_at w (n_blocks_of n) (j + 1)) =
        get_elem?-slice v'.fat 0 v'.n_blocks (w j)
          (rw frame.n_blocks (inside j (omega (arith, l, room))))
        ∙ ap some (rw from (saved.list j l)) in
      rw (here, next, on, walk) (walk_lem inside k (j + 1) (omega (arith, le)))

  Full_lem : Full v.disk → Pads pad → Full v'.disk
  Full_lem full pads s = elim (among w (n_blocks_of n) s) [
    | inl (j, l, e) ↦
        rw (e, saved.blocks j l) (pads (block_data buf n j) (length-block_data buf n j))
    | inr o ↦ ap length (frame.disk s o) ∙ full s
  ]

  -- The 8 bytes of the header: the type, with its bytes the other way round, and the length.
  header_bytes : w 0 < 2 ^ 23 → 0 < n → slice (byte_at 512 v'.disk) (w 0 * 512) 8 ≡ header n
  unfolding header
  header_bytes small any =
      let rest = pad (block_data buf n 0) in
      slice-shift (byte_at 512 v'.disk) (λ i. get_or (header n) i 0) (w 0 * 512) 0 8
        (λ i l.
          let at : (w 0 * 512 + i) / 512 ≡ w 0 = omega (arith, l) in
          let rem : (w 0 * 512 + i) % 512 ≡ i = omega (arith, l) in
          let here : i < length (block_data buf n 0) = omega (arith, l) in
          rw (at, rem, saved.blocks 0 (omega (arith, any)))
            (get_or-append (block_data buf n 0) rest i 0 here
              ∙ get_or-append (header n) (slice buf 0 (min 504 n)) i 0 l
              ∙ ap (λ k. get_or (header n) k 0) (omega arith)))

  open_file_lem :
      Full v'.disk
      → w 0 < 2 ^ 23
      → 0 < n
      → n < 2 ^ 32
      → open_file v'.disk (w 0) ≡ some (opened (w 0) n)
  unfolding open_file
  open_file_lem full small any fits =
      let at : w 0 * 512 % 2 ^ 32 ≡ w 0 * 512 = omega (arith, small) in
      let bytes =
        read_fully-slice 512 v'.disk (omega arith) full (w 0 * 512) 8 (omega (arith, small))
        ∙ ap some (header_bytes small any) in
      rw (at, bytes) (ap some (opened_value (w 0) n fits))

  opened-IsChain :
      ((j : ℕ) → j < p → w j < v.n_blocks)
      → v.n_blocks ≤ 2 ^ 23
      → 0 < n
      → n + 8 < 2 ^ 32
      → IsChain (table v') (opened (w 0) n) (block_at w (n_blocks_of n))
  opened-IsChain inside small any fits = record {
    step = λ k l.
        let start : ltb 0 (n_blocks_of n) ≡ true =
          ltb_of_lt 0 (n_blocks_of n) (omega (arith, any)) in
        let at : 0 + k ≡ k = omega arith in
        rw (start, at) at (walk_lem inside k 0 (omega (arith, l)));
    small = λ k. ground (arith, inside k, small, room);
    fits = fits;
  }

  reads_back :
      Full v'.disk
      → IsChain (table v') (opened (w 0) n) (block_at w (n_blocks_of n))
      → (offset k : ℕ) → k < 2 ^ 32
      → offset ≤ n
      → min k (n - offset) < 2 ^ 31
      → read_fully v'.disk (table v') (opened (w 0) n) offset k
        ≡ ok
            (slice buf offset (min k (n - offset)), min k (n - offset), offset + min k (n - offset))
  reads_back full chain offset k a b few =
      let m = min k (n - offset) in
      let blk = block_at w (n_blocks_of n) in
      let bytes : slice (content v'.disk blk) offset m ≡ slice buf offset m =
        slice-shift (content v'.disk blk) buf offset offset m
          (λ i l. content_lem (offset + i) (omega (arith, l, b))) in
      rw (← bytes)
        (read_fully-content v'.disk (table v') (opened (w 0) n) blk full chain offset k a b few)

-- Writing `n` bytes, at least one, to a file, when the blocks of the file and the free ones hold them with the
-- header, ends. The file then opens again with the length `n`, and readFully of any range from an offset
-- inside, of fewer than 2 ^ 31 bytes, brings the bytes written, whether the file was shorter or longer before. The
-- blocks but for those the bytes lie in are as they were, and so are the entries of the table but for block 0, the
-- blocks of the file and the free ones.
pub write-read_fully :
    (pad : List ℕ → List ℕ)
    → Pads pad
    → (buf : ℕ → ℕ) (n : ℕ) (w : ℕ → ℕ) (p m : ℕ) (v : Volume) → Layout w p m v
    → Full v.disk
    → v.n_blocks ≤ 2 ^ 23
    → 0 < n
    → n + 8 < 2 ^ 32
    → n_blocks_of n ≤ p
    → (offset k : ℕ) → k < 2 ^ 32
    → offset ≤ n
    → min k (n - offset) < 2 ^ 31
    → (v' : Volume) × (write pad (w 0) buf n v ≡ some v')
      × (open_file v'.disk (w 0) ≡ some (opened (w 0) n))
      × (read_fully v'.disk (table v') (opened (w 0) n) offset k
          ≡ ok (
            slice buf offset (min k (n - offset)),
            min k (n - offset),
            offset + min k (n - offset),
          ))
      × Frame w p (n_blocks_of n) v v'
write-read_fully pad pads buf n w p m v h full small any fits room offset k a b few =
    let (v', runs, saved, frame) = write-Saved pad buf n w p m v h small any room in
    let full' = Full_lem saved frame room full pads in
    let first = h.inside 0 (omega (arith, h.some_blocks, h.split)) in
    (
      v',
      runs,
      open_file_lem saved frame room full' (omega (arith, first, small)) any (omega (arith, fits)),
      reads_back saved frame room full' (opened-IsChain saved frame room h.inside small any fits)
          offset k a b few,
      frame,
    )

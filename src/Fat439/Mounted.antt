-- ===== src/Fat439/Mounted.antt =====
-- An image of fat439/mkfs.c as kernel/fs.cc sees it: the device's blocks and the table in memory.
use net_os.Base.{
  ℕ, zero, suc, ◌+◌, ◌-◌, ◌*◌, ◌/◌, ◌%◌, ◌^◌, ◌≤◌, ◌<◌, ◌≡◌, refl, ap, ◌∙◌, some, List, [], ◌∷◌,
  length, get_elem?, slice, slice-shift, length-slice, get_or-slice, get_elem?-slice, arith, min,
}
use net_os.Kernel.Block
use net_os.Kernel.Block.ReadFully.{byte_at, read_fully-slice}
use net_os.Kernel.Fs.{OpenFile, walk, read_fully, ok}
use net_os.Kernel.Fs.Chain.{IsChain, content}
use net_os.Kernel.Fs.ReadFile.{read_fully-content}
use net_os.Kernel.Fs.Directory.{value, open_file}
use net_os.Fat439.{File, Image, word}
use net_os.Fat439.Stored.{IsStored}

abbrev pub read_block : Image → ℕ → List ℕ
read_block img b = slice img.bytes (b * 512) 512

abbrev pub table : Image → List ℕ
table img = slice img.fat 0 img.n_blocks

pub full : (img : Image) (b : ℕ) → length (read_block img b) ≡ 512
full img b = length-slice img.bytes (b * 512) 512

pub byte_at_lem : (img : Image) (a : ℕ) → byte_at 512 (read_block img) a ≡ img.bytes a
byte_at_lem img a =
    get_or-slice img.bytes (a / 512 * 512) 512 (a % 512) 0 (omega arith)
    ∙ ap img.bytes (omega arith)

pub walk_lem :
    (img : Image) (k b : ℕ)
    → b < img.n_blocks
    → ((t : ℕ) → t < k → img.fat (b - t) ≡ b - t - 1)
    → walk (table img) k b ≡ some (b - k)
unfolding walk
walk_lem img zero b l chain = ap some (omega arith)
walk_lem img (suc k) b l chain =
    let zero_on : b - 0 ≡ b = omega arith in
    let start : 0 + b ≡ b = omega arith in
    let next : get_elem? (table img) b ≡ some (b - 1) =
      get_elem?-slice img.fat 0 img.n_blocks b l
      ∙ ap some (rw start (rw zero_on at (chain 0 (omega arith)))) in
    let rest = walk_lem img k (b - 1) (omega (arith, l)) (λ t h.
      let e : b - 1 - t ≡ b - suc t = omega arith in rw e (chain (suc t) (omega (arith, h)))) in
    rw (next, walk) (rest ∙ ap some (omega arith))

value-word : (v : ℕ) → v < 2 ^ 32 → value (word v 0 ∷ word v 1 ∷ word v 2 ∷ word v 3 ∷ []) ≡ v
unfolding value word
value-word v l = omega (arith, l)

-- A word in the bytes of the image.
pub value_at :
    (img : Image) (a v : ℕ)
    → v < 2 ^ 32
    → ((k : ℕ) → k < 4 → img.bytes (a + k) ≡ word v k)
    → value (slice img.bytes a 4) ≡ v
value_at img a v l h =
    ap value (slice-shift img.bytes (word v) a 0 4 (λ i k. h i k ∙ ap (word v) (omega arith)))
    ∙ value-word v l

-- A block that starts with two words, opened.
pub open_header :
    (img : Image) (s t v : ℕ)
    → s < 2 ^ 22
    → t < 2 ^ 32
    → v < 2 ^ 32
    → ((k : ℕ) → k < 4 → img.bytes (s * 512 + k) ≡ word t k)
    → ((k : ℕ) → k < 4 → img.bytes (s * 512 + 4 + k) ≡ word v k)
    → open_file (read_block img) s ≡ some (record { start = s; type = t; length = v })
unfolding open_file
open_header img s t v small t_small v_small t_word v_word =
    let a = s * 512 in
    let at : s * 512 % 2 ^ 32 ≡ a = omega (arith, small) in
    let bytes : Block.read_fully 512 (read_block img) a 8 ≡ some (slice img.bytes a 8) =
      read_fully-slice 512 (read_block img) (omega arith) (full img) a 8 (omega (arith, small))
      ∙ ap some (
          slice-shift (byte_at 512 (read_block img)) img.bytes a a 8
            (λ i l. byte_at_lem img (a + i))) in
    let type : value (slice img.bytes a 4) ≡ t = value_at img a t t_small t_word in
    let length : value (slice img.bytes (suc (suc (suc (suc a)))) 4) ≡ v =
      value_at img (suc (suc (suc (suc a)))) v v_small
        (λ k l. ap img.bytes (omega arith) ∙ v_word k l) in
    rw (at, bytes, type, length) refl

module _ {img : Image} {s : ℕ} {f : File} (h : IsStored img s f)
    (small : img.n_blocks < 2 ^ 22) where
  -- A stored file as it is when it is open.
  abbrev pub opened : OpenFile
  opened = record { start = s; type = 1; length = f.size }

  size_small : f.size < 2 ^ 32
  size_small = omega (arith, h.low, h.high, small)

  pub open_file_lem : open_file (read_block img) s ≡ some opened
  open_file_lem =
      open_header img s 1 f.size (omega (arith, h.high, small)) (omega arith) size_small h.type_word
        h.length_word

  blk : ℕ → ℕ
  blk k = s - k

  opened-IsChain : IsChain (table img) opened blk
  unfolding blk
  opened-IsChain = record {
    step = λ k l. walk_lem img k s h.high (λ t b. h.chain t (omega (arith, b, l)));
    small = λ k. omega (arith, h.high, small);
    fits = omega (arith, h.low, h.high, small);
  }

  -- Reading it brings what was stored.
  pub read_fully_lem :
      (offset n : ℕ)
      → n < 2 ^ 32
      → offset ≤ f.size
      → read_fully (read_block img) (table img) opened offset n
        ≡ ok (
          slice f.byte offset (min n (f.size - offset)),
          min n (f.size - offset),
          offset + min n (f.size - offset),
        )
  unfolding blk
  read_fully_lem offset n a b =
      let m = min n (f.size - offset) in
      let bytes : slice (content (read_block img) blk) offset m ≡ slice f.byte offset m =
        slice-shift (content (read_block img) blk) f.byte offset offset m (λ i l.
          byte_at_lem img ((s - (offset + i + 8) / 512) * 512 + (offset + i + 8) % 512)
          ∙ (let e : offset + i + 8 ≡ 8 + (offset + i) = omega arith in
              rw e (h.content (offset + i) (omega (arith, l, b))))) in
      rw (← bytes) (
        read_fully-content (read_block img) (table img) opened blk (full img) opened-IsChain offset
          n a b (omega (arith, h.low, h.high, small)))

-- ===== src/Fat439/Stored.antt =====
-- The file that oneFile of fat439/mkfs.c stores.
use net_os.Base.{
  ℕ, suc, ◌+◌, ◌-◌, ◌*◌, ◌/◌, ◌≤◌, ◌<◌, ◌≡◌, ◌⊎◌, refl, ap, ◌∙◌, some, ◌==◌, ==_self, arith,
  Bool-cases, inl, inr,
}
use net_os.Fat439.{File, Image, written, write, get_block, to_ptr, word, one_file_loop, one_file}
use net_os.Fat439.Alloc.{
  Free, after, get_block-Free, write_lem, to_ptr_lem, written_other, written_at,
}
use net_os.Fat439.OneFile.{Reads, Filled, Loops, Free-bytes, loc, loop_lem}

-- The file stands in the blocks `s`, `s - 1`, ..., behind its type and its length.
pub record IsStored (img : Image) (s : ℕ) (f : File) : Type 0 where
  pub type_word : (k : ℕ) → k < 4 → img.bytes (s * 512 + k) ≡ word 1 k
  pub length_word : (k : ℕ) → k < 4 → img.bytes (s * 512 + 4 + k) ≡ word f.size k
  pub content : (j : ℕ) → j < f.size → img.bytes (loc s (8 + j)) ≡ f.byte j
  pub chain : (t : ℕ) → t < (8 + f.size) / 512 → img.fat (s - t) ≡ s - t - 1
  pub low : (8 + f.size) / 512 < s
  pub high : s < img.n_blocks

-- What lies above the block `s` has not changed.
pub record Same (s : ℕ) (img img' : Image) : Type 0 where
  pub bytes_above : (a : ℕ) → (s + 1) * 512 ≤ a → img'.bytes a ≡ img.bytes a
  pub fat_above : (j : ℕ) → s < j → img'.fat j ≡ img.fat j
  pub same_size : img'.n_blocks ≡ img.n_blocks
  pub same_root : img'.root ≡ img.root

module _ (got : ℕ → ℕ → ℕ) (f : File) where
  one_file_run :
      (start total : ℕ) (img img₁ img₂ img₃ img₄ : Image)
      → get_block img ≡ some (start, img₁)
      → write (to_ptr start 0) 4 (word 1) img₁ ≡ some img₂
      → one_file_loop got f (f.size + 1) 0 start 8 504 0 img₂ ≡ some (total, img₃)
      → write (to_ptr start 0 + 4) 4 (word total) img₃ ≡ some img₄
      → one_file got f img ≡ some (start, img₄)
  unfolding one_file
  one_file_run start total img img₁ img₂ img₃ img₄ a b c d = rw (a, b, c, d) refl

-- No byte behind the header stands in it.
header_apart : (s x : ℕ) → 8 ≤ x → 0 < s → (loc s x < s * 512 + 4) ⊎ (s * 512 + 4 + 4 ≤ loc s x)
header_apart s x a b = elim (Bool-cases (x / 512 == 0)) [
  | inl e ↦ inr (ground (arith, e, a))
  | inr e ↦ inl (ground (arith, e, b))
]

stored :
    {lo m s : ℕ} {f : File} (img : Image) {img₃ : Image}
    → s ≡ lo + m
    → (8 + f.size) / 512 ≤ m
    → s < img₃.n_blocks
    → 0 < lo
    → let img₂ : Image = record img { bytes = written img.bytes (s * 512) 4 (word 1) } in
      Filled lo m s 8 0 f.size f img₂ img₃
      → IsStored (record img₃ { bytes = written img₃.bytes (s * 512 + 4) 4 (word f.size) }) s f
stored {lo} {m} {s} {f} img {img₃} at room inside above h = record {
  type_word = λ k l. ground (arith, l, h.before (s * 512 + k));
  length_word = λ k l. written_at img₃.bytes (s * 512 + 4) 4 (word f.size) k l;
  content = λ j l.
      written_other img₃.bytes (s * 512 + 4) 4 (word f.size) (loc s (8 + j))
        (header_apart s (8 + j) (omega arith) (omega (arith, at, above)))
      ∙ h.content j l
      ∙ ap f.byte (omega arith);
  chain = λ t l. h.chain t l;
  low = omega (arith, at, room, above);
  high = inside;
}

closed :
    (got : ℕ → ℕ → ℕ) (f : File) {lo m : ℕ} {img : Image} (free : Free lo (suc m) img)
    → (8 + f.size) / 512 ≤ m
    → (img₃ : Image)
    → let img₂ : Image = record (after free) {
      bytes = written img.bytes ((lo + m) * 512) 4 (word 1);
    } in
      one_file_loop got f (f.size + 1) 0 (lo + m) 8 504 0 img₂ ≡ some (f.size, img₃)
      → Filled lo m (lo + m) 8 0 f.size f img₂ img₃
      → (img' : Image) × (one_file got f img ≡ some (lo + m, img'))
        × IsStored img' (lo + m) f
        × Free lo (m - (8 + f.size) / 512) img'
        × Same (lo + m) img img'
closed got f {lo} {m} {img} free room img₃ looped h =
    let s = lo + m in
    let runs = (get_block-Free free).0 in
    let inside = free.inside in
    let size = h.same_size in
    let ptr : to_ptr s 0 ≡ s * 512 =
      to_ptr_lem s 0 (omega (arith, free.small, inside)) ∙ omega arith in
    let img₂ : Image = record (after free) { bytes = written img.bytes (s * 512) 4 (word 1) } in
    let img₄ : Image = record img₃ { bytes = written img₃.bytes (s * 512 + 4) 4 (word f.size) } in
    (
      img₄,
      one_file_run got f s f.size img (after free) img₂ img₃ img₄ runs
          (rw ptr (write_lem (s * 512) 4 (word 1) (after free) (omega (arith, inside)))) looped
          (rw ptr (write_lem (s * 512 + 4) 4 (word f.size) img₃ (omega (arith, inside, size)))),
      stored (after free) refl room (omega (arith, inside, size)) free.above h,
      Free-bytes img₄.bytes h.free,
      record {
        bytes_above = λ a l.
            written_other img₃.bytes (s * 512 + 4) 4 (word f.size) a (inr (omega (arith, l)))
            ∙ h.above a l
            ∙ written_other img.bytes (s * 512) 4 (word 1) a (inr (omega (arith, l)));
        fat_above = λ j l. h.fat_above j l ∙ ground (arith, l);
        same_size = h.same_size;
        same_root = h.same_root;
      },
    )

-- oneFile ends and stores the file from the highest free block on downwards, in as few blocks as hold the
-- header, the file and one byte more.
pub one_file_lem :
    (got : ℕ → ℕ → ℕ)
    → Reads got
    → (f : File) (lo m : ℕ) (img : Image) → Free lo (suc m) img
    → (8 + f.size) / 512 ≤ m
    → (img' : Image) × (one_file got f img ≡ some (lo + m, img'))
      × IsStored img' (lo + m) f
      × Free lo (m - (8 + f.size) / 512) img'
      × Same (lo + m) img img'
unfolding Loops
one_file_lem got reads f lo m img free room =
    let s = lo + m in
    let (runs, free₁) = get_block-Free free in
    let small = free.small in
    let inside = free.inside in
    let img₂ : Image = record (after free) { bytes = written img.bytes (s * 512) 4 (word 1) } in
    let ptr : to_ptr s 0 ≡ s * 512 + 0 = to_ptr_lem s 0 (omega (arith, small, inside)) in
    let ptr₀ : to_ptr s 0 ≡ s * 512 = ptr ∙ omega arith in
    let ended : img₂.fat s ≡ 0 = rw (==_self s) refl in
    let (img₃, looped, filled) =
      loop_lem got reads f (f.size + 1) lo m s 8 0 f.size 0 img₂ (Free-bytes img₂.bytes free₁) refl
        (omega (arith, inside)) ended (omega arith) room (omega arith) (omega arith)
        (omega (arith, room, small, inside)) in
    closed got f free room img₃ (looped ∙ ap (λ t. some (t, img₃)) (omega arith)) filled

-- ===== src/Fat439/Files.antt =====
-- The files of an image of fat439/mkfs.c and their entries in the root directory.
use net_os.Base.{
  unwrap, ℕ, zero, suc, ◌+◌, ◌-◌, ◌*◌, ◌/◌, ◌≤◌, ◌<◌, ◌≡◌, refl, ◌∙◌, Option, some, arith, inl,
  List, [], ◌∷◌, length, get_or, get_elem?,
}
use net_os.Fat439.{File, Image, written, write, word, one_file, files_loop}
use net_os.Fat439.Alloc.{Free, write_lem, written_other, written_at}
use net_os.Fat439.OneFile.{Reads, Free-bytes, loc}
use net_os.Fat439.Stored.{IsStored, Same, one_file_lem}

-- The blocks that a file takes, and all of a list.
unfoldable pub blocks_of : File → ℕ
blocks_of f = (8 + f.size) / 512 + 1

unfoldable pub all_blocks : List File → ℕ
all_blocks [] = 0
all_blocks (f ∷ fs) = blocks_of f + all_blocks fs

-- An entry of a directory: a name, padded with 0 or cut to 12 bytes, and a block.
pub record IsEntry (img : Image) (a : ℕ) (name : List ℕ) (s : ℕ) : Type 0 where
  pub name_bytes : (j : ℕ) → j < 12 → img.bytes (a + j) ≡ get_or name j 0
  pub start_word : (k : ℕ) → k < 4 → img.bytes (a + 12 + k) ≡ word s k

-- A file stays stored where its blocks do not change.
pub IsStored-frame :
    {img img' : Image} {s : ℕ} {f : File}
    → IsStored img s f
    → ((x : ℕ)
        → (s - (8 + f.size) / 512) * 512 ≤ x
        → x < (s + 1) * 512
        → img'.bytes x ≡ img.bytes x)
    → ((j : ℕ) → s - (8 + f.size) / 512 ≤ j → img'.fat j ≡ img.fat j)
    → img'.n_blocks ≡ img.n_blocks
    → IsStored img' s f
IsStored-frame {img} {img'} {s} {f} h b c size = record {
  type_word = λ k l. b (s * 512 + k) (omega arith) (omega (arith, l)) ∙ h.type_word k l;
  length_word = λ k l. b (s * 512 + 4 + k) (omega arith) (omega (arith, l)) ∙ h.length_word k l;
  content = λ j l. b (loc s (8 + j)) (omega (arith, l)) (omega arith) ∙ h.content j l;
  chain = λ t l. c (s - t) (omega (arith, l)) ∙ h.chain t l;
  low = h.low;
  high = omega (arith, h.high, size);
}

-- The files from number `i` on have their entries in the directory at `d`, and are stored.
pub record Loaded (img : Image) (r d i : ℕ) (files : List File) : Type 0 where
  pub file :
      (k : ℕ) (f : File)
      → get_elem? files k ≡ some f
      → (s : ℕ) × (s < r) × IsEntry img (d + (i + k) * 16) f.name s × IsStored img s f

pub record Kept (b e : ℕ) (img img' : Image) : Type 0 where
  pub bytes_kept : (x : ℕ) → b * 512 ≤ x → x < e → img'.bytes x ≡ img.bytes x
  pub fat_kept : (j : ℕ) → b ≤ j → img'.fat j ≡ img.fat j
  pub size_kept : img'.n_blocks ≡ img.n_blocks
  pub root_kept : img'.root ≡ img.root

-- The image with an entry at `d`.
abbrev with_entry : ℕ → List ℕ → ℕ → Image → Image
with_entry d name s img = record img {
  bytes = written (written img.bytes d 12 (λ j. get_or name j 0)) (d + 12) 4 (word s);
}

module _ (img₁ : Image) {img' : Image} (r i lo m e : ℕ) (f : File)
    (kept : Kept e
      (r * 512 + 8 + (i + 1) * 16)
      (with_entry (r * 512 + 8 + i * 16) f.name (lo + m) img₁)
      img')
    (top : lo + suc m ≤ r) (end : e ≡ lo + m - (8 + f.size) / 512) where
  entry_kept : IsEntry img' (r * 512 + 8 + i * 16) f.name (lo + m)
  entry_kept =
      let d = r * 512 + 8 + i * 16 in
      record {
        name_bytes = λ j l.
            kept.bytes_kept (d + j) (omega (arith, top, end)) (omega (arith, l))
            ∙ written_other (written img₁.bytes d 12 (λ k. get_or f.name k 0)) (d + 12) 4
                (word (lo + m)) (d + j) (inl (omega (arith, l)))
            ∙ written_at img₁.bytes d 12 (λ k. get_or f.name k 0) j l;
        start_word = λ k l.
            kept.bytes_kept (d + 12 + k) (omega (arith, top, end)) (omega (arith, l))
            ∙ written_at (written img₁.bytes d 12 (λ j. get_or f.name j 0)) (d + 12) 4
                (word (lo + m)) k l;
      }

  below_entry : (x : ℕ) → e * 512 ≤ x → x < r * 512 + 8 + i * 16 → img'.bytes x ≡ img₁.bytes x
  below_entry x a b =
      let d = r * 512 + 8 + i * 16 in
      kept.bytes_kept x a (omega (arith, b))
      ∙ written_other (written img₁.bytes d 12 (λ k. get_or f.name k 0)) (d + 12) 4 (word (lo + m))
          x (inl (omega (arith, b)))
      ∙ written_other img₁.bytes d 12 (λ k. get_or f.name k 0) x (inl b)

  files-Loaded :
      (fs : List File)
      → IsStored img₁ (lo + m) f
      → Loaded img' r (r * 512 + 8) (i + 1) fs
      → Loaded img' r (r * 512 + 8) i (f ∷ fs)
  files-Loaded fs stored loaded = record { file = λ k f' e. here k f' e }
    where
      here :
          (k : ℕ) (f' : File)
          → get_elem? (f ∷ fs) k ≡ some f'
          → (s : ℕ) × (s < r)
            × IsEntry img' (r * 512 + 8 + (i + k) * 16) f'.name s
            × IsStored img' s f'
      here zero f' e =
          let same : i + 0 ≡ i = omega arith in
          let is : f ≡ f' = unwrap e in
          rw (← is, same)
            (
              lo + m,
              omega (arith, top),
              entry_kept,
              IsStored-frame stored
                  (λ x a b. below_entry x (omega (arith, a, end)) (omega (arith, b, top)))
                  (λ j l. kept.fat_kept j (omega (arith, l, end))) kept.size_kept,
            )
      here (suc k) f' e =
          let same : i + suc k ≡ i + 1 + k = omega arith in rw same (loaded.file k f' e)

  files-Kept :
      {img₀ : Image} → Same (lo + m) img₀ img₁ → Kept (lo + suc m) (r * 512 + 8 + i * 16) img₀ img'
  files-Kept same = record {
    bytes_kept =
        λ x a b. below_entry x (omega (arith, a, end)) b ∙ same.bytes_above x (omega (arith, a));
    fat_kept = λ j l. kept.fat_kept j (omega (arith, l, end)) ∙ same.fat_above j (omega (arith, l));
    size_kept = kept.size_kept ∙ same.same_size;
    root_kept = kept.root_kept ∙ same.same_root;
  }

module _ (got : ℕ → ℕ → ℕ) (reads : Reads got) (r : ℕ) where
  unfoldable pub Loads : List File → Type 0
  Loads fs =
      (lo m i : ℕ) (img : Image)
      → Free lo m img
      → lo + m ≤ r
      → r < img.n_blocks
      → all_blocks fs ≤ m
      → i + length fs ≤ 31
      → (img' : Image) × (files_loop got (r * 512 + 8) i fs img ≡ some img')
        × Loaded img' r (r * 512 + 8) i fs
        × Kept (lo + m) (r * 512 + 8 + i * 16) img img'

  files_run :
      (i s : ℕ) (f : File) (fs : List File) (img img₁ img₂ img₃ : Image) (res : Option Image)
      → one_file got f img ≡ some (s, img₁)
      → write (r * 512 + 8 + i * 16) 12 (λ j. get_or f.name j 0) img₁ ≡ some img₂
      → write (r * 512 + 8 + i * 16 + 12) 4 (word s) img₂ ≡ some img₃
      → files_loop got (r * 512 + 8) (i + 1) fs img₃ ≡ res
      → files_loop got (r * 512 + 8) i (f ∷ fs) img ≡ res
  unfolding files_loop
  files_run i s f fs img img₁ img₂ img₃ res a b c d = rw (a, b, c) d

  files_step : (f : File) (fs : List File) → Loads fs → Loads (f ∷ fs)
  unfolding Loads all_blocks blocks_of
  files_step f fs loads lo zero i img free top inside room few = absurd (omega (arith, room))
  files_step f fs loads lo (suc m) i img free top inside room few =
      let (img₁, runs, stored, free₁, same) =
        one_file_lem got reads f lo m img free (omega (arith, room)) in
      let d = r * 512 + 8 + i * 16 in
      let size = same.same_size in
      let end : lo + (m - (8 + f.size) / 512) ≡ lo + m - (8 + f.size) / 512 = omega (arith, room) in
      let img₂ : Image = record img₁ { bytes = written img₁.bytes d 12 (λ j. get_or f.name j 0) } in
      let img₃ : Image = record img₂ { bytes = written img₂.bytes (d + 12) 4 (word (lo + m)) } in
      let (img', rest, loaded, kept) =
        loads lo (m - (8 + f.size) / 512) (i + 1) img₃ (Free-bytes img₃.bytes free₁)
          (omega (arith, top)) (omega (arith, inside, size)) (omega (arith, room))
          (omega (arith, few)) in
      (
        img',
        files_run i (lo + m) f fs img img₁ img₂ img₃ (some img') runs
            (write_lem d 12 (λ j. get_or f.name j 0) img₁ (omega (arith, inside, size, few)))
            (write_lem (d + 12) 4 (word (lo + m)) img₂ (omega (arith, inside, size, few))) rest,
        files-Loaded img₁ r i lo m (lo + (m - (8 + f.size) / 512)) f kept top end fs stored loaded,
        files-Kept img₁ r i lo m (lo + (m - (8 + f.size) / 512)) f kept top end same,
      )

  pub files_lem : (fs : List File) → Loads fs
  unfolding Loads files_loop
  files_lem [] lo m i img free top inside room few = (
    img,
    refl,
    record { file = λ k f e. absurd (cc e) },
    record {
      bytes_kept = λ x a b. refl;
      fat_kept = λ j l. refl;
      size_kept = refl;
      root_kept = refl;
    },
  )
  files_lem (f ∷ fs) lo m i img free top inside room few =
      files_step f fs (files_lem fs) lo m i img free top inside room few

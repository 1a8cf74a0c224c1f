-- ===== src/Fat439/Build.antt =====
-- The whole image of fat439/mkfs.c.
use net_os.Base.{
  ℕ, zero, suc, ◌+◌, ◌-◌, ◌*◌, ◌/◌, ◌^◌, ◌≤◌, ◌<◌, ◌≡◌, refl, ◌∙◌, true, false, some, ◌&&◌, leb,
  ltb, ◌==◌, if◌then◌else◌, arith, Bool-cases, inl, inr, List, length,
}
use net_os.Fat439.{
  File, Image, update, written, write, word, to_ptr, get_block, link_loop, format, files_loop, main,
}
use net_os.Fat439.Alloc.{
  Free, after, get_block-Free, write_lem, to_ptr_lem, written_other, written_at,
}
use net_os.Fat439.OneFile.{Reads}
use net_os.Fat439.Files.{all_blocks, Loaded, Loads, files_lem}

link_loop_lem :
    (k i : ℕ) (fat : ℕ → ℕ) (j : ℕ)
    → k ≤ i
    → link_loop k i fat j ≡ (if ltb (i - k) j && leb j i then j - 1 else fat j)
unfolding link_loop
link_loop_lem zero i fat j l = ground arith
link_loop_lem (suc k) i fat j l =
    link_loop_lem k (i - 1) (update fat i (i - 1)) j (omega (arith, l)) ∙ ground (arith, l)

-- The directory in the block `r`, of `n` entries.
pub record IsRoot (img : Image) (r n : ℕ) : Type 0 where
  pub root_is : img.root ≡ r
  pub type_word : (k : ℕ) → k < 4 → img.bytes (r * 512 + k) ≡ word 2 k
  pub length_word : (k : ℕ) → k < 4 → img.bytes (r * 512 + 4 + k) ≡ word (n * 16) k
  pub inside : r < img.n_blocks
  pub small : img.n_blocks < 2 ^ 22

abbrev pub first_block : ℕ → ℕ
first_block n_blocks = 1 + (n_blocks * 4 + 511) / 512

module _ (n_blocks n_files : ℕ) (fat bytes : ℕ → ℕ) (small : n_blocks < 2 ^ 22)
    (some_free : first_block n_blocks < n_blocks) (fresh : fat (first_block n_blocks) ≡ 0) where
  abbrev linked : Image
  linked = record {
    n_blocks = n_blocks;
    avail = n_blocks - 1;
    root = 0;
    fat = link_loop (n_blocks - 1 - first_block n_blocks) (n_blocks - 1) fat;
    bytes = bytes;
  }

  linked-Free : Free (first_block n_blocks) (suc (n_blocks - 1 - first_block n_blocks)) linked
  linked-Free = record {
    above = omega arith;
    inside = omega (arith, some_free);
    small = small;
    avail_is = ground (arith, some_free);
    links = λ i l.
        link_loop_lem (n_blocks - 1 - first_block n_blocks) (n_blocks - 1) fat
          (first_block n_blocks + i) (omega arith)
        ∙ elim (Bool-cases (i == 0)) [
          | inl e ↦
              let start : first_block n_blocks + i ≡ first_block n_blocks = ground (arith, e) in
              let low : ltb (n_blocks - 1 - (n_blocks - 1 - first_block n_blocks))
                    (first_block n_blocks)
                  ≡ false =
                ground (arith, some_free) in
              rw (start, low, e) fresh
          | inr e ↦
              let low : ltb (n_blocks - 1 - (n_blocks - 1 - first_block n_blocks))
                    (first_block n_blocks + i)
                  ≡ true =
                ground (arith, some_free, e) in
              let high : leb (first_block n_blocks + i) (n_blocks - 1) ≡ true = ground (arith, l) in
              rw (low, high, e) refl
        ];
  }

  format_run :
      (r' r : ℕ) (img₀ img₂ img₃ : Image)
      → get_block linked ≡ some (r', img₀)
      → r' ≡ r
      → write (to_ptr r 0) 4 (word 2) (record img₀ { root = r }) ≡ some img₂
      → write (to_ptr r 0 + 4) 4 (word (n_files * 16)) img₂ ≡ some img₃
      → to_ptr r 8 ≡ r * 512 + 8
      → format n_blocks n_files fat bytes ≡ some (r * 512 + 8, img₃)
  unfolding format
  format_run r' r img₀ img₂ img₃ a e b c d = rw (a, e, b, c, d) refl

  -- main up to the loop over the files.
  format_lem :
      n_files ≤ 31
      → (img : Image) × (format n_blocks n_files fat bytes ≡ some ((n_blocks - 1) * 512 + 8, img))
        × IsRoot img (n_blocks - 1) n_files
        × Free (first_block n_blocks) (n_blocks - 1 - first_block n_blocks) img
  unfolding format
  format_lem few =
      let r = n_blocks - 1 in
      let top : first_block n_blocks + (n_blocks - 1 - first_block n_blocks) ≡ r =
        omega (arith, some_free) in
      let b = get_block-Free linked-Free in
      let runs = rw top at b.0 in
      let img₁ : Image = record (after linked-Free) { root = r } in
      let img₂ : Image = record img₁ { bytes = written bytes (r * 512) 4 (word 2) } in
      let img₃ : Image = record img₁ {
        bytes = written img₂.bytes (r * 512 + 4) 4 (word (n_files * 16));
      } in
      let ptr₀ : to_ptr r 0 ≡ r * 512 = to_ptr_lem r 0 (omega (arith, small)) ∙ omega arith in
      let ptr₈ : to_ptr r 8 ≡ r * 512 + 8 = to_ptr_lem r 8 (omega (arith, small)) in
      let w₁ : write (r * 512) 4 (word 2) img₁ ≡ some img₂ =
        write_lem (r * 512) 4 (word 2) img₁ (omega (arith, some_free)) in
      let w₂ : write (r * 512 + 4) 4 (word (n_files * 16)) img₂ ≡ some img₃ =
        write_lem (r * 512 + 4) 4 (word (n_files * 16)) img₂ (omega (arith, some_free)) in
      (
        img₃,
        format_run ((first_block n_blocks) + (n_blocks - 1 - first_block n_blocks)) r
            (after linked-Free) img₂ img₃ b.0 top (rw ptr₀ w₁) (rw ptr₀ w₂) ptr₈,
        record {
          root_is = refl;
          type_word = λ k l.
              written_other img₂.bytes (r * 512 + 4) 4 (word (n_files * 16)) (r * 512 + k)
                (inl (omega (arith, l)))
              ∙ written_at bytes (r * 512) 4 (word 2) k l;
          length_word = λ k l. written_at img₂.bytes (r * 512 + 4) 4 (word (n_files * 16)) k l;
          inside = omega (arith, some_free);
          small = small;
        },
        record {
          above = b.1.above;
          inside = b.1.inside;
          small = b.1.small;
          avail_is = b.1.avail_is;
          links = b.1.links;
        },
      )

-- What is built of the files.
pub record Built (n_blocks : ℕ) (files : List File) (img : Image) : Type 0 where
  pub root : IsRoot img (n_blocks - 1) (length files)
  pub loaded : Loaded img (n_blocks - 1) ((n_blocks - 1) * 512 + 8) 0 files

-- The files fit the image, which is new: the word of the table where the list of free blocks ends is 0.
pub record Fits (n_blocks : ℕ) (files : List File) (fat : ℕ → ℕ) : Type 0 where
  pub small : n_blocks < 2 ^ 22
  pub room : first_block n_blocks + 1 + all_blocks files ≤ n_blocks
  pub few : length files ≤ 31
  pub fresh : fat (first_block n_blocks) ≡ 0

main_run :
    (got : ℕ → ℕ → ℕ) (n_blocks d : ℕ) (files : List File) (fat bytes : ℕ → ℕ) (img img' : Image)
    → format n_blocks (length files) fat bytes ≡ some (d, img)
    → files_loop got d 0 files img ≡ some img'
    → main got n_blocks files fat bytes ≡ some img'
unfolding main
main_run got n_blocks d files fat bytes img img' a b = rw (a, b) refl

pub main-Built :
    (got : ℕ → ℕ → ℕ)
    → Reads got
    → (n_blocks : ℕ) (files : List File) (fat bytes : ℕ → ℕ) → Fits n_blocks files fat
    → (img : Image) × (main got n_blocks files fat bytes ≡ some img) × Built n_blocks files img
unfolding Loads
main-Built got reads n_blocks files fat bytes fits =
    let room = fits.room in
    let (img, runs, root, free) =
      format_lem n_blocks (length files) fat bytes fits.small (omega (arith, room)) fits.fresh
        fits.few in
    let top : first_block n_blocks + (n_blocks - 1 - first_block n_blocks) ≡ n_blocks - 1 =
      omega (arith, room) in
    let (img', built, loaded, kept) =
      files_lem got reads (n_blocks - 1) files (first_block n_blocks)
        (n_blocks - 1 - first_block n_blocks) 0 img free (omega (arith, top)) root.inside
        (omega (arith, room)) (omega (arith, fits.few)) in
    let below : (x : ℕ)
        → (n_blocks - 1) * 512 ≤ x
        → x < (n_blocks - 1) * 512 + 8
        → img'.bytes x ≡ img.bytes x =
      λ x a b. kept.bytes_kept x (omega (arith, top, a)) (omega (arith, b)) in
    (
      img',
      main_run got n_blocks ((n_blocks - 1) * 512 + 8) files fat bytes img img' runs built,
      record {
        root = record {
          root_is = kept.root_kept ∙ root.root_is;
          type_word = λ k l.
              below ((n_blocks - 1) * 512 + k) (omega arith) (omega (arith, l))
              ∙ root.type_word k l;
          length_word = λ k l.
              below ((n_blocks - 1) * 512 + 4 + k) (omega arith) (omega (arith, l))
              ∙ root.length_word k l;
          inside = omega (arith, root.inside, kept.size_kept);
          small = omega (arith, root.small, kept.size_kept);
        };
        loaded = loaded;
      },
    )

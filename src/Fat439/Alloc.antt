-- ===== src/Fat439/Alloc.antt =====
-- The free blocks of fat439/mkfs.c, which are given from the highest to the lowest.
use net_os.Base.{
  ◌⊎◌, ℕ, suc, ◌+◌, ◌-◌, ◌*◌, ◌^◌, ◌≤◌, ◌<◌, ◌≡◌, refl, true, false, some, leb, ltb, ◌==◌,
  if◌then◌else◌, arith, inl, inr,
}
use net_os.Fat439.{Image, update, written, write, get_block, to_ptr}

-- The blocks `lo`, ..., `lo + m - 1` are free, and listed downwards.
pub record Free (lo m : ℕ) (img : Image) : Type 0 where
  pub above : 0 < lo
  pub inside : lo + m ≤ img.n_blocks
  pub small : img.n_blocks < 2 ^ 22
  pub avail_is : img.avail ≡ (if m == 0 then 0 else lo + m - 1)
  pub links : (i : ℕ) → i < m → img.fat (lo + i) ≡ (if i == 0 then 0 else lo + i - 1)

module _ {lo m : ℕ} {img : Image} (h : Free lo (suc m) img) where
  abbrev pub after : Image
  after = record img { avail = img.fat (lo + m); fat = update img.fat (lo + m) 0 }

  pub get_block-Free : (get_block img ≡ some (lo + m, after)) × Free lo m after
  unfolding get_block
  get_block-Free =
      let at : img.avail ≡ lo + m = ground (arith, h.avail_is) in
      let there : (lo + m == 0) ≡ false = ground (arith, h.above) in
      (
        rw (at, there) refl,
        record {
          above = h.above;
          inside = omega (arith, h.inside);
          small = h.small;
          avail_is = h.links m (omega arith);
          links = λ i l. ground (arith, l, h.links i);
        },
      )

pub write_lem :
    (a n : ℕ) (v : ℕ → ℕ) (img : Image)
    → a + n ≤ img.n_blocks * 512
    → write a n v img ≡ some (record img { bytes = written img.bytes a n v })
unfolding write
write_lem a n v img l = let e : leb (a + n) (img.n_blocks * 512) ≡ true = ground arith in rw e refl

pub to_ptr_lem : (idx offset : ℕ) → idx < 2 ^ 22 → to_ptr idx offset ≡ idx * 512 + offset
unfolding to_ptr
to_ptr_lem idx offset l = omega arith

pub written_other :
    (bytes : ℕ → ℕ) (a n : ℕ) (v : ℕ → ℕ) (j : ℕ)
    → (j < a) ⊎ (a + n ≤ j)
    → written bytes a n v j ≡ bytes j
written_other bytes a n v j (inl l) = ground (arith, l)
written_other bytes a n v j (inr l) = ground (arith, l)

pub written_at :
    (bytes : ℕ → ℕ) (a n : ℕ) (v : ℕ → ℕ) (k : ℕ) → k < n → written bytes a n v (a + k) ≡ v k
written_at bytes a n v k l =
    let low : leb a (a + k) ≡ true = ground arith in
    let high : ltb (a + k) (a + n) ≡ true = ground (arith, l) in
    let offset : a + k - a ≡ k = omega arith in rw (low, high, offset) refl

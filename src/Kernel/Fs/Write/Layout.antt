-- ===== src/Kernel/Fs/Write/Layout.antt =====
-- The chains of a file and of the free blocks in kernel/fs.cc.
use net_os.Base.{
  ℕ, zero, suc, ◌+◌, ◌-◌, ◌≤◌, ◌<◌, ◌≡◌, ◌≢◌, refl, ◌∙◌, false, Option, some, List, ltb, ltb_of_lt,
  ◌==◌, ==_ne, if◌then◌else◌, ◌>>=◌, arith, Bool-cases, inl, inr,
}
use net_os.Kernel.Fs.Write.{Volume, update, fat_get, fat_set, find_free_block, list_end, list_out}

-- `w 0`, ..., `w (m - 1)` are the blocks of the file, and `w m`, ..., `w (p - 1)` the free ones, in the order of
-- their lists.
pub record Layout (w : ℕ → ℕ) (p m : ℕ) (v : Volume) : Type 0 where
  pub some_blocks : 0 < m
  pub split : m ≤ p
  pub not_zero : (j : ℕ) → j < p → w j ≢ 0
  pub inside : (j : ℕ) → j < p → w j < v.n_blocks
  pub apart : (i j : ℕ) → i < p → j < p → w i ≡ w j → i ≡ j
  pub file : (j : ℕ) → j < m → v.fat (w j) ≡ (if ltb (j + 1) m then w (j + 1) else 0)
  pub free : (j : ℕ) → m ≤ j → j < p → v.fat (w j) ≡ (if ltb (j + 1) p then w (j + 1) else 0)
  pub super_block : v.fat 0 ≡ 0
  pub count : p ≤ v.n_blocks
  pub avail_is : v.avail ≡ (if ltb m p then w m else 0)

pub fat_get_lem : (v : Volume) (i : ℕ) → i < v.n_blocks → fat_get v i ≡ some (v.fat i)
unfolding fat_get
fat_get_lem v i l = rw (ltb_of_lt i v.n_blocks l) refl

pub fat_set_lem :
    (v : Volume) (i x : ℕ)
    → i < v.n_blocks
    → fat_set v i x ≡ some (record v { fat = update v.fat i x })
unfolding fat_set
fat_set_lem v i x l = rw (ltb_of_lt i v.n_blocks l) refl

-- `s` is none of the blocks.
abbrev pub Other : (ℕ → ℕ) → ℕ → ℕ → Type 0
Other w p s = (j : ℕ) → j < p → s ≢ w j

-- What stays as it is: the blocks but for the first `k` of the file, and the table but for the blocks of the
-- file and the free ones.
pub record Frame (w : ℕ → ℕ) (p k : ℕ) (v v' : Volume) : Type 0 where
  pub disk : (s : ℕ) → Other w k s → v'.disk s ≡ v.disk s
  pub fat : (s : ℕ) → s ≢ 0 → Other w p s → v'.fat s ≡ v.fat s
  pub n_blocks : v'.n_blocks ≡ v.n_blocks

pub Frame-trans :
    {w : ℕ → ℕ} {p k : ℕ} {u v v' : Volume} → Frame w p k v v' → Frame w p k u v → Frame w p k u v'
Frame-trans f g = record {
  disk = λ s o. f.disk s o ∙ g.disk s o;
  fat = λ s ne o. f.fat s ne o ∙ g.fat s ne o;
  n_blocks = f.n_blocks ∙ g.n_blocks;
}

module _ {w : ℕ → ℕ} {p m : ℕ} {v : Volume} (h : Layout w p m v) (room : m < p) where
  -- The file with the first free block at its end.
  abbrev pub longer : Volume
  longer = record v { avail = v.fat (w m); fat = update (update v.fat (w m) 0) (w (m - 1)) (w m) }

  longer-Layout : Layout w p (m + 1) longer
  longer-Layout = record {
    some_blocks = omega arith;
    split = omega (arith, room);
    not_zero = h.not_zero;
    inside = h.inside;
    apart = h.apart;
    file = λ j l. ground (
      arith,
      l,
      room,
      h.some_blocks,
      h.file j,
      h.apart j m,
      h.apart j (m - 1),
      h.apart m (m - 1),
    );
    free = λ j a b. ground (arith, a, b, h.free j, h.apart j m, h.apart j (m - 1));
    super_block =
        ground (arith, room, h.some_blocks, h.super_block, h.not_zero m, h.not_zero (m - 1));
    count = h.count;
    avail_is = ground (arith, h.free m, room);
  }

  longer-Frame : (k : ℕ) → Frame w p k v longer
  longer-Frame k = record {
    disk = λ s o. refl;
    fat = λ s ne o. ground (arith, room, h.some_blocks, o m, o (m - 1));
    n_blocks = refl;
  }

  find_free_block_lem : find_free_block v ≡ some (w m, record v { avail = v.fat (w m) })
  unfolding find_free_block fat_get
  find_free_block_lem =
      let at : v.avail ≡ w m = ground (arith, h.avail_is, room) in
      rw (at, ltb_of_lt (w m) v.n_blocks (h.inside m room)) refl

pub Layout-disk :
    {w : ℕ → ℕ} {p m : ℕ} {v : Volume}
    → Layout w p m v
    → (disk : ℕ → List ℕ) → Layout w p m (record v { disk = disk })
Layout-disk h disk = record {
  some_blocks = h.some_blocks;
  split = h.split;
  not_zero = h.not_zero;
  inside = h.inside;
  apart = h.apart;
  file = h.file;
  free = h.free;
  super_block = h.super_block;
  count = h.count;
  avail_is = h.avail_is;
}

-- Where the loop of write stands with `i` blocks written: the next block of the file, 0 behind the last.
abbrev pub block_at : (ℕ → ℕ) → ℕ → ℕ → ℕ
block_at w m i = if ltb i m then w i else 0

abbrev pub old_at : (ℕ → ℕ) → ℕ → ℕ
old_at w i = if i == 0 then 0 else w (i - 1)

-- The block that a round writes, taken from the free ones behind the last.
abbrev pub allocated : ℕ → ℕ → Volume → Option (ℕ × Volume)
allocated block_number old_block v =
    if block_number == 0
    then (do (b, v) ← find_free_block v; v ← fat_set v b 0; v ← fat_set v old_block b; some (b, v))
    else some (block_number, v)

pub allocated_lem :
    {w : ℕ → ℕ} {p m : ℕ} {v : Volume}
    → Layout w p m v
    → (i : ℕ) → i ≤ m
    → i < p
    → (m' : ℕ) × (v' : Volume) × (allocated (block_at w m i) (old_at w i) v ≡ some (w i, v'))
      × Layout w p m' v'
      × (i < m')
      × ((j : ℕ) → v'.disk j ≡ v.disk j)
      × ((k : ℕ) → Frame w p k v v')
allocated_lem {w} {p} {m} {v} h i le room = elim (Bool-cases (ltb i m)) [
  | inl e ↦ (
    m,
    v,
    rw (e, ==_ne (w i) 0 (h.not_zero i room)) refl,
    h,
    ground (arith, e),
    λ j. refl,
    λ k. record { disk = λ s o. refl; fat = λ s ne o. refl; n_blocks = refl },
  )
  | inr e ↦
      let last : i ≡ m = ground (arith, e, le) in
      let behind : (m == 0) ≡ false = ground (arith, h.some_blocks) in
      let none_left : ltb m m ≡ false = ground arith in
      let free : m < p = omega (arith, last, room) in
      let v₁ : Volume = record v { avail = v.fat (w m) } in
      let v₂ : Volume = record v₁ { fat = update v.fat (w m) 0 } in
      rw last (
        m + 1,
        longer h free,
        rw
            (
              none_left,
              behind,
              find_free_block_lem h free,
              fat_set_lem v₁ (w m) 0 (h.inside m free),
              fat_set_lem v₂ (w (m - 1)) (w m) (h.inside (m - 1) (omega (arith, free))),
            )
            refl,
        longer-Layout h free,
        omega arith,
        λ j. refl,
        longer-Frame h free,
      )
]

-- A list of blocks that goes through `w lo`, ..., `w (q - 1)` is followed to its end.
module _ (w : ℕ → ℕ) (q : ℕ) (v : Volume) (lo : ℕ)
    (chain : (i : ℕ) → lo ≤ i → i < q → v.fat (w i) ≡ block_at w q (i + 1))
    (inside : (i : ℕ) → i < q → w i < v.n_blocks) (not_zero : (i : ℕ) → i < q → w i ≢ 0) where
  pub list_out_lem :
      (fuel j : ℕ) → lo ≤ j → j ≤ q → q < fuel + j → list_out v fuel (block_at w q j) ≡ some 0
  unfolding list_out
  list_out_lem zero j a b f = absurd (omega (arith, a, b, f))
  list_out_lem (suc fuel) j a b f = elim (Bool-cases (ltb j q)) [
    | inl e ↦
        let l : j < q = ground (arith, e) in
        rw (e, ==_ne (w j) 0 (not_zero j l), fat_get_lem v (w j) (inside j l), chain j a l)
          (list_out_lem fuel (j + 1) (omega (arith, a)) (omega (arith, l)) (omega (arith, f)))
    | inr e ↦ rw e refl
  ]

  pub list_end_lem :
      (fuel j : ℕ) → lo ≤ j → j < q → q ≤ fuel + j → list_end v fuel (w j) ≡ some (w (q - 1))
  unfolding list_end
  list_end_lem zero j a b f = absurd (omega (arith, a, b, f))
  list_end_lem (suc fuel) j a b f = elim (Bool-cases (ltb (j + 1) q)) [
    | inl e ↦
        let l : j + 1 < q = ground (arith, e) in
        rw
          (
            fat_get_lem v (w j) (inside j b),
            chain j a b,
            e,
            ==_ne (w (j + 1)) 0 (not_zero (j + 1) l),
          )
          (list_end_lem fuel (j + 1) (omega (arith, a)) l (omega (arith, f)))
    | inr e ↦
        let last : q - 1 ≡ j = ground (arith, e, b) in
        rw (fat_get_lem v (w j) (inside j b), chain j a b, e, last) refl
  ]

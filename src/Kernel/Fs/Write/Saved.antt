-- ===== src/Kernel/Fs/Write/Saved.antt =====
-- The file that OpenFile::write of kernel/fs.cc leaves behind: its blocks and its list in the table.
use net_os.Base.{
  ℕ, suc, ◌+◌, ◌-◌, ◌*◌, ◌^◌, ◌≤◌, ◌<◌, ◌≡◌, refl, ap, ◌∙◌, true, false, Option, some, List, min,
  ltb, ltb_of_lt, ◌==◌, ==_ne, ==_self, if◌then◌else◌, ◌>>=◌, arith, Bool-cases, inl, inr,
}
use net_os.Kernel.Fs.Write.{
  Volume, update, fat_get, fat_set, list_end, list_out, add_to_avail, write_loop, write,
}
use net_os.Kernel.Fs.Write.Layout.{
  Layout, Frame, Frame-trans, fat_get_lem, fat_set_lem, block_at, old_at, list_out_lem,
  list_end_lem,
}
use net_os.Kernel.Fs.Write.Store.{Written, n_blocks_of, write_loop_lem}

-- The blocks `w 0`, ... hold the `n` bytes, and the list of the file goes through them and no others.
pub record Saved (pad : List ℕ → List ℕ) (buf : ℕ → ℕ) (n : ℕ) (w : ℕ → ℕ) (v : Volume)
    : Type 0 where
  pub blocks : Written pad buf n w (n_blocks_of n) v
  pub list : (j : ℕ) → j < n_blocks_of n → v.fat (w j) ≡ block_at w (n_blocks_of n) (j + 1)

-- Where the list of the free blocks ends: block 0 if it is empty.
abbrev end_of : (ℕ → ℕ) → ℕ → ℕ → ℕ
end_of w m p = if ltb m p then w (p - 1) else 0

-- The end of write: what the file has behind its first blocks goes to the free ones.
abbrev cut_off : ℕ → ℕ → Volume → Option Volume
cut_off block_number old_block v = do
  val ← list_out v (v.n_blocks + 1) v.avail
  val ← list_out v (v.n_blocks + 1) block_number
  v ← add_to_avail block_number v
  fat_set v old_block 0

module _ {w : ℕ → ℕ} {p m : ℕ} {v : Volume} (h : Layout w p m v) where
  free_end : list_end v (v.n_blocks + 1) v.avail ≡ some (end_of w m p)
  unfolding list_end fat_get
  free_end = elim (Bool-cases (ltb m p)) [
    | inl e ↦
        let at : v.avail ≡ w m = ground (arith, e, h.avail_is) in
        rw (e, at)
          (list_end_lem w p v m h.free h.inside h.not_zero (v.n_blocks + 1) m (omega arith)
            (ground (arith, e)) (omega (arith, h.count)))
    | inr e ↦
        let at : v.avail ≡ 0 = ground (arith, e, h.avail_is) in
        let one : v.n_blocks + 1 ≡ suc v.n_blocks = omega arith in
        rw
          (
            e,
            at,
            one,
            fat_get_lem v 0 (omega (arith, h.inside 0 (omega (arith, h.some_blocks, h.split)))),
            h.super_block,
          )
          refl
  ]

  free_out : list_out v (v.n_blocks + 1) v.avail ≡ some 0
  free_out =
      ap (λ a. list_out v (v.n_blocks + 1) a) h.avail_is
      ∙ list_out_lem w p v m h.free h.inside h.not_zero (v.n_blocks + 1) m (omega arith) h.split
          (omega (arith, h.count))

  file_out : (j : ℕ) → j ≤ m → list_out v (v.n_blocks + 1) (block_at w m j) ≡ some 0
  file_out j le =
      list_out_lem w m v 0 (λ i a b. h.file i b) (λ i l. h.inside i (omega (arith, l, h.split)))
        (λ i l. h.not_zero i (omega (arith, l, h.split))) (v.n_blocks + 1) j (omega arith) le
        (omega (arith, h.count, h.split))

  abbrev shorter : ℕ → Volume
  shorter k = record v { fat = update (update v.fat (end_of w m p) (w k)) (w (k - 1)) 0 }

  end_inside : end_of w m p < v.n_blocks
  end_inside = ground (arith, h.inside (p - 1), h.inside 0, h.some_blocks, h.split)

  cut_off_lem : (k : ℕ) → 0 < k → k < m → cut_off (w k) (w (k - 1)) v ≡ some (shorter k)
  unfolding add_to_avail
  cut_off_lem k a b =
      let more : ltb k m ≡ true = ltb_of_lt k m b in
      let out : list_out v (v.n_blocks + 1) (w k) ≡ some 0 =
        rw more at (file_out k (omega (arith, b))) in
      let v₁ : Volume = record v { fat = update v.fat (end_of w m p) (w k) } in
      rw
        (
          free_out,
          out,
          free_end,
          fat_set_lem v (end_of w m p) (w k) end_inside,
          fat_set_lem v₁ (w (k - 1)) 0 (h.inside (k - 1) (omega (arith, b, h.split))),
        )
        refl

  shorter-Frame : (k : ℕ) → 0 < k → k ≤ m → Frame w p k v (shorter k)
  shorter-Frame k a b = record {
    disk = λ s o. refl;
    fat = λ s ne o. ground (arith, a, b, ne, h.split, h.some_blocks, o (k - 1), o (p - 1));
    n_blocks = refl;
  }

  -- The list of the file ends at its block `k - 1` then.
  shorter_list : (k j : ℕ) → 0 < k → k < m → j < k → (shorter k).fat (w j) ≡ block_at w k (j + 1)
  shorter_list k j a b l = elim (Bool-cases (j + 1 == k)) [
    | inl e ↦
        let last : k - 1 ≡ j = ground (arith, e) in
        let ends : ltb (j + 1) k ≡ false = ground (arith, e) in rw (last, ends, ==_self (w j)) refl
    | inr e ↦
        let not_last : (w j == w (k - 1)) ≡ false =
          ground (arith, e, a, b, l, h.split, h.apart j (k - 1)) in
        let not_end : (w j == end_of w m p) ≡ false =
          ground (arith, b, l, h.split, h.not_zero j, h.apart j (p - 1)) in
        let next : ltb (j + 1) k ≡ true = ground (arith, e, l) in
        let next' : ltb (j + 1) m ≡ true = ground (arith, b, l) in
        rw (not_last, not_end, next) (rw next' at (h.file j (omega (arith, b, l))))
  ]

module _ (w : ℕ → ℕ) (p : ℕ) where
  -- What write does behind the loop.
  abbrev finish : ℕ → ℕ → Volume → Option Volume
  finish block_number old_block v =
      if block_number == 0 then some v else cut_off block_number old_block v

  -- Behind the loop the file is saved, whether it was as long or longer.
  finish_lem :
      (k m : ℕ) (v : Volume)
      → Layout w p m v
      → 0 < k
      → k ≤ m
      → (v' : Volume) × (finish (block_at w m k) (old_at w k) v ≡ some v')
        × ((j : ℕ) → v'.disk j ≡ v.disk j)
        × Frame w p k v v'
        × ((j : ℕ) → j < k → v'.fat (w j) ≡ block_at w k (j + 1))
  finish_lem k m v h a b = elim (Bool-cases (ltb k m)) [
    | inl e ↦
        let l : k < m = ground (arith, e) in
        let behind : (k == 0) ≡ false = ground (arith, a) in
        (
          shorter h k,
          rw (e, behind, ==_ne (w k) 0 (h.not_zero k (omega (arith, l, h.split))))
              (cut_off_lem h k a l),
          λ j. refl,
          shorter-Frame h k a (omega (arith, l)),
          λ j l'. shorter_list h k j a l l',
        )
    | inr e ↦
        let last : k ≡ m = ground (arith, e, b) in
        let none_left : ltb m m ≡ false = ground arith in
        rw last (
          v,
          rw none_left refl,
          λ j. refl,
          record { disk = λ s o. refl; fat = λ s ne o. refl; n_blocks = refl },
          λ j l. h.file j l,
        )
  ]

-- The loop starts at the block 0 of the file.
write_starts :
    (pad : List ℕ → List ℕ) (buf : ℕ → ℕ) (n : ℕ) (w : ℕ → ℕ) (m : ℕ) (v : Volume)
    → 0 < m
    → write_loop pad buf (n + 1) (w 0) 0 0 true n v
      ≡ write_loop pad buf
          (n + 1)
          (block_at w m 0)
          (old_at w 0)
          (min n (512 * 0 - 8))
          (0 == 0)
          (n - (512 * 0 - 8))
          v
write_starts pad buf n w m v some_blocks =
    let start : ltb 0 m ≡ true = ltb_of_lt 0 m some_blocks in
    let all : n - 0 ≡ n = omega arith in
    let no_offset : min n 0 ≡ 0 = omega arith in rw (start, all, no_offset) refl

write_run :
    (pad : List ℕ → List ℕ) (buf : ℕ → ℕ) (n start : ℕ) (v : Volume) (b old : ℕ) (v₁ v₂ : Volume)
    → write_loop pad buf (n + 1) start 0 0 true n v ≡ some (b, old, v₁)
    → (if b == 0 then some v₁ else cut_off b old v₁) ≡ some v₂
    → write pad start buf n v ≡ some v₂
unfolding write
write_run pad buf n start v b old v₁ v₂ runs ends = rw runs ends

-- Writing at least one byte to a file, with blocks enough in it and free, ends and saves the bytes.
pub write-Saved :
    (pad : List ℕ → List ℕ) (buf : ℕ → ℕ) (n : ℕ) (w : ℕ → ℕ) (p m : ℕ) (v : Volume)
    → Layout w p m v
    → v.n_blocks ≤ 2 ^ 23
    → 0 < n
    → n_blocks_of n ≤ p
    → (v' : Volume) × (write pad (w 0) buf n v ≡ some v')
      × Saved pad buf n w v'
      × Frame w p (n_blocks_of n) v v'
write-Saved pad buf n w p m v h small any room =
    let (m₁, v₁, runs, h₁, le, frame, written) =
      write_loop_lem pad buf n w p (n + 1) 0 m v h small any room (omega arith) (omega arith)
        (omega (arith, any)) (λ j l. absurd (omega (arith, l))) in
    let (v₂, ends, disk, frame', list) =
      finish_lem w p (n_blocks_of n) m₁ v₁ h₁ (omega (arith, any)) le in
    (
      v₂,
      write_run pad buf n (w 0) v (block_at w m₁ (n_blocks_of n)) (old_at w (n_blocks_of n)) v₁ v₂
          (write_starts pad buf n w m v h.some_blocks ∙ runs) ends,
      record { blocks = λ j l. disk (w j) ∙ written j l; list = list },
      Frame-trans frame' frame,
    )

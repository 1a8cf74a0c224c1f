-- ===== src/Kernel/Fs/Write/Store.antt =====
-- What OpenFile::write of kernel/fs.cc leaves in the blocks of the file.
use net_os.Base.{
  ℕ, zero, suc, ◌+◌, ◌-◌, ◌*◌, ◌/◌, ◌%◌, ◌^◌, ◌≤◌, ◌<◌, ◌≡◌, refl, ap, ◌∙◌, Bool, false, Option,
  some, List, ◌++◌, slice, min, ltb, ◌==◌, ==_ne, ==_self, if◌then◌else◌, arith, Bool-cases, inl,
  inr,
}
use net_os.Kernel.Fs.Write.{Volume, update, fat_get, header, block_write, write_loop}
use net_os.Kernel.Fs.Write.Layout.{
  Layout, Layout-disk, Frame, Frame-trans, fat_get_lem, block_at, old_at, allocated, allocated_lem,
}

-- The bytes of `n` that block `i` of the file gets, and how many blocks there are.
abbrev pub block_data : (ℕ → ℕ) → ℕ → ℕ → List ℕ
block_data buf n i =
    if i == 0
    then header n ++ slice buf 0 (min 504 n)
    else slice buf (512 * i - 8) (min 512 (n - (512 * i - 8)))

abbrev pub n_blocks_of : ℕ → ℕ
n_blocks_of n = (n + 519) / 512

abbrev pub Written : (List ℕ → List ℕ) → (ℕ → ℕ) → ℕ → (ℕ → ℕ) → ℕ → Volume → Type 0
Written pad buf n w i v =
    (j : ℕ) → j < i → v.disk (w j) ≡ block_data buf n j ++ pad (block_data buf n j)

module _ (pad : List ℕ → List ℕ) (buf : ℕ → ℕ) where
  abbrev amount : Bool → ℕ → ℕ
  amount first length = if first then min 504 length else min 512 length

  abbrev stored : ℕ → ℕ → Bool → ℕ → Volume → Volume
  stored b offset first length v =
      block_write pad (b * 512 % 2 ^ 32) (slice buf offset (amount first length)) first length v

  -- A round of the loop, of which the parts are known.
  round :
      (fuel block_number old offset length : ℕ) (first : Bool) (v : Volume) (b : ℕ) (v' : Volume)
      (next : ℕ) (r : Option (ℕ × ℕ × Volume))
      → (length == 0) ≡ false
      → allocated block_number old v ≡ some (b, v')
      → fat_get (stored b offset first length v') b ≡ some next
      → write_loop pad buf fuel next b
          (offset + amount first length)
          false
          (length - amount first length)
          (stored b offset first length v')
        ≡ r
      → write_loop pad buf (suc fuel) block_number old offset first length v ≡ r
  unfolding write_loop
  round fuel block_number old offset length first v b v' next r more alloc got rest =
      rw (more, alloc, got) rest

module _ (pad : List ℕ → List ℕ) (buf : ℕ → ℕ) (n : ℕ) (w : ℕ → ℕ) (p : ℕ) where
  -- The loop from block `i` on ends, with the file long enough and its first blocks written.
  abbrev Loop : ℕ → ℕ → ℕ → Volume → Type 0
  Loop fuel i m v =
      (m' : ℕ) × (v' : Volume) × (write_loop pad buf fuel (block_at w m i) (old_at w i)
          (min n (512 * i - 8)) (i == 0) (n - (512 * i - 8)) v
        ≡ some (block_at w m' (n_blocks_of n), old_at w (n_blocks_of n), v'))
      × Layout w p m' v'
      × (n_blocks_of n ≤ m')
      × Frame w p (n_blocks_of n) v v'
      × Written pad buf n w (n_blocks_of n) v'

  stored_data :
      (i : ℕ) (v : Volume)
      → w i < 2 ^ 23
      → i < n_blocks_of n
      → stored pad buf (w i) (min n (512 * i - 8)) (i == 0) (n - (512 * i - 8)) v
        ≡ record v { disk = update v.disk (w i) (block_data buf n i ++ pad (block_data buf n i)) }
  unfolding block_write
  stored_data zero v small more =
      let at : w 0 * 512 % 2 ^ 32 / 512 ≡ w 0 = omega (arith, small) in
      let offset : min n 0 ≡ 0 = omega arith in
      let all : n - 0 ≡ n = omega arith in rw (at, offset, all) refl
  stored_data (suc i) v small more =
      let at : w (suc i) * 512 % 2 ^ 32 / 512 ≡ w (suc i) = omega (arith, small) in
      let offset : min n (512 * suc i - 8) ≡ 512 * suc i - 8 = omega (arith, more) in
      let behind : (suc i == 0) ≡ false = ground arith in rw (at, offset, behind) refl

  ends-Loop :
      (fuel m : ℕ) (v : Volume)
      → Layout w p m v
      → n_blocks_of n ≤ m
      → 0 < n
      → Written pad buf n w (n_blocks_of n) v
      → Loop (suc fuel) (n_blocks_of n) m v
  unfolding write_loop
  ends-Loop fuel m v h le any written =
      let done : n - (512 * n_blocks_of n - 8) ≡ 0 = omega (arith, any) in
      (
        m,
        v,
        rw done refl,
        h,
        le,
        record { disk = λ s o. refl; fat = λ s ne o. refl; n_blocks = refl },
        written,
      )

  abbrev after : ℕ → Volume → Volume
  after i v = record v {
    disk = update v.disk (w i) (block_data buf n i ++ pad (block_data buf n i));
  }

  after-Frame : (i : ℕ) (v : Volume) → i < n_blocks_of n → Frame w p (n_blocks_of n) v (after i v)
  after-Frame i v l = record {
    disk = λ s o. rw (==_ne s (w i) (o i l)) refl;
    fat = λ s ne o. refl;
    n_blocks = refl;
  }

  written_on :
      (i m : ℕ) (v v₁ : Volume)
      → Layout w p m v
      → i < n_blocks_of n
      → n_blocks_of n ≤ p
      → Written pad buf n w i v
      → ((j : ℕ) → v₁.disk j ≡ v.disk j)
      → Written pad buf n w (i + 1) (after i v₁)
  written_on i m v v₁ h more room written same j l = elim (Bool-cases (j == i)) [
    | inl e ↦ let at : j ≡ i = ground (arith, e) in rw (at, ==_self (w i)) refl
    | inr e ↦
        let other : (w j == w i) ≡ false = ground (arith, e, h.apart j i, l, more, room) in
        rw other (same (w j) ∙ written j (ground (arith, e, l)))
  ]

  to_go : (i : ℕ) → i < n_blocks_of n → 0 < n → (n - (512 * i - 8) == 0) ≡ false
  to_go i more any = ==_ne (n - (512 * i - 8)) 0 (λ e. omega (arith, e, more, any))

  step-Loop :
      (fuel i m m₁ : ℕ) (v v₁ : Volume)
      → Layout w p m v
      → v.n_blocks ≤ 2 ^ 23
      → Layout w p m₁ v₁
      → i < n_blocks_of n
      → n_blocks_of n ≤ p
      → 0 < n
      → allocated (block_at w m i) (old_at w i) v ≡ some (w i, v₁)
      → i < m₁
      → Frame w p (n_blocks_of n) v v₁
      → Loop fuel (i + 1) m₁ (after i v₁)
      → Loop (suc fuel) i m v
  step-Loop fuel i m m₁ v v₁ h small h₁ more room any alloc longer frame
        (m', v', runs, h', le, frame', written) =
      let inside = h.inside i (omega (arith, more, room)) in
      let inside₁ = h₁.inside i (omega (arith, more, room)) in
      let offset : min n (512 * i - 8) + amount pad buf (i == 0) (n - (512 * i - 8))
          ≡ min n (512 * (i + 1) - 8) =
        ground (arith, more, any) in
      let length : n - (512 * i - 8) - amount pad buf (i == 0) (n - (512 * i - 8))
          ≡ n - (512 * (i + 1) - 8) =
        ground (arith, more, any) in
      let first : (i + 1 == 0) ≡ false = ground arith in
      let before : i + 1 - 1 ≡ i = omega arith in
      let next : v₁.fat (w i) ≡ block_at w m₁ (i + 1) = h₁.file i longer in
      (
        m',
        v',
        round pad buf fuel (block_at w m i) (old_at w i) (min n (512 * i - 8)) (n - (512 * i - 8))
            (i == 0) v (w i) v₁ (block_at w m₁ (i + 1)) _ (to_go i more any) alloc
            (rw (stored_data i v₁ (omega (arith, inside, small)) more)
              (fat_get_lem (after i v₁) (w i) inside₁ ∙ ap some next))
            (rw (stored_data i v₁ (omega (arith, inside, small)) more, offset, length)
              (rw (first, before) at runs)),
        h',
        le,
        Frame-trans frame' (Frame-trans (after-Frame i v₁ more) frame),
        written,
      )

  pub write_loop_lem :
      (fuel i m : ℕ) (v : Volume)
      → Layout w p m v
      → v.n_blocks ≤ 2 ^ 23
      → 0 < n
      → n_blocks_of n ≤ p
      → i ≤ m
      → i ≤ n_blocks_of n
      → n_blocks_of n < fuel + i
      → Written pad buf n w i v
      → Loop fuel i m v
  write_loop_lem zero i m v h small any room le below enough written =
      absurd (omega (arith, below, enough))
  write_loop_lem (suc fuel) i m v h small any room le below enough written =
      elim (Bool-cases (ltb i (n_blocks_of n))) [
        | inr e ↦
            let last : i ≡ n_blocks_of n = ground (arith, e, below) in
            rw last (ends-Loop fuel m v h (rw last at le) any (rw last at written))
        | inl e ↦
            let more : i < n_blocks_of n = ground (arith, e) in
            let (m₁, v₁, alloc, h₁, longer, same, frame) =
              allocated_lem h i le (omega (arith, more, room)) in
            let written' = written_on i m v v₁ h more room written same in
            let h₂ =
              Layout-disk h₁
                (update v₁.disk (w i) (block_data buf n i ++ pad (block_data buf n i))) in
            step-Loop fuel i m m₁ v v₁ h small h₁ more room any alloc longer (frame (n_blocks_of n))
              (write_loop_lem fuel (i + 1) m₁ (after i v₁) h₂ (rw ((frame 0).n_blocks) small) any
                room (omega (arith, longer)) (omega (arith, more)) (omega (arith, enough)) written')
      ]

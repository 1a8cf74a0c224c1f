-- ===== src/User/Gets/Loops.antt =====
-- The loops of gets in user/libc.c over its block.
use net_os.Base.{
  ℕ, zero, suc, ◌+◌, ◌-◌, ◌≤◌, ◌≡◌, refl, true, some, ltb, leb, if◌then◌else◌, arith, slice,
}
use net_os.User.Gets.{put, load, store, clear, pull, push, show}

pub load_lem : (sz : ℕ) (p : ℕ → ℕ) (k : ℕ) → k ≤ sz → load sz p k ≡ some (p k)
unfolding load
load_lem sz p k l = let e : leb k sz ≡ true = ground (arith, l) in rw e refl

pub store_lem : (sz : ℕ) (p : ℕ → ℕ) (k v : ℕ) → k ≤ sz → store sz p k v ≡ some (put k v p)
unfolding store
store_lem sz p k v l = let e : leb k sz ≡ true = ground (arith, l) in rw e refl

pub show_lem : (sz : ℕ) (p : ℕ → ℕ) (n j : ℕ) → j + n ≤ sz + 1 → show sz p n j ≡ some (slice p j n)
unfolding show
show_lem sz p zero j l = refl
show_lem sz p (suc n) j l =
    let e : j + 1 ≡ suc j = omega arith in
    rw (load_lem sz p j (omega (arith, l)), e, show_lem sz p n (suc j) (omega (arith, l))) refl

pub clear_lem :
    (sz : ℕ) (p : ℕ → ℕ) (n j : ℕ)
    → j + n ≤ sz + 1
    → (p' : ℕ → ℕ) × (clear sz p n j ≡ some p')
      × ((k : ℕ) → p' k ≡ (if leb j k then (if ltb k (j + n) then 0 else p k) else p k))
unfolding clear
clear_lem sz p zero j l = (p, refl, λ k. ground arith)
clear_lem sz p (suc n) j l =
    let (p', runs, at) = clear_lem sz (put j 0 p) n (j + 1) (omega (arith, l)) in
    (p', rw (store_lem sz p j 0 (omega (arith, l))) runs, λ k. ground (arith, at k))

pub pull_lem :
    (sz : ℕ) (p : ℕ → ℕ) (n j : ℕ)
    → j + n ≤ sz
    → (p' : ℕ → ℕ) × (pull sz p n j ≡ some p')
      × ((k : ℕ) → p' k ≡ (if leb j k then (if ltb k (j + n) then p (k + 1) else p k) else p k))
unfolding pull
pull_lem sz p zero j l = (p, refl, λ k. ground arith)
pull_lem sz p (suc n) j l =
    let (p', runs, at) = pull_lem sz (put j (p (j + 1)) p) n (j + 1) (omega (arith, l)) in
    (
      p',
      rw (load_lem sz p (j + 1) (omega (arith, l)), store_lem sz p j (p (j + 1)) (omega (arith, l)))
          runs,
      λ k. ground (arith, at k),
    )

pub push_lem :
    (sz : ℕ) (p : ℕ → ℕ) (n i : ℕ)
    → i + n ≤ sz
    → (p' : ℕ → ℕ) × (push sz p n i ≡ some p')
      × ((k : ℕ) → p' k ≡ (if ltb i k then (if leb k (i + n) then p (k - 1) else p k) else p k))
unfolding push
push_lem sz p zero i l = (p, refl, λ k. ground arith)
push_lem sz p (suc n) i l =
    let (p', runs, at) = push_lem sz (put (i + n + 1) (p (i + n)) p) n i (omega (arith, l)) in
    (
      p',
      rw
          (
            load_lem sz p (i + n) (omega (arith, l)),
            store_lem sz p (i + n + 1) (p (i + n)) (omega (arith, l)),
          )
          runs,
      λ k. ground (arith, at k),
    )

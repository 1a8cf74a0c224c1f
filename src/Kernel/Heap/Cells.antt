-- ===== src/Kernel/Heap/Cells.antt =====
-- Reads and writes inside the array.
use net_os.Base.{
  ℕ, zero, suc, ◌+◌, ◌-◌, ◌≤◌, ◌<◌, ◌≡◌, refl, Bool, true, false, some, ==_ne, ==_self, leb,
  ltb_of_lt, ℤ, pos, negsuc, arith,
}
use net_os.Kernel.Heap.{
  Heap, abs, minus, same, update, load, store, size, header_from_footer, footer_from_header, sanity,
  left, right, next, prev,
}

pub same_self : (z : ℤ) → same z z ≡ true
same_self (pos n) = ==_self n
same_self (negsuc n) = ==_self n

pub abs-minus : (n : ℕ) → abs (minus n) ≡ n
abs-minus zero = refl
abs-minus (suc n) = refl

module _ (h : Heap) where
  pub load_lem : (i : ℕ) → i < h.len → load h i ≡ some (h.array i)
  unfolding load
  load_lem i l = rw (ltb_of_lt i h.len l) refl

  pub store_lem :
      (i : ℕ) (v : ℤ) → i < h.len → store h i v ≡ some (record h { array = update h.array i v })
  unfolding store
  store_lem i v l = rw (ltb_of_lt i h.len l) refl

  pub size_lem : (i n : ℕ) → i < h.len → abs (h.array i) ≡ n → size h i ≡ some n
  unfolding size
  size_lem i n l e = rw (load_lem i l, ← e) refl

  -- A block that its header and its footer give alike.
  pub record IsBlock (i n : ℕ) : Type 0 where
    pub large : 2 ≤ n
    pub inside : i + n ≤ h.len
    pub header : abs (h.array i) ≡ n
    pub footer : h.array (i + n - 1) ≡ h.array i

  pub footer_from_header_lem : (i n : ℕ) → IsBlock i n → footer_from_header h i ≡ some (i + n - 1)
  unfolding footer_from_header
  footer_from_header_lem i n b =
      let one : leb 1 (i + n) ≡ true = ground (arith, b.large) in
      rw (size_lem i n (omega (arith, b.large, b.inside)) b.header, one) refl

  pub sanity_lem : (panics : Bool) (i n : ℕ) → IsBlock i n → sanity panics h i ≡ some i
  unfolding sanity
  sanity_lem panics zero n b = refl
  sanity_lem panics (suc i) n b =
      let footer_in : suc i + n - 1 < h.len = omega (arith, b.large, b.inside) in
      let header_in : suc i < h.len = omega (arith, b.large, b.inside) in
      let in_range : leb h.len (suc i) ≡ false = ground arith in
      let in_range' : leb h.len (suc i + n - 1) ≡ false = ground arith in
      rw
        (
          ==_ne (suc i) 0 (omega arith),
          in_range,
          footer_from_header_lem (suc i) n b,
          in_range',
          load_lem (suc i) header_in,
          load_lem (suc i + n - 1) footer_in,
          b.footer,
          same_self (h.array (suc i)),
        )
        refl

  pub sanity_zero : (panics : Bool) → sanity panics h 0 ≡ some 0
  unfolding sanity
  sanity_zero panics = refl

  pub right_lem :
      (panics : Bool) (i n m : ℕ)
      → IsBlock i n
      → IsBlock (i + n) m
      → right panics h i ≡ some (i + n)
  unfolding right
  right_lem panics i n m b c =
      rw (size_lem i n (omega (arith, b.large, b.inside)) b.header) (sanity_lem panics (i + n) m c)

  pub left_lem : (panics : Bool) (j m i : ℕ) → IsBlock j m → j + m ≡ i → left panics h i ≡ some j
  unfolding left header_from_footer
  left_lem panics j m zero b e = absurd (omega (arith, b.large))
  left_lem panics j m (suc i) b e =
      let last : j + m - 1 ≡ i = omega (arith, e) in
      let inner : leb m (i + 1) ≡ true = ground (arith, e) in
      let start : i + 1 - m ≡ j = omega (arith, e) in
      let footer : abs (h.array i) ≡ m = rw (← last, b.footer) b.header in
      rw (size_lem i m (omega (arith, e, b.inside)) footer, inner, start) (sanity_lem panics j m b)

  pub next_lem :
      (panics : Bool) (i x : ℕ)
      → i + 1 < h.len
      → h.array (i + 1) ≡ pos x
      → sanity panics h x ≡ some x
      → next panics h i ≡ some x
  unfolding next
  next_lem panics i x l e s = rw (load_lem (i + 1) l, e) s

  pub prev_lem :
      (panics : Bool) (i x : ℕ)
      → i + 2 < h.len
      → h.array (i + 2) ≡ pos x
      → sanity panics h x ≡ some x
      → prev panics h i ≡ some x
  unfolding prev
  prev_lem panics i x l e s = rw (load_lem (i + 2) l, e) s

-- ===== src/Kernel/Heap/Ghost.antt =====
-- The blocks of a heap and its list of free blocks, apart from the array that holds them.
use net_os.Base.{
  ℕ, ◌+◌, ◌-◌, ◌≤◌, ◌<◌, ◌≡◌, ◌≢◌, Bool, true, false, ◌==◌, if◌then◌else◌, ℤ, pos, arith,
}
use net_os.Kernel.Heap.{Heap, minus}

-- Where blocks start, how many ints each has, which are free and which of these are listed, where the
-- block before each starts, the neighbours in the list (0 where there is none), and a number that falls
-- along the list.
pub record Ghost : Type 0 where
  pub start : ℕ → Bool
  pub free : ℕ → Bool
  pub listed : ℕ → Bool
  pub size : ℕ → ℕ
  pub before : ℕ → ℕ
  pub nx : ℕ → ℕ
  pub pv : ℕ → ℕ
  pub rank : ℕ → ℕ

abbrev pub upd {ℓ} : {A : Type ℓ} → (ℕ → A) → ℕ → A → ℕ → A
upd f i v j = if j == i then v else f j

-- The header of a block.
abbrev pub tag : Bool → ℕ → ℤ
tag f n = if f then pos n else minus n

-- The blocks tile the array, between two taken blocks of two ints.
pub record Geo (g : Ghost) (len : ℕ) : Type 0 where
  pub first : (g.start 0 ≡ true) × (g.free 0 ≡ false) × (g.size 0 ≡ 2)
  pub last : (g.start (len - 2) ≡ true) × (g.free (len - 2) ≡ false) × (g.size (len - 2) ≡ 2)
  pub large : (i : ℕ) → g.start i ≡ true → 2 ≤ g.size i
  pub inner_large : (i : ℕ) → g.start i ≡ true → i ≢ 0 → i ≢ len - 2 → 4 ≤ g.size i
  pub fits : (i : ℕ) → g.start i ≡ true → i + g.size i ≤ len
  pub after : (i : ℕ) → g.start i ≡ true → i + g.size i < len → g.start (i + g.size i) ≡ true
  pub within : (i j : ℕ) → g.start i ≡ true → i < j → j < i + g.size i → g.start j ≡ false
  pub prior :
      (i : ℕ)
      → g.start i ≡ true
      → i ≢ 0
      → (g.start (g.before i) ≡ true) × (g.before i + g.size (g.before i) ≡ i)
  pub free_start : (i : ℕ) → g.free i ≡ true → g.start i ≡ true

-- The array has the headers and the footers of all blocks but perhaps `p`.
pub record Mem (g : Ghost) (array : ℕ → ℤ) (p : ℕ) : Type 0 where
  pub header : (i : ℕ) → g.start i ≡ true → i ≢ p → array i ≡ tag (g.free i) (g.size i)
  pub footer :
      (i : ℕ) → g.start i ≡ true → i ≢ p → array (i + g.size i - 1) ≡ tag (g.free i) (g.size i)

-- It has the links of the listed blocks.
pub record Links (g : Ghost) (array : ℕ → ℤ) : Type 0 where
  pub next : (i : ℕ) → g.listed i ≡ true → array (i + 1) ≡ pos (g.nx i)
  pub prev : (i : ℕ) → g.listed i ≡ true → array (i + 2) ≡ pos (g.pv i)

-- The list is linked both ways, starts at `avail`, falls in rank below `r`, and has free blocks only.
pub record Graph (g : Ghost) (avail r : ℕ) : Type 0 where
  pub nxt :
      (i : ℕ)
      → g.listed i ≡ true
      → g.nx i ≢ 0
      → (g.listed (g.nx i) ≡ true) × (g.pv (g.nx i) ≡ i) × (g.rank (g.nx i) < g.rank i)
  pub prv :
      (i : ℕ) → g.listed i ≡ true → g.pv i ≢ 0 → (g.listed (g.pv i) ≡ true) × (g.nx (g.pv i) ≡ i)
  pub head : (i : ℕ) → g.listed i ≡ true → g.pv i ≡ 0 → avail ≡ i
  pub top : avail ≢ 0 → (g.listed avail ≡ true) × (g.pv avail ≡ 0)
  pub bound : (i : ℕ) → g.listed i ≡ true → g.rank i < r
  pub listed_zero : g.listed 0 ≡ false
  pub listed_free : (i : ℕ) → g.listed i ≡ true → g.free i ≡ true

-- The heap `h` but for the block `p`, which is in use by an operation.
pub record Open (g : Ghost) (h : Heap) (r p : ℕ) : Type 0 where
  pub geo : Geo g h.len
  pub mem : Mem g h.array p
  pub links : Links g h.array
  pub graph : Graph g h.avail r
  pub all_listed : (i : ℕ) → g.free i ≡ true → i ≢ p → g.listed i ≡ true
  pub unlisted : g.listed p ≡ false

-- A whole heap: `h.len` is no block.
abbrev pub Inv : Ghost → Heap → ℕ → Type 0
Inv g h r = Open g h r h.len

abbrev pub unlink : ℕ → Ghost → Ghost
unlink i g = record g {
  listed = upd g.listed i false;
  nx = upd g.nx (g.pv i) (g.nx i);
  pv = upd g.pv (g.nx i) (g.pv i);
}

module _ {g : Ghost} {avail r : ℕ} (k : Graph g avail r) (i : ℕ) (l : g.listed i ≡ true) where
  pub unlink-Graph : Graph (unlink i g) (if g.pv i == 0 then g.nx i else avail) r
  unlink-Graph = record {
    nxt = λ j a b. ground (arith, k.nxt j, k.nxt i, k.prv i, k.nxt (g.pv i), k.listed_zero);
    prv = λ j a b. ground (arith, k.prv j, k.nxt i, k.prv i, k.prv (g.nx i), k.listed_zero);
    head = λ j a b. ground (arith, k.head j, k.head i, k.nxt i, k.prv i, k.prv j, k.listed_zero);
    top = λ a. ground (arith, k.top, k.nxt i, k.head i, k.listed_zero);
    bound = λ j a. ground (arith, k.bound j);
    listed_zero = ground (arith, k.listed_zero);
    listed_free = λ j a. ground (arith, k.listed_free j);
  }

-- No two neighbouring blocks are free.
abbrev pub Coalesced : Ghost → Type 0
Coalesced g = (i : ℕ) → g.free i ≡ true → g.free (i + g.size i) ≡ false

-- A whole heap with no two free blocks side by side.
abbrev pub Whole : Ghost → Heap → ℕ → Type 0
Whole g h r = Inv g h r × Coalesced g

-- Facts on blocks.
module _ {g : Ghost} {len : ℕ} (k : Geo g len) where
  pub last_end : (i : ℕ) → g.start i ≡ true → i + g.size i ≡ len → i ≡ len - 2
  last_end i s e = ground (arith, k.large i s, k.last, k.within i (len - 2) s)

  -- A free block lies between the two at the ends, and has room for its links.
  pub free_inner :
      (i : ℕ)
      → g.free i ≡ true
      → (g.start i ≡ true) × (i ≢ 0) × (4 ≤ g.size i) × (i + g.size i < len)
  free_inner i f =
      ground (arith, k.free_start i f, k.first, k.last, k.inner_large i, k.fits i, last_end i)

  -- Two blocks do not overlap.
  pub apart : (i j : ℕ) → g.start i ≡ true → g.start j ≡ true → i < j → i + g.size i ≤ j
  apart i j a b l = ground (arith, k.within i j)

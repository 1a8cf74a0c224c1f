-- ===== src/Kernel/Heap.antt =====
-- The first-fit heap of kernel/heap.cc, which user/heap.c has too. The memory is an array of `len` ints;
-- a pointer is the index of an int in it. `panics` says whether a failed check stops the program, as
-- Debug::panic does in the kernel, or is passed over, as in user/heap.c, where it is a comment. `none`
-- is that panic, or an access outside the array; so is a negative index, which the kernel refuses and
-- user/heap.c would use.
pub mod Cells
pub mod Ghost
pub mod Remove
pub mod Blocks
pub mod Opened
pub mod Close
pub mod Push
pub mod Frame
pub mod Take
pub mod Malloc
pub mod Span
pub mod Free
pub mod Start
pub mod Calls
mod Tests
use net_os.Base.{
  ℕ, zero, suc, ◌+◌, ◌-◌, ◌*◌, ◌/◌, ◌%◌, ◌^◌, Bool, true, false, not, ◌&&◌, ◌||◌, Option, none,
  some, ◌==◌, leb, ltb, if◌then◌else◌, ◌>>=◌, ℤ, pos, negsuc,
}

pub record Heap : Type 0 where
  pub array : ℕ → ℤ
  pub len : ℕ
  pub avail : ℕ

-- A word of the array as an index.
abbrev pub index : ℤ → Option ℕ
index (pos n) = some n
index (negsuc n) = none

-- abs
abbrev pub abs : ℤ → ℕ
abs (pos n) = n
abs (negsuc n) = suc n

-- `-ints`
abbrev pub minus : ℕ → ℤ
minus zero = pos 0
minus (suc n) = negsuc n

abbrev pub same : ℤ → ℤ → Bool
same (pos m) (pos n) = m == n
same (pos m) (negsuc n) = false
same (negsuc m) (pos n) = false
same (negsuc m) (negsuc n) = m == n

abbrev pub positive : ℤ → Bool
positive (pos zero) = false
positive (pos (suc n)) = true
positive (negsuc n) = false

abbrev pub negative : ℤ → Bool
negative (pos n) = false
negative (negsuc n) = true

abbrev pub update : (ℕ → ℤ) → ℕ → ℤ → ℕ → ℤ
update a i v j = if j == i then v else a j

-- `array[i]` and `array[i] = v`
pub load : Heap → ℕ → Option ℤ
load h i = if ltb i h.len then some (h.array i) else none

pub store : Heap → ℕ → ℤ → Option Heap
store h i v = if ltb i h.len then some (record h { array = update h.array i v }) else none

pub size : Heap → ℕ → Option ℕ
size h i = do v ← load h i; some (abs v)

pub header_from_footer : Heap → ℕ → Option ℕ
header_from_footer h i = do n ← size h i; if leb n (i + 1) then some (i + 1 - n) else none

pub footer_from_header : Heap → ℕ → Option ℕ
footer_from_header h i = do n ← size h i; if leb 1 (i + n) then some (i + n - 1) else none

pub is_avail : Heap → ℕ → Option Bool
is_avail h i = do v ← load h i; some (positive v)

pub is_taken : Heap → ℕ → Option Bool
is_taken h i = do v ← load h i; some (negative v)

pub set_next : Heap → ℕ → ℕ → Option Heap
set_next h i x = store h (i + 1) (pos x)

pub set_prev : Heap → ℕ → ℕ → Option Heap
set_prev h i x = store h (i + 2) (pos x)

pub make_avail : Heap → ℕ → ℕ → Option Heap
make_avail h i ints = do
  h₁ ← store h i (pos ints)
  footer ← footer_from_header h₁ i
  h₂ ← store h₁ footer (pos ints)
  h₃ ← set_next h₂ i h₂.avail
  h₄ ← set_prev h₃ i 0
  h₅ ← (if h₄.avail == 0 then some h₄ else set_prev h₄ h₄.avail i)
  some (record h₅ { avail = i })

pub make_taken : Heap → ℕ → ℕ → Option Heap
make_taken h i ints = do
  h₁ ← store h i (minus ints)
  footer ← footer_from_header h₁ i
  store h₁ footer (minus ints)

-- Heap::init on a memory of `len` ints, and heap_init.
pub init : (ℕ → ℤ) → ℕ → Option Heap
init array len = do
  h₁ ← make_taken (record { array = array; len = len; avail = 0 }) 0 2
  h₂ ← (if leb 4 len then make_avail h₁ 2 (len - 4) else none)
  make_taken h₂ (len - 2) 2

-- `ints`: `bytes` is unsigned in the kernel. It is a signed long in user/heap.c, where a sum that is negative as a
-- word gives 2 or less.
abbrev pub ints_of : Bool → ℕ → ℕ
ints_of panics bytes =
    let sum = (bytes + 3) % 2 ^ 32 in
    let ints = if panics || ltb sum (2 ^ 31) then sum / 4 + 2 else 2 in
    if ltb ints 4 then 4 else ints

module _ (panics : Bool) where
  failed : ℕ → Option ℕ
  failed i = if panics then none else some i

  pub sanity : Heap → ℕ → Option ℕ
  sanity h i = do
    if i == 0 then some 0 else if leb h.len i then failed i else do
      footer ← footer_from_header h i
      if leb h.len footer
          then failed i
          else do hv ← load h i; fv ← load h footer; if same hv fv then some i else failed i

  pub left : Heap → ℕ → Option ℕ
  left h zero = none
  left h (suc i) = do p ← header_from_footer h i; sanity h p

  pub right : Heap → ℕ → Option ℕ
  right h i = do n ← size h i; sanity h (i + n)

  pub next : Heap → ℕ → Option ℕ
  next h i = do v ← load h (i + 1); n ← index v; sanity h n

  pub prev : Heap → ℕ → Option ℕ
  prev h i = do v ← load h (i + 2); n ← index v; sanity h n

  pub remove : Heap → ℕ → Option Heap
  remove h i = do
    prev_index ← prev h i
    next_index ← next h i
    h₁ ←
        (if prev_index == 0
          then some (record h { avail = next_index })
          else set_next h prev_index next_index)
    if next_index == 0 then some h₁ else set_prev h₁ next_index prev_index

  -- What malloc does with a block `p` of `sz` ints that is large enough.
  pub take_block : Heap → ℕ → ℕ → ℕ → Option Heap
  take_block h p sz ints = do
    h₁ ← remove h p
    if leb 4 (sz - ints)
        then (do h₂ ← make_taken h₁ p ints; make_avail h₂ (p + ints) (sz - ints))
        else make_taken h₁ p sz

  -- The loop of malloc from the block `p` on: the pointer returned, with `none` for null.
  pub search : ℕ → ℕ → Heap → ℕ → Option (Option ℕ × Heap)
  search zero ints h p = none
  search (suc fuel) ints h p =
      let at_block = (do
        free ← is_avail h p
        sz ← size h p
        let rest = (do following ← next h p; search fuel ints h following)
        let taken = (do h' ← take_block h p sz ints; some (some (p + 1), h'))
        if panics && not free then none else if leb ints sz then taken else rest) in
      if p == 0 then some (none, h) else at_block

  -- malloc: the pointer, with `none` for null. In the kernel a full heap is a panic.
  pub malloc : ℕ → ℕ → Heap → Option (Option ℕ × Heap)
  malloc fuel bytes h = if bytes == 0 then some (some 0, h) else do
    p ← sanity h h.avail
    (res, h') ← search fuel (ints_of panics bytes) h h.avail
    if panics then (elim res [ none ↦ none | some q ↦ some (some q, h') ]) else some (res, h')

  -- The merge of free with the block `i`, if that is free: the place and size that result, `start` being
  -- where the block then starts.
  pub absorb : Heap → ℕ → ℕ → ℕ → ℕ → Option (ℕ × ℕ × Heap)
  absorb h i start idx sz = do
    free ← is_avail h i
    if free
        then (do h' ← remove h i; n ← size h' i; some (start, sz + n, h'))
        else some (idx, sz, h)

  -- free of a pointer, `none` being null; `array` itself is the pointer 0.
  pub free : Option ℕ → Heap → Option Heap
  free none h = some h
  free (some zero) h = some h
  free (some (suc i)) h = do
    checked ← sanity h i
    taken ← is_taken h i
    let release = (do
      sz ← size h i
      left_index ← left h i
      right_index ← right h i
      (idx, sz, h₁) ← absorb h left_index left_index i sz
      (idx, sz, h₂) ← absorb h₁ right_index idx idx sz
      make_avail h₂ idx sz)
    if taken then release else if panics then none else some h

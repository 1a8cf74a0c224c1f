-- ===== src/User/Gets.antt =====
-- gets of user/libc.c: a line from the keyboard, edited with the arrow keys. The characters that getchar
-- returns are a list of bytes, and what goes out through putchar is collected. The block `p` is a memory
-- of `sz + 1` bytes: an access outside it is `none`. A block that realloc returns holds the old bytes and
-- `junk` behind them. The semaphore is one of the call's own, which it finds free each time.
pub mod Line
pub mod Loops
pub mod Keys
pub mod Changes
pub mod Edits
mod Tests
use net_os.Base.{
  ℕ, zero, suc, ◌+◌, ◌-◌, Bool, Option, none, some, List, [], ◌∷◌, ◌++◌, ltb, leb, ◌==◌, ◌||◌,
  if◌then◌else◌, ◌>>=◌, replicate,
}

-- The variables of gets, and what it has put out.
pub record Vars : Type 0 where
  pub p : ℕ → ℕ
  pub sz : ℕ
  pub i : ℕ
  pub realsz : ℕ
  pub out : List ℕ

-- How a turn of the loop ends: with another turn, or with the line returned.
pub data Turn : Type 0 where
  again returned : Vars → Turn

abbrev pub put : ℕ → ℕ → (ℕ → ℕ) → ℕ → ℕ
put k v p j = if j == k then v else p j

-- `p[k]` and `p[k] = v`
pub load : ℕ → (ℕ → ℕ) → ℕ → Option ℕ
load sz p k = if leb k sz then some (p k) else none

pub store : ℕ → (ℕ → ℕ) → ℕ → ℕ → Option (ℕ → ℕ)
store sz p k v = if leb k sz then some (put k v p) else none

-- `for (j = ...; j < sz + 1; j++) p[j] = 0`, in `n` rounds
pub clear : ℕ → (ℕ → ℕ) → ℕ → ℕ → Option (ℕ → ℕ)
clear sz p zero j = some p
clear sz p (suc n) j = do p ← store sz p j 0; clear sz p n (j + 1)

-- `for (j = i; j < realsz; j++) p[j] = p[j + 1]`
pub pull : ℕ → (ℕ → ℕ) → ℕ → ℕ → Option (ℕ → ℕ)
pull sz p zero j = some p
pull sz p (suc n) j = do c ← load sz p (j + 1); p ← store sz p j c; pull sz p n (j + 1)

-- `for (j = realsz - 1; j > i; j--) p[j] = p[j - 1]`, down to `j = i + 1`
pub push : ℕ → (ℕ → ℕ) → ℕ → ℕ → Option (ℕ → ℕ)
push sz p zero i = some p
push sz p (suc n) i = do c ← load sz p (i + n); p ← store sz p (i + n + 1) c; push sz p n i

-- `for (j = i; j < realsz; j++) putchar(p[j])`
pub show : ℕ → (ℕ → ℕ) → ℕ → ℕ → Option (List ℕ)
show sz p zero j = some []
show sz p (suc n) j = do c ← load sz p j; rest ← show sz p n (j + 1); some (c ∷ rest)

-- The start of a turn, where the block grows if the cursor is behind it.
pub grow : (ℕ → ℕ) → Vars → Option Vars
grow junk l =
    let sz = l.sz + 10 in
    let p : ℕ → ℕ = λ k. if ltb k (l.sz + 1) then l.p k else junk k in
    let longer : Option Vars = (do
      p ← clear sz p (sz + 1 - l.realsz) l.realsz
      some (record l { p = p; sz = sz })) in
    if leb l.sz l.i then longer else some l

pub backspace : Vars → Option Vars
backspace l =
    let i = l.i - 1 in
    let realsz = l.realsz - 1 in
    let shorter : Option Vars = (do
      p ← pull l.sz l.p (realsz - i) i
      shown ← show l.sz p (realsz - i) i
      p ← store l.sz p realsz 0
      some (record {
        p = p;
        sz = l.sz;
        i = i;
        realsz = realsz;
        out = l.out ++ 240 ∷ shown ++ 32 ∷ replicate (realsz + 1 - i) 240;
      })) in
    if ltb 0 l.i then shorter else some l

pub enter : Vars → Option Vars
enter l = do
  p ← store l.sz l.p l.realsz 0
  some (record l { p = p; realsz = l.realsz + 1; out = l.out ++ 13 ∷ 10 ∷ [] })

-- A character for the line: it goes before those at the cursor.
pub type : ℕ → Vars → Option Vars
type c l =
    let realsz = l.realsz + 1 in
    let out = l.out ++ c ∷ [] in
    let i = l.i + 1 in
    let inside : Option Vars = (do
      p ← push l.sz l.p (l.realsz - l.i) l.i
      p ← store l.sz p l.i c
      shown ← show l.sz p (realsz - i) i
      some (record {
        p = p;
        sz = l.sz;
        i = i;
        realsz = realsz;
        out = out ++ shown ++ replicate (realsz - i) 240;
      })) in
    let at_end : Option Vars = (do
      p ← store l.sz l.p l.i c
      some (record { p = p; sz = l.sz; i = i; realsz = realsz; out = out })) in
    do there ← load l.sz l.p l.i; if there == 0 then at_end else inside

pub left : Vars → Vars
left l = if ltb 0 l.i then record l { i = l.i - 1; out = l.out ++ 240 ∷ [] } else l

pub right : Vars → Vars
right l = if ltb l.i l.realsz then record l { i = l.i + 1; out = l.out ++ 241 ∷ [] } else l

abbrev says : List ℕ → Vars → Option Turn
says text l = some (again (record l { out = l.out ++ text }))

-- What a turn does with the character.
pub handle : ℕ → Vars → Option Turn
handle c l =
    if c == 240
    then some (again (left l))
    else if c == 241
    then some (again (right l))
    else if (c == 242) || (c == 243)
    then some (again l)
    else if c == 254
    then says (91 ∷ 94 ∷ 113 ∷ 93 ∷ []) l
    else if c == 253
    then says (91 ∷ 94 ∷ 119 ∷ 93 ∷ []) l
    else if (c == 8) || (c == 127)
    then (do l ← backspace l; some (again l))
    else if c == 13
    then (do l ← enter l; some (returned l))
    else (do l ← type c l; some (again l))

-- The loop over the characters that come, where it waits when they are used up.
pub gets_loop : (ℕ → ℕ) → List ℕ → Vars → Option Turn
gets_loop junk [] l = do l ← grow junk l; some (again l)
gets_loop junk (c ∷ keys) l = do
  l ← grow junk l
  t ← handle c l
  elim t [ again l ↦ gets_loop junk keys l | returned l ↦ some (returned l) ]

pub gets : (ℕ → ℕ) → List ℕ → Option Turn
gets junk keys = gets_loop junk keys (record { p = junk; sz = 0; i = 0; realsz = 0; out = [] })

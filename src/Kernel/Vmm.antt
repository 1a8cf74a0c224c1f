-- ===== src/Kernel/Vmm.antt =====
-- Virtual memory: PhysMem and AddressSpace of kernel/vmm.cc and kernel/vmm.h. Physical memory is 32-bit words
-- in frames of 4096 bytes; a frame is zeroed and copied as a whole, as frames start at multiples of 4096.
-- A mask of a word is written as quotients and remainders by powers of 2. `none` is a panic; a switch to
-- another process inside a call, and the cache of the processor, are left out.
pub mod Frames
pub mod Space
pub mod Walk
pub mod Others
pub mod Demand
pub mod Identity
pub mod Copy
pub mod Pages
pub mod Fork
pub mod Exec
mod Tests
use net_os.Base.{
  ℕ, zero, suc, ◌+◌, ◌-◌, ◌*◌, ◌/◌, ◌%◌, ◌^◌, Bool, true, false, Option, none, some, ltb, ◌==◌,
  if◌then◌else◌, ◌>>=◌, add32,
}

-- The frames of memory, by number and word, and the variables of PhysMem.
pub record Phys : Type 0 where
  pub mem : ℕ → ℕ → ℕ
  pub first_free : ℕ
  pub avail : ℕ
  pub limit : ℕ

-- The word at an address, and a store to it.
abbrev pub word : Phys → ℕ → ℕ
word s a = s.mem (a / 4096) (a % 4096 / 4)

abbrev pub set_word : (ℕ → ℕ → ℕ) → ℕ → ℕ → ℕ → ℕ → ℕ → ℕ
set_word mem f i v f' i' = if f' == f then (if i' == i then v else mem f' i') else mem f' i'

pub store : ℕ → ℕ → Phys → Phys
store a v s = record s { mem = set_word s.mem (a / 4096) (a % 4096 / 4) v }

-- A frame with other words.
abbrev pub set_frame : (ℕ → ℕ → ℕ) → ℕ → (ℕ → ℕ) → ℕ → ℕ → ℕ
set_frame mem f words f' i = if f' == f then words i else mem f' i

-- bzero and memcpy on a whole frame.
pub clear_frame : ℕ → Phys → Phys
clear_frame a s = record s { mem = set_frame s.mem (a / 4096) (λ i. 0) }

pub copy_frame : ℕ → ℕ → Phys → Phys
copy_frame dest src s = record s { mem = set_frame s.mem (dest / 4096) (s.mem (src / 4096)) }

-- PhysMem::init
pub init : ℕ → ℕ → Phys → Phys
init start end s = record s { first_free = 0; avail = start; limit = end }

-- PhysMem::alloc
pub alloc : Phys → Option (ℕ × Phys)
alloc s =
    let p = s.first_free in
    let reused : Option (ℕ × Phys) = some (p, clear_frame p (record s { first_free = word s p })) in
    let fresh : Option (ℕ × Phys) =
      some (s.avail, clear_frame s.avail (record s { avail = add32 s.avail 4096 })) in
    let never_used = if s.avail == s.limit then none else fresh in
    if p == 0 then never_used else reused

-- PhysMem::free
pub free : ℕ → Phys → Phys
free p s = record (store p s.first_free s) { first_free = p }

-- AddressSpace::getPTE: the address of the entry.
pub get_pte : ℕ → ℕ → Phys → Option (ℕ × Phys)
get_pte pd va s = do
  let pde = pd + 4 * (va / 2 ^ 22 % 1024)
  let with_table : Option Phys = (do (p, s) ← alloc s; some (store pde (p / 8 * 8 + 7) s))
  s ← (if word s pde % 2 == 0 then with_table else some s)
  some (word s pde / 4096 * 4096 + 4 * (va / 4096 % 1024), s)

-- AddressSpace::punmap
pub punmap : ℕ → ℕ → Phys → Option Phys
punmap pd va s = do (a, s) ← get_pte pd va s; some (store a 0 s)

-- AddressSpace::pmap
pub pmap : ℕ → ℕ → ℕ → Bool → Bool → Phys → Option Phys
pmap pd va pa for_user for_write s = do
  (a, s) ← get_pte pd va s
  some (
      store a (pa / 4096 * 4096 + (if for_user then 4 else 0) + (if for_write then 2 else 0) + 1) s)

-- How the handler of page faults ends: the process goes on or is killed.
pub data Fault : Type 0 where
  mapped killed : Phys → Fault

-- AddressSpace::handlePageFault
pub handle_page_fault : ℕ → ℕ → Phys → Option Fault
handle_page_fault pd va s =
    let on_demand : Option Fault = (do
      (p, s) ← alloc s
      s ← pmap pd va p true true s
      some (mapped s)) in
    if ltb va 0x1000 then some (killed s) else if ltb va 0x80000000 then none else on_demand

-- AddressSpace::fork, the loop over a table at `pt`, with `n` entries to go.
pub fork_table : ℕ → ℕ → ℕ → ℕ → Phys → Option Phys
fork_table child pt i0 zero s = some s
fork_table child pt i0 (suc n) s = do
  let i1 = 1024 - suc n
  let pte = word s (pt + 4 * i1)
  let copied : Option Phys = (do
    (dest, s) ← alloc s
    pmap child (i0 * 2 ^ 22 + i1 * 4096) dest true true (copy_frame dest (pte / 4096 * 4096) s))
  s ← (if pte % 2 == 0 then some s else copied)
  fork_table child pt i0 n s

-- The loop over the directory.
pub fork_loop : ℕ → ℕ → ℕ → Phys → Option Phys
fork_loop pd child zero s = some s
fork_loop pd child (suc n) s = do
  let i0 = 1024 - suc n
  let pde = word s (pd + 4 * i0)
  s ← (if pde % 2 == 0 then some s else fork_table child (pde / 4096 * 4096) i0 1024 s)
  fork_loop pd child n s

pub fork : ℕ → ℕ → Phys → Option Phys
fork pd child s = fork_loop pd child 512 s

-- AddressSpace::exec
pub exec_table : ℕ → ℕ → Phys → Phys
exec_table pt zero s = s
exec_table pt (suc n) s =
    let i1 = 1024 - suc n in
    let pte = word s (pt + 4 * i1) in
    let dropped = free (pte / 4096 * 4096) (store (pt + 4 * i1) 0 s) in
    exec_table pt n (if pte % 2 == 0 then s else dropped)

pub exec_loop : ℕ → ℕ → Phys → Phys
exec_loop pd zero s = s
exec_loop pd (suc n) s =
    let pde = word s (pd + 4 * (1024 - suc n)) in
    let dropped = exec_table (pde / 4096 * 4096) 1024 s in
    exec_loop pd n (if pde % 2 == 0 then s else dropped)

pub exec : ℕ → Phys → Phys
exec pd s = exec_loop pd 512 s

-- AddressSpace::AddressSpace: the identity mapping from `va` on, with a round for each unit of fuel.
pub identity_loop : ℕ → ℕ → ℕ → Phys → Option Phys
identity_loop pd zero va s = none
identity_loop pd (suc fuel) va s =
    let round : Option Phys = (do
      s ← pmap pd va va false true s
      identity_loop pd fuel (add32 va 4096) s) in
    if ltb va s.limit then round else some s

pub make_space : Phys → Option (ℕ × Phys)
make_space s = do (pd, s) ← alloc s; s ← identity_loop pd (2 ^ 20) 4096 s; some (pd, s)

-- AddressSpace::~AddressSpace
pub drop_table : ℕ → ℕ → Phys → Phys
drop_table pt zero s = s
drop_table pt (suc n) s =
    let pte = word s (pt + 4 * (1024 - suc n)) in
    drop_table pt n (if pte % 2 == 0 then s else free (pte / 4096 * 4096) s)

pub drop_loop : ℕ → ℕ → Phys → Phys
drop_loop pd zero s = s
drop_loop pd (suc n) s =
    let i0 = 1024 - suc n in
    let pde = word s (pd + 4 * i0) in
    let pt = pde / 4096 * 4096 in
    let emptied = if i0 == 0 then s else drop_table pt 1024 s in
    drop_loop pd n (if pde % 2 == 0 then s else free pt emptied)

pub drop_space : ℕ → Phys → Phys
drop_space pd s = free pd (drop_loop pd 1024 s)

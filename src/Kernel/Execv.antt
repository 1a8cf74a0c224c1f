-- ===== src/Kernel/Execv.antt =====
-- Process::execv of kernel/process.cc: how the arguments of a program and the program itself get into the memory of
-- the process, which is bytes by address. A store in the upper half succeeds, since pages come on demand; a load to
-- addresses below it is `none`: the kernel's memory is there, or a fault that kills the process. A word
-- has 4 bytes, the lowest first. The program is the content of its file, which seek and readFully read as
-- Kernel.Fs.ReadFile says. The search for the file, exec of the address space and closeAll are left out, and so is
-- the copy of the arguments that execv makes first.
pub mod Args
pub mod Load
mod Tests
use net_os.Base.{
  ℕ, zero, suc, ◌+◌, ◌*◌, ◌/◌, ◌%◌, ◌^◌, Option, none, some, ◌>>=◌, List, [], ◌∷◌, ◌==◌,
  if◌then◌else◌, ltb, leb, length, take, drop, get_elem?, add32,
}

abbrev pub Memory : Type 0
Memory = ℕ → ℕ

abbrev pub put : ℕ → ℕ → Memory → Memory
put a v mem x = if x == a then v else mem x

-- `*(uint32_t*) a = v`
pub put_word : ℕ → ℕ → Memory → Memory
put_word a v mem =
    put (a + 3) (v / 2 ^ 24 % 2 ^ 8)
      (put (a + 2) (v / 2 ^ 16 % 2 ^ 8) (put (a + 1) (v / 2 ^ 8 % 2 ^ 8) (put a (v % 2 ^ 8) mem)))

-- memcpy of a string's bytes.
pub copy_bytes : List ℕ → ℕ → Memory → Memory
copy_bytes [] dest mem = mem
copy_bytes (c ∷ str) dest mem = copy_bytes str (dest + 1) (put dest c mem)

-- strdup of kernel/process.cc, without what it returns.
pub str_dup : List ℕ → ℕ → Memory → Memory
str_dup str dest mem = put (dest + length str) 0 (copy_bytes str dest mem)

-- `argv`, the first `dest` and `userESP`.
abbrev pub argv : ℕ
argv = 0xffff0000

abbrev pub strings_start : ℕ
strings_start = 0xfff00000

abbrev pub user_esp : ℕ
user_esp = 0xfffffff0

-- The loop over the arguments from number `i` on.
pub args_loop : List (List ℕ) → ℕ → ℕ → Memory → Memory
args_loop [] i dest mem = mem
args_loop (str ∷ args) i dest mem =
    args_loop args (i + 1) (dest + (length str + 1))
      (put_word (argv + 4 * i) dest (str_dup str dest mem))

pub copy_args : List (List ℕ) → Memory → Memory
copy_args args mem =
    let mem = args_loop args 0 strings_start mem in
    put_word (user_esp + 4) argv (put_word user_esp (length args) mem)

-- seek to `offset` and readFully of `len` bytes: what the file has of them.
pub seek_read : List ℕ → ℕ → ℕ → List ℕ
seek_read file offset len = take len (drop offset file)

-- The fields of what was read: one that was not is `none`.
pub half : List ℕ → ℕ → Option ℕ
half b i = do x ← get_elem? b i; y ← get_elem? b (i + 1); some (x + y * 2 ^ 8)

pub word : List ℕ → ℕ → Option ℕ
word b i = do x ← half b i; y ← half b (i + 2); some (x + y * 2 ^ 16)

-- readFully into the process's memory: no byte at an address below the upper half, or above 32 bits.
pub read_into : List ℕ → ℕ → Memory → Option Memory
read_into bytes dest mem =
    if length bytes == 0
    then some mem
    else if ltb dest 0x80000000
    then none
    else if leb (dest + length bytes) (2 ^ 32)
    then some (copy_bytes bytes dest mem)
    else none

-- The loop over the program headers, with `n` to go: PT_LOAD is 1.
pub load_loop : List ℕ → ℕ → ℕ → ℕ → Memory → Option Memory
load_loop prog size zero hoff mem = some mem
load_loop prog size (suc n) hoff mem = do
  let phdr = seek_read prog hoff 32
  let loaded : Option Memory = (do
    offset ← word phdr 4
    vaddr ← word phdr 8
    filesz ← word phdr 16
    read_into (seek_read prog offset filesz) vaddr mem)
  type ← word phdr 0
  mem ← (if type == 1 then loaded else some mem)
  load_loop prog size n (add32 hoff size) mem

-- The entry and the memory, with the stack at `user_esp`.
pub execv : List ℕ → List (List ℕ) → Memory → Option (ℕ × Memory)
execv prog args mem = do
  let hdr = seek_read prog 0 52
  hoff ← word hdr 28
  size ← half hdr 42
  num ← half hdr 44
  mem ← load_loop prog size num hoff (copy_args args mem)
  entry ← word hdr 24
  some (entry, mem)

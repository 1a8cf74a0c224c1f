-- ===== src/Kernel/Execv/Tests.antt =====
-- The command line `ls -l` of a small program, and the theorem at it.
use net_os.Base.{ℕ, ◌+◌, ◌≤◌, ◌≡◌, refl, some, List, [], ◌∷◌, ◌++◌, replicate, arith}
use net_os.Kernel.Execv.{Memory, seek_read, half, word, execv, user_esp, argv, strings_start}
use net_os.Kernel.Execv.Args.{Passed, total, word_at}
use net_os.Kernel.Execv.Load.{Segment, Headers, IsProgram, Free, Disjoint, Loaded, execv-Loaded}

abbrev empty : Memory
empty x = 0

abbrev command : List (List ℕ)
command = (b'l' ∷ b's' ∷ []) ∷ (b'-' ∷ b'l' ∷ []) ∷ []

few_bytes : total command ≤ 0xf0000
unfolding total
few_bytes = omega arith

-- A program of one header and two bytes.
abbrev elf_header : List ℕ
elf_header =
    replicate 24 0
    ++ 0x10 ∷ 0 ∷ 0 ∷ 0x80 ∷ 52 ∷ 0 ∷ 0 ∷ 0 ∷ (replicate 10 0 ++ 32 ∷ 0 ∷ 1 ∷ 0 ∷ replicate 6 0)

abbrev program_header : List ℕ
program_header =
    1
    ∷ 0
    ∷ 0
    ∷ 0
    ∷ 84
    ∷ 0
    ∷ 0
    ∷ 0
    ∷ 0x10
    ∷ 0
    ∷ 0
    ∷ 0x80
    ∷ 0
    ∷ 0
    ∷ 0
    ∷ 0
    ∷ 2
    ∷ 0
    ∷ 0
    ∷ 0
    ∷ replicate 12 0

abbrev small : List ℕ
small = elf_header ++ (program_header ++ 0x90 ∷ 0xc3 ∷ [])

abbrev segments : List Segment
segments = (record { kind = 1; offset = 84; vaddr = 0x80000010; filesz = 2 }) ∷ []

small-IsProgram : IsProgram small 0x80000010 52 32 segments
unfolding Headers word half seek_read
small-IsProgram = record {
  entry_is = refl;
  hoff_is = refl;
  size_is = refl;
  num_is = refl;
  headers = (refl, refl, refl, refl, tt);
}

no_overlap : Disjoint small segments
unfolding Disjoint Free seek_read
no_overlap = (λ x l u. tt, (λ e. omega arith), omega arith, tt)

execv-Loaded_example :
    (mem : Memory) × (execv small command empty ≡ some (0x80000010, mem))
    × Loaded small segments mem
    × (word_at mem user_esp ≡ 2)
    × (word_at mem (user_esp + 4) ≡ argv)
    × Passed command 0 strings_start mem
execv-Loaded_example =
    execv-Loaded small 0x80000010 52 32 segments command empty small-IsProgram no_overlap few_bytes
      (omega arith)

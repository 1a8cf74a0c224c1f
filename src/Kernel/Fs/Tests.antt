-- ===== src/Kernel/Fs/Tests.antt =====
-- A file of 1000 bytes in the blocks 3 and 4, and the theorems at it.
use net_os.Base.{
  ℕ, zero, suc, ◌+◌, ◌*◌, ◌%◌, ◌-◌, ◌≤◌, ◌≡◌, refl, some, List, [], ◌∷◌, ◌==◌, if◌then◌else◌,
  length, arith, slice, length-slice, min,
}
use net_os.Kernel.Fs.{OpenFile, walk, read_fully, read_fully_at, ok}
use net_os.Kernel.Fs.Chain.{IsChain, content}
use net_os.Kernel.Fs.ReadFile.{read_fully-content, read_fully_at-cycle}

disk : ℕ → List ℕ
disk s = slice (λ i. (s * 512 + i) % 256) 0 512

disk_full : (s : ℕ) → length (disk s) ≡ 512
unfolding disk
disk_full s = length-slice (λ (i : ℕ). (s * 512 + i) % 256) 0 512

abbrev fat : List ℕ
fat = 0 ∷ 0 ∷ 0 ∷ 4 ∷ 0 ∷ []

abbrev file : OpenFile
file = record { start = 3; type = 1; length = 1000 }

abbrev blk : ℕ → ℕ
blk k = if k == 0 then 3 else 4

file_step : (k : ℕ) → k ≤ 1 → walk fat k 3 ≡ some (blk k)
unfolding walk
file_step zero h = refl
file_step (suc zero) h = refl
file_step (suc (suc k)) h = absurd (omega arith)

file-IsChain : IsChain fat file blk
file-IsChain = record { step = file_step; small = λ k. ground arith; fits = omega arith }

read_fully-content_example :
    read_fully disk fat file 500 20 ≡ ok (slice (content disk blk) 500 20, 20, 520)
read_fully-content_example =
    read_fully-content disk fat file blk disk_full file-IsChain 500 20 (omega arith) (omega arith)
      (omega arith)

-- The request crosses into block 4: its bytes 4 to 7 are those at 500 again.
read_fully_at-cycle_example :
    read_fully_at disk fat file 500 8
    ≡ ok (slice (λ i. content disk blk (500 + i % min (1000 - 500) (512 - (500 + 8) % 512))) 0 8, 8)
read_fully_at-cycle_example =
    read_fully_at-cycle disk fat file blk disk_full file-IsChain 500 8 (omega arith) (omega arith)

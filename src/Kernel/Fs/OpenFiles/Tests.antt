-- ===== src/Kernel/Fs/OpenFiles/Tests.antt =====
-- A file opened twice and closed once, and the theorem at it.
use net_os.Base.{
  ℕ, ◌+◌, ◌≡◌, ◌<◌, ◌^◌, ◌*◌, refl, some, none, List, [], ◌∷◌, slice, slice-shift, get_or-slice,
  length-slice, length, ◌%◌, ap, ◌∙◌, arith,
}
use net_os.Kernel.Block.ReadFully.{byte_at, read_fully-slice}
use net_os.Kernel.Fs.{OpenFile}
use net_os.Kernel.Fs.Directory.{open_file, value}
use net_os.Kernel.Fs.OpenFiles.{OpenFiles}
use net_os.Kernel.Fs.OpenFiles.Sharing.{Call, opens, closes, Counts, OnDisk, run, steps, run-Counts}

zeros : ℕ → List ℕ
zeros s = slice (λ i. 0) 0 512

abbrev file : ℕ → OpenFile
file s = record { start = s; type = 0; length = 0 }

zeros_open : (s : ℕ) → s < 3 → open_file zeros s ≡ some (file s)
unfolding open_file zeros value
zeros_open s l =
    let at : s * 512 % 2 ^ 32 ≡ s * 512 = omega (arith, l) in
    let full : (b : ℕ) → length (zeros b) ≡ 512 = λ b. length-slice {A = ℕ} (λ i. 0) 0 512 in
    let bytes = read_fully-slice 512 zeros (omega arith) full (s * 512) 8 (omega (arith, l)) in
    let blank : slice (byte_at 512 zeros) (s * 512) 8 ≡ slice (λ i. 0) (s * 512) 8 =
      slice-shift (byte_at 512 zeros) (λ i. 0) (s * 512) (s * 512) 8
        (λ i b. get_or-slice {A = ℕ} (λ i. 0) 0 512 ((s * 512 + i) % 512) 0 (omega arith)) in
    rw (at, bytes ∙ ap some blank) refl

zeros-OnDisk : OnDisk zeros file 3
zeros-OnDisk = record { opens_as = zeros_open; starts = λ s l. refl }

abbrev none_open : OpenFiles
none_open = record { n_blocks = 3; open_files = λ s. none }

abbrev calls : List Call
calls = opens 2 ∷ opens 2 ∷ closes 2 ∷ []

run-Counts_example :
    (t : OpenFiles) × (run zeros file calls none_open ≡ some (file 2 ∷ file 2 ∷ [], t))
    × Counts zeros file 3 (steps calls (λ s. 0)) t
run-Counts_example =
    run-Counts zeros file zeros-OnDisk calls (λ s. 0) none_open
      (record { size = refl; entries = λ s l. refl }) (λ s. omega arith)
      (omega arith, (omega arith, (omega arith, omega arith, tt)))

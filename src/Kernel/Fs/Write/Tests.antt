-- ===== src/Kernel/Fs/Write/Tests.antt =====
-- A file of one block, 3, with the free blocks 4 and 5, and the theorem at it.
use net_os.Base.{
  ℕ, ◌+◌, ◌%◌, ◌-◌, ◌≡◌, refl, some, List, ◌==◌, if◌then◌else◌, length, length-append,
  length-replicate, replicate, arith, slice, length-slice, Option, none,
}
use net_os.Kernel.Fs.{read_fully, ok}
use net_os.Kernel.Fs.Directory.{open_file}
use net_os.Kernel.Fs.Write.{
  Volume, write, write_loop, add_to_avail, list_end, list_out, fat_get, fat_set,
}
use net_os.Kernel.Fs.Write.Layout.{Layout, Frame}
use net_os.Kernel.Fs.Write.RoundTrip.{Pads, Full, table, opened, write-read_fully}

empty : ℕ → List ℕ
empty s = slice (λ i. 0) 0 512

empty-Full : Full empty
unfolding empty
empty-Full s = length-slice {A = ℕ} (λ (i : ℕ). 0) 0 512

zeros : List ℕ → List ℕ
zeros bytes = replicate (512 - length bytes) 0

zeros-Pads : Pads zeros
unfolding zeros
zeros-Pads bytes le =
    let e = length-append bytes (replicate (512 - length bytes) 0) in
    let e' = length-replicate {A = ℕ} (512 - length bytes) 0 in omega (arith, e, e', le)

abbrev blocks : ℕ → ℕ
blocks j = 3 + j

abbrev volume : Volume
volume = record { disk = empty; n_blocks = 6; fat = λ b. if b == 4 then 5 else 0; avail = 4 }

volume-Layout : Layout blocks 3 1 volume
volume-Layout = record {
  some_blocks = omega arith;
  split = omega arith;
  not_zero = λ j l e. omega (arith, e);
  inside = λ j l. omega (arith, l);
  apart = λ i j a b e. omega (arith, e);
  file = λ j l. ground (arith, l);
  free = λ j a b. ground (arith, a, b);
  super_block = refl;
  count = omega arith;
  avail_is = refl;
}

-- The file takes block 4.
write-read_fully_example :
    (v' : Volume) × (write zeros 3 (λ i. i % 256) 600 volume ≡ some v')
    × (open_file v'.disk 3 ≡ some (opened 3 600))
    × (read_fully v'.disk (table v') (opened 3 600) 500 20
        ≡ ok (slice (λ i. i % 256) 500 20, 20, 520))
    × Frame blocks 3 2 volume v'
write-read_fully_example =
    write-read_fully zeros zeros-Pads (λ i. i % 256) 600 blocks 3 1 volume volume-Layout empty-Full
      (omega arith) (omega arith) (omega arith) (omega arith) 500 20 (omega arith) (omega arith)
      (omega arith)

-- A write of nothing gives the block of the file away: it is behind the last free one.
abbrev fat_at : ℕ → Option Volume → ℕ
fat_at b none = 0
fat_at b (some v) = v.fat b

write_nothing : fat_at 5 (write zeros 3 (λ i. i) 0 volume) ≡ 3
unfolding write write_loop add_to_avail list_end list_out fat_get fat_set
write_nothing = refl

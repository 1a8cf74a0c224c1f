-- ===== src/Kernel/Block/Tests.antt =====
-- A device of three-byte blocks, and the theorem at it.
use net_os.Base.{ℕ, ◌+◌, ◌*◌, ◌≡◌, refl, Option, some, List, [], ◌∷◌, length, arith, slice}
use net_os.Kernel.Block.{read_fully, read}
use net_os.Kernel.Block.ReadFully.{read_fully-slice, byte_at}

abbrev blocks : ℕ → List ℕ
blocks s = (s * 3) ∷ (s * 3 + 1) ∷ (s * 3 + 2) ∷ []

-- A read of seven bytes from the middle of block 0 on.
seven_bytes : read_fully 3 blocks 2 7 ≡ some (2 ∷ 3 ∷ 4 ∷ 5 ∷ 6 ∷ 7 ∷ 8 ∷ [])
unfolding read_fully read net_os.Base.add32 net_os.Base.sub32
seven_bytes = refl

read_fully-slice_example : read_fully 3 blocks 2 7 ≡ some (slice (byte_at 3 blocks) 2 7)
read_fully-slice_example = read_fully-slice 3 blocks (omega arith) (λ s. refl) 2 7 (omega arith)

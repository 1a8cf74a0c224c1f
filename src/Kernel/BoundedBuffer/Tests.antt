-- ===== src/Kernel/BoundedBuffer/Tests.antt =====
-- Runs of a buffer with two places.
use net_os.Base.{◌≡◌, refl, some, none, [], ◌∷◌, arith}
use net_os.Kernel.BoundedBuffer.{put, get, make}
use net_os.Kernel.BoundedBuffer.Refines.{puts, gets, run, fifo, run-fifo, make-Holds}

around : run (puts 1 ∷ puts 2 ∷ gets ∷ puts 3 ∷ gets ∷ gets ∷ []) (make 2 0) ≡ some (1 ∷ 2 ∷ 3 ∷ [])
unfolding put get make
around = refl

third_waits : run (puts 1 ∷ puts 2 ∷ puts 3 ∷ []) (make 2 0) ≡ none
unfolding put get make
third_waits = refl

run-fifo_example :
    run (puts 1 ∷ puts 2 ∷ gets ∷ puts 3 ∷ gets ∷ []) (make 2 0)
    ≡ fifo 2 (puts 1 ∷ puts 2 ∷ gets ∷ puts 3 ∷ gets ∷ []) []
unfolding make
run-fifo_example =
    run-fifo 2 (puts 1 ∷ puts 2 ∷ gets ∷ puts 3 ∷ gets ∷ []) refl (make-Holds 2 0 (omega arith))

-- ===== src/Kernel/Queue/Tests.antt =====
-- Runs of SimpleQueue of kernel/queue.h.
use net_os.Base.{◌≡◌, refl, true, none, some, List, [], ◌∷◌}
use net_os.Kernel.Queue.{Queue, add_tail, is_empty, remove_head}
use net_os.Kernel.Queue.Refines.{
  Call, adds, takes, run, unused, legal, fifo, empty-Holds, run-fifo_nodes,
}

abbrev empty : Queue
empty = record { nodes = λ j. none; first = 0; last = 0 }

no_head : remove_head empty ≡ none
unfolding remove_head
no_head = refl

-- Two calls that add, a node's place used again.
abbrev calls : List Call
calls = adds 9 5 ∷ adds 4 6 ∷ takes ∷ adds 9 7 ∷ takes ∷ takes ∷ takes ∷ []

calls-legal : legal calls empty ≡ true
unfolding legal unused add_tail remove_head is_empty
calls-legal = refl

calls-fifo : fifo calls [] ≡ some 5 ∷ some 6 ∷ some 7 ∷ none ∷ []
unfolding fifo
calls-fifo = refl

run-fifo_nodes_example : run calls empty ≡ some (fifo calls [])
run-fifo_nodes_example = run-fifo_nodes calls empty [] (empty-Holds (λ j. none)) calls-legal

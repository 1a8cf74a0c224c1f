-- ===== src/Kernel/BoundedBuffer/Refines.antt =====
-- Runs of a bounded buffer and of a queue of bounded length.
use net_os.Base.{
  ℕ, ◌<◌, ◌≡◌, refl, sym, ◌∙◌, inl, inr, Bool-cases, true, false, if◌then◌else◌, ltb, Option, none,
  some, List, [], ◌∷◌, ◌++◌, length, length-replicate, arith, ◌>>=◌,
}
use net_os.Kernel.BoundedBuffer.{Bb, put, get, make}
use net_os.Kernel.BoundedBuffer.Fifo.{Holds, put_full, get_empty, put-Holds, get-Holds, wrap_start}

pub data Call : Type 0 where
  puts : ℕ → Call
  gets : Call

-- What the calls of get return in a run in which none waits.
abbrev pub run : List Call → Bb → Option (List ℕ)
run [] b = some []
run (puts v ∷ calls) b = do b' ← put v b; run calls b'
run (gets ∷ calls) b = do (v, b') ← get b; vs ← run calls b'; some (v ∷ vs)

-- The same of a queue of at most `n` elements, first in, first out.
abbrev pub fifo : ℕ → List Call → List ℕ → Option (List ℕ)
fifo n [] q = some []
fifo n (puts v ∷ calls) q =
    let rest = fifo n calls (q ++ v ∷ []) in if ltb (length q) n then rest else none
fifo n (gets ∷ calls) [] = none
fifo n (gets ∷ calls) (v ∷ q) = do vs ← fifo n calls q; some (v ∷ vs)

puts_step :
    (n v : ℕ) (calls : List Call) (b b' : Bb) (q : List ℕ)
    → put v b ≡ some b'
    → ltb (length q) n ≡ true
    → run calls b' ≡ fifo n calls (q ++ v ∷ [])
    → run (puts v ∷ calls) b ≡ fifo n (puts v ∷ calls) q
puts_step n v calls b b' q e l same = rw (e, l) same

puts_waits :
    (n v : ℕ) (calls : List Call) (b : Bb) (q : List ℕ)
    → put v b ≡ none
    → ltb (length q) n ≡ false
    → run (puts v ∷ calls) b ≡ fifo n (puts v ∷ calls) q
puts_waits n v calls b q e l = rw (e, l) refl

gets_step :
    (n v : ℕ) (calls : List Call) (b b' : Bb) (q : List ℕ)
    → get b ≡ some (v, b')
    → run calls b' ≡ fifo n calls q
    → run (gets ∷ calls) b ≡ fifo n (gets ∷ calls) (v ∷ q)
gets_step n v calls b b' q e same = rw (e, same) refl

-- A bounded buffer refines a bounded queue: from a buffer of `n` places that holds a queue, every run
-- of put and get returns what the queue of at most `n` elements returns, in the same order, and comes
-- to a call that waits exactly where the queue is full or empty.
pub run-fifo :
    (n : ℕ) (calls : List Call) {b : Bb} {q : List ℕ}
    → b.n ≡ n
    → Holds b q
    → run calls b ≡ fifo n calls q
run-fifo n [] same h = refl
run-fifo n (puts v ∷ calls) {b} {q} same h = elim (Bool-cases (ltb (length q) n)) [
  | inl e ↦
      let (b', runs, kept, h') = put-Holds v h (ground (arith, e, same)) in
      puts_step n v calls b b' q runs e (run-fifo n calls (kept ∙ same) h')
  | inr e ↦ puts_waits n v calls b q (put_full v h (ground (arith, e, same, h.full, h.room))) e
]
run-fifo n (gets ∷ calls) {b} {q = []} same h = rw (get_empty h) refl
run-fifo n (gets ∷ calls) {b} {q = v ∷ q} same h =
    let (b', runs, kept, h') = get-Holds v h in
    gets_step n v calls b b' q runs (run-fifo n calls (kept ∙ same) h')

-- A buffer with at least one place starts as the empty queue.
pub make-Holds : (n junk : ℕ) → 0 < n → Holds (make n junk) []
unfolding make
make-Holds n junk h = record {
  full = refl;
  room = omega arith;
  size = length-replicate n junk;
  head = h;
  tail = sym (wrap_start n 0 h);
  items = λ j v e. absurd (cc e);
}

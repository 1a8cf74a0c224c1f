-- ===== src/Kernel/Queue/Refines.antt =====
-- Runs of SimpleQueue of kernel/queue.h.
use net_os.Base.{
  ℕ, ◌+◌, ◌<◌, ◌≡◌, ◌≢◌, refl, ap, ◌∙◌, Bool, true, false, Option, none, some, List, [], ◌∷◌, ◌++◌,
  ◌==◌, if◌then◌else◌, ◌>>=◌, arith, Bool-cases, inl, inr,
}
use net_os.Kernel.Queue.{Node, Queue, add_tail, is_empty, remove_head}
use net_os.Kernel.Queue.Linked.{Linked, upd, is_empty-Linked, add_tail-Linked, remove_head-Linked}

-- `adds n v` is an addTail of `v` in which `new` gives the address `n`; `takes` is a removeHead, which the
-- code calls when isEmpty has said no.
pub data Call : Type 0 where
  adds : ℕ → ℕ → Call
  takes : Call

-- What the calls that take find, `none` on an empty queue.
unfoldable pub run : List Call → Queue → Option (List (Option ℕ))
run [] q = some []
run (adds n v ∷ calls) q = do q' ← add_tail n v q; run calls q'
run (takes ∷ calls) q =
    let nothing = (do vs ← run calls q; some (none ∷ vs)) in
    let taken = (do (v, q') ← remove_head q; vs ← run calls q'; some (some v ∷ vs)) in
    if is_empty q then nothing else taken

-- Whether the address is not null and has no node.
unfoldable pub unused : ℕ → Queue → Bool
unused n q = if n == 0 then false else elim (q.nodes n) [ none ↦ true | some node ↦ false ]

-- Whether each address is unused when `new` gives it, as the heap sees to.
unfoldable pub legal : List Call → Queue → Bool
legal [] q = true
legal (adds n v ∷ calls) q =
    let rest : Bool = elim (add_tail n v q) [ none ↦ true | some q' ↦ legal calls q' ] in
    if unused n q then rest else false
legal (takes ∷ calls) q =
    let nothing = legal calls q in
    let taken : Bool = elim (remove_head q) [ none ↦ true | some (v, q') ↦ legal calls q' ] in
    if is_empty q then nothing else taken

-- The same of a list.
unfoldable pub fifo : List Call → List ℕ → List (Option ℕ)
fifo [] xs = []
fifo (adds n v ∷ calls) xs = fifo calls (xs ++ v ∷ [])
fifo (takes ∷ calls) [] = none ∷ fifo calls []
fifo (takes ∷ calls) (x ∷ xs) = some x ∷ fifo calls xs

-- The values from number `lo` up to `hi` are the list.
pub Items : (ℕ → ℕ) → ℕ → ℕ → List ℕ → Type 0
Items val lo hi [] = lo ≡ hi
Items val lo hi (x ∷ xs) = (lo < hi) × (val lo ≡ x) × Items val (lo + 1) hi xs

Items-last :
    (val : ℕ → ℕ) (v lo hi : ℕ) (xs : List ℕ)
    → Items val lo hi xs
    → Items (upd val hi v) lo (hi + 1) (xs ++ v ∷ [])
unfolding Items
Items-last val v lo hi [] e = (omega (arith, e), ground (arith, e), ap (λ n. n + 1) e)
Items-last val v lo hi (x ∷ xs) i =
    (omega (arith, i.0), ground (arith, i.0, i.1), Items-last val v (lo + 1) hi xs i.2)

-- A queue that holds a list, from its first element on.
pub record Holds (q : Queue) (xs : List ℕ) : Type 0 where
  pub place : ℕ → ℕ
  pub val : ℕ → ℕ
  pub lo : ℕ
  pub hi : ℕ
  pub linked : Linked q place val lo hi
  pub items : Items val lo hi xs

pub empty-Holds :
    (nodes : ℕ → Option Node) → Holds (record { nodes = nodes; first = 0; last = 0 }) []
unfolding Items
empty-Holds nodes = record {
  place = λ k. 0;
  val = λ k. 0;
  lo = 0;
  hi = 0;
  linked = record {
    ordered = omega arith;
    there = λ k a b. absurd (omega (arith, b));
    apart = λ j k a b c d e. absurd (omega (arith, b));
    node = λ k a b. absurd (omega (arith, b));
    first_is = refl;
    last_is = refl;
  };
  items = refl;
}

unused_lem : (n : ℕ) (q : Queue) → unused n q ≡ true → (n ≢ 0) × (q.nodes n ≡ none)
unfolding unused
unused_lem n q e = elim (Bool-cases (n == 0)) [
  | inl z ↦ absurd (ground (arith, rw z at e))
  | inr s ↦ (ground (arith, s), ground (arith, rw s at e))
]

-- A run that goes on from `q'` as it should.
adds_run :
    (n v : ℕ) (calls : List Call) (q q' : Queue) (xs : List ℕ)
    → add_tail n v q ≡ some q'
    → unused n q ≡ true
    → legal (adds n v ∷ calls) q ≡ true
    → (legal calls q' ≡ true → run calls q' ≡ some (fifo calls (xs ++ v ∷ [])))
    → run (adds n v ∷ calls) q ≡ some (fifo (adds n v ∷ calls) xs)
unfolding run legal fifo
adds_run n v calls q q' xs e u l k = rw e (k (rw (e, u) at l))

takes_run :
    (x : ℕ) (calls : List Call) (q q' : Queue) (xs : List ℕ)
    → is_empty q ≡ false
    → remove_head q ≡ some (x, q')
    → legal (takes ∷ calls) q ≡ true
    → (legal calls q' ≡ true → run calls q' ≡ some (fifo calls xs))
    → run (takes ∷ calls) q ≡ some (fifo (takes ∷ calls) (x ∷ xs))
unfolding run legal fifo
takes_run x calls q q' xs e f l k = rw (e, f, k (rw (e, f) at l)) refl

empty_run :
    (calls : List Call) (q : Queue)
    → is_empty q ≡ true
    → legal (takes ∷ calls) q ≡ true
    → (legal calls q ≡ true → run calls q ≡ some (fifo calls []))
    → run (takes ∷ calls) q ≡ some (fifo (takes ∷ calls) [])
unfolding run legal fifo
empty_run calls q e l k = rw (e, k (rw e at l)) refl

legal-unused :
    (n v : ℕ) (calls : List Call) (q : Queue)
    → legal (adds n v ∷ calls) q ≡ true
    → unused n q ≡ true
unfolding legal
legal-unused n v calls q l = elim (Bool-cases (unused n q)) [
  | inl u ↦ u
  | inr u ↦ absurd (ground (arith, rw u at l))
]

-- The linked queue refines a list: when `new` gives addresses that are not null and in no use, every run
-- of addTail and removeHead, from a queue that holds a list, ends without an access through null or to a
-- deleted node, and takes what the list gives, first in, first out, and nothing exactly where it is empty.
pub run-fifo_nodes :
    (calls : List Call) (q : Queue) (xs : List ℕ)
    → Holds q xs
    → legal calls q ≡ true
    → run calls q ≡ some (fifo calls xs)
unfolding run fifo Items
run-fifo_nodes [] q xs h l = refl
run-fifo_nodes (adds n v ∷ calls) q xs h l =
    let u = legal-unused n v calls q l in
    let f = unused_lem n q u in
    let t = add_tail-Linked h.linked n v f.0 f.1 in
    let h' : Holds t.0 (xs ++ v ∷ []) = record {
      place = upd h.place h.hi n;
      val = upd h.val h.hi v;
      lo = h.lo;
      hi = h.hi + 1;
      linked = t.2;
      items = Items-last h.val v h.lo h.hi xs h.items;
    } in
    adds_run n v calls q t.0 xs t.1 u l (λ m. run-fifo_nodes calls t.0 (xs ++ v ∷ []) h' m)
run-fifo_nodes (takes ∷ calls) q [] h l =
    empty_run calls q (is_empty-Linked h.linked ∙ ground (arith, h.items)) l
      (λ m. run-fifo_nodes calls q [] h m)
run-fifo_nodes (takes ∷ calls) q (x ∷ xs) h l =
    let t = remove_head-Linked h.linked h.items.0 in
    let h' : Holds t.0 xs = record {
      place = h.place;
      val = h.val;
      lo = h.lo + 1;
      hi = h.hi;
      linked = t.2;
      items = h.items.2;
    } in
    takes_run x calls q t.0 xs (is_empty-Linked h.linked ∙ ground (arith, h.items.0))
      (rw h.items.1 at t.1) l (λ m. run-fifo_nodes calls t.0 xs h' m)

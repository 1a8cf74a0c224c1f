-- ===== src/Kernel/Table/Slots.antt =====
-- What open and close leave in the slots of a table.
use net_os.Base.{
  ℕ, zero, suc, ◌+◌, ◌≡◌, ◌≢◌, refl, ap, true, false, Option, none, some, List, [], ◌∷◌, ◌==◌,
  ==_ne, ==_self, eq_of_==, Option-cases, Bool-cases, inl, inr, get_elem?, set, arith,
}
use net_os.Kernel.Table.{Table, ref, unref, free_slot, first_slot, open_slot, drop_slot, close_slot}
use net_os.Kernel.Table.Counts.{
  Inv, references, first_slot-none, references-set, refers_self, refers_null,
}
use net_os.Kernel.Table.Steps.{open_full, open_found, close_found}

pub get_elem?-set_self {ℓ} :
    {A : Type ℓ} (xs : List A) (i : ℕ) (x v : A)
    → get_elem? xs i ≡ some x
    → get_elem? (set xs i v) i ≡ some v
get_elem?-set_self [] i x v e = absurd (cc e)
get_elem?-set_self (y ∷ xs) zero x v e = refl
get_elem?-set_self (y ∷ xs) (suc i) x v e = get_elem?-set_self xs i x v e

get_elem?-set_other {ℓ} :
    {A : Type ℓ} (xs : List A) (i j : ℕ) (v : A) → j ≢ i → get_elem? (set xs i v) j ≡ get_elem? xs j
get_elem?-set_other [] i j v h = refl
get_elem?-set_other (y ∷ xs) zero zero v h = absurd (h refl)
get_elem?-set_other (y ∷ xs) zero (suc j) v h = refl
get_elem?-set_other (y ∷ xs) (suc i) zero v h = refl
get_elem?-set_other (y ∷ xs) (suc i) (suc j) v h = get_elem?-set_other xs i j v (λ e. h (ap suc e))

free_slot-full :
    (slots : List (Option ℕ)) (k i : ℕ) → free_slot slots k ≡ none → get_elem? slots i ≢ some none
unfolding free_slot
free_slot-full [] k i e h = absurd (cc h)
free_slot-full (none ∷ slots) k i e h = absurd (cc e)
free_slot-full (some p ∷ slots) k zero e h = absurd (cc h)
free_slot-full (some p ∷ slots) k (suc i) e h = free_slot-full slots (k + 1) i e h

first_slot-full :
    (slots : List (Option ℕ)) (i : ℕ)
    → first_slot slots ≡ none
    → get_elem? slots (suc i) ≢ some none
unfolding first_slot
first_slot-full [] i e h = absurd (cc h)
first_slot-full (slot ∷ slots) i e h = free_slot-full slots 1 i e h

-- How open ends: with ERR_NO_ID and nothing changed, no slot but the first being empty, or with the
-- index of a slot that was empty, which then holds the resource, the other slots being as before.
pub data Opened (p : ℕ) (t : Table) : Option ℕ × Table → Type 0 where
  full : ((i : ℕ) → get_elem? t.array (suc i) ≢ some none) → Opened p t (none, t)
  found :
      (i : ℕ) (t' : Table)
      → get_elem? t.array i ≡ some none
      → get_elem? t'.array i ≡ some (some p)
      → ((j : ℕ) → j ≢ i → get_elem? t'.array j ≡ get_elem? t.array j)
      → Opened p t (some i, t')

-- open of a resource ends with ERR_NO_ID and nothing changed when no slot but the first is empty;
-- otherwise it returns the index of a slot that was empty, which then holds the resource, and leaves
-- the other slots as they were.
pub open_slot-Opened : (p : ℕ) (t : Table) → Opened p t (open_slot p t)
open_slot-Opened p t = elim (Option-cases (first_slot t.array)) [
  | inl e ↦ rw (open_full p t e) (full (λ i. first_slot-full t.array i e))
  | inr (i, e) ↦
      let empty : get_elem? t.array i ≡ some none = first_slot-none t.array i e in
      rw (open_found p i t e) (
        found i (record (ref p t) { array = set t.array i (some p) }) empty
          (get_elem?-set_self t.array i none (some p) empty)
          (λ j h. get_elem?-set_other t.array i j (some p) h))
]

close_result :
    (i r : ℕ) (t : Table) → get_elem? t.array i ≡ some (some r) → (close_slot i t).0 ≡ true
unfolding close_slot
close_result i r t e = rw (e, close_slot) refl

dropped_last :
    (others : ℕ → ℕ) (i r : ℕ) (t : Table)
    → get_elem? t.array i ≡ some (some r)
    → t.deleted r ≡ false
    → Inv others t
    → (drop_slot i (some r) t).deleted r ≡ (references r (set t.array i none) + others r == 0)
unfolding drop_slot unref
dropped_last others i r t e live inv =
    let moved = references-set r i t.array (some r) none e in
    elim (Bool-cases (t.count r == 1)) [
      | inl q ↦
          let nothing : references r (set t.array i none) + others r ≡ 0 =
            omega
              (arith, moved, refers_self r, refers_null r, (inv r).0, eq_of_== (t.count r) 1 q) in
          rw (q, ==_self r, nothing) refl
      | inr q ↦
          let ne : t.count r ≢ 1 = ground (arith, q) in
          rw
            (
              q,
              live,
              ==_ne (references r (set t.array i none) + others r) 0
                  (λ z. ne (omega (arith, moved, refers_self r, refers_null r, (inv r).0, z))),
            )
            refl
    ]

-- Under the invariant, close of a slot that holds a live resource succeeds and empties the slot, and
-- deletes the resource exactly if nothing refers to it any more.
close_slot-deletes :
    (others : ℕ → ℕ) (i r : ℕ) (t : Table)
    → get_elem? t.array i ≡ some (some r)
    → t.deleted r ≡ false
    → Inv others t
    → ((close_slot i t).0 ≡ true)
      × (get_elem? (close_slot i t).1.array i ≡ some none)
      × ((close_slot i t).1.deleted r ≡ (references r (close_slot i t).1.array + others r == 0))
unfolding drop_slot unref
close_slot-deletes others i r t e live inv = (
  close_result i r t e,
  rw (close_found i (some r) t e) (get_elem?-set_self t.array i (some r) none e),
  rw (close_found i (some r) t e) (dropped_last others i r t e live inv),
)

-- ===== src/Kernel/Table/Get.antt =====
-- get of kernel/table.cc behind open and close.
use net_os.Base.{ℕ, ◌≡◌, refl, ap, Option, none, some, get_elem?, ==_self}
use net_os.Kernel.Table.{
  Table, ResourceType, index, get_slot, open_slot, close_slot, drop_slot, unref,
}
use net_os.Kernel.Table.Slots.{Opened, full, found, open_slot-Opened, get_elem?-set_self}
use net_os.Kernel.Table.Steps.{close_found}

get_found :
    (kind : ℕ → ResourceType) (i p : ℕ) (t : Table)
    → get_elem? t.array i ≡ some (some p)
    → get_slot kind i (kind p) t ≡ some (some p)
unfolding get_slot
get_found kind i p t e = rw (e, get_slot, ==_self (index (kind p))) refl

get_null :
    (kind : ℕ → ResourceType) (i : ℕ) (type : ResourceType) (t : Table)
    → get_elem? t.array i ≡ some none
    → get_slot kind i type t ≡ none
unfolding get_slot
get_null kind i type t e = rw (e, get_slot) refl

-- get with the index that open returned and the resource's own type returns the resource.
get_slot-open_slot :
    (kind : ℕ → ResourceType) (p i : ℕ) (t : Table)
    → (open_slot p t).0 ≡ some i
    → get_slot kind i (kind p) (open_slot p t).1 ≡ some (some p)
get_slot-open_slot kind p i t e = at_result (open_slot p t) (open_slot-Opened p t) e
  where
    at_result :
        (r : Option ℕ × Table)
        → Opened p t r
        → r.0 ≡ some i
        → get_slot kind i (kind p) r.1 ≡ some (some p)
    at_result r (full h) e = absurd (cc e)
    at_result r (found j t' empty here rest) e =
        let same : j ≡ i = ap (λ o. elim o [ none ↦ j | some x ↦ x ]) e in
        rw (← same) (get_found kind j p t' here)

-- get of a slot that close has just emptied reads through a null pointer.
get_slot-close_slot :
    (kind : ℕ → ResourceType) (i r : ℕ) (type : ResourceType) (t : Table)
    → get_elem? t.array i ≡ some (some r)
    → get_slot kind i type (close_slot i t).1 ≡ none
unfolding drop_slot unref
get_slot-close_slot kind i r type t e =
    rw (close_found i (some r) t e)
      (get_null kind i type (drop_slot i (some r) t) (get_elem?-set_self t.array i (some r) none e))

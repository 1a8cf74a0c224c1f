-- ===== src/Kernel/Table/Counts.antt =====
-- Reference counts and the slots of a table.
use net_os.Base.{
  unwrap, ℕ, zero, suc, ◌+◌, ◌-◌, ◌^◌, ◌<◌, ◌≡◌, ◌≢◌, refl, sym, ◌∙◌, Bool, true, false, Option,
  none, some, List, [], ◌∷◌, ◌==◌, ==_ne, ==_self, eq_of_==, Bool-cases, inl, inr, if◌then◌else◌,
  add32, sub32, add32_exact, sub32_exact, get_elem?, set, arith,
}
use net_os.Kernel.Process.{update}
use net_os.Kernel.Table.{Table, ref, unref, free_slot, first_slot, drop_slot}

-- Whether a slot refers to a resource, as a number, and how many slots do.
unfoldable pub refers : ℕ → Option ℕ → ℕ
refers r none = 0
refers r (some p) = if r == p then 1 else 0

unfoldable pub references : ℕ → List (Option ℕ) → ℕ
references r [] = 0
references r (slot ∷ slots) = refers r slot + references r slots

pub references-set :
    (r i : ℕ) (slots : List (Option ℕ)) (old new : Option ℕ)
    → get_elem? slots i ≡ some old
    → references r (set slots i new) + refers r old ≡ references r slots + refers r new
unfolding references
references-set r i [] old new e = absurd (cc e)
references-set r zero (slot ∷ slots) old new e = rw (← unwrap e) (omega arith)
references-set r (suc i) (slot ∷ slots) old new e =
    omega (arith, references-set r i slots old new e)

-- What holds of the count, the deletion and the references of a resource.
abbrev pub Exact : ℕ → Bool → ℕ → Type 0
Exact count deleted n = (count ≡ n) × (deleted ≡ true → count ≡ 0) × (count < 2 ^ 32)

-- With `others` counting the references from outside the table: every count is the number of
-- references, and what is deleted has none.
abbrev pub Inv : (ℕ → ℕ) → Table → Type 0
Inv others t = (r : ℕ) → Exact (t.count r) (t.deleted r) (references r t.array + others r)

free_slot-none :
    (slots : List (Option ℕ)) (k j : ℕ)
    → free_slot slots k ≡ some j
    → (i : ℕ) × (j ≡ k + i) × (get_elem? slots i ≡ some none)
unfolding free_slot
free_slot-none [] k j e = absurd (cc e)
free_slot-none (none ∷ slots) k j e = (0, omega (arith, unwrap e), refl)
free_slot-none (some p ∷ slots) k j e =
    let (i, q, h) = free_slot-none slots (k + 1) j e in (suc i, omega (arith, q), h)

pub first_slot-none :
    (slots : List (Option ℕ)) (j : ℕ) → first_slot slots ≡ some j → get_elem? slots j ≡ some none
unfolding first_slot
first_slot-none [] j e = absurd (cc e)
first_slot-none (slot ∷ slots) j e =
    let (i, q, h) = free_slot-none slots 1 j e in let one : j ≡ suc i = omega (arith, q) in rw one h

pub refers_self : (p : ℕ) → refers p (some p) ≡ 1
unfolding refers
refers_self p = rw (==_self p) refl

refers_other : (r p : ℕ) → (r == p) ≡ false → refers r (some p) ≡ 0
unfolding refers
refers_other r p q = rw q refl

pub refers_null : (r : ℕ) → refers r none ≡ 0
unfolding refers
refers_null r = refl

-- One reference more, and one less.
more :
    (c n n' : ℕ) (d : Bool)
    → Exact c d n
    → d ≡ false
    → c + 1 < 2 ^ 32
    → n' ≡ n + 1
    → Exact (add32 c 1) d n'
more c n n' d (e, dead, l) live h s = (
  omega (arith, add32_exact c 1 h),
  λ del. absurd (cc (live, del)),
  omega (arith, add32_exact c 1 h),
)

fewer :
    (c n n' : ℕ) (d d' : Bool)
    → Exact c d n
    → n ≡ n' + 1
    → (c ≢ 1 → d' ≡ d)
    → Exact (sub32 c 1) d' n'
fewer c n n' d d' (e, dead, l) s same =
    let one : sub32 c 1 ≡ c - 1 = sub32_exact c 1 (omega arith) l in
    (
      omega (arith, one),
      λ del. elim (Bool-cases (c == 1)) [
        | inl q ↦ ground (arith, one, q)
        | inr q ↦ absurd (omega (arith, dead (sym (same (ground (arith, q))) ∙ del)))
      ],
      omega (arith, one),
    )

update_self {ℓ} : {A : Type ℓ} (f : ℕ → A) (p : ℕ) (v : A) → update f p v p ≡ v
update_self f p v = rw (==_self p) refl

update_other {ℓ} :
    {A : Type ℓ} (f : ℕ → A) (p r : ℕ) (v : A) → (r == p) ≡ false → update f p v r ≡ f r
update_other f p r v q = rw q refl

-- A reference moves into a slot.
pub fill-Inv :
    (others : ℕ → ℕ) (p i : ℕ) (t : Table)
    → Inv others t
    → t.deleted p ≡ false
    → t.count p + 1 < 2 ^ 32
    → get_elem? t.array i ≡ some none
    → Inv others (record (ref p t) { array = set t.array i (some p) })
unfolding ref
fill-Inv others p i t inv live h e r = elim (Bool-cases (r == p)) [
  | inl q ↦
      rw (eq_of_== r p q, ==_self p)
        (more (t.count p) (references p t.array + others p)
          (references p (set t.array i (some p)) + others p) (t.deleted p) (inv p) live h
          (omega (arith, references-set p i t.array none (some p) e, refers_self p, refers_null p)))
  | inr q ↦
      let same : references r (set t.array i (some p)) ≡ references r t.array =
        omega
          (arith, references-set r i t.array none (some p) e, refers_other r p q, refers_null r) in
      rw (q, same) (inv r)
]

pub drop_slot-Inv :
    (others : ℕ → ℕ) (i : ℕ) (old : Option ℕ) (t : Table)
    → get_elem? t.array i ≡ some old
    → Inv others t
    → Inv others (drop_slot i old t)
unfolding drop_slot unref
drop_slot-Inv others i none t e inv r =
    let same : references r (set t.array i none) ≡ references r t.array =
      omega (arith, references-set r i t.array none none e) in
    rw same (inv r)
drop_slot-Inv others i (some p) t e inv r = elim (Bool-cases (r == p)) [
  | inl q ↦
      rw (eq_of_== r p q, ==_self p)
        (fewer (t.count p) (references p t.array + others p)
          (references p (set t.array i none) + others p) (t.deleted p)
          ((if t.count p == 1 then update t.deleted p true else t.deleted) p) (inv p)
          (omega (arith, references-set p i t.array (some p) none e, refers_self p, refers_null p))
          (λ ne. rw (==_ne (t.count p) 1 ne) refl))
  | inr q ↦
      let same : references r (set t.array i none) ≡ references r t.array =
        omega
          (arith, references-set r i t.array (some p) none e, refers_other r p q, refers_null r) in
      let kept : (if t.count p == 1 then update t.deleted p true else t.deleted) r ≡ t.deleted r =
        elim (Bool-cases (t.count p == 1)) [ inl z ↦ rw (z, q) refl | inr z ↦ rw z refl ] in
      rw (q, same, kept) (inv r)
]

-- ===== src/Kernel/Vmm/Demand.antt =====
-- Pages on demand: handlePageFault of kernel/vmm.cc.
use net_os.Base.{
  ℕ, ◌+◌, ◌*◌, ◌/◌, ◌^◌, ◌≤◌, ◌<◌, ◌≡◌, ◌≢◌, refl, ◌∙◌, ◌⊎◌, inl, inr, true, false, none, some, ltb,
  if◌then◌else◌, arith, Bool-cases, ==_self,
}
use net_os.Kernel.Vmm.{Phys, alloc, pmap, handle_page_fault, mapped, killed}
use net_os.Kernel.Vmm.Frames.{Plan, Planned, unused, listed, left, alloc_lem}
use net_os.Kernel.Vmm.Space.{IsSpace, Grows, entry, Busy, Apart}
use net_os.Kernel.Vmm.Walk.{page_entry, pmap-Sets}
use net_os.Kernel.Vmm.Others.{Takes-Grows, Grows-trans, IsSpace-Grows, entries-Grows}

-- The page of `va` has got frame `f`, which was free and is blank.
pub record GetsPage (k d : ℕ) (g : Plan) (s : Phys) (va f : ℕ) (g' : Plan) (s' : Phys)
    : Type 0 where
  pub was_free : (g.role f ≡ unused) ⊎ (listed 0 ≤ g.role f)
  pub space : IsSpace k d g' s'
  pub grows : Grows k g s g' s'
  pub here : entry s' d va ≡ page_entry (f * 4096) true true
  pub elsewhere : (va' : ℕ) → va' < 2 ^ 32 → va' / 4096 ≢ va / 4096 → entry s' d va' ≡ entry s d va'
  pub blank : (i : ℕ) → s'.mem f i ≡ 0
  pub is_data : g'.role f ≡ 0
  pub at_most_two : left g ≤ left g' + 2

demand_run :
    (pd va p : ℕ) (s s₁ s₂ : Phys)
    → 2 ^ 31 ≤ va
    → alloc s ≡ some (p, s₁)
    → pmap pd va p true true s₁ ≡ some s₂
    → handle_page_fault pd va s ≡ some (mapped s₂)
unfolding handle_page_fault
demand_run pd va p s s₁ s₂ high a b =
    let low : ltb va 0x1000 ≡ false = ground (arith, high) in
    let user : ltb va 0x80000000 ≡ false = ground (arith, high) in rw (low, user, a, b) refl

demand_lem :
    {k d : ℕ} {g : Plan} {s : Phys}
    → Planned g s
    → IsSpace k d g s
    → 2 ≤ left g
    → (va : ℕ) → va < 2 ^ 32
    → 2 ^ 31 ≤ va
    → (f : ℕ) × (g' : Plan) × (s' : Phys) × (handle_page_fault (d * 4096) va s ≡ some (mapped s'))
      × GetsPage k d g s va f g' s'
demand_lem {k} {d} {g} {s} h own room va in_space high =
    let (f, g₁, s₁, t) =
      alloc_lem h 0 (omega arith) (λ e. omega (arith, e)) (omega (arith, room)) in
    let outside = Takes-Grows (k + 1) t in
    let differ : k + 1 ≢ k = λ e. omega (arith, e) in
    let (g₂, s₂, runs, sets) =
      pmap-Sets t.planned (IsSpace-Grows differ own outside) va in_space
        (omega (arith, room, t.one_less)) (f * 4096) true true in
    let is_data : g₁.role f ≡ 0 = t.roles f ∙ (rw (==_self f) refl) in
    let busy : Busy (g₁.role f) = rw is_data ((λ e. omega (arith, e)), omega arith) in
    let apart : Apart k (g₁.role f) = rw is_data (inl (omega arith)) in
    (
      f,
      g₂,
      s₂,
      demand_run (d * 4096) va (f * 4096) s s₁ s₂ high t.runs runs,
      record {
        was_free = t.was_free;
        space = sets.space;
        grows = Grows-trans (Takes-Grows k t) sets.grows;
        here = sets.here;
        elsewhere =
            λ va' l other. sets.elsewhere va' l other ∙ entries-Grows differ own outside va';
        blank = λ i. sets.grows.memory f i busy apart ∙ t.memory f i ∙ (rw (==_self f) refl);
        is_data = sets.grows.roles f busy ∙ is_data;
        at_most_two = omega (arith, t.one_less, sets.at_most_one);
      },
    )

-- A page fault at an address of the upper half, with two frames left, maps the page to a frame that was free, for
-- the user and to write, with nothing but zeros in it. All other pages of the space keep their entries, and all
-- other memory in use its contents. Below, in the first page the process is killed, and in the others the fault is
-- a panic.
pub handle_page_fault-GetsPage :
    {k d : ℕ} {g : Plan} {s : Phys}
    → Planned g s
    → IsSpace k d g s
    → 2 ≤ left g
    → (va : ℕ) → va < 2 ^ 32
    → ((f : ℕ) × (g' : Plan) × (s' : Phys) × (handle_page_fault (d * 4096) va s ≡ some (mapped s'))
        × GetsPage k d g s va f g' s'
        × (2 ^ 31 ≤ va))
      ⊎ ((va < 2 ^ 31)
          × (handle_page_fault (d * 4096) va s ≡ (if ltb va 4096 then some (killed s) else none)))
unfolding handle_page_fault
handle_page_fault-GetsPage {k} {d} {g} {s} h own room va in_space =
    elim (Bool-cases (ltb va (2 ^ 31))) [
      | inl low ↦
          let below : va < 2 ^ 31 = ground (arith, low) in
          inr (below, (let e : ltb va 0x80000000 ≡ true = low in rw e refl))
      | inr high ↦
          let above : 2 ^ 31 ≤ va = ground (arith, high) in
          let (f, g', s', runs, gets) = demand_lem h own room va in_space above in
          inl (f, g', s', runs, gets, above)
    ]

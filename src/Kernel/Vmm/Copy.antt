-- ===== src/Kernel/Vmm/Copy.antt =====
-- One page of AddressSpace::fork in kernel/vmm.cc: a frame is taken, filled from the parent's and mapped.
use net_os.Base.{
  ℕ, ◌+◌, ◌*◌, ◌/◌, ◌%◌, ◌^◌, ◌≤◌, ◌<◌, ◌≡◌, ◌≢◌, refl, ◌∙◌, ◌⊎◌, inl, true, Option, some, ◌>>=◌,
  arith, ==_self, ==_ne,
}
use net_os.Kernel.Vmm.{Phys, set_frame, copy_frame, alloc, pmap}
use net_os.Kernel.Vmm.Frames.{Plan, Planned, Takes, unused, listed, left, alloc_lem}
use net_os.Kernel.Vmm.Space.{IsSpace, Grows, Planned-mem, entry, Busy, Apart}
use net_os.Kernel.Vmm.Walk.{pmap-Sets}
use net_os.Kernel.Vmm.Others.{Grows-trans, IsSpace-Grows, entries-Grows}

abbrev pub with_frame : Phys → ℕ → (ℕ → ℕ) → Phys
with_frame s f words = record {
  mem = set_frame s.mem f words;
  first_free = s.first_free;
  avail = s.avail;
  limit = s.limit;
}

copy_frame_lem :
    (s : Phys) (f e : ℕ)
    → copy_frame (f * 4096) (e / 4096 * 4096) s ≡ with_frame s f (s.mem (e / 4096))
unfolding copy_frame
copy_frame_lem s f e =
    let a : f * 4096 / 4096 ≡ f = omega arith in
    let b : e / 4096 * 4096 / 4096 ≡ e / 4096 = omega arith in rw (a, b) refl

-- A frame that is taken for data and filled leaves all spaces as they are.
filled-Grows :
    {g g' : Plan} {s s' : Phys} {f : ℕ} (k : ℕ) (words : ℕ → ℕ)
    → Takes g s 0 f g' s'
    → Grows k g s g' (with_frame s' f words)
filled-Grows {g} {g'} {s} {s'} {f} k words t = record {
  planned = Planned-mem t.planned _ (λ f' i b. ground (arith, b, t.roles f'));
  roles = λ f' b. ground (arith, t.roles f', t.was_free, b.0, b.1);
  memory = λ f' i b a. ground (arith, t.memory f' i, t.was_free, b.0, b.1);
  same_last = t.same_last;
}

-- Neither used before nor in use.
abbrev pub Vacant : Plan → ℕ → Type 0
Vacant g f = (g.role f ≡ unused) ⊎ (listed 0 ≤ g.role f)

-- The child's page has a frame that was free in the plan `g₀`, and now has the contents of the parent's frame
-- `e / 4096`.
pub record HasCopy (d va e : ℕ) (g₀ : Plan) (s₀ : Phys) (g : Plan) (s : Phys) : Type 0 where
  pub there : entry s d va % 2 ≡ 1
  pub was_free : Vacant g₀ (entry s d va / 4096)
  pub is_data : g.role (entry s d va / 4096) ≡ 0
  pub same : (i : ℕ) → s.mem (entry s d va / 4096) i ≡ s₀.mem (e / 4096) i

abbrev pub copy_page : ℕ → ℕ → ℕ → Phys → Option Phys
copy_page child va e s = do
  (dest, s) ← alloc s
  pmap child va dest true true (copy_frame dest (e / 4096 * 4096) s)

copy_run :
    (child va e f : ℕ) (s s₁ s₂ : Phys)
    → alloc s ≡ some (f * 4096, s₁)
    → pmap child va (f * 4096) true true (with_frame s₁ f (s₁.mem (e / 4096))) ≡ some s₂
    → copy_page child va e s ≡ some s₂
copy_run child va e f s s₁ s₂ a b = rw (a, copy_frame_lem s₁ f e) b

pub copy_page_lem :
    {k d : ℕ} {g : Plan} {s : Phys}
    → Planned g s
    → IsSpace k d g s
    → 2 ≤ left g
    → (va e : ℕ) → va < 2 ^ 32
    → g.role (e / 4096) ≡ 0
    → (g' : Plan) × (s' : Phys) × (copy_page (d * 4096) va e s ≡ some s')
      × IsSpace k d g' s'
      × Grows k g s g' s'
      × HasCopy d va e g s g' s'
      × ((va' : ℕ) → va' < 2 ^ 32 → va' / 4096 ≢ va / 4096 → entry s' d va' ≡ entry s d va')
      × (left g ≤ left g' + 2)
copy_page_lem {k} {d} {g} {s} h own room va e in_space is_data =
    let (f, g₁, s₁, t) =
      alloc_lem h 0 (omega arith) (λ e. omega (arith, e)) (omega (arith, room)) in
    let words = s₁.mem (e / 4096) in
    let outside = filled-Grows (k + 1) words t in
    let differ : k + 1 ≢ k = λ e. omega (arith, e) in
    let (g₂, s₂, runs, sets) =
      pmap-Sets outside.planned (IsSpace-Grows differ own outside) va in_space
        (omega (arith, room, t.one_less)) (f * 4096) true true in
    let role : g₁.role f ≡ 0 = t.roles f ∙ (rw (==_self f) refl) in
    let busy : Busy (g₁.role f) = rw role ((λ e. omega (arith, e)), omega arith) in
    let apart : Apart k (g₁.role f) = rw role (inl (omega arith)) in
    let other : e / 4096 ≢ f = λ e'. ground (arith, e', is_data, t.was_free) in
    let value : entry s₂ d va ≡ f * 4096 + 7 = sets.here ∙ omega arith in
    let frame : entry s₂ d va / 4096 ≡ f = omega (arith, value) in
    (
      g₂,
      s₂,
      copy_run (d * 4096) va e f s s₁ s₂ t.runs runs,
      sets.space,
      Grows-trans (filled-Grows k words t) sets.grows,
      record {
        there = omega (arith, value);
        was_free = rw frame t.was_free;
        is_data = rw frame (sets.grows.roles f busy ∙ role);
        same = λ i. rw frame (
            sets.grows.memory f i busy apart
            ∙ (rw (==_self f) (t.memory (e / 4096) i ∙ (rw (==_ne _ f other) refl))));
      },
      λ va' l differs. sets.elsewhere va' l differs ∙ entries-Grows differ own outside va',
      omega (arith, t.one_less, sets.at_most_one),
    )

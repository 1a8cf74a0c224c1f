-- ===== src/Kernel/Vmm/Identity.antt =====
-- The constructor AddressSpace::AddressSpace of kernel/vmm.cc, which maps all of memory to itself.
use net_os.Base.{
  ℕ, zero, suc, ◌+◌, ◌-◌, ◌*◌, ◌/◌, ◌%◌, ◌^◌, ◌≤◌, ◌<◌, ◌≡◌, ◌≢◌, refl, ap, ◌∙◌, inl, inr, true,
  false, some, ltb, ◌==◌, if◌then◌else◌, add32, add32_exact, arith, Bool-cases, ==_self,
}
use net_os.Kernel.Vmm.{Phys, alloc, pmap, identity_loop, make_space}
use net_os.Kernel.Vmm.Frames.{Plan, Planned, left, alloc_lem}
use net_os.Kernel.Vmm.Space.{IsSpace, Grows, entry, entry_out, directory}
use net_os.Kernel.Vmm.Walk.{Sets, page_entry, pmap-Sets}
use net_os.Kernel.Vmm.Others.{Takes-Grows, Grows-trans}

-- The entry of page `c` when the pages below `last` but the first are mapped to themselves.
abbrev pub identity : ℕ → ℕ → ℕ
identity last c = if c == 0 then 0 else if ltb c last then page_entry (c * 4096) false true else 0

-- The tables for the pages from 1 on, up to `c`.
abbrev tables : ℕ → ℕ
tables c = if c == 1 then 0 else (c - 1) / 1024 + 1

-- The state of the loop at page `c`.
record Mapped (k d : ℕ) (g₀ : Plan) (s₀ : Phys) (c : ℕ) (g : Plan) (s : Phys) : Type 0 where
  space : IsSpace k d g s
  grows : Grows k g₀ s₀ g s
  entries : (c' : ℕ) → c' < 2 ^ 20 → entry s d (c' * 4096) ≡ identity c c'
  started : 1 ≤ c
  table_there : 1 < c → s.mem d ((c - 1) / 1024) % 2 ≡ 1
  enough : tables g₀.last + 1 ≤ left g + tables c

module _ (k d : ℕ) (g₀ : Plan) (s₀ : Phys) (fits : g₀.last < 2 ^ 20) where
  abbrev State : ℕ → Plan → Phys → Type 0
  State c g s = Mapped k d g₀ s₀ c g s

  room_left : {c : ℕ} {g : Plan} {s : Phys} → State c g s → c < g₀.last → 0 < left g
  room_left {c} h l =
      let enough = h.enough in let started = h.started in ground (arith, enough, started, l)

  -- The page needs a new table only if it is the first of one.
  next_enough :
      (n : ℕ) {c : ℕ} {g : Plan} {s : Phys}
      → State c g s
      → c < g₀.last
      → left g ≤ n + (1 - s.mem d (c * 4096 / 2 ^ 22 % 1024) % 2)
      → tables g₀.last + 1 ≤ n + tables (c + 1)
  next_enough n {c} {g} {s} h l cost = elim (Bool-cases (c % 1024 == 0)) [
    | inl e ↦
        let at : c % 1024 ≡ 0 = ground (arith, e) in
        let more : tables (c + 1) ≡ tables c + 1 = ground (arith, at, h.started) in
        omega (arith, more, h.enough, cost)
    | inr e ↦
        let inside : c % 1024 ≢ 0 = ground (arith, e) in
        elim (Bool-cases (c == 1)) [
          | inl first ↦
              let one : c ≡ 1 = ground (arith, first) in ground (arith, one, h.enough, cost)
          | inr later ↦
              let above : 1 < c = ground (arith, later, h.started) in
              let slot : c * 4096 / 2 ^ 22 % 1024 ≡ (c - 1) / 1024 =
                omega (arith, l, fits, inside) in
              let there : s.mem d (c * 4096 / 2 ^ 22 % 1024) % 2 ≡ 1 =
                rw slot (h.table_there above) in
              let same : tables (c + 1) ≡ tables c = ground (arith, above, inside) in
              omega (arith, same, h.enough, cost, there)
        ]
  ]

  step :
      {c : ℕ} {g g' : Plan} {s s' : Phys}
      → State c g s
      → c < g₀.last
      → Sets k d g s (c * 4096) (page_entry (c * 4096) false true) g' s'
      → State (c + 1) g' s'
  step {c} {g} {g'} {s} {s'} h l sets =
      let started = h.started in
      let slot : c * 4096 / 2 ^ 22 % 1024 ≡ c / 1024 = omega (arith, l, fits) in
      record {
        space = sets.space;
        grows = Grows-trans h.grows sets.grows;
        entries = λ c' l'. elim (Bool-cases (c' == c)) [
          | inl e ↦
              let at : c' ≡ c = ground (arith, e) in rw at (sets.here ∙ ground (arith, started))
          | inr e ↦
              sets.elsewhere (c' * 4096) (omega (arith, l')) (ground (arith, e))
              ∙ h.entries c' l'
              ∙ ground (arith, e)
        ];
        started = omega arith;
        table_there = λ more.
            (let same : (c + 1 - 1) / 1024 ≡ c * 4096 / 2 ^ 22 % 1024 = omega (arith, l, fits) in
              rw same sets.table_there);
        enough = next_enough (left g') h l sets.at_most_one;
      }

  moved : {c c' : ℕ} {g : Plan} {s : Phys} → c ≡ c' → State c g s → State c' g s
  moved {c} {c'} e h = rw (← e) h

  loop_ends :
      (fuel c : ℕ) (s : Phys)
      → ltb (c * 4096) s.limit ≡ false
      → identity_loop (d * 4096) (suc fuel) (c * 4096) s ≡ some s
  unfolding identity_loop
  loop_ends fuel c s e = rw e refl

  loop_goes :
      (fuel c : ℕ) (s s₁ s₂ : Phys)
      → ltb (c * 4096) s.limit ≡ true
      → c < g₀.last
      → pmap (d * 4096) (c * 4096) (c * 4096) false true s ≡ some s₁
      → identity_loop (d * 4096) fuel ((c + 1) * 4096) s₁ ≡ some s₂
      → identity_loop (d * 4096) (suc fuel) (c * 4096) s ≡ some s₂
  unfolding identity_loop
  loop_goes fuel c s s₁ s₂ e l a b =
      let next : add32 (c * 4096) 4096 ≡ (c + 1) * 4096 =
        add32_exact (c * 4096) 4096 (omega (arith, l, fits)) ∙ omega arith in
      rw (e, a, next) b

  loop_lem :
      (n fuel c : ℕ) (g : Plan) (s : Phys)
      → c + n ≡ g₀.last
      → n < fuel
      → State c g s
      → (g' : Plan) × (s' : Phys) × (identity_loop (d * 4096) fuel (c * 4096) s ≡ some s')
        × State g₀.last g' s'
  loop_lem n zero c g s sum more h = absurd (omega (arith, more))
  loop_lem zero (suc fuel) c g s sum more h =
      let at : c ≡ g₀.last = omega (arith, sum) in
      let stop : ltb (c * 4096) s.limit ≡ false =
        ground (arith, h.grows.planned.limit_is, h.grows.same_last, at) in
      (g, s, loop_ends fuel c s stop, moved at h)
  loop_lem (suc n) (suc fuel) c g s sum more h =
      let l : c < g₀.last = omega (arith, sum) in
      let started = h.started in
      let goes : ltb (c * 4096) s.limit ≡ true =
        ground (arith, h.grows.planned.limit_is, h.grows.same_last, l) in
      let (g₁, s₁, mapped, sets) =
        pmap-Sets h.grows.planned h.space (c * 4096) (omega (arith, l, fits))
          (omega (arith, room_left h l)) (c * 4096) false true in
      let (g₂, s₂, runs, end) =
        loop_lem n fuel (c + 1) g₁ s₁ (omega (arith, sum)) (omega (arith, more)) (step h l sets) in
      (g₂, s₂, loop_goes fuel c s s₁ s₂ goes l mapped runs, end)

make_run :
    (s s₁ s₂ : Phys) (pd : ℕ)
    → alloc s ≡ some (pd, s₁)
    → identity_loop pd (2 ^ 20) 4096 s₁ ≡ some s₂
    → make_space s ≡ some (pd, s₂)
unfolding make_space
make_run s s₁ s₂ pd a b = rw (a, b) refl

-- The constructor of an address space ends when frames are left for the directory, for a table for each 1024 pages
-- of memory, and one more. The space then has each page of memory but the first mapped to itself, for the kernel
-- and to write, and no other page; all other memory in use is as it was.
pub make_space-IsSpace :
    {g : Plan} {s : Phys}
    → Planned g s
    → (k : ℕ) → k < 2 ^ 20
    → g.last / 1024 + 3 ≤ left g
    → (d : ℕ) × (g' : Plan) × (s' : Phys) × (make_space s ≡ some (d * 4096, s'))
      × IsSpace k d g' s'
      × Grows k g s g' s'
      × ((c : ℕ) → c < 2 ^ 20 → entry s' d (c * 4096) ≡ identity g.last c)
make_space-IsSpace {g} {s} h k small room =
    let (d, g₁, s₁, t) =
      alloc_lem h (directory k) (omega (arith, small)) (λ e. omega (arith, e))
        (omega (arith, room)) in
    let blank : (i : ℕ) → s₁.mem d i ≡ 0 = λ i. t.memory d i ∙ (rw (==_self d) refl) in
    let own : IsSpace k d g₁ s₁ = record {
      small = small;
      is_directory = t.roles d ∙ (rw (==_self d) refl);
      is_table = λ i l e. absurd (omega (arith, e, blank i));
    } in
    let start : Mapped k d g₁ s₁ 1 g₁ s₁ = record {
      space = own;
      grows = record {
        planned = t.planned;
        roles = λ f b. refl;
        memory = λ f i b a. refl;
        same_last = refl;
      };
      entries = λ c l. entry_out s₁ d (c * 4096) 0 (blank _) (omega arith) ∙ ground arith;
      started = omega arith;
      table_there = λ more. absurd (omega (arith, more));
      enough = ground (arith, room, t.one_less, t.same_last);
    } in
    let fits : g₁.last < 2 ^ 20 = t.planned.fits in
    let positive : 1 ≤ g₁.last = omega (arith, t.planned.some_used, t.planned.below) in
    let (g₂, s₂, runs, end) =
      loop_lem k d g₁ s₁ fits (g₁.last - 1) (2 ^ 20) 1 g₁ s₁ (omega (arith, positive))
        (omega (arith, fits)) start in
    (
      d,
      g₂,
      s₂,
      make_run s s₁ s₂ (d * 4096) t.runs runs,
      end.space,
      Grows-trans (Takes-Grows k t) end.grows,
      (λ c l. end.entries c l ∙ ap (λ last. identity last c) t.same_last),
    )

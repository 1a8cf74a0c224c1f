-- ===== src/Kernel/Vmm/Pages.antt =====
-- The pages that AddressSpace::fork of kernel/vmm.cc has copied, one after the other.
use net_os.Base.{
  ℕ, zero, suc, ◌+◌, ◌-◌, ◌*◌, ◌/◌, ◌%◌, ◌^◌, ◌≤◌, ◌<◌, ◌≡◌, ◌≢◌, ◌⊎◌, ap, ◌∙◌, inl, inr, true,
  false, some, ◌==◌, ltb, if◌then◌else◌, arith, Bool-cases,
}
use net_os.Kernel.Vmm.{Phys, word}
use net_os.Kernel.Vmm.Frames.{Plan, unused, listed, left}
use net_os.Kernel.Vmm.Space.{IsSpace, Grows, entry, entry_in, word_lem, Busy}
use net_os.Kernel.Vmm.Others.{Grows-trans, table-Apart, directory-Apart}
use net_os.Kernel.Vmm.Copy.{HasCopy, Vacant, copy_page, copy_page_lem}

-- How many of the last `n` pages of a table are there, and how many in the last `n` tables of a directory.
unfoldable pub pages_in : (ℕ → ℕ → ℕ) → ℕ → ℕ → ℕ
pages_in mem t zero = 0
pages_in mem t (suc n) = mem t (1024 - suc n) % 2 + pages_in mem t n

unfoldable pub pages_under : (ℕ → ℕ → ℕ) → ℕ → ℕ → ℕ
pages_under mem d zero = 0
pages_under mem d (suc n) =
    let pde = mem d (1024 - suc n) in
    let in_table = pages_in mem (pde / 4096) 1024 in
    (if pde % 2 == 0 then 0 else in_table) + pages_under mem d n

-- The pages of the upper half have frames of data.
abbrev pub OfData : ℕ → Plan → Phys → Type 0
OfData d g s = (va : ℕ) → va < 2 ^ 32 → entry s d va % 2 ≡ 1 → g.role (entry s d va / 4096) ≡ 0

-- The child's page is a copy, or there is none.
abbrev pub Copied : ℕ → ℕ → ℕ → Plan → Phys → Plan → Phys → Type 0
Copied dc dp va g₀ s₀ g s =
    (entry s₀ dp va % 2 ≡ 1 → HasCopy dc va (entry s₀ dp va) g₀ s₀ g s)
    × (entry s₀ dp va % 2 ≡ 0 → entry s dc va ≡ 0)

-- Different pages of the child have different frames, as far as `c` and as the parent has them.
abbrev pub OwnFrames : ℕ → ℕ → Phys → ℕ → Phys → Type 0
OwnFrames dc dp s₀ c s =
    (c' c'' : ℕ)
    → 2 ^ 19 ≤ c'
    → c' < c''
    → c'' < c
    → entry s₀ dp (c' * 4096) % 2 ≡ 1
    → entry s₀ dp (c'' * 4096) % 2 ≡ 1
    → entry s dc (c' * 4096) / 4096 ≢ entry s dc (c'' * 4096) / 4096

-- The state with the pages from 2 ^ 19 up to `c` copied.
pub record Forked (kc dc dp : ℕ) (g₀ : Plan) (s₀ : Phys) (c : ℕ) (g : Plan) (s : Phys)
    : Type 0 where
  pub space : IsSpace kc dc g s
  pub grows : Grows kc g₀ s₀ g s
  pub copied : (c' : ℕ) → 2 ^ 19 ≤ c' → c' < c → Copied dc dp (c' * 4096) g₀ s₀ g s
  pub apart : OwnFrames dc dp s₀ c s
  pub rest : (c' : ℕ) → c ≤ c' → c' < 2 ^ 20 → entry s dc (c' * 4096) ≡ 0

no_page : (x : ℕ) → x % 2 ≡ 0 → ¬ (x % 2 ≡ 1)
no_page x even odd = omega (arith, even, odd)

data_not_free : (g : Plan) {f : ℕ} (f' : ℕ) → g.role f ≡ 0 → Vacant g f' → f ≢ f'
data_not_free g {f} f' role v e = free_not_zero (g.role f) role (rw e v)
  where
    free_not_zero : (r : ℕ) → r ≡ 0 → ¬ ((r ≡ unused) ⊎ (listed 0 ≤ r))
    free_not_zero r z v = ground (arith, z, v)

in_use_not_free :
    (r₀ r : ℕ)
    → r ≡ r₀
    → (r₀ == unused) ≡ false
    → ltb r₀ (2 ^ 40) ≡ true
    → ¬ ((r ≡ unused) ⊎ (listed 0 ≤ r))
in_use_not_free r₀ r same used low v = ground (arith, same, used, low, v)

module _ (kc dc : ℕ) {kp dp : ℕ} {g₀ : Plan} {s₀ : Phys} (parent : IsSpace kp dp g₀ s₀)
    (differ : kc ≢ kp) (data_pages : OfData dp g₀ s₀) where
  abbrev pub State : ℕ → Plan → Phys → Type 0
  State c g s = Forked kc dc dp g₀ s₀ c g s

  -- A frame in use stays in use, so that one that is free now was so at the start.
  Grows-Vacant : {g : Plan} {s : Phys} → Grows kc g₀ s₀ g s → (f : ℕ) → Vacant g f → Vacant g₀ f
  Grows-Vacant {g} grows f v = elim (Bool-cases (g₀.role f == unused)) [
    | inl e ↦ inl (ground (arith, e))
    | inr e ↦ elim (Bool-cases (ltb (g₀.role f) (2 ^ 40))) [
      | inl low ↦ absurd (
          in_use_not_free (g₀.role f) (g.role f)
            (grows.roles f ((λ e'. ground (arith, e, e')), ground (arith, low))) e low v)
      | inr high ↦ inr (ground (arith, high))
    ]
  ]

  -- A page that the parent does not have.
  pub skip :
      {c : ℕ} {g : Plan} {s : Phys}
      → State c g s
      → c < 2 ^ 20
      → entry s₀ dp (c * 4096) % 2 ≡ 0
      → State (c + 1) g s
  skip {c} h l even = record {
    space = h.space;
    grows = h.grows;
    copied = λ c' a b. elim (Bool-cases (c' == c)) [
      | inl e ↦
          let at : c' ≡ c = ground (arith, e) in
          rw at ((λ odd. absurd (omega (arith, even, odd))), (λ z. h.rest c (omega arith) l))
      | inr e ↦ h.copied c' a (ground (arith, b, e))
    ];
    apart = λ c' c'' a b u odd odd'. elim (Bool-cases (c'' == c)) [
      | inl e ↦
          let at : c'' ≡ c = ground (arith, e) in
          absurd (no_page (entry s₀ dp (c * 4096)) even (rw (← at) odd'))
      | inr e ↦ h.apart c' c'' a b (ground (arith, u, e)) odd odd'
    ];
    rest = λ c' a b. h.rest c' (omega (arith, a)) b;
  }

  abbrev pub parent_entry : ℕ → ℕ
  parent_entry c = entry s₀ dp (c * 4096)

  -- A copy stays while others are made.
  keep :
      {va e : ℕ} {g g' : Plan} {s s' : Phys}
      → HasCopy dc va e g₀ s₀ g s
      → Grows kc g s g' s'
      → entry s' dc va ≡ entry s dc va
      → HasCopy dc va e g₀ s₀ g' s'
  keep {va} {e} {g} {g'} {s} {s'} h grows same_entry =
      let busy : Busy (g.role (entry s dc va / 4096)) =
        rw h.is_data ((λ e. omega (arith, e)), omega arith) in
      record {
        there = rw same_entry h.there;
        was_free = rw same_entry h.was_free;
        is_data = rw same_entry (grows.roles (entry s dc va / 4096) busy ∙ h.is_data);
        same = λ i. rw same_entry (
            grows.memory (entry s dc va / 4096) i busy (rw h.is_data (inl (omega arith)))
            ∙ h.same i);
      }

  -- A page that it has.
  pub copy :
      {c : ℕ} {g : Plan} {s : Phys}
      → State c g s
      → 2 ^ 19 ≤ c
      → c < 2 ^ 20
      → parent_entry c % 2 ≡ 1
      → 2 ≤ left g
      → (g' : Plan) × (s' : Phys) × (copy_page (dc * 4096) (c * 4096) (parent_entry c) s ≡ some s')
        × State (c + 1) g' s'
        × (left g ≤ left g' + 2)
  copy {c} {g} {s} h above l odd room =
      let va = c * 4096 in
      let e = parent_entry c in
      let role₀ = data_pages va (omega (arith, l)) odd in
      let busy : Busy (g₀.role (e / 4096)) = rw role₀ ((λ e. omega (arith, e)), omega arith) in
      let (g', s', runs, space, grows, has, other, cost) =
        copy_page_lem h.grows.planned h.space room va e (omega (arith, l))
          (h.grows.roles (e / 4096) busy ∙ role₀) in
      let elsewhere : (c' : ℕ)
          → c' < 2 ^ 20
          → c' ≢ c
          → entry s' dc (c' * 4096) ≡ entry s dc (c' * 4096) =
        λ c' b ne. other (c' * 4096) (omega (arith, b)) (λ e'. ne (omega (arith, e'))) in
      (
        g',
        s',
        runs,
        record {
          space = space;
          grows = Grows-trans h.grows grows;
          copied = λ c' a b. elim (Bool-cases (c' == c)) [
            | inl e' ↦
                let at : c' ≡ c = ground (arith, e') in
                rw at (
                  (λ odd. record {
                    there = has.there;
                    was_free = Grows-Vacant h.grows _ has.was_free;
                    is_data = has.is_data;
                    same = λ i.
                        has.same i
                        ∙ h.grows.memory (e / 4096) i busy (rw role₀ (inl (omega arith)));
                  }),
                  (λ even. absurd (omega (arith, even, odd))),
                )
            | inr e' ↦
                let same = elsewhere c' (omega (arith, b, l)) (λ at. ground (arith, at, e')) in
                let old = h.copied c' a (ground (arith, b, e')) in
                ((λ odd. keep (old.0 odd) grows same), (λ even. same ∙ old.1 even))
          ];
          apart = λ c' c'' a b u odd' odd''. elim (Bool-cases (c'' == c)) [
            | inl e' ↦
                let at : c'' ≡ c = ground (arith, e') in
                let same =
                  elsewhere c' (omega (arith, b, u, l)) (λ e''. omega (arith, e'', at, b)) in
                let role = ((h.copied c' a (omega (arith, b, at))).0 odd').is_data in
                rw (same, at) (data_not_free g _ role has.was_free)
            | inr e' ↦
                let before : c'' < c = ground (arith, u, e') in
                rw
                  (
                    elsewhere c' (omega (arith, b, before, l)) (λ e. omega (arith, e, b, before)),
                    elsewhere c'' (omega (arith, before, l)) (λ e. omega (arith, e, before)),
                  )
                  (h.apart c' c'' a b before odd' odd'')
          ];
          rest = λ c' a b.
              elsewhere c' b (λ at. omega (arith, at, a)) ∙ h.rest c' (omega (arith, a)) b;
        },
        cost,
      )

  pub same_word : {c : ℕ} {g : Plan} {s : Phys} → State c g s → (i : ℕ) → s.mem dp i ≡ s₀.mem dp i
  same_word h i =
      h.grows.memory dp i
        (rw parent.is_directory ((λ e. omega (arith, e)), omega (arith, parent.small)))
        (rw parent.is_directory (directory-Apart kc kp differ))

  -- The word of the parent's table that the loop reads is the entry of its page.
  pub table_word :
      {c : ℕ} {g : Plan} {s : Phys}
      → State c g s
      → (i0 i1 : ℕ) → i0 < 1024
      → i1 < 1024
      → s₀.mem dp i0 % 2 ≡ 1
      → word s (s₀.mem dp i0 / 4096 * 4096 + 4 * i1) ≡ s₀.mem (s₀.mem dp i0 / 4096) i1
  table_word {c} {g} {s} h i0 i1 a b one =
      let t = s₀.mem dp i0 / 4096 in
      let role = parent.is_table i0 a one in
      word_lem s t i1 b
      ∙ h.grows.memory t i1 (rw role ((λ e. omega (arith, e)), omega (arith, parent.small, a)))
          (rw role (table-Apart kc kp i0 differ a))

pub table_entry :
    (s : Phys) (d i0 i1 : ℕ)
    → i0 < 1024
    → i1 < 1024
    → s.mem d i0 % 2 ≡ 1
    → entry s d ((i0 * 1024 + i1) * 4096) ≡ s.mem (s.mem d i0 / 4096) i1
table_entry s d i0 i1 a b one =
    let slot : (i0 * 1024 + i1) * 4096 / 2 ^ 22 % 1024 ≡ i0 = omega (arith, a, b) in
    let place : (i0 * 1024 + i1) * 4096 / 4096 % 1024 ≡ i1 = omega (arith, b) in
    entry_in s d ((i0 * 1024 + i1) * 4096) (s.mem d i0) (ap (s.mem d) slot) one
    ∙ ap (s.mem (s.mem d i0 / 4096)) place

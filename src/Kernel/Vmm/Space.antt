-- ===== src/Kernel/Vmm/Space.antt =====
-- An address space of kernel/vmm.cc in the frames of memory, and its entries.
use net_os.Base.{
  ℕ, ◌+◌, ◌-◌, ◌*◌, ◌/◌, ◌%◌, ◌^◌, ◌≤◌, ◌<◌, ◌≡◌, ◌≢◌, refl, ap, ◌∙◌, sym, ◌⊎◌, inl, inr, true,
  false, some, ◌==◌, if◌then◌else◌, arith, Bool-cases, ==_ne, ==_self,
}
use net_os.Kernel.Vmm.{Phys, word, set_word, store, alloc, get_pte}
use net_os.Kernel.Vmm.Frames.{Plan, Planned, Takes, unused, left, alloc_lem}

-- The roles of the directory of space `k` and of its table `i`.
abbrev pub directory : ℕ → ℕ
directory k = 2 ^ 12 * (k + 1)

abbrev pub table : ℕ → ℕ → ℕ
table k i = 2 ^ 12 * (k + 1) + 1 + i

-- A role of a frame that is in use.
abbrev pub Busy : ℕ → Type 0
Busy r = (r ≢ unused) × (r < 2 ^ 40)

abbrev pub Apart : ℕ → ℕ → Type 0
Apart k r = (r < directory k) ⊎ (directory k + 1024 < r)

-- Frame `d` is the directory of space `k`, and its tables are its own.
pub record IsSpace (k d : ℕ) (g : Plan) (s : Phys) : Type 0 where
  pub small : k < 2 ^ 20
  pub is_directory : g.role d ≡ directory k
  pub is_table : (i : ℕ) → i < 1024 → s.mem d i % 2 ≡ 1 → g.role (s.mem d i / 4096) ≡ table k i

-- The entry that the processor finds for an address: 0, which maps nothing, without a table.
abbrev pub entry : Phys → ℕ → ℕ → ℕ
entry s d va =
    let pde = s.mem d (va / 2 ^ 22 % 1024) in
    if pde % 2 == 0 then 0 else s.mem (pde / 4096) (va / 4096 % 1024)

pub entry_in :
    (s : Phys) (d va v : ℕ)
    → s.mem d (va / 2 ^ 22 % 1024) ≡ v
    → v % 2 ≡ 1
    → entry s d va ≡ s.mem (v / 4096) (va / 4096 % 1024)
entry_in s d va v e one = let odd : (v % 2 == 0) ≡ false = ground (arith, one) in rw (e, odd) refl

pub entry_out :
    (s : Phys) (d va v : ℕ) → s.mem d (va / 2 ^ 22 % 1024) ≡ v → v % 2 ≡ 0 → entry s d va ≡ 0
entry_out s d va v e zero_bit =
    let even : (v % 2 == 0) ≡ true = ground (arith, zero_bit) in rw (e, even) refl

-- What changes in space `k` leave as it is.
pub record Grows (k : ℕ) (g : Plan) (s : Phys) (g' : Plan) (s' : Phys) : Type 0 where
  pub planned : Planned g' s'
  pub roles : (f : ℕ) → Busy (g.role f) → g'.role f ≡ g.role f
  pub memory : (f i : ℕ) → Busy (g.role f) → Apart k (g.role f) → s'.mem f i ≡ s.mem f i
  pub same_last : g'.last ≡ g.last

-- Memory that differs in frames in use only is planned the same way.
pub Planned-mem :
    {g : Plan} {s : Phys}
    → Planned g s
    → (mem : ℕ → ℕ → ℕ) → ((f i : ℕ) → 2 ^ 40 ≤ g.role f → mem f i ≡ s.mem f i)
    → Planned g (record { mem = mem; first_free = s.first_free; avail = s.avail; limit = s.limit })
Planned-mem {g} h mem same = record {
  first = h.first;
  link = λ j l. same (g.w j) 0 (omega (arith, h.listed_role j l)) ∙ h.link j l;
  listed_role = h.listed_role;
  not_zero = h.not_zero;
  in_memory = h.in_memory;
  avail_is = h.avail_is;
  limit_is = h.limit_is;
  some_used = h.some_used;
  below = h.below;
  fits = h.fits;
  unused_role = h.unused_role;
}

abbrev pub with_word : Phys → ℕ → ℕ → ℕ → Phys
with_word s f i v = record {
  mem = set_word s.mem f i v;
  first_free = s.first_free;
  avail = s.avail;
  limit = s.limit;
}

pub store_lem : (s : Phys) (f i v : ℕ) → i < 1024 → store (f * 4096 + 4 * i) v s ≡ with_word s f i v
unfolding store
store_lem s f i v l =
    let frame : (f * 4096 + 4 * i) / 4096 ≡ f = omega (arith, l) in
    let place : (f * 4096 + 4 * i) % 4096 / 4 ≡ i = omega (arith, l) in rw (frame, place) refl

pub word_lem : (s : Phys) (f i : ℕ) → i < 1024 → word s (f * 4096 + 4 * i) ≡ s.mem f i
word_lem s f i l =
    let frame : (f * 4096 + 4 * i) / 4096 ≡ f = omega (arith, l) in
    let place : (f * 4096 + 4 * i) % 4096 / 4 ≡ i = omega (arith, l) in
    ap (λ a. s.mem a ((f * 4096 + 4 * i) % 4096 / 4)) frame ∙ ap (λ j. s.mem f j) place

-- getPTE where there is no table.
get_pte_made :
    (s s₁ s₂ : Phys) (d va slot p f : ℕ)
    → va / 2 ^ 22 % 1024 ≡ slot
    → (s.mem d slot % 2 == 0) ≡ true
    → alloc s ≡ some (p, s₁)
    → store (d * 4096 + 4 * slot) (p / 8 * 8 + 7) s₁ ≡ s₂
    → s₂.mem d slot / 4096 ≡ f
    → get_pte (d * 4096) va s ≡ some (f * 4096 + 4 * (va / 4096 % 1024), s₂)
unfolding get_pte
get_pte_made s s₁ s₂ d va slot p f at no_table runs stored frame =
    let l : slot < 1024 = omega (arith, at) in
    rw (at, word_lem s d slot l, no_table, runs, stored, word_lem s₂ d slot l, frame) refl

module _ {k d : ℕ} {g : Plan} {s : Phys} (h : Planned g s) (own : IsSpace k d g s) where
  -- The table for an address is there.
  pub record HasTable (va t : ℕ) (g' : Plan) (s' : Phys) : Type 0 where
    pub space : IsSpace k d g' s'
    pub grows : Grows k g s g' s'
    pub present : s'.mem d (va / 2 ^ 22 % 1024) % 2 ≡ 1
    pub table_is : s'.mem d (va / 2 ^ 22 % 1024) / 4096 ≡ t
    pub entries : (va' : ℕ) → entry s' d va' ≡ entry s d va'
    pub at_most_one : left g ≤ left g' + (1 - s.mem d (va / 2 ^ 22 % 1024) % 2)

  abbrev pub Finds : ℕ → Type 0
  Finds va =
      (t : ℕ) × (g' : Plan) × (s' : Phys) × (get_pte (d * 4096) va s
        ≡ some (t * 4096 + 4 * (va / 4096 % 1024), s'))
      × HasTable va t g' s'

  found : (va : ℕ) → s.mem d (va / 2 ^ 22 % 1024) % 2 ≡ 1 → Finds va
  unfolding get_pte
  found va e =
      let i = va / 2 ^ 22 % 1024 in
      let one : (s.mem d i % 2 == 0) ≡ false = ground (arith, e) in
      (
        s.mem d i / 4096,
        g,
        s,
        rw (word_lem s d i (omega arith), one, word_lem s d i (omega arith)) refl,
        record {
          space = own;
          grows = record {
            planned = h;
            roles = λ f b. refl;
            memory = λ f j b a. refl;
            same_last = refl;
          };
          present = e;
          table_is = refl;
          entries = λ va'. refl;
          at_most_one = omega arith;
        },
      )

  -- The memory with a new table `f` for the directory's entry `i`.
  abbrev with_table : Phys → ℕ → ℕ → Phys
  with_table s₁ f i = with_word s₁ d i (f * 4096 + 7)

  module _ (slot f : ℕ) {g₁ : Plan} {s₁ : Phys} (in_range : slot < 1024)
      (no_table : s.mem d slot % 2 ≡ 0) (t : Takes g s (table k slot) f g₁ s₁) where
    not_directory : f ≢ d
    not_directory e = ground (arith, e, own.is_directory, own.small, t.was_free)

    not_table :
        (i : ℕ) → i < 1024 → s.mem d i % 2 ≡ 1 → (s.mem d i / 4096 ≢ f) × (s.mem d i / 4096 ≢ d)
    not_table i l e =
        let r = own.is_table i l e in
        (
          (λ e'. ground (arith, e', r, own.small, l, t.was_free)),
          λ e'. ground (arith, e', r, own.is_directory, l),
        )

    directory_word :
        (i : ℕ) → (with_table s₁ f slot).mem d i ≡ (if i == slot then f * 4096 + 7 else s.mem d i)
    directory_word i = ground (arith, t.memory d i, not_directory)

    new-IsSpace : IsSpace k d g₁ (with_table s₁ f slot)
    new-IsSpace = record {
      small = own.small;
      is_directory = ground (arith, t.roles d, own.is_directory, not_directory);
      is_table = λ i l e. elim (Bool-cases (i == slot)) [
        | inl same ↦
            let at : i ≡ slot = ground (arith, same) in
            let word : (with_table s₁ f slot).mem d i ≡ f * 4096 + 7 =
              directory_word i ∙ (rw same refl) in
            let frame : (with_table s₁ f slot).mem d i / 4096 ≡ f = omega (arith, word) in
            rw (frame, at) (t.roles f ∙ (rw (==_self f) refl))
        | inr other ↦
            let word : (with_table s₁ f slot).mem d i ≡ s.mem d i =
              directory_word i ∙ (rw other refl) in
            let e' : s.mem d i % 2 ≡ 1 = rw word at e in
            rw word (
              t.roles (s.mem d i / 4096)
              ∙ (rw (==_ne _ f ((not_table i l e').0)) (own.is_table i l e')))
      ];
    }

    table_word : (i : ℕ) → (with_table s₁ f slot).mem f i ≡ 0
    table_word i = ground (arith, t.memory f i, not_directory)

    other_word : (f' i : ℕ) → f' ≢ f → f' ≢ d → (with_table s₁ f slot).mem f' i ≡ s.mem f' i
    other_word f' i a b = ground (arith, t.memory f' i, a, b)

    new_entries : (va : ℕ) → entry (with_table s₁ f slot) d va ≡ entry s d va
    new_entries va =
        let i = va / 2 ^ 22 % 1024 in
        let s₂ = with_table s₁ f slot in
        elim (Bool-cases (i == slot)) [
          | inl same ↦
              let at : i ≡ slot = ground (arith, same) in
              let frame : (f * 4096 + 7) / 4096 ≡ f = omega arith in
              entry_in s₂ d va (f * 4096 + 7) (directory_word i ∙ (rw same refl)) (omega arith)
              ∙ ap (λ t. s₂.mem t (va / 4096 % 1024)) frame
              ∙ table_word (va / 4096 % 1024)
              ∙ sym (entry_out s d va (s.mem d slot) (ap (s.mem d) at) no_table)
          | inr other ↦
              let word : s₂.mem d i ≡ s.mem d i = directory_word i ∙ (rw other refl) in
              elim (Bool-cases (s.mem d i % 2 == 0)) [
                | inl even ↦
                    entry_out s₂ d va (s.mem d i) word (ground (arith, even))
                    ∙ sym (entry_out s d va (s.mem d i) refl (ground (arith, even)))
                | inr odd ↦
                    let one : s.mem d i % 2 ≡ 1 = ground (arith, odd) in
                    let apart = not_table i (omega arith) one in
                    entry_in s₂ d va (s.mem d i) word one
                    ∙ other_word (s.mem d i / 4096) (va / 4096 % 1024) (apart.0) (apart.1)
                    ∙ sym (entry_in s d va (s.mem d i) refl one)
              ]
        ]

    new-Grows : Grows k g s g₁ (with_table s₁ f slot)
    new-Grows = record {
      planned =
          Planned-mem t.planned _
            (λ f' i b. ground (arith, b, t.roles d, own.is_directory, own.small, not_directory));
      roles = λ f' b. ground (arith, t.roles f', t.was_free, b.0, b.1);
      memory = λ f' i b a.
          other_word f' i (λ e. ground (arith, e, t.was_free, b.0, b.1))
            (λ e. ground (arith, e, own.is_directory, a));
      same_last = t.same_last;
    }

    made : (va : ℕ) → va / 2 ^ 22 % 1024 ≡ slot → Finds va
    made va at =
        let s₂ = with_table s₁ f slot in
        let none_there : (s.mem d slot % 2 == 0) ≡ true = ground (arith, no_table) in
        let flags : f * 4096 / 8 * 8 + 7 ≡ f * 4096 + 7 = omega arith in
        let word : s₂.mem d slot ≡ f * 4096 + 7 = directory_word slot ∙ (rw (==_self slot) refl) in
        (
          f,
          g₁,
          s₂,
          get_pte_made s s₁ s₂ d va slot (f * 4096) f at none_there t.runs
              (ap (λ v. store (d * 4096 + 4 * slot) v s₁) flags
                ∙ store_lem s₁ d slot (f * 4096 + 7) in_range)
              (omega (arith, word)),
          record {
            space = new-IsSpace;
            grows = new-Grows;
            present = rw at (omega (arith, word));
            table_is = rw at (omega (arith, word));
            entries = new_entries;
            at_most_one = rw at (omega (arith, t.one_less, no_table));
          },
        )

  pub get_pte_lem : (va : ℕ) → 0 < left g → Finds va
  get_pte_lem va room = elim (Bool-cases (s.mem d (va / 2 ^ 22 % 1024) % 2 == 0)) [
    | inl even ↦
        let (f, g₁, s₁, t) =
          alloc_lem h (table k (va / 2 ^ 22 % 1024)) (omega (arith, own.small))
            (λ e. omega (arith, e)) room in
        made (va / 2 ^ 22 % 1024) f (omega arith) (ground (arith, even)) t va refl
    | inr odd ↦ found va (ground (arith, odd))
  ]

-- ===== src/Kernel/Vmm/Exec.antt =====
-- AddressSpace::exec of kernel/vmm.cc, which gives the pages of the upper half back.
pub mod Loops
mod Tests
use net_os.Base.{
  ℕ, zero, suc, ◌+◌, ◌-◌, ◌*◌, ◌/◌, ◌%◌, ◌^◌, ◌≤◌, ◌<◌, ◌≡◌, ◌≢◌, refl, ap, ◌∙◌, sym, ◌⊎◌, inl, inr,
  true, false, ◌==◌, if◌then◌else◌, arith, Bool-cases,
}
use net_os.Kernel.Vmm.{Phys, word, store, free, set_word, exec, exec_loop, exec_table}
use net_os.Kernel.Vmm.Frames.{Plan, Planned, unused, listed, assign, left, free_lem}
use net_os.Kernel.Vmm.Space.{
  IsSpace, entry, entry_in, entry_out, Busy, Apart, table, Planned-mem, with_word, store_lem,
  word_lem,
}
use net_os.Kernel.Vmm.Pages.{pages_in, pages_under}

-- What stands in the entry of page `c`.
abbrev pub page : Phys → ℕ → ℕ → ℕ
page s d c = entry s d (c * 4096)

-- Frame `f` is the one of no page of the upper half.
abbrev pub NoPage : Phys → ℕ → ℕ → Type 0
NoPage s d f = (c : ℕ) → 2 ^ 19 ≤ c → c < 2 ^ 20 → page s d c % 2 ≡ 1 → page s d c / 4096 ≢ f

-- The pages of the upper half have frames of data, each its own.
pub record OwnPages (d : ℕ) (g : Plan) (s : Phys) : Type 0 where
  pub data_frame :
      (c : ℕ) → 2 ^ 19 ≤ c → c < 2 ^ 20 → page s d c % 2 ≡ 1 → g.role (page s d c / 4096) ≡ 0
  pub inside : (c : ℕ) → 2 ^ 19 ≤ c → c < 2 ^ 20 → page s d c % 2 ≡ 1 → page s d c / 4096 < g.last
  pub positive : (c : ℕ) → 2 ^ 19 ≤ c → c < 2 ^ 20 → page s d c % 2 ≡ 1 → 0 < page s d c / 4096
  pub apart :
      (c c' : ℕ)
      → 2 ^ 19 ≤ c
      → c < c'
      → c' < 2 ^ 20
      → page s d c % 2 ≡ 1
      → page s d c' % 2 ≡ 1
      → page s d c / 4096 ≢ page s d c' / 4096

-- The state with the pages from 2 ^ 19 up to `c` given back.
pub record Dropped (k d : ℕ) (g₀ : Plan) (s₀ : Phys) (c : ℕ) (g : Plan) (s : Phys) : Type 0 where
  pub planned : Planned g s
  pub space : IsSpace k d g s
  pub same_last : g.last ≡ g₀.last
  pub directory_same : (i : ℕ) → s.mem d i ≡ s₀.mem d i
  pub gone : (c' : ℕ) → 2 ^ 19 ≤ c' → c' < c → page s d c' % 2 ≡ 0
  pub kept : (c' : ℕ) → c' < 2 ^ 20 → (c' < 2 ^ 19) ⊎ (c ≤ c') → page s d c' ≡ page s₀ d c'
  pub data_frame :
      (c' : ℕ) → c ≤ c' → c' < 2 ^ 20 → page s₀ d c' % 2 ≡ 1 → g.role (page s₀ d c' / 4096) ≡ 0
  pub memory :
      (f i : ℕ) → Busy (g₀.role f) → Apart k (g₀.role f) → NoPage s₀ d f → s.mem f i ≡ s₀.mem f i
  pub roles : (f : ℕ) → Busy (g₀.role f) → NoPage s₀ d f → g.role f ≡ g₀.role f

pub page_in :
    (s : Phys) (d c v : ℕ)
    → c < 2 ^ 20
    → s.mem d (c / 1024) ≡ v
    → v % 2 ≡ 1
    → page s d c ≡ s.mem (v / 4096) (c % 1024)
page_in s d c v l e one =
    let slot : c * 4096 / 2 ^ 22 % 1024 ≡ c / 1024 = omega (arith, l) in
    let place : c * 4096 / 4096 % 1024 ≡ c % 1024 = omega arith in
    entry_in s d (c * 4096) v (ap (s.mem d) slot ∙ e) one ∙ ap (s.mem (v / 4096)) place

pub page_out :
    (s : Phys) (d c v : ℕ) → c < 2 ^ 20 → s.mem d (c / 1024) ≡ v → v % 2 ≡ 0 → page s d c ≡ 0
page_out s d c v l e even =
    let slot : c * 4096 / 2 ^ 22 % 1024 ≡ c / 1024 = omega (arith, l) in
    entry_out s d (c * 4096) v (ap (s.mem d) slot ∙ e) even

-- What stands and what is planned when the page in word `i` of table `t`, with the entry `v`, is given back.
abbrev pub after : Phys → ℕ → ℕ → ℕ → Phys
after s t i v = free (v / 4096 * 4096) (with_word s t i 0)

abbrev pub plan_after : Plan → ℕ → Plan
plan_after g v = record {
  w = λ j. if j == g.m then v / 4096 else g.w j;
  m = g.m + 1;
  fresh = g.fresh;
  last = g.last;
  role = assign g.role (v / 4096) (listed g.m);
}

free_mem :
    (f : ℕ) (s : Phys) (x y : ℕ) → (free (f * 4096) s).mem x y ≡ set_word s.mem f 0 s.first_free x y
unfolding free store
free_mem f s x y =
    let frame : f * 4096 / 4096 ≡ f = omega arith in
    let start : f * 4096 % 4096 / 4 ≡ 0 = omega arith in
    ap (λ f'. set_word s.mem f' (f * 4096 % 4096 / 4) s.first_free x y) frame
    ∙ ap (λ i. set_word s.mem f i s.first_free x y) start

module _ (k d : ℕ) (g₀ : Plan) (s₀ : Phys) (own : OwnPages d g₀ s₀) where
  -- A page that is not there.
  pub pass :
      (c : ℕ) (g : Plan) (s : Phys)
      → Dropped k d g₀ s₀ c g s
      → 2 ^ 19 ≤ c
      → c < 2 ^ 20
      → page s₀ d c % 2 ≡ 0
      → Dropped k d g₀ s₀ (c + 1) g s
  pass c g s h a l e = record {
    planned = h.planned;
    space = h.space;
    same_last = h.same_last;
    directory_same = h.directory_same;
    gone = λ c' a' l'. elim (Bool-cases (c' == c)) [
      | inl same ↦
          let at : c' ≡ c = ground (arith, same) in
          rw at (ap (λ w. w % 2) (h.kept c l (inr (omega arith))) ∙ e)
      | inr other ↦ h.gone c' a' (ground (arith, l', other))
    ];
    kept = λ c' l' o. h.kept c' l' (omega (arith, o));
    data_frame = λ c' a' l'. h.data_frame c' (omega (arith, a')) l';
    memory = h.memory;
    roles = h.roles;
  }

  module _ (c t i v : ℕ) (g : Plan) (s : Phys) (h : Dropped k d g₀ s₀ c g s) (a : 2 ^ 19 ≤ c)
      (l : c < 2 ^ 20) (slot : c % 1024 ≡ i) (there : s.mem d (c / 1024) % 2 ≡ 1)
      (table_is : s.mem d (c / 1024) / 4096 ≡ t) (v_is : page s₀ d c ≡ v) (odd : v % 2 ≡ 1) where
    abbrev f : ℕ
    f = v / 4096

    abbrev s₁ : Phys
    s₁ = with_word s t i 0

    abbrev s₂ : Phys
    s₂ = free (f * 4096) s₁

    abbrev g₂ : Plan
    g₂ = plan_after g v

    f_role : g.role f ≡ 0
    f_role = rw v_is at (h.data_frame c (omega arith) l (rw v_is odd))

    t_role : g.role t ≡ table k (c / 1024)
    t_role = rw table_is at (h.space.is_table (c / 1024) (omega (arith, l)) there)

    word_after : (x y : ℕ) → s₂.mem x y ≡ set_word s₁.mem f 0 s.first_free x y
    word_after x y = free_mem f s₁ x y

    f_not_table : f ≢ t
    f_not_table e = ground (arith, e, f_role, t_role)

    other_word : (x y : ℕ) → g.role x ≢ 0 → g.role x ≢ table k (c / 1024) → s₂.mem x y ≡ s.mem x y
    other_word x y p q = word_after x y ∙ ground (arith, p, q, f_role, t_role)

    table_word : (y : ℕ) → s₂.mem t y ≡ (if y == i then 0 else s.mem t y)
    table_word y = word_after t y ∙ ground (arith, f_not_table)

    planned₂ : Planned g₂ s₂
    planned₂ =
        free_lem
          (Planned-mem h.planned s₁.mem (λ x y b. ground (arith, b, t_role, h.space.small, l))) f
          (rw v_is at (own.positive c a l (rw v_is odd)))
          (rw h.same_last (rw v_is at (own.inside c a l (rw v_is odd)))) (omega (arith, f_role))
          (λ e. omega (arith, e, f_role))

    directory₂ : (j : ℕ) → s₂.mem d j ≡ s.mem d j
    directory₂ j =
        other_word d j (λ e. omega (arith, e, h.space.is_directory))
          (λ e. omega (arith, e, h.space.is_directory))

    space₂ : IsSpace k d g₂ s₂
    space₂ = record {
      small = h.space.small;
      is_directory = ground (arith, h.space.is_directory, f_role);
      is_table = λ j l' one.
          let one' : s.mem d j % 2 ≡ 1 = rw (directory₂ j) at one in
          let role = h.space.is_table j l' one' in
          rw (directory₂ j)
            (let e : g₂.role (s.mem d j / 4096) ≡ table k j = ground (arith, role, f_role) in e);
    }

    page_here : page s₂ d c ≡ 0
    page_here =
        page_in s₂ d c (s.mem d (c / 1024)) l (directory₂ (c / 1024)) there
        ∙ ap (λ t. s₂.mem t (c % 1024)) table_is
        ∙ table_word (c % 1024)
        ∙ ground (arith, slot)

    same_table_word :
        (c' : ℕ)
        → c' < 2 ^ 20
        → c' ≢ c
        → s.mem d (c' / 1024) % 2 ≡ 1
        → s₂.mem (s.mem d (c' / 1024) / 4096) (c' % 1024)
          ≡ s.mem (s.mem d (c' / 1024) / 4096) (c' % 1024)
    same_table_word c' l' other one =
        let role = h.space.is_table (c' / 1024) (omega (arith, l')) one in
        elim (Bool-cases (c' / 1024 == c / 1024)) [
          | inl same ↦
              let at : c' / 1024 ≡ c / 1024 = ground (arith, same) in
              let here : s.mem d (c' / 1024) / 4096 ≡ t =
                ap (λ j. s.mem d j / 4096) at ∙ table_is in
              let apart : (c' % 1024 == i) ≡ false = ground (arith, at, slot, other) in
              rw here (table_word (c' % 1024) ∙ (rw apart refl))
          | inr differ ↦
              other_word (s.mem d (c' / 1024) / 4096) (c' % 1024) (λ e. omega (arith, e, role))
                (λ e. ground (arith, e, role, differ))
        ]

    page_there : (c' : ℕ) → c' < 2 ^ 20 → c' ≢ c → page s₂ d c' ≡ page s d c'
    page_there c' l' other = elim (Bool-cases (s.mem d (c' / 1024) % 2 == 0)) [
      | inl even ↦
          let z : s.mem d (c' / 1024) % 2 ≡ 0 = ground (arith, even) in
          page_out s₂ d c' (s.mem d (c' / 1024)) l' (directory₂ (c' / 1024)) z
          ∙ sym (page_out s d c' (s.mem d (c' / 1024)) l' refl z)
      | inr odd' ↦
          let one : s.mem d (c' / 1024) % 2 ≡ 1 = ground (arith, odd') in
          page_in s₂ d c' (s.mem d (c' / 1024)) l' (directory₂ (c' / 1024)) one
          ∙ same_table_word c' l' other one
          ∙ sym (page_in s d c' (s.mem d (c' / 1024)) l' refl one)
    ]

    pub dropped : Dropped k d g₀ s₀ (c + 1) g₂ s₂
    dropped = record {
      planned = planned₂;
      space = space₂;
      same_last = h.same_last;
      directory_same = λ j. directory₂ j ∙ h.directory_same j;
      gone = λ c' a' l'. elim (Bool-cases (c' == c)) [
        | inl same ↦ let at : c' ≡ c = ground (arith, same) in rw at (ap (λ w. w % 2) page_here)
        | inr other ↦
            ap (λ w. w % 2) (page_there c' (omega (arith, l', l)) (ground (arith, other)))
            ∙ h.gone c' a' (ground (arith, l', other))
      ];
      kept = λ c' l' o.
          page_there c' l' (λ e. omega (arith, e, o, a)) ∙ h.kept c' l' (omega (arith, o));
      data_frame = λ c' a' l' odd'.
          let apart = own.apart c c' a (omega (arith, a')) l' (rw v_is odd) odd' in
          let differ : page s₀ d c' / 4096 ≢ f = λ e. apart (ap (λ w. w / 4096) v_is ∙ sym e) in
          ground (arith, differ, h.data_frame c' (omega (arith, a')) l' odd');
      memory = λ x y b p n.
          let differ : f ≢ x = rw v_is at (n c a l (rw v_is odd)) in
          let same = h.roles x b n in
          let not_table : x ≢ t = λ e. ground (arith, e, t_role, same, p, l) in
          (word_after x y ∙ ground (arith, differ, not_table)) ∙ h.memory x y b p n;
      roles = λ x b n.
          let differ : f ≢ x = rw v_is at (n c a l (rw v_is odd)) in
          ground (arith, differ, h.roles x b n);
    }

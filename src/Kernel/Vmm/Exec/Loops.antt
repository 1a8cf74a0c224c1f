-- ===== src/Kernel/Vmm/Exec/Loops.antt =====
-- The loops of AddressSpace::exec of kernel/vmm.cc.
use net_os.Base.{
  ℕ, zero, suc, ◌+◌, ◌-◌, ◌*◌, ◌/◌, ◌%◌, ◌^◌, ◌≤◌, ◌<◌, ◌≡◌, refl, ap, ◌∙◌, sym, inl, inr, true,
  false, ◌==◌, arith, Bool-cases,
}
use net_os.Kernel.Vmm.{Phys, word, store, free, exec, exec_loop, exec_table}
use net_os.Kernel.Vmm.Frames.{Plan, Planned, left}
use net_os.Kernel.Vmm.Space.{IsSpace, with_word, store_lem, word_lem}
use net_os.Kernel.Vmm.Pages.{pages_in, pages_under}
use net_os.Kernel.Vmm.Exec.{
  page, page_in, page_out, OwnPages, Dropped, pass, dropped, after, plan_after,
}

table_drops :
    (t n v : ℕ) (s s₁ : Phys)
    → word s (t * 4096 + 4 * (1024 - suc n)) ≡ v
    → (v % 2 == 0) ≡ false
    → store (t * 4096 + 4 * (1024 - suc n)) 0 s ≡ s₁
    → exec_table (t * 4096) (suc n) s ≡ exec_table (t * 4096) n (free (v / 4096 * 4096) s₁)
unfolding exec_table
table_drops t n v s s₁ a b c = rw (a, b, c) refl

table_skips :
    (t n v : ℕ) (s : Phys)
    → word s (t * 4096 + 4 * (1024 - suc n)) ≡ v
    → (v % 2 == 0) ≡ true
    → exec_table (t * 4096) (suc n) s ≡ exec_table (t * 4096) n s
unfolding exec_table
table_skips t n v s a b = rw (a, b) refl

loop_drops :
    (d n v : ℕ) (s : Phys)
    → word s (d * 4096 + 4 * (1024 - suc n)) ≡ v
    → (v % 2 == 0) ≡ false
    → exec_loop (d * 4096) (suc n) s ≡ exec_loop (d * 4096) n (exec_table (v / 4096 * 4096) 1024 s)
unfolding exec_loop
loop_drops d n v s a b = rw (a, b) refl

loop_skips :
    (d n v : ℕ) (s : Phys)
    → word s (d * 4096 + 4 * (1024 - suc n)) ≡ v
    → (v % 2 == 0) ≡ true
    → exec_loop (d * 4096) (suc n) s ≡ exec_loop (d * 4096) n s
unfolding exec_loop
loop_skips d n v s a b = rw (a, b) refl

module _ (k d : ℕ) (g₀ : Plan) (s₀ : Phys) (own : OwnPages d g₀ s₀) where
  -- The state at page `c`, with `n` more frames free.
  abbrev pub Reached : ℕ → ℕ → Plan → Phys → Type 0
  Reached c n g s = (g' : Plan) × Dropped k d g₀ s₀ c g' s × (left g' ≡ left g + n)

  moved :
      (c c' : ℕ) {g : Plan} {s : Phys} → c ≡ c' → Dropped k d g₀ s₀ c g s → Dropped k d g₀ s₀ c' g s
  moved c c' e h = rw e at h

  exec_table_lem :
      (i0 t : ℕ)
      → 512 ≤ i0
      → i0 < 1024
      → s₀.mem d i0 % 2 ≡ 1
      → s₀.mem d i0 / 4096 ≡ t
      → (n : ℕ) → n ≤ 1024
      → (g : Plan) (s : Phys) → Dropped k d g₀ s₀ (i0 * 1024 + (1024 - n)) g s
      → (g' : Plan) × Dropped k d g₀ s₀ (i0 * 1024 + 1024) g' (exec_table (t * 4096) n s)
        × (left g' ≡ left g + pages_in s₀.mem t n)
  unfolding exec_table pages_in
  exec_table_lem i0 t a b one table_is zero le g s h = (g, h, omega arith)
  exec_table_lem i0 t a b one table_is (suc n) le g s h =
      let i1 = 1024 - suc n in
      let c = i0 * 1024 + i1 in
      let in_range : c < 2 ^ 20 = omega (arith, b, le) in
      let upper : 2 ^ 19 ≤ c = omega (arith, a) in
      let at : c / 1024 ≡ i0 = omega (arith, le) in
      let slot : c % 1024 ≡ i1 = omega (arith, le) in
      let on : c + 1 ≡ i0 * 1024 + (1024 - n) = omega (arith, le) in
      let v = s₀.mem t i1 in
      let v_is : page s₀ d c ≡ v =
        page_in s₀ d c (s₀.mem d i0) in_range (ap (s₀.mem d) at) one
        ∙ ap (λ x. s₀.mem x (c % 1024)) table_is
        ∙ ap (s₀.mem t) slot in
      let pde : s.mem d (c / 1024) ≡ s₀.mem d i0 = h.directory_same (c / 1024) ∙ ap (s₀.mem d) at in
      let now : page s d c ≡ s.mem t i1 =
        page_in s d c (s₀.mem d i0) in_range pde one
        ∙ ap (λ x. s.mem x (c % 1024)) table_is
        ∙ ap (s.mem t) slot in
      let got : word s (t * 4096 + 4 * i1) ≡ v =
        word_lem s t i1 (omega (arith, le))
        ∙ sym now
        ∙ h.kept c in_range (inr (omega arith))
        ∙ v_is in
      elim (Bool-cases (v % 2 == 0)) [
        | inl even ↦
            let z : v % 2 ≡ 0 = ground (arith, even) in
            let (g', h', more) = exec_table_lem i0 t a b one table_is n (omega (arith, le)) g s (
              moved (c + 1) (i0 * 1024 + (1024 - n)) on
                (pass k d g₀ s₀ own c g s h upper in_range (ap (λ w. w % 2) v_is ∙ z))) in
            (g', rw (table_skips t n v s got even) h', omega (arith, more, z))
        | inr odd ↦
            let bit : v % 2 ≡ 1 = ground (arith, odd) in
            let there : s.mem d (c / 1024) % 2 ≡ 1 = ap (λ w. w % 2) pde ∙ one in
            let frame : s.mem d (c / 1024) / 4096 ≡ t = ap (λ w. w / 4096) pde ∙ table_is in
            let next =
              dropped k d g₀ s₀ own c t i1 v g s h upper in_range slot there frame v_is bit in
            let (g', h', more) =
              exec_table_lem i0 t a b one table_is n (omega (arith, le)) (plan_after g v)
                (after s t i1 v) (moved (c + 1) (i0 * 1024 + (1024 - n)) on next) in
            (
              g',
              rw
                  (table_drops t n v s (with_word s t i1 0) got odd
                    (store_lem s t i1 0 (omega (arith, le))))
                  h',
              omega (arith, more, bit),
            )
      ]

  -- A table that is not there.
  skip_table :
      (i0 : ℕ)
      → 512 ≤ i0
      → i0 < 1024
      → s₀.mem d i0 % 2 ≡ 0
      → (n c : ℕ) → c + n ≡ i0 * 1024 + 1024
      → i0 * 1024 ≤ c
      → {g : Plan} {s : Phys} → Dropped k d g₀ s₀ c g s
      → Dropped k d g₀ s₀ (i0 * 1024 + 1024) g s
  skip_table i0 a b z zero c sum from h = moved c (i0 * 1024 + 1024) (omega (arith, sum)) h
  skip_table i0 a b z (suc n) c sum from {g} {s} h =
      let slot : c / 1024 ≡ i0 = omega (arith, sum, from) in
      let in_range : c < 2 ^ 20 = omega (arith, sum, b) in
      let blank : page s₀ d c ≡ 0 = page_out s₀ d c (s₀.mem d i0) in_range (ap (s₀.mem d) slot) z in
      skip_table i0 a b z n (c + 1) (omega (arith, sum)) (omega (arith, from))
        (pass k d g₀ s₀ own c g s h (omega (arith, from, a)) in_range (ap (λ w. w % 2) blank))

  exec_loop_lem :
      (n : ℕ)
      → n ≤ 512
      → (g : Plan) (s : Phys) → Dropped k d g₀ s₀ ((1024 - n) * 1024) g s
      → (g' : Plan) × Dropped k d g₀ s₀ (2 ^ 20) g' (exec_loop (d * 4096) n s)
        × (left g' ≡ left g + pages_under s₀.mem d n)
  unfolding exec_loop pages_under
  exec_loop_lem zero le g s h = (g, h, omega arith)
  exec_loop_lem (suc n) le g s h =
      let i0 = 1024 - suc n in
      let v = s₀.mem d i0 in
      let got : word s (d * 4096 + 4 * i0) ≡ v =
        word_lem s d i0 (omega arith) ∙ h.directory_same i0 in
      let on : i0 * 1024 + 1024 ≡ (1024 - n) * 1024 = omega (arith, le) in
      elim (Bool-cases (v % 2 == 0)) [
        | inl even ↦
            let counted : pages_under s₀.mem d (suc n) ≡ pages_under s₀.mem d n =
              rw (pages_under, even) (omega arith) in
            let next =
              skip_table i0 (omega (arith, le)) (omega arith) (ground (arith, even)) 1024
                (i0 * 1024) refl (omega arith) h in
            let (g', h', more) =
              exec_loop_lem n (omega (arith, le)) g s
                (moved (i0 * 1024 + 1024) ((1024 - n) * 1024) on next) in
            (g', rw (loop_skips d n v s got even) h', omega (arith, more, counted))
        | inr odd ↦
            let bit : v % 2 ≡ 1 = ground (arith, odd) in
            let in_table = pages_in s₀.mem (v / 4096) 1024 in
            let counted : pages_under s₀.mem d (suc n) ≡ in_table + pages_under s₀.mem d n =
              rw (pages_under, odd) refl in
            let (g₁, h₁, more₁) =
              exec_table_lem i0 (v / 4096) (omega (arith, le)) (omega arith) bit refl 1024
                (omega arith) g s (moved (i0 * 1024) (i0 * 1024 + (1024 - 1024)) (omega arith) h) in
            let (g', h', more) =
              exec_loop_lem n (omega (arith, le)) g₁ (exec_table (v / 4096 * 4096) 1024 s)
                (moved (i0 * 1024 + 1024) ((1024 - n) * 1024) on h₁) in
            (g', rw (loop_drops d n v s got odd) h', omega (arith, more, more₁, counted))
      ]

-- exec of an address space whose pages of the upper half have frames of data, each its own, gives each of these
-- frames back, once: as many frames more are free as there were pages. The upper half then has no page, the entries of the
-- lower half are as they were, and so are all other frames in use but the space's tables, and the free list is whole.
pub exec-Dropped :
    (k d : ℕ) (g : Plan) (s : Phys)
    → Planned g s
    → IsSpace k d g s
    → OwnPages d g s
    → (g' : Plan) × Dropped k d g s (2 ^ 20) g' (exec (d * 4096) s)
      × (left g' ≡ left g + pages_under s.mem d 512)
unfolding exec
exec-Dropped k d g s h own pages =
    let start : Dropped k d g s ((1024 - 512) * 1024) g s = record {
      planned = h;
      space = own;
      same_last = refl;
      directory_same = λ i. refl;
      gone = λ c a b. absurd (omega (arith, a, b));
      kept = λ c l o. refl;
      data_frame = λ c a l odd. pages.data_frame c (omega (arith, a)) l odd;
      memory = λ f i b a n. refl;
      roles = λ f b n. refl;
    } in
    exec_loop_lem k d g s pages 512 (omega arith) g s start

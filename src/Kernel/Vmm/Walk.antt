-- ===== src/Kernel/Vmm/Walk.antt =====
-- What pmap and punmap of kernel/vmm.cc do to the entries that the processor finds.
use net_os.Base.{
  ℕ, ◌+◌, ◌-◌, ◌*◌, ◌/◌, ◌%◌, ◌^◌, ◌≤◌, ◌<◌, ◌≡◌, ◌≢◌, refl, ap, ◌∙◌, sym, inl, inr, Bool, false,
  some, ◌==◌, if◌then◌else◌, arith, Bool-cases, ==_ne, ==_self,
}
use net_os.Kernel.Vmm.{Phys, pmap, punmap}
use net_os.Kernel.Vmm.Frames.{Plan, Planned, left}
use net_os.Kernel.Vmm.Space.{
  IsSpace, Grows, Planned-mem, HasTable, get_pte_lem, entry, entry_in, entry_out, with_word,
  store_lem, table,
}

-- What pmap stores for a page.
abbrev pub page_entry : ℕ → Bool → Bool → ℕ
page_entry pa for_user for_write =
    pa / 4096 * 4096 + (if for_user then 4 else 0) + (if for_write then 2 else 0) + 1

-- The entry of the page of `va`, and of no other page, becomes `v`.
pub record Sets (k d : ℕ) (g : Plan) (s : Phys) (va v : ℕ) (g' : Plan) (s' : Phys) : Type 0 where
  pub space : IsSpace k d g' s'
  pub grows : Grows k g s g' s'
  pub here : entry s' d va ≡ v
  pub elsewhere : (va' : ℕ) → va' < 2 ^ 32 → va' / 4096 ≢ va / 4096 → entry s' d va' ≡ entry s d va'
  pub table_there : s'.mem d (va / 2 ^ 22 % 1024) % 2 ≡ 1
  pub at_most_one : left g ≤ left g' + (1 - s.mem d (va / 2 ^ 22 % 1024) % 2)

module _ {k d : ℕ} {g : Plan} {s : Phys} (h : Planned g s) (own : IsSpace k d g s) (va : ℕ)
    (in_space : va < 2 ^ 32) (room : 0 < left g) where
  module _ {t : ℕ} {g' : Plan} {s' : Phys} (p : HasTable h own va t g' s') (v : ℕ) where
    abbrev slot : ℕ
    slot = va / 2 ^ 22 % 1024

    abbrev place : ℕ
    place = va / 4096 % 1024

    abbrev after : Phys
    after = with_word s' t place v

    role_of : g'.role t ≡ table k slot
    role_of = rw (p.table_is) at (p.space.is_table slot (omega arith) p.present)

    not_directory : t ≢ d
    not_directory e = ground (arith, e, role_of, p.space.is_directory)

    directory_same : (i : ℕ) → after.mem d i ≡ s'.mem d i
    directory_same i = ground (arith, not_directory)

    after-IsSpace : IsSpace k d g' after
    after-IsSpace = record {
      small = own.small;
      is_directory = p.space.is_directory;
      is_table = λ i l e. rw (directory_same i) (p.space.is_table i l (rw (directory_same i) at e));
    }

    after-Grows : Grows k g s g' after
    after-Grows = record {
      planned = Planned-mem p.grows.planned _ (λ f i b. ground (arith, b, role_of, own.small));
      roles = p.grows.roles;
      memory = λ f i b a.
          let same = p.grows.roles f b in
          let not_here : f ≢ t = λ e. ground (arith, e, role_of, same, a) in
          (let e : after.mem f i ≡ s'.mem f i = ground (arith, not_here) in e)
          ∙ p.grows.memory f i b a;
      same_last = p.grows.same_last;
    }

    after_here : entry after d va ≡ v
    after_here =
        entry_in after d va (s'.mem d slot) (directory_same slot) p.present
        ∙ ap (λ f. after.mem f place) p.table_is
        ∙ ground arith

    -- Another page has another table or another place in the table.
    other_page :
        (va' : ℕ)
        → va' < 2 ^ 32
        → va' / 4096 ≢ va / 4096
        → s'.mem d (va' / 2 ^ 22 % 1024) % 2 ≡ 1
        → after.mem (s'.mem d (va' / 2 ^ 22 % 1024) / 4096) (va' / 4096 % 1024)
          ≡ s'.mem (s'.mem d (va' / 2 ^ 22 % 1024) / 4096) (va' / 4096 % 1024)
    other_page va' l other one =
        let role' = p.space.is_table (va' / 2 ^ 22 % 1024) (omega arith) one in
        elim (Bool-cases (s'.mem d (va' / 2 ^ 22 % 1024) / 4096 == t)) [
          | inl same ↦
              let e : s'.mem d (va' / 2 ^ 22 % 1024) / 4096 ≡ t = ground (arith, same) in
              let e' : table k (va' / 2 ^ 22 % 1024) ≡ table k slot =
                sym role' ∙ ap g'.role e ∙ role_of in
              let apart : (va' / 4096 % 1024 == place) ≡ false =
                ==_ne _ _ (λ e''. other (omega (arith, e', e'', l, in_space))) in
              rw (e, ==_self t, apart) refl
          | inr differ ↦ rw differ refl
        ]

    after_elsewhere :
        (va' : ℕ) → va' < 2 ^ 32 → va' / 4096 ≢ va / 4096 → entry after d va' ≡ entry s d va'
    after_elsewhere va' l other =
        let i = va' / 2 ^ 22 % 1024 in
        elim (Bool-cases (s'.mem d i % 2 == 0)) [
          | inl even ↦
              let z : s'.mem d i % 2 ≡ 0 = ground (arith, even) in
              entry_out after d va' (s'.mem d i) (directory_same i) z
              ∙ sym (entry_out s' d va' (s'.mem d i) refl z)
              ∙ p.entries va'
          | inr odd ↦
              let one : s'.mem d i % 2 ≡ 1 = ground (arith, odd) in
              entry_in after d va' (s'.mem d i) (directory_same i) one
              ∙ other_page va' l other one
              ∙ sym (entry_in s' d va' (s'.mem d i) refl one)
              ∙ p.entries va'
        ]

    sets : Sets k d g s va v g' after
    sets = record {
      space = after-IsSpace;
      grows = after-Grows;
      here = after_here;
      elsewhere = after_elsewhere;
      table_there = ap (λ w. w % 2) (directory_same slot) ∙ p.present;
      at_most_one = p.at_most_one;
    }

  -- pmap ends as long as a frame is left for a table. The page of the address then has the frame and the flags, the
  -- entries of all other pages are as they were, and so is all other memory in use; at most one frame is taken.
  pub pmap-Sets :
      (pa : ℕ) (for_user for_write : Bool)
      → (g' : Plan) × (s' : Phys) × (pmap (d * 4096) va pa for_user for_write s ≡ some s')
        × Sets k d g s va (page_entry pa for_user for_write) g' s'
  unfolding pmap
  pmap-Sets pa for_user for_write =
      let (t, g', s', runs, p) = get_pte_lem h own va room in
      let v = page_entry pa for_user for_write in
      (g', after p v, rw (runs, store_lem s' t (va / 4096 % 1024) v (omega arith)) refl, sets p v)

  pub punmap-Sets :
      (g' : Plan) × (s' : Phys) × (punmap (d * 4096) va s ≡ some s') × Sets k d g s va 0 g' s'
  unfolding punmap
  punmap-Sets =
      let (t, g', s', runs, p) = get_pte_lem h own va room in
      (g', after p 0, rw (runs, store_lem s' t (va / 4096 % 1024) 0 (omega arith)) refl, sets p 0)

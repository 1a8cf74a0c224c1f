-- ===== src/Kernel/Vmm/Others.antt =====
-- The other address spaces of kernel/vmm.cc, and the frames of data, while one changes.
use net_os.Base.{ℕ, ◌/◌, ◌%◌, ◌^◌, ◌<◌, ◌≡◌, ◌≢◌, refl, ◌∙◌, sym, inl, inr, ◌==◌, arith, Bool-cases}
use net_os.Kernel.Vmm.{Phys}
use net_os.Kernel.Vmm.Frames.{Plan, Takes}
use net_os.Kernel.Vmm.Space.{
  IsSpace, Grows, entry, entry_in, entry_out, Busy, Apart, directory, table,
}

pub directory-Apart : (k k' : ℕ) → k ≢ k' → Apart k (directory k')
directory-Apart k k' differ = ground (arith, differ)

pub table-Apart : (k k' i : ℕ) → k ≢ k' → i < 1024 → Apart k (table k' i)
table-Apart k k' i differ l = ground (arith, differ, l)

module _ {k k' d : ℕ} {g g' : Plan} {s s' : Phys} (differ : k ≢ k') (own : IsSpace k' d g s)
    (h : Grows k g s g' s') where
  directory_same : (i : ℕ) → s'.mem d i ≡ s.mem d i
  directory_same i =
      h.memory d i (rw own.is_directory ((λ e. omega (arith, e)), omega (arith, own.small)))
        (rw own.is_directory (directory-Apart k k' differ))

  table-Busy : (i : ℕ) → i < 1024 → s.mem d i % 2 ≡ 1 → Busy (g.role (s.mem d i / 4096))
  table-Busy i l one =
      rw (own.is_table i l one) ((λ e. omega (arith, e)), omega (arith, own.small, l))

  pub IsSpace-Grows : IsSpace k' d g' s'
  IsSpace-Grows = record {
    small = own.small;
    is_directory =
        h.roles d (rw own.is_directory ((λ e. omega (arith, e)), omega (arith, own.small)))
        ∙ own.is_directory;
    is_table = λ i l one.
        let one' : s.mem d i % 2 ≡ 1 = rw (directory_same i) at one in
        rw (directory_same i)
          (h.roles (s.mem d i / 4096) (table-Busy i l one') ∙ own.is_table i l one');
  }

  pub entries-Grows : (va : ℕ) → entry s' d va ≡ entry s d va
  entries-Grows va =
      let i = va / 2 ^ 22 % 1024 in
      elim (Bool-cases (s.mem d i % 2 == 0)) [
        | inl even ↦
            let z : s.mem d i % 2 ≡ 0 = ground (arith, even) in
            entry_out s' d va (s.mem d i) (directory_same i) z
            ∙ sym (entry_out s d va (s.mem d i) refl z)
        | inr odd ↦
            let one : s.mem d i % 2 ≡ 1 = ground (arith, odd) in
            entry_in s' d va (s.mem d i) (directory_same i) one
            ∙ h.memory (s.mem d i / 4096) (va / 4096 % 1024) (table-Busy i (omega arith) one)
                (rw (own.is_table i (omega arith) one) (table-Apart k k' i differ (omega arith)))
            ∙ sym (entry_in s d va (s.mem d i) refl one)
      ]

-- A frame that is taken leaves all spaces as they are.
pub Takes-Grows :
    {g g' : Plan} {s s' : Phys} {r f : ℕ} (k : ℕ) → Takes g s r f g' s' → Grows k g s g' s'
Takes-Grows {g} {g'} {s} {s'} {r} {f} k t = record {
  planned = t.planned;
  roles = λ f' b. ground (arith, t.roles f', t.was_free, b.0, b.1);
  memory = λ f' i b a. ground (arith, t.memory f' i, t.was_free, b.0, b.1);
  same_last = t.same_last;
}

pub Grows-trans :
    {k : ℕ} {g₁ g₂ g₃ : Plan} {s₁ s₂ s₃ : Phys}
    → Grows k g₁ s₁ g₂ s₂
    → Grows k g₂ s₂ g₃ s₃
    → Grows k g₁ s₁ g₃ s₃
Grows-trans {k} {g₁} {g₂} a b = record {
  planned = b.planned;
  roles = λ f busy. let e = a.roles f busy in b.roles f (rw e busy) ∙ e;
  memory = λ f i busy apart.
      let e = a.roles f busy in b.memory f i (rw e busy) (rw e apart) ∙ a.memory f i busy apart;
  same_last = b.same_last ∙ a.same_last;
}

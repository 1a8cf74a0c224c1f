-- ===== src/Kernel/Mmu/Descriptors.antt =====
-- The descriptors of segments and gates that kernel/mmu.cc writes.
use net_os.Base.{
  ℕ, ◌+◌, ◌*◌, ◌/◌, ◌%◌, ◌^◌, ◌<◌, ◌≡◌, refl, true, false, inl, inr, ltb, ◌==◌, if◌then◌else◌,
  arith, Bool-cases,
}
use net_os.Kernel.Mmu.{
  Descriptor, mms, set_null_descriptor, set_base, set_limit, set_g, set_d, set_b, set_p, set_dpl,
  set_s, set_type, set_k, set_c, set_e, set_r, set_w, set_a, set_selector, set_offset, get_base,
  get_limit, get_g, get_d, get_p, get_dpl, get_s, get_k, get_r, set_code_descriptor,
  set_data_descriptor, set_tss_descriptor, set_trap_descriptor, set_interrupt_descriptor,
}
use net_os.Kernel.Mmu.Segments.{Segment, Fits, layout, layout-Gets, words, words_eq}

-- The last byte of a segment, as the processor counts it: in pages when `g` is 1.
abbrev pub reach : Descriptor → ℕ
reach p = if get_g p == 1 then get_limit p * 2 ^ 12 + 4095 else get_limit p

-- A present segment of 32 bits, for the kind `k`: 1 for code and 0 for data.
pub record Covers (base limit dpl k : ℕ) (p : Descriptor) : Type 0 where
  pub base_is : get_base p ≡ base
  pub reach_is : reach p ≡ (if ltb 0xfffff limit then limit / 2 ^ 12 * 2 ^ 12 + 4095 else limit)
  pub dpl_is : get_dpl p ≡ dpl
  pub kind_is : get_k p ≡ k
  pub present : get_p p ≡ 1
  pub segment : get_s p ≡ 1
  pub wide : get_d p ≡ 1
  pub allowed : get_r p ≡ 1

abbrev plain : ℕ → ℕ → ℕ → ℕ → ℕ → ℕ → Segment
plain base limit g dpl k c = record {
  base = base;
  limit = limit;
  g = g;
  d = 1;
  p = 1;
  dpl = dpl;
  s = 1;
  k = k;
  c = c;
  r = 1;
  a = 0;
}

-- A segment with a field of the limit and a bit `g` that stand for `limit`.
plain-Covers :
    (base limit field g dpl k c : ℕ)
    → Fits (plain base field g dpl k c)
    → (if g == 1 then field * 2 ^ 12 + 4095 else field)
      ≡ (if ltb 0xfffff limit then limit / 2 ^ 12 * 2 ^ 12 + 4095 else limit)
    → Covers base limit dpl k (layout (plain base field g dpl k c))
plain-Covers base limit field g dpl k c fits e =
    let got = layout-Gets (plain base field g dpl k c) fits in
    record {
      base_is = got.get_base;
      reach_is = rw (got.get_g, got.get_limit) e;
      dpl_is = got.get_dpl;
      kind_is = got.get_k;
      present = got.get_p;
      segment = got.get_s;
      wide = got.get_d;
      allowed = got.get_r;
    }

module _ (base limit dpl : ℕ) (p : Descriptor) (a : base < 2 ^ 32) (b : limit < 2 ^ 32)
    (c : dpl < 4) where
  code_small :
      ltb 0xfffff limit ≡ false
      → set_code_descriptor base limit dpl p ≡ layout (plain base limit 0 dpl 1 1)
  unfolding set_code_descriptor set_null_descriptor mms set_base set_limit set_g set_d set_p set_dpl
      set_s set_k set_c set_r set_a
  code_small e =
      let l : limit < 2 ^ 20 = ground (arith, e) in
      rw e (words_eq (omega (arith, a, l, c)) (omega (arith, a, l, c)))

  code_large :
      ltb 0xfffff limit ≡ true
      → set_code_descriptor base limit dpl p ≡ layout (plain base (limit / 2 ^ 12) 1 dpl 1 1)
  unfolding set_code_descriptor set_null_descriptor mms set_base set_limit set_g set_d set_p set_dpl
      set_s set_k set_c set_r set_a
  code_large e = rw e (words_eq (omega (arith, a, b, c)) (omega (arith, a, b, c)))

  data_small :
      ltb 0xfffff limit ≡ false
      → set_data_descriptor base limit dpl p ≡ layout (plain base limit 0 dpl 0 0)
  unfolding set_data_descriptor set_null_descriptor mms set_base set_limit set_g set_d set_b set_p
      set_dpl set_s set_k set_e set_w set_a
  data_small e =
      let l : limit < 2 ^ 20 = ground (arith, e) in
      rw e (words_eq (omega (arith, a, l, c)) (omega (arith, a, l, c)))

  data_large :
      ltb 0xfffff limit ≡ true
      → set_data_descriptor base limit dpl p ≡ layout (plain base (limit / 2 ^ 12) 1 dpl 0 0)
  unfolding set_data_descriptor set_null_descriptor mms set_base set_limit set_g set_d set_b set_p
      set_dpl set_s set_k set_e set_w set_a
  data_large e = rw e (words_eq (omega (arith, a, b, c)) (omega (arith, a, b, c)))

  plain-Fits :
      (field g k c' : ℕ)
      → field < 2 ^ 20
      → g < 2
      → k < 2
      → c' < 2
      → Fits (plain base field g dpl k c')
  plain-Fits field g k c' field_fits g_fits k_fits c_fits = record {
    base = a;
    limit = field_fits;
    g = g_fits;
    d = omega arith;
    p = omega arith;
    dpl = c;
    s = omega arith;
    k = k_fits;
    c = c_fits;
    r = omega arith;
    a = omega arith;
  }

  large-Covers :
      ltb 0xfffff limit ≡ true
      → (k c' : ℕ) → k < 2
      → c' < 2
      → Covers base limit dpl k (layout (plain base (limit / 2 ^ 12) 1 dpl k c'))
  large-Covers e k c' l l' =
      plain-Covers base limit (limit / 2 ^ 12) 1 dpl k c'
        (plain-Fits (limit / 2 ^ 12) 1 k c' (omega (arith, b)) (omega arith) l l') (rw e refl)

  small-Covers :
      ltb 0xfffff limit ≡ false
      → (k c' : ℕ) → k < 2
      → c' < 2
      → Covers base limit dpl k (layout (plain base limit 0 dpl k c'))
  small-Covers e k c' l l' =
      plain-Covers base limit limit 0 dpl k c'
        (plain-Fits limit 0 k c' (ground (arith, e)) (omega arith) l l') (rw e refl)

  -- The code and the data descriptor of a base, a limit and a level below 4 read back as a present segment of 32
  -- bits with that base and level, for code that can be read and for data that can be written. Its last byte is the
  -- limit up to 0xfffff, and above that the last byte of the limit's page.
  pub segments-Covers :
      Covers base limit dpl 1 (set_code_descriptor base limit dpl p)
      × Covers base limit dpl 0 (set_data_descriptor base limit dpl p)
  segments-Covers = elim (Bool-cases (ltb 0xfffff limit)) [
    | inl e ↦ (
      rw (code_large e) (large-Covers e 1 1 (omega arith) (omega arith)),
      rw (data_large e) (large-Covers e 0 0 (omega arith) (omega arith)),
    )
    | inr e ↦ (
      rw (code_small e) (small-Covers e 1 1 (omega arith) (omega arith)),
      rw (data_small e) (small-Covers e 0 0 (omega arith) (omega arith)),
    )
  ]

-- The two words of a gate as the processor reads them: a selector, an offset, present, a level and a kind.
abbrev pub gate : ℕ → ℕ → ℕ → ℕ → Descriptor
gate selector offset dpl kind =
    words (selector * 2 ^ 16 + offset % 2 ^ 16)
      (offset / 2 ^ 16 * 2 ^ 16 + 2 ^ 15 + dpl * 2 ^ 13 + kind * 2 ^ 8)

-- The trap and the interrupt descriptor of a selector, an offset and a level are the gates that the processor reads
-- as that selector, offset and level, with the kinds of a trap gate and of an interrupt gate, and the TSS
-- descriptor is a present system segment with its base and limit, counted in bytes, and the kind of a free TSS.
pub gates_lem :
    (selector offset dpl base limit : ℕ) (p : Descriptor)
    → selector < 2 ^ 16
    → offset < 2 ^ 32
    → dpl < 4
    → base < 2 ^ 32
    → limit < 2 ^ 20
    → (set_trap_descriptor selector offset dpl p ≡ gate selector offset dpl 0xf)
      × (set_interrupt_descriptor selector offset dpl p ≡ gate selector offset dpl 0xe)
      × (set_tss_descriptor base limit p
          ≡ layout (record {
            base = base;
            limit = limit;
            g = 0;
            d = 0;
            p = 1;
            dpl = 0;
            s = 0;
            k = 1;
            c = 0;
            r = 0;
            a = 1;
          }))
unfolding set_trap_descriptor set_interrupt_descriptor set_tss_descriptor set_null_descriptor mms
    set_selector set_offset set_base set_limit set_p set_dpl set_s set_type
gates_lem selector offset dpl base limit p a b c a' b' = (
  words_eq (omega (arith, a, b, c)) (omega (arith, a, b, c)),
  words_eq (omega (arith, a, b, c)) (omega (arith, a, b, c)),
  words_eq (omega (arith, a', b')) (omega (arith, a', b')),
)

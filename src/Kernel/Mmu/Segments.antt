-- ===== src/Kernel/Mmu/Segments.antt =====
-- The descriptor of a segment in kernel/mmu.cc as the record of its fields.
use net_os.Base.{ℕ, ◌+◌, ◌*◌, ◌/◌, ◌%◌, ◌^◌, ◌<◌, ◌≡◌, ap, ◌∙◌, arith}
use net_os.Kernel.Mmu.{
  Descriptor, mms, mme, set_base, set_limit, set_g, set_d, set_b, set_p, set_dpl, set_s, set_type,
  set_k, set_c, set_e, set_r, set_w, set_a, get_base, get_limit, get_g, get_d, get_b, get_p,
  get_dpl, get_s, get_type, get_k, get_c, get_e, get_r, get_w, get_a,
}

-- The fields: `k`, `c`, `r` and `a` are the four bits of the type.
pub record Segment : Type 0 where
  pub base : ℕ
  pub limit : ℕ
  pub g : ℕ
  pub d : ℕ
  pub p : ℕ
  pub dpl : ℕ
  pub s : ℕ
  pub k : ℕ
  pub c : ℕ
  pub r : ℕ
  pub a : ℕ

-- Each is in the range of its bits.
pub record Fits (f : Segment) : Type 0 where
  pub base : f.base < 2 ^ 32
  pub limit : f.limit < 2 ^ 20
  pub g : f.g < 2
  pub d : f.d < 2
  pub p : f.p < 2
  pub dpl : f.dpl < 4
  pub s : f.s < 2
  pub k : f.k < 2
  pub c : f.c < 2
  pub r : f.r < 2
  pub a : f.a < 2

abbrev pub words : ℕ → ℕ → Descriptor
words f0 f1 = record { f0 = f0; f1 = f1 }

pub words_eq : {a a' b b' : ℕ} → a ≡ a' → b ≡ b' → words a b ≡ words a' b'
words_eq {a} {a'} {b} {b'} e e' = ap (λ w. words w b) e ∙ ap (words a') e'

-- The two words as the processor reads them.
abbrev pub layout : Segment → Descriptor
layout f = words (f.base % 2 ^ 16 * 2 ^ 16 + f.limit % 2 ^ 16) (
    f.base / 2 ^ 24 * 2 ^ 24
    + f.g * 2 ^ 23
    + f.d * 2 ^ 22
    + f.limit / 2 ^ 16 * 2 ^ 16
    + f.p * 2 ^ 15
    + f.dpl * 2 ^ 13
    + f.s * 2 ^ 12
    + f.k * 2 ^ 11
    + f.c * 2 ^ 10
    + f.r * 2 ^ 9
    + f.a * 2 ^ 8
    + f.base / 2 ^ 16 % 2 ^ 8)

-- A setter makes the last bits of any number its field, and leaves the others.
pub record Sets (f : Segment) (v : ℕ) : Type 0 where
  pub set_base : set_base v (layout f) ≡ layout (record f { base = v % 2 ^ 32 })
  pub set_limit : set_limit v (layout f) ≡ layout (record f { limit = v % 2 ^ 20 })
  pub set_g : set_g v (layout f) ≡ layout (record f { g = v % 2 })
  pub set_d : set_d v (layout f) ≡ layout (record f { d = v % 2 })
  pub set_b : set_b v (layout f) ≡ layout (record f { d = v % 2 })
  pub set_p : set_p v (layout f) ≡ layout (record f { p = v % 2 })
  pub set_dpl : set_dpl v (layout f) ≡ layout (record f { dpl = v % 4 })
  pub set_s : set_s v (layout f) ≡ layout (record f { s = v % 2 })
  pub set_k : set_k v (layout f) ≡ layout (record f { k = v % 2 })
  pub set_c : set_c v (layout f) ≡ layout (record f { c = v % 2 })
  pub set_e : set_e v (layout f) ≡ layout (record f { c = v % 2 })
  pub set_r : set_r v (layout f) ≡ layout (record f { r = v % 2 })
  pub set_w : set_w v (layout f) ≡ layout (record f { r = v % 2 })
  pub set_a : set_a v (layout f) ≡ layout (record f { a = v % 2 })
  pub set_type :
      set_type v (layout f)
      ≡ layout (record f { k = v / 8 % 2; c = v / 4 % 2; r = v / 2 % 2; a = v % 2 })

-- A getter returns its field.
pub record Gets (f : Segment) : Type 0 where
  pub get_base : get_base (layout f) ≡ f.base
  pub get_limit : get_limit (layout f) ≡ f.limit
  pub get_g : get_g (layout f) ≡ f.g
  pub get_d : get_d (layout f) ≡ f.d
  pub get_b : get_b (layout f) ≡ f.d
  pub get_p : get_p (layout f) ≡ f.p
  pub get_dpl : get_dpl (layout f) ≡ f.dpl
  pub get_s : get_s (layout f) ≡ f.s
  pub get_k : get_k (layout f) ≡ f.k
  pub get_c : get_c (layout f) ≡ f.c
  pub get_e : get_e (layout f) ≡ f.c
  pub get_r : get_r (layout f) ≡ f.r
  pub get_w : get_w (layout f) ≡ f.r
  pub get_a : get_a (layout f) ≡ f.a
  pub get_type : get_type (layout f) ≡ f.k * 8 + f.c * 4 + f.r * 2 + f.a

module _ (f : Segment) (h : Fits f) where
  layout-Sets : (v : ℕ) → Sets f v
  unfolding mms set_base set_limit set_g set_d set_b set_p set_dpl set_s set_type set_k set_c set_e
      set_r set_w set_a
  layout-Sets v = record {
    set_base =
        words_eq (omega (arith, h.base, h.limit, h.g, h.d, h.p, h.dpl, h.s, h.k, h.c, h.r, h.a))
          (omega (arith, h.base, h.limit, h.g, h.d, h.p, h.dpl, h.s, h.k, h.c, h.r, h.a));
    set_limit =
        words_eq (omega (arith, h.base, h.limit, h.g, h.d, h.p, h.dpl, h.s, h.k, h.c, h.r, h.a))
          (omega (arith, h.base, h.limit, h.g, h.d, h.p, h.dpl, h.s, h.k, h.c, h.r, h.a));
    set_g =
        ap (words _)
          (omega (arith, h.base, h.limit, h.g, h.d, h.p, h.dpl, h.s, h.k, h.c, h.r, h.a));
    set_d =
        ap (words _)
          (omega (arith, h.base, h.limit, h.g, h.d, h.p, h.dpl, h.s, h.k, h.c, h.r, h.a));
    set_b =
        ap (words _)
          (omega (arith, h.base, h.limit, h.g, h.d, h.p, h.dpl, h.s, h.k, h.c, h.r, h.a));
    set_p =
        ap (words _)
          (omega (arith, h.base, h.limit, h.g, h.d, h.p, h.dpl, h.s, h.k, h.c, h.r, h.a));
    set_dpl =
        ap (words _)
          (omega (arith, h.base, h.limit, h.g, h.d, h.p, h.dpl, h.s, h.k, h.c, h.r, h.a));
    set_s =
        ap (words _)
          (omega (arith, h.base, h.limit, h.g, h.d, h.p, h.dpl, h.s, h.k, h.c, h.r, h.a));
    set_k =
        ap (words _)
          (omega (arith, h.base, h.limit, h.g, h.d, h.p, h.dpl, h.s, h.k, h.c, h.r, h.a));
    set_c =
        ap (words _)
          (omega (arith, h.base, h.limit, h.g, h.d, h.p, h.dpl, h.s, h.k, h.c, h.r, h.a));
    set_e =
        ap (words _)
          (omega (arith, h.base, h.limit, h.g, h.d, h.p, h.dpl, h.s, h.k, h.c, h.r, h.a));
    set_r =
        ap (words _)
          (omega (arith, h.base, h.limit, h.g, h.d, h.p, h.dpl, h.s, h.k, h.c, h.r, h.a));
    set_w =
        ap (words _)
          (omega (arith, h.base, h.limit, h.g, h.d, h.p, h.dpl, h.s, h.k, h.c, h.r, h.a));
    set_a =
        ap (words _)
          (omega (arith, h.base, h.limit, h.g, h.d, h.p, h.dpl, h.s, h.k, h.c, h.r, h.a));
    set_type =
        ap (words _)
          (omega (arith, h.base, h.limit, h.g, h.d, h.p, h.dpl, h.s, h.k, h.c, h.r, h.a));
  }

  pub layout-Gets : Gets f
  unfolding mme get_base get_limit get_g get_d get_b get_p get_dpl get_s get_type get_k get_c get_e
      get_r get_w get_a
  layout-Gets = record {
    get_base = omega (arith, h.base, h.limit, h.g, h.d, h.p, h.dpl, h.s, h.k, h.c, h.r, h.a);
    get_limit = omega (arith, h.base, h.limit, h.g, h.d, h.p, h.dpl, h.s, h.k, h.c, h.r, h.a);
    get_g = omega (arith, h.base, h.limit, h.g, h.d, h.p, h.dpl, h.s, h.k, h.c, h.r, h.a);
    get_d = omega (arith, h.base, h.limit, h.g, h.d, h.p, h.dpl, h.s, h.k, h.c, h.r, h.a);
    get_b = omega (arith, h.base, h.limit, h.g, h.d, h.p, h.dpl, h.s, h.k, h.c, h.r, h.a);
    get_p = omega (arith, h.base, h.limit, h.g, h.d, h.p, h.dpl, h.s, h.k, h.c, h.r, h.a);
    get_dpl = omega (arith, h.base, h.limit, h.g, h.d, h.p, h.dpl, h.s, h.k, h.c, h.r, h.a);
    get_s = omega (arith, h.base, h.limit, h.g, h.d, h.p, h.dpl, h.s, h.k, h.c, h.r, h.a);
    get_k = omega (arith, h.base, h.limit, h.g, h.d, h.p, h.dpl, h.s, h.k, h.c, h.r, h.a);
    get_c = omega (arith, h.base, h.limit, h.g, h.d, h.p, h.dpl, h.s, h.k, h.c, h.r, h.a);
    get_e = omega (arith, h.base, h.limit, h.g, h.d, h.p, h.dpl, h.s, h.k, h.c, h.r, h.a);
    get_r = omega (arith, h.base, h.limit, h.g, h.d, h.p, h.dpl, h.s, h.k, h.c, h.r, h.a);
    get_w = omega (arith, h.base, h.limit, h.g, h.d, h.p, h.dpl, h.s, h.k, h.c, h.r, h.a);
    get_a = omega (arith, h.base, h.limit, h.g, h.d, h.p, h.dpl, h.s, h.k, h.c, h.r, h.a);
    get_type = omega (arith, h.base, h.limit, h.g, h.d, h.p, h.dpl, h.s, h.k, h.c, h.r, h.a);
  }

  -- The two words of a descriptor stand for the record of its fields: from a record with fields in the range of their
  -- bits, each setter with any number leads to the words of the record with the number's last bits in its field
  -- and no other changed, and each getter returns its field.
  pub layout-Fields : (v : ℕ) → Sets f v × Gets f
  layout-Fields v = (layout-Sets v, layout-Gets)

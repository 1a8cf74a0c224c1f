-- ===== src/Kernel/Mmu/Tests.antt =====
-- A code segment of 4 GB, as kernel/mmu.cc writes it, and the theorems at it.
use net_os.Base.{◌≡◌, refl, arith}
use net_os.Kernel.Mmu.{
  Descriptor, set_code_descriptor, set_data_descriptor, mms, set_null_descriptor, set_base,
  set_limit, set_trap_descriptor, set_interrupt_descriptor, set_tss_descriptor, set_g, set_d, set_p,
  set_dpl, set_s, set_k, set_c, set_r, set_a,
}
use net_os.Kernel.Mmu.Segments.{Segment, layout, Fits, Sets, Gets, layout-Fields}
use net_os.Kernel.Mmu.Descriptors.{Covers, gate, segments-Covers, gates_lem}

abbrev blank : Descriptor
blank = record { f0 = 0; f1 = 0 }

code_words : set_code_descriptor 0 0xffffffff 0 blank ≡ record { f0 = 0xffff; f1 = 0xcf9e00 }
unfolding set_code_descriptor set_null_descriptor mms set_base set_limit set_g set_d set_p set_dpl
    set_s set_k set_c set_r set_a
code_words = refl

segments-Covers_example :
    Covers 0x1000 0xffffffff 3 1 (set_code_descriptor 0x1000 0xffffffff 3 blank)
    × Covers 0x1000 0xffffffff 3 0 (set_data_descriptor 0x1000 0xffffffff 3 blank)
segments-Covers_example =
    segments-Covers 0x1000 0xffffffff 3 blank (omega arith) (omega arith) (omega arith)

abbrev user_code : Segment
user_code = record {
  base = 0x12345678;
  limit = 0xfffff;
  g = 1;
  d = 1;
  p = 1;
  dpl = 3;
  s = 1;
  k = 1;
  c = 1;
  r = 1;
  a = 0;
}

user_code-Fits : Fits user_code
user_code-Fits = record {
  base = omega arith;
  limit = omega arith;
  g = omega arith;
  d = omega arith;
  p = omega arith;
  dpl = omega arith;
  s = omega arith;
  k = omega arith;
  c = omega arith;
  r = omega arith;
  a = omega arith;
}

layout-Fields_example : Sets user_code 6 × Gets user_code
layout-Fields_example = layout-Fields user_code user_code-Fits 6

gates_example :
    (set_trap_descriptor 8 0xc0101234 3 blank ≡ gate 8 0xc0101234 3 0xf)
    × (set_interrupt_descriptor 8 0xc0101234 3 blank ≡ gate 8 0xc0101234 3 0xe)
    × (set_tss_descriptor 0x80001000 104 blank
        ≡ layout (record {
          base = 0x80001000;
          limit = 104;
          g = 0;
          d = 0;
          p = 1;
          dpl = 0;
          s = 0;
          k = 1;
          c = 0;
          r = 0;
          a = 1;
        }))
gates_example =
    gates_lem 8 0xc0101234 3 0x80001000 104 blank (omega arith) (omega arith) (omega arith)
      (omega arith) (omega arith)

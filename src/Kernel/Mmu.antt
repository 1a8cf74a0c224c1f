-- ===== src/Kernel/Mmu.antt =====
-- The descriptors of kernel/mmu.cc: two words of 32 bits, whose fields are set and read through masks. A mask is
-- written as quotients and remainders by powers of 2.
pub mod Segments
pub mod Descriptors
mod Tests
use net_os.Base.{ℕ, ◌+◌, ◌-◌, ◌*◌, ◌/◌, ◌%◌, ◌^◌, ltb, if◌then◌else◌}

pub record Descriptor : Type 0 where
  pub f0 : ℕ
  pub f1 : ℕ

-- mms: the bits from `left` down to `right` of a word become the last bits of `v`.
pub mms : ℕ → ℕ → ℕ → ℕ → ℕ
mms p v left right =
    p / 2 ^ (left + 1) * 2 ^ (left + 1) + v % 2 ^ (left - right + 1) * 2 ^ right + p % 2 ^ right

-- mme: the bits from `left` down to `right`.
pub mme : ℕ → ℕ → ℕ → ℕ
mme v left right = v / 2 ^ right % 2 ^ (left - right + 1)

pub set_null_descriptor : Descriptor → Descriptor
set_null_descriptor p = record { f0 = 0; f1 = 0 }

-- A field of the second word.
abbrev pub set_f1 : ℕ → ℕ → ℕ → Descriptor → Descriptor
set_f1 left right v p = record p { f1 = mms p.f1 v left right }

pub set_p : ℕ → Descriptor → Descriptor
set_p v p = set_f1 15 15 v p

pub get_p : Descriptor → ℕ
get_p p = mme p.f1 15 15

pub set_g : ℕ → Descriptor → Descriptor
set_g v p = set_f1 23 23 v p

pub get_g : Descriptor → ℕ
get_g p = mme p.f1 23 23

pub set_d : ℕ → Descriptor → Descriptor
set_d d p = set_f1 22 22 d p

pub get_d : Descriptor → ℕ
get_d p = mme p.f1 22 22

pub set_b : ℕ → Descriptor → Descriptor
set_b d p = set_d d p

pub get_b : Descriptor → ℕ
get_b p = get_d p

pub set_selector : ℕ → Descriptor → Descriptor
set_selector selector p = record p { f0 = mms p.f0 selector 31 16 }

pub set_offset : ℕ → Descriptor → Descriptor
set_offset offset p = record { f0 = mms p.f0 offset 15 0; f1 = mms p.f1 (offset / 2 ^ 16) 31 16 }

pub set_base : ℕ → Descriptor → Descriptor
set_base base p = record {
  f0 = mms p.f0 base 31 16;
  f1 = mms (mms p.f1 (base / 2 ^ 16) 7 0) (base / 2 ^ 24) 31 24;
}

pub get_base : Descriptor → ℕ
get_base p = mme p.f0 31 16 + mme p.f1 7 0 * 2 ^ 16 + mme p.f1 31 24 * 2 ^ 24

pub set_limit : ℕ → Descriptor → Descriptor
set_limit limit p = record { f0 = mms p.f0 limit 15 0; f1 = mms p.f1 (limit / 2 ^ 16) 19 16 }

pub get_limit : Descriptor → ℕ
get_limit p = mme p.f0 15 0 + mme p.f1 19 16 * 2 ^ 16

pub set_dpl : ℕ → Descriptor → Descriptor
set_dpl dpl p = set_f1 14 13 dpl p

pub get_dpl : Descriptor → ℕ
get_dpl p = mme p.f1 14 13

pub set_s : ℕ → Descriptor → Descriptor
set_s s p = set_f1 12 12 s p

pub get_s : Descriptor → ℕ
get_s p = mme p.f1 12 12

pub set_type : ℕ → Descriptor → Descriptor
set_type t p = set_f1 11 8 t p

pub get_type : Descriptor → ℕ
get_type p = mme p.f1 11 8

-- kind: 1 for code, 0 for data.
pub set_k : ℕ → Descriptor → Descriptor
set_k v p = set_f1 11 11 v p

pub get_k : Descriptor → ℕ
get_k p = mme p.f1 11 11

pub set_c : ℕ → Descriptor → Descriptor
set_c v p = set_f1 10 10 v p

pub get_c : Descriptor → ℕ
get_c p = mme p.f1 10 10

pub set_r : ℕ → Descriptor → Descriptor
set_r v p = set_f1 9 9 v p

pub get_r : Descriptor → ℕ
get_r p = mme p.f1 9 9

pub set_a : ℕ → Descriptor → Descriptor
set_a v p = set_f1 8 8 v p

pub get_a : Descriptor → ℕ
get_a p = mme p.f1 8 8

pub set_e : ℕ → Descriptor → Descriptor
set_e v p = set_f1 10 10 v p

pub get_e : Descriptor → ℕ
get_e p = mme p.f1 10 10

pub set_w : ℕ → Descriptor → Descriptor
set_w v p = set_f1 9 9 v p

pub get_w : Descriptor → ℕ
get_w p = mme p.f1 9 9

pub set_code_descriptor : ℕ → ℕ → ℕ → Descriptor → Descriptor
set_code_descriptor base limit dpl p =
    let p = set_base base (set_null_descriptor p) in
    let p =
      if ltb 0xfffff limit
      then set_g 1 (set_limit (limit / 2 ^ 12) p)
      else set_g 0 (set_limit limit p) in
    set_a 0 (set_r 1 (set_c 1 (set_k 1 (set_s 1 (set_d 1 (set_p 1 (set_dpl dpl p)))))))

pub set_data_descriptor : ℕ → ℕ → ℕ → Descriptor → Descriptor
set_data_descriptor base limit dpl p =
    let p = set_base base (set_null_descriptor p) in
    let p =
      if ltb 0xfffff limit
      then set_limit (limit / 2 ^ 12) (set_g 1 p)
      else set_limit limit (set_g 0 p) in
    set_a 0 (set_e 0 (set_w 1 (set_k 0 (set_s 1 (set_b 1 (set_p 1 (set_dpl dpl p)))))))

pub set_tss_descriptor : ℕ → ℕ → Descriptor → Descriptor
set_tss_descriptor base limit p =
    set_type 9
      (set_s 0 (set_dpl 0 (set_p 1 (set_limit limit (set_base base (set_null_descriptor p))))))

pub set_trap_descriptor : ℕ → ℕ → ℕ → Descriptor → Descriptor
set_trap_descriptor selector offset dpl p = set_type 0xf (
    set_s 0
      (set_dpl dpl (set_p 1 (set_offset offset (set_selector selector (set_null_descriptor p))))))

pub set_interrupt_descriptor : ℕ → ℕ → ℕ → Descriptor → Descriptor
set_interrupt_descriptor selector offset dpl p = set_type 0xe (
    set_s 0
      (set_dpl dpl (set_p 1 (set_offset offset (set_selector selector (set_null_descriptor p))))))

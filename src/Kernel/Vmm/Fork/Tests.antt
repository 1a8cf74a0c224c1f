-- ===== src/Kernel/Vmm/Fork/Tests.antt =====
-- A parent with one page, 2 ^ 19, in frame 3 under its table in frame 2 and its directory in frame 1, and a blank
-- child with its directory in frame 4; and the theorem at them.
use net_os.Base.{ℕ, ◌+◌, ◌*◌, ◌≡◌, refl, ◌==◌, if◌then◌else◌, arith, Bool-cases, inl, inr}
use net_os.Kernel.Vmm.{Phys}
use net_os.Kernel.Vmm.Frames.{Plan, Planned, unused}
use net_os.Kernel.Vmm.Space.{IsSpace, directory, table}

abbrev pub memory : ℕ → ℕ → ℕ
memory f i =
    if f == 1
    then (if i == 512 then 2 * 4096 + 7 else 0)
    else if f == 2
    then (if i == 0 then 3 * 4096 + 7 else 0)
    else if f == 3
    then 42
    else 0

abbrev pub phys : Phys
phys = record { mem = memory; first_free = 0; avail = 5 * 4096; limit = 16 * 4096 }

abbrev roles : ℕ → ℕ
roles f =
    if f == 1
    then directory 0
    else if f == 2
    then table 0 512
    else if f == 3
    then 0
    else if f == 4
    then directory 1
    else unused

abbrev pub plan : Plan
plan = record { w = λ j. 0; m = 0; fresh = 5; last = 16; role = roles }

pub phys-Planned : Planned plan phys
phys-Planned = record {
  first = refl;
  link = λ j l. absurd (omega (arith, l));
  listed_role = λ j l. absurd (omega (arith, l));
  not_zero = λ j l. absurd (omega (arith, l));
  in_memory = λ j l. absurd (omega (arith, l));
  avail_is = refl;
  limit_is = refl;
  some_used = omega arith;
  below = omega arith;
  fits = omega arith;
  unused_role = λ f a b. ground (arith, a);
}

pub parent-IsSpace : IsSpace 0 1 plan phys
parent-IsSpace = record {
  small = omega arith;
  is_directory = refl;
  is_table = λ i l e. elim (Bool-cases (i == 512)) [
    | inl at ↦ let e : i ≡ 512 = ground (arith, at) in rw e refl
    | inr other ↦ absurd (cc (rw other at e))
  ];
}

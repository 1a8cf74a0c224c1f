-- ===== src/Kernel/Vmm/Exec/Tests.antt =====
-- The address space with one page of Kernel.Vmm.Fork.Tests, and the theorem at it.
use net_os.Base.{ℕ, ◌+◌, ◌*◌, ◌/◌, ◌%◌, ◌^◌, ◌<◌, ◌≡◌, refl, ◌==◌, arith, Bool-cases, inl, inr}
use net_os.Kernel.Vmm.{exec}
use net_os.Kernel.Vmm.Frames.{Plan, left}
use net_os.Kernel.Vmm.Pages.{pages_under}
use net_os.Kernel.Vmm.Fork.Tests.{phys, plan, phys-Planned, parent-IsSpace, memory}
use net_os.Kernel.Vmm.Exec.{OwnPages, Dropped, page}
use net_os.Kernel.Vmm.Exec.Loops.{exec-Dropped}

-- The one page is 2 ^ 19.
only : (c : ℕ) → c < 2 ^ 20 → page phys 1 c % 2 ≡ 1 → c ≡ 2 ^ 19
only c l odd = elim (Bool-cases (c * 4096 / 2 ^ 22 % 1024 == 512)) [
  | inr other ↦ absurd (cc (rw other at odd))
  | inl at ↦ elim (Bool-cases (c * 4096 / 4096 % 1024 == 0)) [
    | inl first ↦ ground (arith, at, first, l)
    | inr none ↦ absurd (cc (rw (at, none) at odd))
  ]
]

own_pages : OwnPages 1 plan phys
own_pages = record {
  data_frame = λ c a l odd. let e = only c l odd in rw e refl;
  inside = λ c a l odd. let e = only c l odd in rw e (omega arith);
  positive = λ c a l odd. let e = only c l odd in rw e (omega arith);
  apart = λ c c' a b l odd odd'.
      absurd (omega (arith, only c (omega (arith, b, l)) odd, only c' l odd', b));
}

exec-Dropped_example :
    (g : Plan) × Dropped 0 1 plan phys (2 ^ 20) g (exec (1 * 4096) phys)
    × (left g ≡ left plan + pages_under memory 1 512)
exec-Dropped_example = exec-Dropped 0 1 plan phys phys-Planned parent-IsSpace own_pages

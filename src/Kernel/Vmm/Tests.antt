-- ===== src/Kernel/Vmm/Tests.antt =====
-- A memory of 8 frames, of which frame 1 is the directory of a space without tables, and the theorems at it.
use net_os.Base.{
  ℕ, ◌*◌, ◌^◌, ◌≤◌, ◌<◌, ◌≡◌, refl, ◌⊎◌, true, false, none, some, ◌==◌, if◌then◌else◌, ltb, arith,
}
use net_os.Kernel.Vmm.{Phys, pmap, make_space, handle_page_fault, mapped, killed}
use net_os.Kernel.Vmm.Frames.{Plan, Planned, unused}
use net_os.Kernel.Vmm.Space.{IsSpace, Grows, entry, directory}
use net_os.Kernel.Vmm.Walk.{Sets, page_entry, pmap-Sets}
use net_os.Kernel.Vmm.Identity.{identity, make_space-IsSpace}
use net_os.Kernel.Vmm.Demand.{GetsPage, handle_page_fault-GetsPage}

abbrev phys : Phys
phys = record { mem = λ f i. 0; first_free = 0; avail = 2 * 4096; limit = 8 * 4096 }

abbrev plan : Plan
plan = record {
  w = λ j. 0;
  m = 0;
  fresh = 2;
  last = 8;
  role = λ f. if f == 1 then directory 0 else unused;
}

phys-Planned : Planned plan phys
phys-Planned = record {
  first = refl;
  link = λ j l. absurd (omega (arith, l));
  listed_role = λ j l. absurd (omega (arith, l));
  not_zero = λ j l. absurd (omega (arith, l));
  in_memory = λ j l. absurd (omega (arith, l));
  avail_is = refl;
  limit_is = refl;
  some_used = omega arith;
  below = omega arith;
  fits = omega arith;
  unused_role = λ f a b. ground (arith, a);
}

phys-IsSpace : IsSpace 0 1 plan phys
phys-IsSpace = record {
  small = omega arith;
  is_directory = refl;
  is_table = λ i l e. absurd (omega (arith, e));
}

pmap-Sets_example :
    (g : Plan) × (s : Phys) × (pmap (1 * 4096) 0x80001000 0x7000 true false phys ≡ some s)
    × Sets 0 1 plan phys 0x80001000 (page_entry 0x7000 true false) g s
pmap-Sets_example =
    pmap-Sets phys-Planned phys-IsSpace 0x80001000 (omega arith) (omega arith) 0x7000 true false

handle_page_fault-GetsPage_example :
    ((f : ℕ) × (g : Plan) × (s : Phys) × (handle_page_fault (1 * 4096) 0x80001004 phys
        ≡ some (mapped s))
      × GetsPage 0 1 plan phys 0x80001004 f g s
      × (2 ^ 31 ≤ 0x80001004))
    ⊎ ((0x80001004 < 2 ^ 31)
        × (handle_page_fault (1 * 4096) 0x80001004 phys
            ≡ (if ltb 0x80001004 4096 then some (killed phys) else none)))
handle_page_fault-GetsPage_example =
    handle_page_fault-GetsPage phys-Planned phys-IsSpace (omega arith) 0x80001004 (omega arith)

make_space-IsSpace_example :
    (d : ℕ) × (g : Plan) × (s : Phys) × (make_space phys ≡ some (d * 4096, s))
    × IsSpace 1 d g s
    × Grows 1 plan phys g s
    × ((c : ℕ) → c < 2 ^ 20 → entry s d (c * 4096) ≡ identity 8 c)
make_space-IsSpace_example = make_space-IsSpace phys-Planned 1 (omega arith) (omega arith)

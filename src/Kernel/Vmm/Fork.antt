-- ===== src/Kernel/Vmm/Fork.antt =====
-- AddressSpace::fork of kernel/vmm.cc copies the upper half of a space.
pub mod Tests
use net_os.Base.{
  ℕ, ◌+◌, ◌*◌, ◌≤◌, ◌≡◌, ◌≢◌, ◌⊎◌, Option, none, some, if◌then◌else◌, ◌>>=◌, ==_self, ==_ne,
}
use net_os.Kernel.Vmm.{Phys}
use net_os.Kernel.Vmm.Frames.{Plan, left}
use net_os.Kernel.Vmm.Space.{IsSpace, entry_in, Busy, Apart, table, directory}
use net_os.Kernel.Vmm.Others.{Grows-trans, table-Apart, directory-Apart}
use net_os.Kernel.Vmm.Copy.{HasCopy, copy_page_lem}
use net_os.Kernel.Vmm.Pages.{OfData, Forked}

module _ (kc dc : ℕ) {kp dp : ℕ} {g₀ : Plan} {s₀ : Phys} (parent : IsSpace kp dp g₀ s₀)
    (differ : kc ≢ kp) (data_pages : OfData dp g₀ s₀) where
  abbrev Reaches : (Phys → Option Phys) → ℕ → ℕ → Plan → Phys → Type 0
  Reaches f c cost g s =
      (g' : Plan) × (s' : Phys) × (f s ≡ some s')
      × Forked kc dc dp g₀ s₀ c g' s'
      × (left g ≤ left g' + 2 * cost)

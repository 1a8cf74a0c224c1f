-- ===== src/Kernel/Process/Interrupts.antt =====
-- What disable, enable and makeReady do to a kernel with a current process.
use net_os.Base.{
  ℕ, zero, suc, ◌<◌, true, false, some, [], ◌∷◌, ◌++◌, ◌==◌, if◌then◌else◌, add32, add32_exact, ◌≡◌,
  ◌∙◌, ap, refl, arith, ==_self, ==_ne, Bool-cases, inl, inr,
}
use net_os.Kernel.Process.{Kernel, ready, update, disable, enable, enables, make_ready}

module _ {me : ℕ} (k : Kernel) (at : k.current ≡ some me) where
  pub disable_lem :
      k.disable_count me < 7
      → disable k ≡ record k {
        interrupts = false;
        disable_count = update k.disable_count me (suc (k.disable_count me));
      }
  unfolding disable
  disable_lem h =
      let e : add32 (k.disable_count me) 1 ≡ suc (k.disable_count me) =
        omega (arith, add32_exact (k.disable_count me) 1) in
      rw (at, e)

  pub enable_lem :
      (c : ℕ)
      → k.disable_count me ≡ suc c
      → enable k
        ≡ some (record k {
          disable_count = update k.disable_count me c;
          interrupts = if c == 0 then true else k.interrupts;
        })
  unfolding enable
  enable_lem zero e = rw (at, e)
  enable_lem (suc c) e =
      let z : (suc c == 0) ≡ false = ==_ne (suc c) 0 (omega arith) in rw (at, e, z)

module _ {me : ℕ} (k : Kernel) (at : k.current ≡ some me) where
  pub make_ready_lem :
      (p : ℕ)
      → k.disable_count me < 7
      → make_ready p k
        ≡ some (record k {
          state = update k.state p ready;
          ready_queue = if p == k.idle then k.ready_queue else k.ready_queue ++ p ∷ [];
          disable_count =
              update (update k.disable_count me (suc (k.disable_count me))) me (k.disable_count me);
          interrupts = if k.disable_count me == 0 then true else false;
        })
  unfolding make_ready
  make_ready_lem p h =
      let n = k.disable_count me in
      let k₁ = record k {
        state = update k.state p ready;
        interrupts = false;
        disable_count = update k.disable_count me (suc n);
      } in
      rw (disable_lem k at h) (elim (Bool-cases (p == k.idle)) [
        | inl e ↦ rw e (enable_lem k₁ at n (rw (==_self me)))
        | inr e ↦ rw e (
            enable_lem (record k₁ { ready_queue = k.ready_queue ++ p ∷ [] }) at n (rw (==_self me)))
      ])

-- `n` calls of enable take the count from `n` to 0, and turn the interrupts on.
pub enables_lem :
    (n : ℕ) {me : ℕ} (k : Kernel)
    → k.current ≡ some me
    → k.disable_count me ≡ n
    → (count : ℕ → ℕ) × (enables n k
        ≡ some (record k {
          disable_count = count;
          interrupts = if n == 0 then k.interrupts else true;
        }))
      × ((p : ℕ) → count p ≡ (if p == me then 0 else k.disable_count p))
unfolding enables
enables_lem zero {me} k at e = (k.disable_count, refl, λ p. ground arith)
enables_lem (suc n) {me} k at e =
    let count = update k.disable_count me n in
    let k' = record k {
      disable_count = count;
      interrupts = if n == 0 then true else k.interrupts;
    } in
    let (count', runs, zeroed) = enables_lem n k' at (ground arith) in
    let on : (if n == 0 then (if n == 0 then true else k.interrupts) else true) ≡ true =
      ground arith in
    let more : (suc n == 0) ≡ false = ==_ne (suc n) 0 (omega arith) in
    (
      count',
      rw (enable_lem k at n e, more)
          (runs ∙ ap (λ b. some (record k' { disable_count = count'; interrupts = b })) on),
      λ p. ground (arith, zeroed p),
    )

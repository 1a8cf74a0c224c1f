-- ===== src/Kernel/Timers/Sorted.antt =====
-- The order of the timers of kernel/process.cc.
use net_os.Base.{
  ℕ, ◌^◌, ◌≤◌, ◌<◌, ◌≡◌, refl, false, List, [], ◌∷◌, ◌++◌, ◌==◌, ltb, if◌then◌else◌, arith,
  Bool-cases, inl, inr,
}
use net_os.Kernel.Timers.{Timer, insert}

-- The targets rise from above `b` on, below 2 ^ 32.
pub data Rises : ℕ → List Timer → Type 0 where
  none_left : {b : ℕ} → Rises b []
  later :
      {b : ℕ} {t : Timer} {ts : List Timer}
      → b < t.target
      → t.target < 2 ^ 32
      → Rises t.target ts
      → Rises b (t ∷ ts)

-- The processes that wait for a target.
unfoldable pub waits_for : ℕ → List Timer → List ℕ
waits_for target [] = []
waits_for target (t ∷ ts) =
    let rest = waits_for target ts in if t.target == target then t.waiting else rest

pub waits_for_past :
    {b : ℕ} {ts : List Timer} → Rises b ts → (target : ℕ) → target ≤ b → waits_for target ts ≡ []
unfolding waits_for
waits_for_past none_left target l = refl
waits_for_past (later {t = t} a u r) target l =
    let other : (t.target == target) ≡ false = ground (arith, a, l) in
    rw other (waits_for_past r target (omega (arith, a, l)))

pub insert-Rises :
    {b : ℕ} {ts : List Timer}
    → Rises b ts
    → (target me : ℕ) → b < target
    → target < 2 ^ 32
    → Rises b (insert target me ts)
unfolding insert
insert-Rises none_left target me a u = later a u none_left
insert-Rises (later {t = t} c v r) target me a u = elim (Bool-cases (t.target == target)) [
  | inl e ↦ rw e (later c v r)
  | inr e ↦ elim (Bool-cases (ltb target t.target)) [
    | inl l ↦ rw (e, l) (later a u (later (ground (arith, l)) v r))
    | inr l ↦ rw (e, l) (later c v (insert-Rises r target me (ground (arith, e, l)) u))
  ]
]

-- A process that goes to sleep is the last of its target, and no other target changes.
pub waits_for-insert :
    {b : ℕ} {ts : List Timer}
    → Rises b ts
    → (target me u : ℕ)
    → waits_for u (insert target me ts)
      ≡ (if target == u then waits_for u ts ++ me ∷ [] else waits_for u ts)
unfolding waits_for insert
waits_for-insert none_left target me u = refl
waits_for-insert (later {t = t} {ts = ts} c v r) target me u =
    elim (Bool-cases (t.target == target)) [
      | inl e ↦ rw e (ground (arith, e))
      | inr e ↦ elim (Bool-cases (ltb target t.target)) [
        | inl l ↦ elim (Bool-cases (target == u)) [
          | inl q ↦
              let other : (t.target == u) ≡ false = ground (arith, l, q) in
              rw (e, l, q, other, waits_for_past r u (ground (arith, l, q))) refl
          | inr q ↦ rw (e, l, q) refl
        ]
        | inr l ↦ rw (e, l) (ground (arith, e, l, waits_for-insert r target me u))
      ]
    ]

pub Rises-from :
    {b : ℕ} {t : Timer} {ts : List Timer}
    → Rises b (t ∷ ts)
    → (n : ℕ) → n < t.target
    → Rises n (t ∷ ts)
Rises-from (later a u r) n l = later l u r

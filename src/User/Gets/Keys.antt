-- ===== src/User/Gets/Keys.antt =====
-- What the keys do in gets of user/libc.c: the block holds the line before and after.
use net_os.Base.{
  ℕ, ◌+◌, ◌-◌, ◌≤◌, ◌<◌, ◌≡◌, ◌≢◌, refl, Option, some, List, [], ◌∷◌, ◌++◌, ltb, leb, if◌then◌else◌,
  arith, Bool-cases, inl, inr, length, get_or,
}
use net_os.User.Gets.{Vars, grow, left, right}
use net_os.User.Gets.Line.{get_or-behind}
use net_os.User.Gets.Loops.{clear_lem}

-- The block holds the line and zeros behind it.
pub record Ready (p : ℕ → ℕ) (sz : ℕ) (text : List ℕ) (i : ℕ) : Type 0 where
  pub inside : i ≤ length text
  pub room : length text ≤ sz
  pub ten : 10 ≤ sz
  pub holds : (k : ℕ) → k ≤ sz → p k ≡ get_or text k 0
  pub no_nul : (k : ℕ) → k < length text → get_or text k 0 ≢ 0

-- The same where the block may have to grow first.
pub record Before (p : ℕ → ℕ) (sz : ℕ) (text : List ℕ) (i : ℕ) : Type 0 where
  pub inside : i ≤ length text
  pub room : length text ≤ sz
  pub holds : (k : ℕ) → k < length text → p k ≡ get_or text k 0
  pub rest : i < sz → Ready p sz text i
  pub no_nul : (k : ℕ) → k < length text → get_or text k 0 ≢ 0

pub Ready-Before :
    {p : ℕ → ℕ} {sz : ℕ} {text : List ℕ} {i : ℕ} → Ready p sz text i → Before p sz text i
Ready-Before h = record {
  inside = h.inside;
  room = h.room;
  holds = λ k l. h.holds k (omega (arith, l, h.room));
  rest = λ l. h;
  no_nul = h.no_nul;
}

pub move :
    {p : ℕ → ℕ} {sz : ℕ} {text : List ℕ} {i : ℕ}
    → Ready p sz text i
    → (j : ℕ) → j ≤ length text
    → Ready p sz text j
move h j l = record { inside = l; room = h.room; ten = h.ten; holds = h.holds; no_nul = h.no_nul }

abbrev pub vars : (ℕ → ℕ) → ℕ → ℕ → List ℕ → List ℕ → Vars
vars p sz i text out = record { p = p; sz = sz; i = i; realsz = length text; out = out }

-- That a step ends with the line `text` and the cursor at `i`.
abbrev pub Ends : Option Vars → List ℕ → ℕ → Type 0
Ends r text i =
    (p : ℕ → ℕ) × (sz : ℕ) × (out : List ℕ) × (r ≡ some (vars p sz i text out)) × Ready p sz text i

module _ {p : ℕ → ℕ} {sz : ℕ} {text : List ℕ} {i : ℕ} where
  pub grow_lem :
      (junk : ℕ → ℕ) (out : List ℕ)
      → Before p sz text i
      → (p' : ℕ → ℕ) × (sz' : ℕ) × (grow junk (vars p sz i text out)
          ≡ some (vars p' sz' i text out))
        × Ready p' sz' text i
        × (i < sz')
  unfolding grow
  grow_lem junk out h = elim (Bool-cases (leb sz i)) [
    | inl e ↦
        let full : sz ≡ length text = ground (arith, e, h.inside, h.room) in
        let p₁ : ℕ → ℕ = λ k. if ltb k (sz + 1) then p k else junk k in
        let (p', runs, at) =
          clear_lem (sz + 10) p₁ (sz + 10 + 1 - length text) (length text)
            (omega (arith, h.room)) in
        (
          p',
          sz + 10,
          rw (e, runs) refl,
          record {
            inside = h.inside;
            room = omega (arith, h.room);
            ten = omega arith;
            holds = λ k l. ground (arith, l, at k, h.holds k, get_or-behind text k, full);
            no_nul = h.no_nul;
          },
          omega (arith, full, h.inside),
        )
    | inr e ↦ let l : i < sz = ground (arith, e) in (p, sz, rw e refl, h.rest l, l)
  ]

  module _ (h : Ready p sz text i) (l : i < sz) (out : List ℕ) where
    pub left_lem : Ends (some (left (vars p sz i text out))) text (i - 1)
    unfolding left
    left_lem = elim (Bool-cases (ltb 0 i)) [
      | inl e ↦ (p, sz, out ++ 240 ∷ [], rw e refl, move h (i - 1) (omega (arith, h.inside)))
      | inr e ↦ let z : i - 1 ≡ i = ground (arith, e) in rw (e, z) (p, sz, out, refl, h)
    ]

    pub right_lem :
        Ends (some (right (vars p sz i text out))) text (if ltb i (length text) then i + 1 else i)
    unfolding right
    right_lem = elim (Bool-cases (ltb i (length text))) [
      | inl e ↦ (p, sz, out ++ 241 ∷ [], rw e refl, move h _ (ground (arith, e)))
      | inr e ↦ rw e (p, sz, out, refl, h)
    ]

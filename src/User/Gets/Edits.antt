-- ===== src/User/Gets/Edits.antt =====
-- gets of user/libc.c edits a line.
use net_os.Base.{
  ℕ, suc, ◌+◌, ◌≤◌, ◌<◌, ◌≡◌, refl, ap, ◌∙◌, Bool, true, false, Option, some, List, [], ◌∷◌, ◌++◌,
  ◌==◌, ◌||◌, ◌&&◌, arith, ◌>>=◌, Bool-cases, inl, inr, slice, slice-shift, length, get_or,
}
use net_os.User.Gets.{Vars, Turn, again, returned, handle, gets_loop, gets, enter, type}
use net_os.User.Gets.Line.{
  Key, to_left, to_right, nothing, rub_out, done, typed, key_of, edit, line, fits, allowed,
  get_or-behind, Result, entered, editing, unless_done,
}
use net_os.User.Gets.Keys.{Ready, Before, Ready-Before, Ends, vars, grow_lem, left_lem, right_lem}
use net_os.User.Gets.Changes.{backspace_lem, enter_lem, type_lem}

-- What gets returns for the line `text`: a string in its block.
pub record Entered (text : List ℕ) (l : Vars) : Type 0 where
  pub string : slice l.p 0 (length text) ≡ text
  pub ended : l.p (length text) ≡ 0
  pub fits : length text ≤ l.sz

abbrev Goes : Option Turn → List ℕ × ℕ → Type 0
Goes r (text, i) =
    (p : ℕ → ℕ) × (sz : ℕ) × (out : List ℕ) × (r ≡ some (again (vars p sz i text out)))
    × Ready p sz text i

abbrev Turned : Key → List ℕ → ℕ → Option Turn → Type 0
Turned done text i r = (l : Vars) × (r ≡ some (returned l)) × Entered text l
Turned key text i r = Goes r (edit key text i)

on-Goes :
    (r : Option Vars) (text : List ℕ) (i : ℕ)
    → Ends r text i
    → Goes (do l ← r; some (again l)) (text, i)
on-Goes r text i (p, sz, out, e, h) = (p, sz, out, rw e refl, h)

slice-get_or : (text : List ℕ) → slice (λ k. get_or text k 0) 0 (length text) ≡ text
slice-get_or [] = refl
slice-get_or (x ∷ text) =
    ap (λ l. x ∷ l)
      (slice-shift (λ k. get_or (x ∷ text) k 0) (λ k. get_or text k 0) 1 0 (length text)
          (λ i l.
            let e : 1 + i ≡ suc i = omega arith in
            let e' : 0 + i ≡ i = omega arith in rw (e, e') refl)
        ∙ slice-get_or text)

module _ {p : ℕ → ℕ} {sz : ℕ} {text : List ℕ} {i : ℕ} (h : Ready p sz text i) (l : i < sz)
    (out : List ℕ) where
  enters :
      (r : Option Vars)
      → r ≡ enter (vars p sz i text out)
      → Turned done text i (do l ← r; some (returned l))
  enters r same =
      let (p', e, at) = enter_lem h l out in
      let z : 0 + length text ≡ length text = omega arith in
      (
        record { p = p'; sz = sz; i = i; realsz = length text + 1; out = out ++ 13 ∷ 10 ∷ [] },
        rw (same, e) refl,
        record {
          string =
              slice-shift p' (λ k. get_or text k 0) 0 0 (length text)
                (λ k b. let e : 0 + k ≡ k = omega arith in rw e (at k (omega (arith, b, h.room))))
              ∙ slice-get_or text;
          ended = at (length text) h.room ∙ get_or-behind text (length text) (omega arith);
          fits = h.room;
        },
      )

  type_turn :
      (c : ℕ)
      → allowed (typed c) text i ≡ true
      → Goes (do l ← type c (vars p sz i text out); some (again l)) (edit (typed c) text i)
  type_turn c ok =
      on-Goes _ _ _
        (type_lem h l out c (ground (arith, ok)) (ground (arith, ok, h.ten, h.inside, l)))

  handle_lem :
      (c : ℕ)
      → allowed (key_of c) text i ≡ true
      → Turned (key_of c) text i (handle c (vars p sz i text out))
  unfolding key_of handle
  handle_lem c = elim (Bool-cases (c == 240)) [
    | inl e ↦ rw e (λ ok. on-Goes _ _ _ (left_lem h l out))
    | inr e₁ ↦ elim (Bool-cases (c == 241)) [
      | inl e ↦ rw (e₁, e) (λ ok. on-Goes _ _ _ (right_lem h l out))
      | inr e₂ ↦ elim (Bool-cases ((c == 242) || (c == 243))) [
        | inl e ↦ rw (e₁, e₂, e) (λ ok. (p, sz, out, refl, h))
        | inr e₃ ↦ elim (Bool-cases (c == 254)) [
          | inl e ↦ rw (e₁, e₂, e₃, e) (λ ok. (p, sz, _, refl, h))
          | inr e₄ ↦ elim (Bool-cases (c == 253)) [
            | inl e ↦ rw (e₁, e₂, e₃, e₄, e) (λ ok. (p, sz, _, refl, h))
            | inr e₅ ↦ elim (Bool-cases ((c == 8) || (c == 127))) [
              | inl e ↦ rw (e₁, e₂, e₃, e₄, e₅, e) (λ ok. on-Goes _ _ _ (backspace_lem h l out))
              | inr e₆ ↦ elim (Bool-cases (c == 13)) [
                | inl e ↦ rw (e₁, e₂, e₃, e₄, e₅, e₆, e) (λ ok. enters _ refl)
                | inr e₇ ↦ rw (e₁, e₂, e₃, e₄, e₅, e₆, e₇) (λ ok. type_turn c ok)
              ]
            ]
          ]
        ]
      ]
    ]
  ]

-- What gets does for what comes of the line: it returns, or waits with the line in the block.
abbrev pub Answers : Option Turn → Result → Type 0
Answers r (entered text) = (l : Vars) × (r ≡ some (returned l)) × Entered text l
Answers r (editing text i) = Goes r (text, i)

both : (a b : Bool) → (a && b) ≡ true → (a ≡ true) × (b ≡ true)
both false b e = absurd (cc e)
both true b e = (refl, e)

module _ (junk : ℕ → ℕ) where
  abbrev Rest : List ℕ → List ℕ × ℕ → Type 0
  Rest keys (text, i) =
      (p : ℕ → ℕ) (sz : ℕ) (out : List ℕ)
      → Ready p sz text i
      → Answers (gets_loop junk keys (vars p sz i text out)) (line keys text i)

  abbrev after : List ℕ → Turn → Option Turn
  after keys t = elim t [ again l ↦ gets_loop junk keys l | returned l ↦ some (returned l) ]

  on :
      (keys : List ℕ) (r : Option Turn) (z : List ℕ × ℕ)
      → Goes r z
      → Rest keys z
      → Answers (do t ← r; after keys t) (line keys z.0 z.1)
  on keys r (text, i) (p, sz, out, e, h) rest = rw e (rest p sz out h)

  next :
      (keys : List ℕ) (key : Key) (text : List ℕ) (i : ℕ) (r : Option Turn)
      → Turned key text i r
      → Rest keys (edit key text i)
      → Answers
          (do t ← r; after keys t)
          (unless_done key text (line keys (edit key text i).0 (edit key text i).1))
  next keys done text i r (l, e, h) rest = (l, rw e refl, h)
  next keys to_left text i r t rest = on keys r _ t rest
  next keys to_right text i r t rest = on keys r _ t rest
  next keys nothing text i r t rest = on keys r _ t rest
  next keys rub_out text i r t rest = on keys r _ t rest
  next keys (typed c) text i r t rest = on keys r _ t rest

  gets_loop-line :
      (keys : List ℕ) (p : ℕ → ℕ) (sz : ℕ) (text : List ℕ) (i : ℕ) (out : List ℕ)
      → Before p sz text i
      → fits keys text i ≡ true
      → Answers (gets_loop junk keys (vars p sz i text out)) (line keys text i)
  unfolding gets_loop line fits
  gets_loop-line [] p sz text i out h ok =
      let (p', sz', grown, h', l) = grow_lem junk out h in (p', sz', out, rw grown refl, h')
  gets_loop-line (c ∷ keys) p sz text i out h ok =
      let (p', sz', grown, h', l) = grow_lem junk out h in
      let (here, rest) = both (allowed (key_of c) text i) _ ok in
      rw grown (
        next keys (key_of c) text i (handle c (vars p' sz' i text out)) (handle_lem h' l out c here)
          (λ p sz out h. gets_loop-line keys p sz _ _ out (Ready-Before h) rest))

-- gets edits a line: whatever characters come, if none of them is 0 and none is put inside a line of 10
-- characters or more, it makes no access outside its block, and when the line editor enters a line,
-- gets returns that line as a string in its block, whatever realloc leaves behind the old bytes; while
-- the line is still edited, gets waits with the line in the block, zeros behind it, and the cursor in its place.
pub gets-line :
    (junk : ℕ → ℕ) (keys : List ℕ)
    → fits keys [] 0 ≡ true
    → Answers (gets junk keys) (line keys [] 0)
unfolding gets
gets-line junk keys ok =
    gets_loop-line junk keys junk 0 [] 0 []
      (record {
        inside = omega arith;
        room = omega arith;
        holds = λ k l. absurd (omega (arith, l));
        rest = λ l. absurd (omega (arith, l));
        no_nul = λ k l. absurd (omega (arith, l));
      })
      ok

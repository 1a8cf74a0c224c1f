-- ===== src/Kernel/Keyboard/Codes.antt =====
-- What a single code of kernel/kbd.cc does to the state, and what the release of a key does.
use net_os.Base.{
  ℕ, ◌≤◌, ◌<◌, ◌≡◌, ◌≢◌, refl, sym, ap, ◌∙◌, Bool, true, false, ◌&&◌, ◌||◌, Option, none, some,
  List, [], ◌∷◌, ◌==◌, ==_ne, eq_of_==, leb, if◌then◌else◌, arith, Bool-cases, Option-cases, inl,
  inr,
}
use net_os.Kernel.Keyboard.{
  Keyboard, switch, arrows, controls, keys, plain, modifier, key, kbd_get, handler,
}

-- All the cases of a switch are below 128.
abbrev AllPresses : List (ℕ × ℕ) → Type 0
AllPresses [] = Unit
AllPresses ((k, v) ∷ cases) = (k < 128) × AllPresses cases

switch-release : (t : List (ℕ × ℕ)) (b : ℕ) → AllPresses t → 128 ≤ b → switch t b ≡ none
unfolding switch
switch-release [] b h l = refl
switch-release ((k, v) ∷ t) b h l = rw (==_ne b k (omega (arith, h.0))) (switch-release t b h.1 l)

key-release : (b : ℕ) (s : Keyboard) → 128 ≤ b → key b s ≡ (255, modifier b s)
unfolding key
key-release b s l =
    rw
      (
        leb_release b l,
        switch-release keys b (omega arith) l,
        switch-release plain b (omega arith) l,
      )
      refl
  where
    leb_release : (b : ℕ) → 128 ≤ b → (leb 0x02 b && leb b 0x0a) ≡ false
    leb_release b l = ground arith

if_none : (c : Bool) {o : Option ℕ} → o ≡ none → (if c then o else none) ≡ none
if_none true e = e
if_none false e = refl

-- The release of a key, a code from 128 on other than 0xe0, types nothing in any state, and changes
-- the state only as the modifier keys do.
kbd_get-release : (b : ℕ) (s : Keyboard) → 128 ≤ b → b ≢ 0xe0 → kbd_get b s ≡ (255, modifier b s)
unfolding kbd_get
kbd_get-release b s l h =
    rw
      (
        ==_ne b 0xe0 h,
        if_none s.direction (switch-release arrows b (omega arith) l),
        if_none s.control (switch-release controls b (omega arith) l),
      )
      (key-release b s l)

-- What a code makes of `shift`.
pub shift_of : ℕ → Bool → Bool
shift_of b old =
    if (b == 0x2a) || (b == 0x36) then true else if (b == 0xaa) || (b == 0xb6) then false else old

-- No case of a switch is a shift key.
abbrev NoShift : List (ℕ × ℕ) → Type 0
NoShift [] = Unit
NoShift ((k, v) ∷ cases) = (k ≢ 0x2a) × (k ≢ 0x36) × (k < 0xaa) × NoShift cases

shift_of-other : (b : ℕ) (x : Bool) → b ≢ 0x2a → b ≢ 0x36 → b < 0xaa → shift_of b x ≡ x
unfolding shift_of
shift_of-other b x h i l = ground arith

switch-shift :
    (t : List (ℕ × ℕ)) (b c : ℕ) (x : Bool) → NoShift t → switch t b ≡ some c → shift_of b x ≡ x
unfolding switch
switch-shift [] b c x h e = absurd (cc e)
switch-shift ((k, v) ∷ t) b c x (h₁, h₂, l, h) e = elim (Bool-cases (b == k)) [
  | inl q ↦ rw (eq_of_== b k q) (shift_of-other k x h₁ h₂ l)
  | inr q ↦ switch-shift t b c x h (rw q at e)
]

by_shift :
    (b : ℕ) (s : Keyboard)
    → (if (b == 0x2a) || (b == 0x36)
        then record s { shift = true }
        else if (b == 0xaa) || (b == 0xb6)
        then record s { shift = false }
        else s).shift
      ≡ shift_of b s.shift
unfolding shift_of
by_shift b s = elim (Bool-cases ((b == 0x2a) || (b == 0x36))) [
  | inl q ↦ rw q refl
  | inr q ↦ elim (Bool-cases ((b == 0xaa) || (b == 0xb6))) [
    | inl r ↦ rw (q, r) refl
    | inr r ↦ rw (q, r) refl
  ]
]

modifier-shift : (b : ℕ) (s : Keyboard) → (modifier b s).shift ≡ shift_of b s.shift
unfolding modifier shift_of
modifier-shift b s = elim (Bool-cases (b == 0x1d)) [
  | inl q ↦ rw (eq_of_== b 0x1d q) refl
  | inr q ↦ elim (Bool-cases (b == 0x9d)) [
    | inl r ↦ rw (eq_of_== b 0x9d r) refl
    | inr r ↦ rw (q, r) (by_shift b s)
  ]
]

key-shift : (b : ℕ) (s : Keyboard) → (key b s).1.shift ≡ shift_of b s.shift
unfolding key
key-shift b s = elim (Bool-cases (leb 0x02 b && leb b 0x0a)) [
  | inl q ↦
      rw q
        (sym (shift_of-other b s.shift (ground (arith, q)) (ground (arith, q)) (ground (arith, q))))
  | inr q ↦ elim (Option-cases (switch keys b)) [
    | inr (c, e) ↦ rw (q, e) (sym (switch-shift keys b c s.shift (omega arith) e))
    | inl e ↦ elim (Option-cases (switch plain b)) [
      | inr (c, e') ↦ rw (q, e, e') (sym (switch-shift plain b c s.shift (omega arith) e'))
      | inl e' ↦ rw (q, e, e') (modifier-shift b s)
    ]
  ]
]

if_some : (c : Bool) {o : Option ℕ} {v : ℕ} → (if c then o else none) ≡ some v → o ≡ some v
if_some true e = e
if_some false e = absurd (cc e)

prefix : (x : Bool) → x ≡ shift_of 0xe0 x
unfolding shift_of
prefix x = refl

pub kbd_get-shift : (b : ℕ) (s : Keyboard) → (kbd_get b s).1.shift ≡ shift_of b s.shift
unfolding kbd_get
kbd_get-shift b s = elim (Bool-cases (b == 0xe0)) [
  | inl q ↦ rw (eq_of_== b 0xe0 q) (prefix s.shift)
  | inr q ↦ elim (Option-cases (if s.direction then switch arrows b else none)) [
    | inr (c, e) ↦
        rw (q, e) (sym (switch-shift arrows b c s.shift (omega arith) (if_some s.direction e)))
    | inl e ↦ elim (Option-cases (if s.control then switch controls b else none)) [
      | inr (c, e') ↦
          rw (q, e, e')
            (sym (switch-shift controls b c s.shift (omega arith) (if_some s.control e')))
      | inl e' ↦ rw (q, e, e') (key-shift b s)
    ]
  ]
]

-- `shift` as the codes set it, one after the other.
shift_after : List ℕ → Bool → Bool
unfolding shift_of
shift_after [] x = x
shift_after (b ∷ codes) x = shift_after codes (shift_of b x)

-- After any codes in any state, `shift` is as the last code of a shift key set it: pressed by 0x2a and
-- 0x36, released by 0xaa and 0xb6, and as before when there was none.
handler-shift :
    (codes : List ℕ) (s : Keyboard) → (handler codes s).1.shift ≡ shift_after codes s.shift
unfolding handler shift_after
handler-shift [] s = refl
handler-shift (b ∷ codes) s =
    handler-shift codes (kbd_get b s).1 ∙ ap (shift_after codes) (kbd_get-shift b s)

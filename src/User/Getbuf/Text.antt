-- ===== src/User/Getbuf/Text.antt =====
-- A text with a cursor, and what the keys of an editor do to it.
use net_os.Base.{
  ℕ, ◌+◌, ◌-◌, ◌≢◌, ◌≤◌, ◌≡◌, true, ◌||◌, min, List, [], ◌∷◌, ◌++◌, ◌==◌, if◌then◌else◌, take, drop,
  length,
}
use net_os.User.Memory.Laws.{NoNul}
use net_os.User.Edit.Spec.{AllNoNul, text_of}

-- The lines above the cursor's, from the nearest, its line, the lines below, and its place in the line.
pub record Text : Type 0 where
  pub above : List (List ℕ)
  pub line : List ℕ
  pub below : List (List ℕ)
  pub at : ℕ

pub record IsText (t : Text) : Type 0 where
  pub above : AllNoNul t.above
  pub line : NoNul t.line
  pub below : AllNoNul t.below
  pub inside : t.at ≤ length t.line

-- All lines, from the first.
unfoldable pub all : List (List ℕ) → List (List ℕ) → List (List ℕ)
all [] lines = lines
all (line ∷ above) lines = all above (line ∷ lines)

-- A key: the text goes on, is saved, or is left.
pub data Does : Type 0 where
  edits : Text → Does
  saves : List ℕ → Text → Does
  leaves : Text → Does

abbrev pub above_line : Text → Text
above_line t = elim t.above [
  | [] ↦ t
  | l ∷ above ↦ record {
    above = above;
    line = l;
    below = t.line ∷ t.below;
    at = min (length l) t.at;
  }
]

abbrev pub below_line : Text → Text
below_line t = elim t.below [
  | [] ↦ t
  | l ∷ below ↦ record {
    above = t.line ∷ t.above;
    line = l;
    below = below;
    at = min (length l) t.at;
  }
]

abbrev pub split_line : Text → Text
split_line t = record {
  above = take t.at t.line ∷ t.above;
  line = drop t.at t.line;
  below = t.below;
  at = 0;
}

abbrev pub insert_char : ℕ → Text → Text
insert_char c t = record t { line = take t.at t.line ++ c ∷ drop t.at t.line; at = t.at + 1 }

unfoldable pub key_effect : ℕ → Text → Does
key_effect c t =
    if c == 0xf0
    then edits (record t { at = t.at - 1 })
    else if c == 0xf1
    then edits (record t { at = min (length t.line) (t.at + 1) })
    else if c == 0xf2
    then edits (above_line t)
    else if c == 0xf3
    then edits (below_line t)
    else if c == 0xfe
    then leaves t
    else if c == 0xfd
    then saves (text_of (all t.above (t.line ∷ t.below))) t
    else if c == 13
    then edits (split_line t)
    else if (c == 8) || (c == 0x7f)
    then edits t
    else edits (insert_char c t)

unfoldable pub keys_effect : List ℕ → List (List ℕ) → Text → List (List ℕ) × Does
keys_effect [] files t = (files, edits t)
keys_effect (c ∷ rest) files t = elim (key_effect c t) [
  | edits t ↦ keys_effect rest files t
  | saves bytes t ↦ keys_effect rest (files ++ bytes ∷ []) t
  | leaves t ↦ (files, leaves t)
]

abbrev pub Backspace : ℕ → Type 0
Backspace c = ((c == 8) || (c == 0x7f)) ≡ true

-- A backspace is at the start of the first line, where it does nothing.
abbrev pub Allowed : ℕ → Text → Type 0
Allowed c t = (c ≢ 0) × (Backspace c → (t.at ≡ 0) × (t.above ≡ []))

-- Each key is allowed where it comes.
unfoldable pub Legal : List ℕ → Text → Type 0
Legal [] t = Unit
Legal (c ∷ rest) t = Allowed c t × elim (key_effect c t) [
  | edits t ↦ Legal rest t
  | saves bytes t ↦ Legal rest t
  | leaves t ↦ Unit
]

-- ===== src/User/Getbuf/Typing.antt =====
-- getbuf of user/edit.c as an editor of a text.
use net_os.Base.{ℕ, ◌≡◌, some, Option, List, [], ◌>>=◌}
use net_os.User.Getbuf.{Pressed, again, saved, returned}
use net_os.User.Getbuf.Text.{Text, IsText, Does, edits, saves, leaves}
use net_os.User.Getbuf.Keys.{image}

unfoldable pub image_of : Does → Pressed
image_of (edits t) = again (image t)
image_of (saves bytes t) = saved bytes (image t)
image_of (leaves t) = returned (image t)

-- The text behind a key.
abbrev behind : Does → Text
behind (edits t) = t
behind (saves bytes t) = t
behind (leaves t) = t

-- A turn and a key end alike, in a text.
abbrev DoesAlike : Option Pressed → Does → Type 0
DoesAlike o d = (o ≡ some (image_of d)) × IsText (behind d)

-- The text of a file, with the cursor at its start.
abbrev pub start : List ℕ → List (List ℕ) → Text
start l ls = record { above = []; line = l; below = ls; at = 0 }

abbrev result : List (List ℕ) × Does → List (List ℕ) × Pressed
result r = (r.0, image_of r.1)

-- ===== src/Kernel/Vga.antt =====
-- The text screen, kernel/vga.cc. `rows` and `cols` are ROWS and COLS. An access outside the frame is
-- `none`. A row is a natural number: VGA is asked for no negative one that is not `none` before.
use net_os.Base.{
  ℕ, ◌+◌, ◌*◌, ◌/◌, ◌%◌, ◌^◌, Bool, ◌&&◌, Option, none, some, ◌==◌, if◌then◌else◌, ltb,
}

-- The two bytes of each place, the position that the cursor's port has, and `oldRow`, `oldCol`.
pub record Vga : Type 0 where
  pub char : ℕ → ℕ → ℕ
  pub attr : ℕ → ℕ → ℕ
  pub port : ℕ
  pub old_row : ℕ
  pub old_col : ℕ

abbrev pub black : ℕ
black = 0

abbrev pub green : ℕ
green = 2

abbrev pub white : ℕ
white = 15

unfoldable pub attrs : ℕ → ℕ → ℕ
attrs bg fg = (bg * 16 + fg) % 256

-- `f[row][col] = v`
unfoldable pub update : (ℕ → ℕ → ℕ) → ℕ → ℕ → ℕ → ℕ → ℕ → ℕ
update f row col v r c = if (r == row) && (c == col) then v else f r c

module _ (rows cols : ℕ) where
  unfoldable pub inside : ℕ → ℕ → Bool
  inside r c = ltb r rows && ltb c cols

  -- VGA::cursor
  unfoldable pub cursor : ℕ → ℕ → ℕ → ℕ → Vga → Option Vga
  cursor row col bg fg v =
      if inside row col
      then some (record v {
        port = (row * 80 + col) % 2 ^ 16;
        attr = update v.attr row col (attrs bg fg);
        old_row = row;
        old_col = col;
      })
      else none

  -- VGA::put
  unfoldable pub put : ℕ → ℕ → ℕ → ℕ → ℕ → Vga → Option Vga
  put r c ch bg fg v =
      if inside r c
      then some (record v { char = update v.char r c ch; attr = update v.attr r c (attrs bg fg) })
      else none

  -- VGA::get
  unfoldable pub get : ℕ → ℕ → Vga → ℕ
  get r c v = if inside r c then v.char r c else 0

  -- VGA::getFg
  unfoldable pub get_fg : ℕ → ℕ → Vga → ℕ
  get_fg r c v = if inside r c then v.attr r c % 16 else 0

  -- VGA::getBg
  unfoldable pub get_bg : ℕ → ℕ → Vga → ℕ
  get_bg r c v = if inside r c then v.attr r c / 16 else 0

-- ===== src/Kernel/Console.antt =====
-- The console, kernel/console.cc, over the screen of Kernel/Vga.antt. A member function that moves the
-- row above the screen is `none`: the next access of the frame is outside it.
pub mod Loops
pub mod Sheet
pub mod Text
pub mod Backspace
mod Tests
use net_os.Base.{
  ℕ, zero, suc, ◌+◌, ◌-◌, ◌≤◌, Bool, ◌&&◌, ◌||◌, Option, none, some, ◌==◌, leb, ltb, if◌then◌else◌,
  ◌>>=◌,
}
use net_os.Kernel.Vga
use net_os.Kernel.Vga.{Vga, black, white, green}

pub record Console : Type 0 where
  pub vga : Vga
  pub row : ℕ
  pub col : ℕ
  pub length : ℕ

module _ (rows cols : ℕ) where
  -- Console::clearRow from the column `c`, with `n` columns left.
  pub clear_row_loop : ℕ → ℕ → ℕ → Vga → Option Vga
  clear_row_loop zero r c v = some v
  clear_row_loop (suc n) r c v = do
    v' ← Vga.put rows cols r c b' ' black white v
    clear_row_loop n r (c + 1) v'

  pub clear_row : ℕ → Vga → Option Vga
  clear_row r v = clear_row_loop cols r 0 v

  -- `vga->put(to, c, vga->get(from, c), ...)` for each column from `c` on.
  pub copy_row_loop : ℕ → ℕ → ℕ → ℕ → Vga → Option Vga
  copy_row_loop zero from to c v = some v
  copy_row_loop (suc n) from to c v = do
    v' ←
        Vga.put rows cols to c (Vga.get rows cols from c v) (Vga.get_bg rows cols from c v)
          (Vga.get_fg rows cols from c v) v
    copy_row_loop n from to (c + 1) v'

  -- The rows of shiftUp from `r` on.
  pub shift_up_loop : ℕ → ℕ → Vga → Option Vga
  shift_up_loop zero r v = some v
  shift_up_loop (suc n) r v = do v' ← copy_row_loop cols r (r - 1) 0 v; shift_up_loop n (r + 1) v'

  -- The rows of shiftDown from `n - 1` down.
  pub shift_down_loop : ℕ → Vga → Option Vga
  shift_down_loop zero v = some v
  shift_down_loop (suc r) v = do v' ← copy_row_loop cols r (r + 1) 0 v; shift_down_loop r v'

  -- Console::shiftUp
  pub shift_up : Console → Option Console
  shift_up k = do
    v ← shift_up_loop (rows - 1) 1 k.vga
    v ← clear_row (rows - 1) v
    if k.row == 0 then none else some (record k { vga = v; row = k.row - 1 })

  -- Console::shiftDown
  pub shift_down : Console → Option Console
  shift_down k = do
    v ← shift_down_loop (rows - 1) k.vga
    v ← clear_row 0 v
    some (record k { vga = v; row = k.row + 1 })

  -- Console::incrementRow
  pub increment_row : Console → Option Console
  increment_row k =
      let k' = record k { col = 0; row = k.row + 1 } in
      if leb rows k'.row then shift_up k' else some k'

  -- Console::incrementColumn
  pub increment_column : Console → Option Console
  increment_column k =
      let k' = record k { length = k.length + 1; col = k.col + 1 } in
      if leb cols k'.col then increment_row k' else some k'

  -- Console::decrementRow
  pub decrement_row : Console → Option Console
  decrement_row k = if k.row == 0 then none else some (record k { row = k.row - 1; col = cols - 1 })

  -- Console::decrementColumn
  pub decrement_column : Console → Option Console
  decrement_column k =
      let k' = record k { length = k.length - 1 } in
      if k.length == 0
      then some k
      else if ltb 0 k.col
      then some (record k' { col = k.col - 1 })
      else decrement_row k'

  -- Console::cursorLeft
  pub cursor_left : Console → Option Console
  cursor_left k =
      if k.length == 0
      then some k
      else if ltb 0 k.col
      then some (record k { col = k.col - 1 })
      else decrement_row k

  -- Console::cursorRight
  pub cursor_right : Console → Option Console
  cursor_right k =
      let k' = record k { col = k.col + 1 } in if leb cols k'.col then increment_row k' else some k'

  -- Console::cursorUp: what it returns, and the console.
  pub cursor_up : Console → Option (ℕ × Console)
  cursor_up k = do
    let row = if k.row == 0 then 0 else k.row - 1
    v ← Vga.cursor rows cols row k.col black white k.vga
    some (if k.row == 0 then 1 else 0, record k { vga = v; row = row })

  -- Console::cursorDown
  pub cursor_down : Console → Option (ℕ × Console)
  cursor_down k = do
    let row = if leb rows (k.row + 1) then k.row else k.row + 1
    v ← Vga.cursor rows cols row k.col black white k.vga
    some (if leb rows (k.row + 1) then 2 else 0, record k { vga = v; row = row })

  -- The characters behind the one that backspace removes, from the column `i` on.
  pub pull_loop : ℕ → ℕ → ℕ → ℕ → ℕ → Vga → Option Vga
  pull_loop zero bg fg row i v = some v
  pull_loop (suc n) bg fg row i v = do
    v' ← Vga.put rows cols row i (Vga.get rows cols row (i + 1) v) bg fg v
    pull_loop n bg fg row (i + 1) v'

  -- `if(ch == 8 || ch == 0x7f)`
  pub backspace : ℕ → ℕ → Console → Option Console
  backspace bg fg k = do
    k ← decrement_column k
    v ← Vga.put rows cols k.row k.col b' ' bg fg k.vga
    v ← pull_loop (cols - 1 - k.col) bg fg k.row k.col v
    v ← Vga.put rows cols k.row (cols - 1) b' ' bg fg v
    some (record k { vga = v })

  -- `if(ch >= 0x20 && ch <= 0x7e)`
  pub print : ℕ → ℕ → ℕ → Console → Option Console
  print ch bg fg k = do
    v ← Vga.put rows cols k.row k.col ch bg fg k.vga
    increment_column (record k { vga = v })

  -- The end of putcolor.
  pub show_cursor : ℕ → ℕ → Console → Option (ℕ × Console)
  show_cursor bg fg k = do
    v ← Vga.cursor rows cols k.row k.col bg fg k.vga
    some (0, record k { vga = v })

  -- Console::putcolor of a byte: 0xf0 to 0xf3 are the cursor keys ~0xf to ~0xc.
  pub put_color : ℕ → ℕ → ℕ → Console → Option (ℕ × Console)
  put_color ch bg fg k = do
    v ← Vga.cursor rows cols k.row k.col bg fg k.vga
    let k = record k { vga = v }
    if ch == 0xf0
        then (do k ← cursor_left k; show_cursor bg fg k)
        else if ch == 0xf1
        then (do k ← cursor_right k; show_cursor bg fg k)
        else if ch == 0xf2
        then cursor_up k
        else if ch == 0xf3
        then cursor_down k
        else if (ch == 8) || (ch == 0x7f)
        then (do k ← backspace bg fg k; show_cursor bg fg k)
        else if leb 0x20 ch && leb ch 0x7e
        then (do k ← print ch bg fg k; show_cursor bg fg k)
        else if ch == b'\n'
        then (do k ← increment_row k; show_cursor bg fg k)
        else show_cursor bg fg k

  -- Console::put
  pub put : ℕ → Console → Option (ℕ × Console)
  put ch k = put_color ch black white k

  -- The rows of clear from `r` on.
  pub clear_loop : ℕ → ℕ → Vga → Option Vga
  clear_loop zero r v = some v
  clear_loop (suc n) r v = do v' ← clear_row r v; clear_loop n (r + 1) v'

  -- Console::clear
  pub clear : Console → Option Console
  clear k = do
    v ← clear_loop rows 0 k.vga
    v ← clear_row 0 v
    v ← Vga.cursor rows cols 0 0 black white v
    some (record k { vga = v; row = 0; col = 0 })

  -- What Console::init does to the screen.
  pub init : Console → Option Console
  init k = do v ← clear_loop rows 0 k.vga; v ← clear_row 0 v; some (record k { vga = v })

  -- Console::moveToZero
  pub move_to_zero : Console → Option Console
  move_to_zero k = do
    k ← shift_down k
    v ← Vga.cursor rows cols 0 0 black green k.vga
    some (record k { vga = v; row = 0; col = 0 })

  -- Console::setCursor
  pub set_cursor : ℕ → ℕ → Console → Option Console
  set_cursor x y k = do
    v ← Vga.cursor rows cols x y green white k.vga
    some (record k { vga = v; row = x; col = y })

  -- Console::decrementOnlyRow
  pub decrement_only_row : Console → Option Console
  decrement_only_row k = if k.row == 0 then none else some (record k { row = k.row - 1 })

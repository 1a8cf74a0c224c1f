-- ===== src/Kernel/Console/Tests.antt =====
-- Runs on a screen of two rows of three columns.
use net_os.Base.{ℕ, ◌<◌, ◌≡◌, refl, Option, none, some, List, [], ◌∷◌, arith, ◌>>=◌}
use net_os.Kernel.Vga
use net_os.Kernel.Vga.{Vga, black, white, update, attrs}
use net_os.Kernel.Console.{
  Console, clear, clear_loop, clear_row, clear_row_loop, put, put_color, print, show_cursor,
  increment_column, increment_row, shift_up, shift_up_loop, copy_row_loop, backspace,
  decrement_column, decrement_row, pull_loop, cursor_left,
}
use net_os.Kernel.Console.Sheet.{Shows}
use net_os.Kernel.Console.Text.{put_all, written, blank, clear-text}
use net_os.Kernel.Console.Backspace.{type-backspace, clear-backspace}

abbrev dirty : Console
dirty = record {
  vga = record { char = λ r c. b'?'; attr = λ r c. 0; port = 0; old_row = 0; old_col = 0 };
  row = 1;
  col = 2;
  length = 4;
}

program : Unit {0}
unfolding update attrs Vga.put Vga.get Vga.get_fg Vga.get_bg Vga.inside Vga.cursor clear clear_loop
    clear_row clear_row_loop put put_color print show_cursor increment_column increment_row shift_up
    shift_up_loop copy_row_loop backspace decrement_column decrement_row pull_loop cursor_left
    put_all
program = tt

-- The characters of the screen, row by row.
abbrev screen : Option Console → List ℕ
screen none = []
screen (some k) =
    k.vga.char 0 0
    ∷ k.vga.char 0 1
    ∷ k.vga.char 0 2
    ∷ k.vga.char 1 0
    ∷ k.vga.char 1 1
    ∷ k.vga.char 1 2
    ∷ []

scrolled :
    screen (clear 2 3 dirty >>= put_all 2 3 (b'a' ∷ b'b' ∷ b'c' ∷ b'd' ∷ b'\n' ∷ b'e' ∷ []))
    ≡ b'd' ∷ b' ' ∷ b' ' ∷ b'e' ∷ b' ' ∷ b' ' ∷ []
unfolding program
scrolled = refl

erased :
    screen (clear 2 3 dirty >>= put_all 2 3 (b'a' ∷ b'b' ∷ 8 ∷ []))
    ≡ b'a' ∷ b' ' ∷ b' ' ∷ b' ' ∷ b' ' ∷ b' ' ∷ []
unfolding program
erased = refl

clear-text_example :
    (k₁ k' : Console) × (top : ℕ) × (clear 25 80 dirty ≡ some k₁)
    × (put_all 25 80 (b'o' ∷ b'k' ∷ b'\n' ∷ []) k₁ ≡ some k')
    × Shows 25 80 k' (written 25 80 (b'o' ∷ b'k' ∷ b'\n' ∷ []) blank) top
clear-text_example =
    clear-text 25 80 dirty (b'o' ∷ b'k' ∷ b'\n' ∷ []) (omega arith) (omega arith) (omega arith)

abbrev fresh : Console
fresh = record dirty {
  vga = record { char = λ r c. b' '; attr = λ r c. 0; port = 0; old_row = 0; old_col = 0 };
  row = 0;
  col = 7;
}

type-backspace_example :
    (k' : Console) × ((put_color 25 80 b'x' black white fresh >>= λ (r, k₁).
    put_color 25 80 8 black white k₁)
      ≡ some (0, k'))
    × (k'.row ≡ 0)
    × (k'.col ≡ 7)
    × (k'.length ≡ 4)
    × ((r c : ℕ) → r < 25 → c < 80 → k'.vga.char r c ≡ b' ')
type-backspace_example =
    type-backspace 25 80 fresh b'x' black white (omega arith) (omega arith) (omega arith)
      (omega arith) (λ c l u. refl)

clear-backspace_example : (clear 25 80 dirty >>= put_color 25 80 8 black white) ≡ none
clear-backspace_example =
    clear-backspace 25 80 dirty black white (omega arith) (omega arith) (omega arith)

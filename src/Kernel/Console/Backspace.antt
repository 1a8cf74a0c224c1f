-- ===== src/Kernel/Console/Backspace.antt =====
-- Backspaces on the console.
use net_os.Base.{
  ℕ, ◌+◌, ◌-◌, ◌≤◌, ◌<◌, ◌≡◌, refl, true, false, ◌&&◌, none, some, ◌==◌, ==_ne, leb, if◌then◌else◌,
  ltb_of_lt, arith, ◌>>=◌,
}
use net_os.Kernel.Vga.{Vga, attrs, update}
use net_os.Kernel.Console.{
  Console, put_color, clear, backspace, decrement_column, decrement_row, print, increment_column,
  show_cursor,
}
use net_os.Kernel.Console.Loops.{put_lem, pull_loop_lem}
use net_os.Kernel.Console.Text.{clear-Shows}
use net_os.Kernel.Console.Sheet.{printable, pointed, cursor_lem, put_color-Plain}

module _ (rows cols : ℕ) where
  -- The console after a character that does not fill the row.
  abbrev typed : ℕ → ℕ → ℕ → Console → Console
  typed ch bg fg k = record k {
    vga = record k.vga {
      char = update k.vga.char k.row k.col ch;
      attr = update k.vga.attr k.row k.col (attrs bg fg);
    };
    length = k.length + 1;
    col = k.col + 1;
  }

  print_lem :
      (k : Console) (ch bg fg : ℕ)
      → k.row < rows
      → k.col + 1 < cols
      → print rows cols ch bg fg k ≡ some (typed ch bg fg k)
  unfolding print increment_column
  print_lem k ch bg fg a b =
      let not_full : leb cols (k.col + 1) ≡ false = ground arith in
      rw (put_lem rows cols k.row k.col ch bg fg k.vga a (omega arith), not_full) refl

  show_lem :
      (k : Console) (bg fg : ℕ)
      → k.row < rows
      → k.col < cols
      → show_cursor rows cols bg fg k ≡ some (0, pointed rows cols bg fg k)
  unfolding show_cursor
  show_lem k bg fg a b = rw (cursor_lem rows cols k bg fg a b) refl

  type_lem :
      (k : Console) (ch bg fg : ℕ)
      → k.row < rows
      → k.col + 1 < cols
      → 0x20 ≤ ch
      → ch ≤ 0x7e
      → put_color rows cols ch bg fg k
        ≡ some (0, pointed rows cols bg fg (typed ch bg fg (pointed rows cols bg fg k)))
  type_lem k ch bg fg a b l u =
      let is_printable : printable ch ≡ true = ground arith in
      rw
        (
          put_color-Plain rows cols k ch bg fg a (omega arith)
              (omega arith, omega arith, omega arith),
          is_printable,
          print_lem (pointed rows cols bg fg k) ch bg fg a b,
        )
        (show_lem (typed ch bg fg (pointed rows cols bg fg k)) bg fg a b)

  put_color-backspace :
      (k : Console) (bg fg : ℕ)
      → k.row < rows
      → k.col < cols
      → put_color rows cols 8 bg fg k
        ≡ (backspace rows cols bg fg (pointed rows cols bg fg k) >>= show_cursor rows cols bg fg)
  unfolding put_color
  put_color-backspace k bg fg a b = rw (cursor_lem rows cols k bg fg a b) refl

  decrement_lem :
      (k : Console)
      → 0 < k.length
      → 0 < k.col
      → decrement_column rows cols k ≡ some (record k { length = k.length - 1; col = k.col - 1 })
  unfolding decrement_column
  decrement_lem k a b = rw (==_ne k.length 0 (omega arith), ltb_of_lt 0 k.col b) refl

  -- A backspace inside a row removes the character before the cursor and pulls up those behind it.
  backspace_lem :
      (k : Console) (bg fg : ℕ)
      → k.row < rows
      → 0 < k.col
      → k.col < cols
      → 0 < k.length
      → (v : Vga) × (backspace rows cols bg fg k
          ≡ some (record k { vga = v; length = k.length - 1; col = k.col - 1 }))
        × ((r c : ℕ)
            → c < cols
            → v.char r c ≡ (
                if (r == k.row) && leb (k.col - 1) c
                then if c == cols - 1 then b' ' else k.vga.char r (c + 1)
                else k.vga.char r c))
  unfolding backspace update
  backspace_lem k bg fg a b d e =
      let col = k.col - 1 in
      let v₁ = record k.vga {
        char = update k.vga.char k.row col b' ';
        attr = update k.vga.attr k.row col (attrs bg fg);
      } in
      let (v₂, pulled, h) =
        pull_loop_lem rows cols (cols - 1 - col) bg fg k.row col v₁ a (omega arith) in
      (
        record v₂ {
          char = update v₂.char k.row (cols - 1) b' ';
          attr = update v₂.attr k.row (cols - 1) (attrs bg fg);
        },
        rw
            (
              decrement_lem k e b,
              put_lem rows cols k.row col b' ' bg fg k.vga a (omega arith),
              pulled,
              put_lem rows cols k.row (cols - 1) b' ' bg fg v₂ a (omega arith),
            )
            refl,
        λ r c l. ground (arith, h r c),
      )

  erase_run :
      (k k₁ k₂ : Console) (ch bg fg : ℕ)
      → put_color rows cols ch bg fg k ≡ some (0, k₁)
      → k₁.row < rows
      → k₁.col < cols
      → backspace rows cols bg fg (pointed rows cols bg fg k₁) ≡ some k₂
      → k₂.row < rows
      → k₂.col < cols
      → (put_color rows cols ch bg fg k >>= λ (r, k'). put_color rows cols 8 bg fg k')
        ≡ some (0, pointed rows cols bg fg k₂)
  erase_run k k₁ k₂ ch bg fg e a b e' c d =
      rw (e, put_color-backspace k₁ bg fg a b, e') (show_lem k₂ bg fg c d)

  -- A printable character that does not fill its row, typed where the rest of the row is blank, and
  -- then a backspace leave every character of the screen, the cursor and the count as they were.
  pub type-backspace :
      (k : Console) (ch bg fg : ℕ)
      → k.row < rows
      → k.col + 1 < cols
      → 0x20 ≤ ch
      → ch ≤ 0x7e
      → ((c : ℕ) → k.col ≤ c → c < cols → k.vga.char k.row c ≡ b' ')
      → (k' : Console) × ((put_color rows cols ch bg fg k >>= λ (r, k₁).
            put_color rows cols 8 bg fg k₁)
          ≡ some (0, k'))
        × (k'.row ≡ k.row)
        × (k'.col ≡ k.col)
        × (k'.length ≡ k.length)
        × ((r c : ℕ) → r < rows → c < cols → k'.vga.char r c ≡ k.vga.char r c)
  unfolding update
  type-backspace k ch bg fg a b l u rest =
      let k₁ = pointed rows cols bg fg (typed ch bg fg (pointed rows cols bg fg k)) in
      let (v, runs, h) =
        backspace_lem (pointed rows cols bg fg k₁) bg fg a (omega arith) b (omega arith) in
      let k₂ = record k₁ { vga = v; length = k₁.length - 1; col = k₁.col - 1 } in
      (
        pointed rows cols bg fg k₂,
        erase_run k k₁ k₂ ch bg fg (type_lem k ch bg fg a b l u) a b runs a (omega arith),
        refl,
        omega arith,
        omega arith,
        λ r c m n. ground (arith, h r c n, rest c, rest (c + 1)),
      )

  off_screen :
      (k : Console) (bg fg : ℕ)
      → 0 < k.length
      → k.row ≡ 0
      → k.col ≡ 0
      → backspace rows cols bg fg k ≡ none
  unfolding backspace decrement_column decrement_row
  off_screen k bg fg l r c = rw (==_ne k.length 0 (omega arith), r, c) refl

  fault_run :
      (k k₁ : Console) (bg fg : ℕ)
      → clear rows cols k ≡ some k₁
      → k₁.row < rows
      → k₁.col < cols
      → backspace rows cols bg fg (pointed rows cols bg fg k₁) ≡ none
      → (clear rows cols k >>= put_color rows cols 8 bg fg) ≡ none
  fault_run k k₁ bg fg e a b n = rw (e, put_color-backspace k₁ bg fg a b, n) refl

  -- clear keeps the count of the characters typed, so that a backspace after it, on a console where one
  -- was typed before, moves the cursor above the screen and writes there.
  pub clear-backspace :
      (k : Console) (bg fg : ℕ)
      → 0 < rows
      → 0 < cols
      → 0 < k.length
      → (clear rows cols k >>= put_color rows cols 8 bg fg) ≡ none
  clear-backspace k bg fg a b l =
      let (k₁, runs, len, w) = clear-Shows rows cols k a b in
      fault_run k k₁ bg fg runs w.window.on_screen w.in_row (
        off_screen (pointed rows cols bg fg k₁) bg fg (omega (arith, len))
          (omega (arith, w.window.same_row)) (omega (arith, w.same_col)))

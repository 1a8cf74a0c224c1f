-- ===== src/Kernel/Console/Sheet.antt =====
-- Text on the console, and on an endless sheet of rows of which the screen shows the last ones.
use net_os.Base.{
  ℕ, ◌+◌, ◌-◌, ◌*◌, ◌%◌, ◌^◌, ◌≤◌, ◌<◌, ◌≡◌, ◌≢◌, refl, sym, ◌∙◌, Bool, ◌&&◌, true, Option, some,
  ◌==◌, leb, if◌then◌else◌, ltb_of_lt, ==_ne, arith, ◌>>=◌, Bool-cases, inl, inr,
}
use net_os.Kernel.Vga
use net_os.Kernel.Vga.{Vga, black, white, attrs, update}
use net_os.Kernel.Console.{
  Console, shift_up, increment_row, increment_column, print, put_color, show_cursor,
}
use net_os.Kernel.Console.Loops.{put_lem, shift_up_loop_lem, clear_row_lem}

pub record Sheet : Type 0 where
  pub cells : ℕ → ℕ → ℕ
  pub row : ℕ
  pub col : ℕ

abbrev pub newline : Sheet → Sheet
newline s = record s { row = s.row + 1; col = 0 }

abbrev pub printable : ℕ → Bool
printable ch = leb 0x20 ch && leb ch 0x7e

-- A character that is neither a cursor key nor a backspace.
abbrev pub Plain : ℕ → Type 0
Plain ch = (ch < 0xf0) × (ch ≢ 8) × (ch ≢ 0x7f)

module _ (rows cols : ℕ) where
  -- The next place, at the start of the next row behind the last one of a row.
  abbrev pub advance : Sheet → Sheet
  advance s = if leb cols (s.col + 1) then newline s else record s { col = s.col + 1 }

  -- A character on the sheet.
  abbrev pub type : ℕ → Sheet → Sheet
  type ch s =
      if printable ch
      then advance (record s { cells = update s.cells s.row s.col ch })
      else if ch == b'\n'
      then newline s
      else s

  -- The screen shows the rows of the sheet from `top` on, and nothing stands below the sheet's row. The rows above
  -- `top` are those that do not fit: there are none as long as the sheet's row is one of the screen's.
  pub record Window (k : Console) (s : Sheet) (top : ℕ) : Type 0 where
    pub on_screen : k.row < rows
    pub same_row : s.row ≡ top + k.row
    pub shown : (r c : ℕ) → r < rows → c < cols → k.vga.char r c ≡ s.cells (top + r) c
    pub below : (r c : ℕ) → s.row < r → s.cells r c ≡ b' '
    pub top_is : top ≡ s.row - (rows - 1)

  -- That, with the cursor at the same place.
  pub record Shows (k : Console) (s : Sheet) (top : ℕ) : Type 0 where
    pub window : Window k s top
    pub in_row : k.col < cols
    pub same_col : s.col ≡ k.col

  shift_up_lem :
      (k : Console)
      → 0 < k.row
      → 0 < rows
      → (v : Vga) × (shift_up rows cols k ≡ some (record k { vga = v; row = k.row - 1 }))
        × ((r c : ℕ)
            → r < rows
            → c < cols
            → v.char r c ≡ (if r == rows - 1 then b' ' else k.vga.char (r + 1) c))
  unfolding shift_up
  shift_up_lem k a b =
      let (v₁, e₁, h₁) =
        shift_up_loop_lem rows cols (rows - 1) 1 k.vga (omega arith) (omega arith) in
      let (v₂, e₂, h₂) = clear_row_lem rows cols (rows - 1) v₁ (omega arith) in
      (
        v₂,
        rw (e₁, e₂, ==_ne k.row 0 (omega arith)) refl,
        λ r c l l'. ground (arith, h₂ r c l', h₁ r c l'),
      )

  moved_up :
      (k : Console) (s : Sheet) (top : ℕ)
      → Window k s top
      → (r c : ℕ) → r < rows
      → c < cols
      → rows ≤ k.row + 1
      → (if r == rows - 1 then b' ' else k.vga.char (r + 1) c) ≡ s.cells (top + 1 + r) c
  moved_up k s top w r c l l' full = elim (Bool-cases (r == rows - 1)) [
    | inl q ↦ rw q (sym (w.below (top + 1 + r) c (ground (arith, q, w.same_row, w.on_screen))))
    | inr q ↦
        let place : top + (r + 1) ≡ top + 1 + r = omega arith in
        rw (q, ← place) (w.shown (r + 1) c (ground (arith, q)) l')
  ]

  -- What Console::incrementRow does to a window, whatever the column.
  pub increment_row-Window :
      (k : Console) (s : Sheet) (top : ℕ)
      → Window k s top
      → 0 < cols
      → (k' : Console) × (top' : ℕ) × (increment_row rows cols k ≡ some k')
        × (k'.length ≡ k.length)
        × Shows k' (newline s) top'
  unfolding increment_row
  increment_row-Window k s top w pos = elim (Bool-cases (leb rows (k.row + 1))) [
    | inl e ↦
        let (v, runs, chars) =
          shift_up_lem (record k { col = 0; row = k.row + 1 }) (omega arith)
            (omega (arith, w.on_screen)) in
        (
          record k { vga = v; row = k.row + 1 - 1; col = 0 },
          top + 1,
          rw e runs,
          refl,
          record {
            window = record {
              on_screen = omega (arith, w.on_screen);
              same_row = omega (arith, w.same_row);
              shown = λ r c l l'. chars r c l l' ∙ moved_up k s top w r c l l' (ground (arith, e));
              below = λ r c l. w.below r c (omega arith);
              top_is = ground (arith, e, w.top_is, w.same_row, w.on_screen);
            };
            in_row = pos;
            same_col = refl;
          },
        )
    | inr e ↦ (
      record k { col = 0; row = k.row + 1 },
      top,
      rw e refl,
      refl,
      record {
        window = record {
          on_screen = ground (arith, e);
          same_row = omega (arith, w.same_row);
          shown = w.shown;
          below = λ r c l. w.below r c (omega arith);
          top_is = ground (arith, e, w.top_is, w.same_row, w.on_screen);
        };
        in_row = pos;
        same_col = refl;
      },
    )
  ]

  -- The write of a character, and the move to the next place.
  print_at :
      (k : Console) (s : Sheet) (top ch bg fg : ℕ)
      → Shows k s top
      → Window
          (record k {
            vga = record k.vga {
              char = update k.vga.char k.row k.col ch;
              attr = update k.vga.attr k.row k.col (attrs bg fg);
            };
          })
          (record s { cells = update s.cells s.row s.col ch })
          top
  unfolding update
  print_at k s top ch bg fg w = record {
    on_screen = w.window.on_screen;
    same_row = w.window.same_row;
    shown = λ r c l l'. ground (arith, w.window.shown r c l l', w.window.same_row, w.same_col);
    below = λ r c l. ground (arith, w.window.below r c l);
    top_is = w.window.top_is;
  }

  same-Window :
      (k : Console) (s : Sheet) (top len col : ℕ)
      → Window k s top
      → Window (record k { length = len; col = col }) s top
  same-Window k s top len col w = record {
    on_screen = w.on_screen;
    same_row = w.same_row;
    shown = w.shown;
    below = w.below;
    top_is = w.top_is;
  }

  same_sheet :
      (k : Console) (s : Sheet) (top col : ℕ)
      → Window k s top
      → Window k (record s { col = col }) top
  same_sheet k s top col w = record {
    on_screen = w.on_screen;
    same_row = w.same_row;
    shown = w.shown;
    below = w.below;
    top_is = w.top_is;
  }

  wrapped :
      (k : Console) (s : Sheet) (top : ℕ)
      → leb cols (s.col + 1) ≡ true
      → Shows k (newline s) top
      → Shows k (advance s) top
  wrapped k s top q shows = rw q shows

  increment_column-Shows :
      (k : Console) (s : Sheet) (top : ℕ)
      → Window k s top
      → k.col < cols
      → s.col ≡ k.col
      → (k' : Console) × (top' : ℕ) × (increment_column rows cols k ≡ some k')
        × (k'.length ≡ k.length + 1)
        × Shows k' (advance s) top'
  unfolding increment_column
  increment_column-Shows k s top w a e = elim (Bool-cases (leb cols (k.col + 1))) [
    | inl q ↦
        let (k', top', runs, len, shows) =
          increment_row-Window (record k { length = k.length + 1; col = k.col + 1 }) s top
            (same-Window k s top (k.length + 1) (k.col + 1) w) (omega arith) in
        (k', top', rw q runs, len, wrapped k' s top' (rw e q) shows)
    | inr q ↦ (
      record k { length = k.length + 1; col = k.col + 1 },
      top,
      rw q refl,
      refl,
      rw (e, q)
          (record {
            window =
                same-Window k (record s { col = k.col + 1 }) top (k.length + 1) (k.col + 1)
                  (same_sheet k s top (k.col + 1) w);
            in_row = ground (arith, q);
            same_col = refl;
          }),
    )
  ]

  -- The console after VGA::cursor at its place.
  abbrev pub pointed : ℕ → ℕ → Console → Console
  pointed bg fg k = record k {
    vga = record k.vga {
      port = (k.row * 80 + k.col) % 2 ^ 16;
      attr = update k.vga.attr k.row k.col (attrs bg fg);
      old_row = k.row;
      old_col = k.col;
    };
  }

  pointed-Shows :
      (k : Console) (s : Sheet) (top bg fg : ℕ) → Shows k s top → Shows (pointed bg fg k) s top
  pointed-Shows k s top bg fg w = record {
    window = record {
      on_screen = w.window.on_screen;
      same_row = w.window.same_row;
      shown = w.window.shown;
      below = w.window.below;
      top_is = w.window.top_is;
    };
    in_row = w.in_row;
    same_col = w.same_col;
  }

  pub cursor_lem :
      (k : Console) (bg fg : ℕ)
      → k.row < rows
      → k.col < cols
      → Vga.cursor rows cols k.row k.col bg fg k.vga ≡ some (pointed bg fg k).vga
  unfolding Vga.cursor Vga.inside
  cursor_lem k bg fg a b = rw (ltb_of_lt k.row rows a, ltb_of_lt k.col cols b) refl

  -- What a step that shows `s` with `len` characters counted comes to.
  abbrev pub Step : Option (ℕ × Console) → ℕ → Sheet → Type 0
  Step m len s = (k : Console) × (top : ℕ) × (m ≡ some (0, k)) × (k.length ≡ len) × Shows k s top

  show_cursor-Step :
      (k : Console) (s : Sheet) (top bg fg : ℕ)
      → Shows k s top
      → Step (show_cursor rows cols bg fg k) k.length s
  unfolding show_cursor
  show_cursor-Step k s top bg fg w = (
    pointed bg fg k,
    top,
    rw (cursor_lem k bg fg w.window.on_screen w.in_row) refl,
    refl,
    pointed-Shows k s top bg fg w,
  )

  then_show :
      (m : Option Console) (k : Console) (s : Sheet) (len top bg fg : ℕ)
      → m ≡ some k
      → k.length ≡ len
      → Shows k s top
      → Step (m >>= show_cursor rows cols bg fg) len s
  then_show m k s len top bg fg e l w = rw (e, ← l) (show_cursor-Step k s top bg fg w)

  print-Step :
      (k : Console) (s : Sheet) (top ch bg fg : ℕ)
      → Shows k s top
      → Step
          (print rows cols ch bg fg k >>= show_cursor rows cols bg fg)
          (k.length + 1)
          (advance (record s { cells = update s.cells s.row s.col ch }))
  unfolding print
  print-Step k s top ch bg fg w =
      let v = record k.vga {
        char = update k.vga.char k.row k.col ch;
        attr = update k.vga.attr k.row k.col (attrs bg fg);
      } in
      let (k', top', runs, len, shows) =
        increment_column-Shows (record k { vga = v })
          (record s { cells = update s.cells s.row s.col ch }) top (print_at k s top ch bg fg w)
          w.in_row w.same_col in
      then_show (print rows cols ch bg fg k) k'
        (advance (record s { cells = update s.cells s.row s.col ch })) (k.length + 1) top' bg fg
        (rw (put_lem rows cols k.row k.col ch bg fg k.vga w.window.on_screen w.in_row) runs) len
        shows

  newline-Step :
      (k : Console) (s : Sheet) (top bg fg : ℕ)
      → Shows k s top
      → Step (increment_row rows cols k >>= show_cursor rows cols bg fg) k.length (newline s)
  newline-Step k s top bg fg w =
      let (k', top', runs, len, shows) =
        increment_row-Window k s top w.window (omega (arith, w.in_row)) in
      then_show (increment_row rows cols k) k' (newline s) k.length top' bg fg runs len shows

  -- What putcolor does with a plain character.
  abbrev pub plain_step : ℕ → ℕ → ℕ → Console → Option (ℕ × Console)
  plain_step ch bg fg k =
      if printable ch
      then print rows cols ch bg fg k >>= show_cursor rows cols bg fg
      else if ch == b'\n'
      then increment_row rows cols k >>= show_cursor rows cols bg fg
      else show_cursor rows cols bg fg k

  pub put_color-Plain :
      (k : Console) (ch bg fg : ℕ)
      → k.row < rows
      → k.col < cols
      → Plain ch
      → put_color rows cols ch bg fg k ≡ plain_step ch bg fg (pointed bg fg k)
  unfolding put_color
  put_color-Plain k ch bg fg a b (l, n, m) =
      rw
        (
          cursor_lem k bg fg a b,
          ==_ne ch 0xf0 (omega (arith, l)),
          ==_ne ch 0xf1 (omega (arith, l)),
          ==_ne ch 0xf2 (omega (arith, l)),
          ==_ne ch 0xf3 (omega (arith, l)),
          ==_ne ch 8 n,
          ==_ne ch 0x7f m,
        )
        refl

  plain_step-Step :
      (k : Console) (s : Sheet) (top ch bg fg : ℕ)
      → Shows k s top
      → Step (plain_step ch bg fg k) (if printable ch then k.length + 1 else k.length) (type ch s)
  plain_step-Step k s top ch bg fg w = elim (Bool-cases (printable ch)) [
    | inl e ↦ rw e (print-Step k s top ch bg fg w)
    | inr e ↦ elim (Bool-cases (ch == b'\n')) [
      | inl n ↦ rw (e, n) (newline-Step k s top bg fg w)
      | inr n ↦ rw (e, n) (show_cursor-Step k s top bg fg w)
    ]
  ]

  -- Console::putcolor of a character of a text.
  pub put_color-Step :
      (k : Console) (s : Sheet) (top ch bg fg : ℕ)
      → Shows k s top
      → Plain ch
      → Step
          (put_color rows cols ch bg fg k)
          (if printable ch then k.length + 1 else k.length)
          (type ch s)
  put_color-Step k s top ch bg fg w p =
      rw (put_color-Plain k ch bg fg w.window.on_screen w.in_row p)
        (plain_step-Step (pointed bg fg k) s top ch bg fg (pointed-Shows k s top bg fg w))

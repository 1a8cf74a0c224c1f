-- ===== src/Kernel/Console/Text.antt =====
-- Whole texts on the console.
use net_os.Base.{ℕ, ◌<◌, ◌≡◌, refl, Option, some, List, [], ◌∷◌, ltb_of_lt, arith, ◌>>=◌}
use net_os.Kernel.Vga
use net_os.Kernel.Vga.{Vga, black, white, attrs, update}
use net_os.Kernel.Console.{Console, put, put_color, clear}
use net_os.Kernel.Console.Loops.{clear_row_lem, clear_loop_lem}
use net_os.Kernel.Console.Sheet.{Sheet, Shows, type, Plain, put_color-Step}

-- The sheet with nothing on it.
abbrev pub blank : Sheet
blank = record { cells = λ r c. b' '; row = 0; col = 0 }

module _ (rows cols : ℕ) where
  -- Console::put of each character of a text.
  unfoldable pub put_all : List ℕ → Console → Option Console
  put_all [] k = some k
  put_all (ch ∷ text) k = do (result, k') ← put rows cols ch k; put_all text k'

  -- A text written on a sheet.
  abbrev pub written : List ℕ → Sheet → Sheet
  written [] s = s
  written (ch ∷ text) s = written text (type rows cols ch s)

  abbrev pub AllPlain : List ℕ → Type 0
  AllPlain [] = Unit
  AllPlain (ch ∷ text) = Plain ch × AllPlain text

  put_step :
      (ch : ℕ) (text : List ℕ) (k k₁ : Console) (k' : Option Console)
      → put_color rows cols ch black white k ≡ some (0, k₁)
      → put_all text k₁ ≡ k'
      → put_all (ch ∷ text) k ≡ k'
  unfolding put_all put
  put_step ch text k k₁ k' e e' = rw e e'

  pub put_all-Shows :
      (text : List ℕ) (k : Console) (s : Sheet) (top : ℕ)
      → Shows rows cols k s top
      → AllPlain text
      → (k' : Console) × (top' : ℕ) × (put_all text k ≡ some k')
        × Shows rows cols k' (written text s) top'
  unfolding put_all
  put_all-Shows [] k s top w p = (k, top, refl, w)
  put_all-Shows (ch ∷ text) k s top w (p, ps) =
      let (k₁, top₁, runs, len, w₁) = put_color-Step rows cols k s top ch black white w p in
      let (k', top', rest, w') = put_all-Shows text k₁ (type rows cols ch s) top₁ w₁ ps in
      (k', top', put_step ch text k k₁ (some k') runs rest, w')

  -- Console::clear ends and leaves a blank screen, and does not touch `length`.
  pub clear-Shows :
      (k : Console)
      → 0 < rows
      → 0 < cols
      → (k' : Console) × (clear rows cols k ≡ some k')
        × (k'.length ≡ k.length)
        × Shows rows cols k' blank 0
  unfolding clear Vga.cursor Vga.inside
  clear-Shows k a b =
      let (v₁, e₁, h₁) = clear_loop_lem rows cols rows 0 k.vga (omega arith) in
      let (v₂, e₂, h₂) = clear_row_lem rows cols 0 v₁ a in
      (
        record k {
          vga = record v₂ {
            port = 0;
            attr = update v₂.attr 0 0 (attrs black white);
            old_row = 0;
            old_col = 0;
          };
          row = 0;
          col = 0;
        },
        rw (e₁, e₂, ltb_of_lt 0 rows a, ltb_of_lt 0 cols b) refl,
        refl,
        record {
          window = record {
            on_screen = a;
            same_row = refl;
            shown = λ r c l l'. ground (arith, h₂ r c l', h₁ r c l');
            below = λ r c l. refl;
            top_is = omega arith;
          };
          in_row = b;
          same_col = refl;
        },
      )

  -- After a clear, any text of characters other than backspaces and cursor keys is printed without an
  -- access outside the screen, and the screen then shows the last rows of the text as it stands on an
  -- endless sheet of rows of the screen's width, broken at the screen's width and at the newlines.
  pub clear-text :
      (k : Console) (text : List ℕ)
      → 0 < rows
      → 0 < cols
      → AllPlain text
      → (k₁ k' : Console) × (top : ℕ) × (clear rows cols k ≡ some k₁)
        × (put_all text k₁ ≡ some k')
        × Shows rows cols k' (written text blank) top
  clear-text k text a b p =
      let (k₁, cleared, len, w) = clear-Shows k a b in
      let (k', top, runs, w') = put_all-Shows text k₁ blank 0 w p in
      (k₁, k', top, cleared, runs, w')

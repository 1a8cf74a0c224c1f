-- ===== src/Kernel/Console/Loops.antt =====
-- The loops of kernel/console.cc: what they leave in each place of the screen.
use net_os.Base.{
  ℕ, zero, suc, ◌+◌, ◌-◌, ◌≤◌, ◌<◌, ◌≡◌, ◌≢◌, refl, Bool, ◌&&◌, some, ◌==◌, leb, ltb, if◌then◌else◌,
  ltb_of_lt, arith,
}
use net_os.Kernel.Vga
use net_os.Kernel.Vga.{Vga, black, white, attrs, update}
use net_os.Kernel.Console.{
  clear_row_loop, copy_row_loop, shift_up_loop, pull_loop, clear_loop, clear_row,
}

-- The place `r'`, `c'` in the `n` columns from `c` on of the row `r`.
abbrev pub spanned : ℕ → ℕ → ℕ → ℕ → ℕ → Bool
spanned n r c r' c' = (r' == r) && (leb c c' && ltb c' (c + n))

module _ (rows cols : ℕ) where
  pub put_lem :
      (r c ch bg fg : ℕ) (v : Vga)
      → r < rows
      → c < cols
      → Vga.put rows cols r c ch bg fg v
        ≡ some (record v { char = update v.char r c ch; attr = update v.attr r c (attrs bg fg) })
  unfolding Vga.put Vga.inside
  put_lem r c ch bg fg v a b = rw (ltb_of_lt r rows a, ltb_of_lt c cols b) refl

  pub get_lem : (r c : ℕ) (v : Vga) → r < rows → c < cols → Vga.get rows cols r c v ≡ v.char r c
  unfolding Vga.get Vga.inside
  get_lem r c v a b = rw (ltb_of_lt r rows a, ltb_of_lt c cols b) refl

  pub clear_row_loop_lem :
      (n r c : ℕ) (v : Vga)
      → r < rows
      → c + n ≤ cols
      → (v' : Vga) × (clear_row_loop rows cols n r c v ≡ some v')
        × ((r' c' : ℕ) → v'.char r' c' ≡ (if spanned n r c r' c' then b' ' else v.char r' c'))
  unfolding clear_row_loop update
  clear_row_loop_lem zero r c v a b = (v, refl, λ r' c'. ground arith)
  clear_row_loop_lem (suc n) r c v a b =
      let v₁ = record v {
        char = update v.char r c b' ';
        attr = update v.attr r c (attrs black white);
      } in
      let (v', e, h) = clear_row_loop_lem n r (c + 1) v₁ a (omega arith) in
      (v', rw (put_lem r c b' ' black white v a (omega arith)) e, λ r' c'. ground (arith, h r' c'))

  pub copy_row_loop_lem :
      (n from to c : ℕ) (v : Vga)
      → from < rows
      → to < rows
      → from ≢ to
      → c + n ≤ cols
      → (v' : Vga) × (copy_row_loop rows cols n from to c v ≡ some v')
        × ((r' c' : ℕ)
            → v'.char r' c' ≡ (if spanned n to c r' c' then v.char from c' else v.char r' c'))
  unfolding copy_row_loop update
  copy_row_loop_lem zero from to c v a b d l = (v, refl, λ r' c'. ground arith)
  copy_row_loop_lem (suc n) from to c v a b d l =
      let bg = Vga.get_bg rows cols from c v in
      let fg = Vga.get_fg rows cols from c v in
      let v₁ = record v {
        char = update v.char to c (v.char from c);
        attr = update v.attr to c (attrs bg fg);
      } in
      let (v', e, h) = copy_row_loop_lem n from to (c + 1) v₁ a b d (omega arith) in
      (
        v',
        rw (get_lem from c v a (omega arith), put_lem to c (v.char from c) bg fg v b (omega arith))
            e,
        λ r' c'. ground (arith, h r' c'),
      )

  pub clear_row_lem :
      (r : ℕ) (v : Vga)
      → r < rows
      → (v' : Vga) × (clear_row rows cols r v ≡ some v')
        × ((r' c' : ℕ) → c' < cols → v'.char r' c' ≡ (if r' == r then b' ' else v.char r' c'))
  unfolding clear_row
  clear_row_lem r v a =
      let (v', e, h) = clear_row_loop_lem cols r 0 v a (omega arith) in
      (v', e, λ r' c' l. ground (arith, h r' c'))

  pub clear_loop_lem :
      (n r : ℕ) (v : Vga)
      → r + n ≤ rows
      → (v' : Vga) × (clear_loop rows cols n r v ≡ some v')
        × ((r' c' : ℕ)
            → c' < cols
            → v'.char r' c' ≡ (if leb r r' && ltb r' (r + n) then b' ' else v.char r' c'))
  unfolding clear_loop
  clear_loop_lem zero r v a = (v, refl, λ r' c' l. ground arith)
  clear_loop_lem (suc n) r v a =
      let (v₁, e₁, h₁) = clear_row_lem r v (omega arith) in
      let (v', e, h) = clear_loop_lem n (r + 1) v₁ (omega arith) in
      (v', rw e₁ e, λ r' c' l. ground (arith, h r' c' l, h₁ r' c' l))

  pub shift_up_loop_lem :
      (n r : ℕ) (v : Vga)
      → 0 < r
      → r + n ≤ rows
      → (v' : Vga) × (shift_up_loop rows cols n r v ≡ some v')
        × ((r' c' : ℕ)
            → c' < cols
            → v'.char r' c' ≡ (
                if leb r (r' + 1) && ltb (r' + 1) (r + n)
                then v.char (r' + 1) c'
                else v.char r' c'))
  unfolding shift_up_loop
  shift_up_loop_lem zero r v a b = (v, refl, λ r' c' l. ground arith)
  shift_up_loop_lem (suc n) r v a b =
      let (v₁, e₁, h₁) =
        copy_row_loop_lem cols r (r - 1) 0 v (omega arith) (omega arith) (omega arith)
          (omega arith) in
      let (v', e, h) = shift_up_loop_lem n (r + 1) v₁ (omega arith) (omega arith) in
      (v', rw e₁ e, λ r' c' l. ground (arith, h r' c' l, h₁ (r' + 1) c', h₁ r' c'))

  pub pull_loop_lem :
      (n bg fg row i : ℕ) (v : Vga)
      → row < rows
      → i + n < cols
      → (v' : Vga) × (pull_loop rows cols n bg fg row i v ≡ some v')
        × ((r' c' : ℕ)
            → v'.char r' c' ≡ (if spanned n row i r' c' then v.char row (c' + 1) else v.char r' c'))
  unfolding pull_loop update
  pull_loop_lem zero bg fg row i v a b = (v, refl, λ r' c'. ground arith)
  pull_loop_lem (suc n) bg fg row i v a b =
      let ch = v.char row (i + 1) in
      let v₁ = record v {
        char = update v.char row i ch;
        attr = update v.attr row i (attrs bg fg);
      } in
      let (v', e, h) = pull_loop_lem n bg fg row (i + 1) v₁ a (omega arith) in
      (
        v',
        rw (get_lem row (i + 1) v a (omega arith), put_lem row i ch bg fg v a (omega arith)) e,
        λ r' c'. ground (arith, h r' c'),
      )

-- ===== src/User/Getbuf.antt =====
-- The keys of the editor: getbuf of user/edit.c, on the characters that its getchar returns. A block of a line is a
-- buffer of its own, and the linked nodes are the lines above the cursor's, from the nearest, the line, and the lines
-- below. What goes to the screen, with the line on top of it, and the lines typed to gets are left out. A block that
-- is freed once is just not mentioned any more; where lines are joined the frees are written out.
-- `none` is an access outside a block, or the free of a freed one; malloc and realloc succeed.
pub mod Text
pub mod Keys
pub mod Typing
mod Tests
use net_os.Base.{
  ℕ, zero, suc, ◌+◌, ◌-◌, Option, none, some, List, [], ◌∷◌, ◌++◌, ◌==◌, ◌||◌, ltb, if◌then◌else◌,
  ◌>>=◌, take, drop, length,
}
use net_os.User.Memory.{Buffer, Malloc, store, memcpy, strlen}
use net_os.User.Libstr.Edits.{append, add_char, delete_char}
use net_os.User.Edit.{read_lines, write_file}

-- The lines around `myLine`, and `offset`.
pub record Editor : Type 0 where
  pub before : List Buffer
  pub line : Buffer
  pub after : List Buffer
  pub offset : ℕ

-- How a turn of the loop ends: with the next turn, after bytes were written or not, or with the return.
pub data Pressed : Type 0 where
  again : Editor → Pressed
  saved : List ℕ → Editor → Pressed
  returned : Editor → Pressed

-- A block as free sees it.
pub data Block : Type 0 where
  live : Buffer → Block
  freed : Block

pub free_block : Block → Option Block
free_block (live p) = some freed
free_block freed = none

pub left_arrow : Editor → Editor
left_arrow e = if ltb 0 e.offset then record e { offset = e.offset - 1 } else e

pub right_arrow : Editor → Option Editor
right_arrow e = do
  n ← strlen e.line
  some (if ltb e.offset n then record e { offset = e.offset + 1 } else e)

-- The end of a line that is shorter.
pub clip : Editor → Option Editor
clip e = do n ← strlen e.line; some (if ltb n e.offset then record e { offset = n } else e)

pub up_arrow : Editor → Option Editor
up_arrow e = elim e.before [
  | [] ↦ some e
  | prev ∷ before ↦ do
    _ ← strlen prev
    clip (record e { before = before; line = prev; after = e.line ∷ e.after })
]

pub down_arrow : Editor → Option Editor
down_arrow e = elim e.after [
  | [] ↦ some e
  | next ∷ after ↦ do
    _ ← strlen e.line
    clip (record e { before = e.line ∷ e.before; line = next; after = after })
]

-- All lines, from the first.
pub whole : List Buffer → List Buffer → List Buffer
whole [] lines = lines
whole (line ∷ before) lines = whole before (line ∷ lines)

pub goes_on : Option Editor → Option Pressed
goes_on o = do e ← o; some (again e)

module _ (m : Malloc) where
  -- A block that realloc returns holds the old bytes, as many as fit.
  pub realloc : Buffer → ℕ → Buffer
  realloc p n = take n p ++ drop (length p) (m.fresh n)

  pub new_line : Editor → Option Editor
  new_line e = do
    n ← strlen e.line
    new ← memcpy (m.fresh (n - e.offset + 1)) 0 e.line e.offset (n - e.offset)
    new ← store new (n - e.offset) 0
    line ← store (realloc e.line (e.offset + 1)) e.offset 0
    some (record { before = line ∷ e.before; line = new; after = e.after; offset = 0 })

  pub join_lines : Editor → Option Editor
  join_lines e = elim e.before [
    | [] ↦ some e
    | prev ∷ before ↦ do
      len ← strlen prev
      line ← append m prev e.line len
      let old = live e.line
      -- `free(insert)` of append, and `free(toDelete->line)`
      old ← free_block old
      old ← free_block old
      some (record { before = before; line = line; after = e.after; offset = len })
  ]

  pub erase : Editor → Option Editor
  erase e =
      let shorter : Option Editor = (do
        line ← delete_char m e.line (e.offset - 1)
        some (record e { line = line; offset = e.offset - 1 })) in
      if e.offset == 0 then join_lines e else shorter

  pub type_char : ℕ → Editor → Option Editor
  type_char c e = do
    line ← add_char m e.line e.offset c
    some (record e { line = line; offset = e.offset + 1 })

  pub save_file : Editor → Option Pressed
  save_file e = do bytes ← write_file m (whole e.before (e.line ∷ e.after)); some (saved bytes e)

  -- A turn of the loop, from the key on.
  pub press : ℕ → Editor → Option Pressed
  press c e =
      if c == 0xf0
      then goes_on (some (left_arrow e))
      else if c == 0xf1
      then goes_on (right_arrow e)
      else if c == 0xf2
      then goes_on (up_arrow e)
      else if c == 0xf3
      then goes_on (down_arrow e)
      else if c == 0xfe
      then some (returned e)
      else if c == 0xfd
      then save_file e
      else if c == 13
      then goes_on (new_line e)
      else if (c == 8) || (c == 0x7f)
      then goes_on (erase e)
      else goes_on (type_char c e)

  -- The loop over the keys, with what was written.
  pub getbuf : List ℕ → List (List ℕ) → Editor → Option (List (List ℕ) × Pressed)
  getbuf [] files e = some (files, again e)
  getbuf (c ∷ keys) files e = do
    t ← press c e
    elim t [
      | again e ↦ getbuf keys files e
      | saved bytes e ↦ getbuf keys (files ++ bytes ∷ []) e
      | returned e ↦ some (files, returned e)
    ]

  -- main of the editor, from the bytes of the file on.
  pub edit : Buffer → List ℕ → Option (List (List ℕ) × Pressed)
  edit file keys = do
    lines ← read_lines m file
    elim lines [
      | [] ↦ none
      | line ∷ after ↦
          getbuf keys [] (record { before = []; line = line; after = after; offset = 0 })
    ]

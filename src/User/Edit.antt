-- ===== src/User/Edit.antt =====
-- The file of the editor, user/edit.c: main reads it into a list of lines, and writeFile puts the lines
-- together. The linked nodes are the list of their lines, each a block of its own; the node without a
-- line behind the last one, which main takes off again, is left out. The buffers that are freed, the
-- screen and the keys, which User.Getbuf models, are left out. `none` is an access outside a block or through null.
pub mod Spec
pub mod Read
pub mod Save
pub mod RoundTrip
mod Tests
use net_os.Base.{
  ℕ, zero, suc, ◌+◌, ◌-◌, Option, none, some, List, [], ◌∷◌, ◌++◌, ◌==◌, if◌then◌else◌, ◌>>=◌, take,
  length,
}
use net_os.User.Memory.{Buffer, Malloc, load, store, memcpy, strlen}

module _ (m : Malloc) where
  -- `while (oldTail < len)`, with the rounds that are left.
  pub read_loop : Buffer → ℕ → List Buffer → ℕ → ℕ → Option (List Buffer)
  read_loop buffer zero lines old_head old_tail = some lines
  read_loop buffer (suc n) lines old_head old_tail = do
    c ← load buffer old_tail
    let ended : Option (List Buffer) = (do
      line ← memcpy (m.fresh (old_tail - old_head + 1)) 0 buffer old_head (old_tail - old_head)
      line ← store line (old_tail - old_head) 0
      read_loop buffer n (lines ++ line ∷ []) (old_tail + 1) (old_tail + 1))
    let inside = read_loop buffer n lines old_head (old_tail + 1)
    if c == 10 then ended else inside

  -- The part of main that makes the list: with no line there is no last one to go back to.
  pub read_lines : Buffer → Option (List Buffer)
  read_lines buffer = do
    lines ← read_loop buffer (length buffer) [] 0 0
    elim lines [ [] ↦ none | line ∷ more ↦ some (line ∷ more) ]

  -- The loops of writeFile.
  pub tally : ℕ → List Buffer → Option ℕ
  tally size [] = some size
  tally size (line ∷ lines) = do n ← strlen line; tally (size + n + 1) lines

  pub zero_loop : ℕ → ℕ → Buffer → Option Buffer
  zero_loop zero i buffer = some buffer
  zero_loop (suc n) i buffer = do buffer ← store buffer i 0; zero_loop n (i + 1) buffer

  pub copy_loop : List Buffer → ℕ → Buffer → Option Buffer
  copy_loop [] val buffer = some buffer
  copy_loop (line ∷ lines) val buffer = do
    n ← strlen line
    buffer ← memcpy buffer val line 0 n
    buffer ← store buffer (val + n) 10
    copy_loop lines (val + n + 1) buffer

  -- writeFile: the bytes that it gives to write.
  pub write_file : List Buffer → Option (List ℕ)
  write_file lines = do
    size ← tally 0 lines
    buffer ← zero_loop (size + 1) 0 (m.fresh (size + 1))
    buffer ← copy_loop lines 0 buffer
    buffer ← store buffer size 0
    buffer ← store buffer size 0
    some (take size buffer)

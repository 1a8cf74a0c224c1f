-- ===== src/Kernel/Fs/OpenFiles.antt =====
-- The table of open files of kernel/fs.cc: Fat439::openFile and Fat439::closeFile, with Resource::ref and
-- Resource::unref of kernel/resource.h on an OpenFile, which is deleted with its entry. The mutex around
-- each of them makes it one step. `none` is an access outside the table.
pub mod Sharing
mod Tests
use net_os.Base.{
  ℕ, zero, suc, ◌+◌, Option, none, some, List, [], ◌∷◌, ltb, ◌==◌, if◌then◌else◌, ◌>>=◌, add32,
  sub32,
}
use net_os.Kernel.Fs.{OpenFile}
use net_os.Kernel.Fs.Directory.{open_file}

-- An OpenFile with its count of references.
pub record Shared : Type 0 where
  pub file : OpenFile
  pub count : ℕ

pub record OpenFiles : Type 0 where
  pub n_blocks : ℕ
  pub open_files : ℕ → Option Shared

abbrev pub set_file : ℕ → Option Shared → OpenFiles → OpenFiles
set_file start p t = record t { open_files = λ s. if s == start then p else t.open_files s }

-- Resource::unref, which deletes a resource with its last reference.
abbrev pub unref_shared : Option Shared → Option Shared
unref_shared none = none
unref_shared (some p) = if p.count == 1 then none else some (record p { count = sub32 p.count 1 })

module _ (read_block : ℕ → List ℕ) where
  abbrev pub found_or_new : ℕ → Option Shared → Option Shared
  found_or_new start none = do f ← open_file read_block start; some (record { file = f; count = 0 })
  found_or_new start (some p) = some p

  -- Fat439::openFile
  pub open_shared : ℕ → OpenFiles → Option (OpenFile × OpenFiles)
  open_shared start t =
      let opened : Option (OpenFile × OpenFiles) = (do
        p ← found_or_new start (t.open_files start)
        some (p.file, set_file start (some (record p { count = add32 p.count 1 })) t)) in
      if ltb start t.n_blocks then opened else none

  -- Fat439::closeFile
  pub close_shared : OpenFile → OpenFiles → Option OpenFiles
  close_shared f t =
      if ltb f.start t.n_blocks
      then some (set_file f.start (unref_shared (t.open_files f.start)) t)
      else none

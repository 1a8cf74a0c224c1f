-- ===== src/Kernel/Fs/OpenFiles/Sharing.antt =====
-- Who shares an open file of kernel/fs.cc.
use net_os.Base.{
  ℕ, ◌+◌, ◌-◌, ◌^◌, ◌<◌, ◌≡◌, refl, ap, ◌∙◌, true, false, Option, none, some, List, [], ◌∷◌, ltb,
  ltb_of_lt, ◌==◌, if◌then◌else◌, ◌>>=◌, add32_exact, sub32_exact, length, arith, Bool-cases, inl,
  inr,
}
use net_os.Kernel.Fs.{OpenFile}
use net_os.Kernel.Fs.Directory.{open_file}
use net_os.Kernel.Fs.OpenFiles.{
  Shared, OpenFiles, set_file, unref_shared, open_shared, close_shared,
}

pub data Call : Type 0 where
  opens closes : ℕ → Call

-- How many references there are to the file of each block.
abbrev pub step : Call → (ℕ → ℕ) → ℕ → ℕ
step (opens start) held s = if s == start then held s + 1 else held s
step (closes start) held s = if s == start then held s - 1 else held s

abbrev pub steps : List Call → (ℕ → ℕ) → ℕ → ℕ
steps [] held = held
steps (c ∷ calls) held = steps calls (step c held)

-- A block is one of the table, and a file is closed only by one that holds it.
abbrev pub Legal : ℕ → List Call → (ℕ → ℕ) → Type 0
Legal n [] held = Unit
Legal n (opens start ∷ calls) held = (start < n) × Legal n calls (step (opens start) held)
Legal n (closes start ∷ calls) held =
    (start < n) × (0 < held start) × Legal n calls (step (closes start) held)

module _ (read_block : ℕ → List ℕ) (file : ℕ → OpenFile) where
  -- The files that the calls of openFile in a run return, and the table behind it.
  abbrev pub run : List Call → OpenFiles → Option (List OpenFile × OpenFiles)
  run [] t = some ([], t)
  run (opens start ∷ calls) t = do
    (f, t) ← open_shared read_block start t
    (fs, t) ← run calls t
    some (f ∷ fs, t)
  run (closes start ∷ calls) t = do t ← close_shared read_block (file start) t; run calls t

  abbrev pub opened : List Call → List OpenFile
  opened [] = []
  opened (opens start ∷ calls) = file start ∷ opened calls
  opened (closes start ∷ calls) = opened calls

  -- What a block of the table holds for so many references.
  abbrev entry : ℕ → ℕ → Option Shared
  entry s k = if k == 0 then none else some (record { file = file s; count = k })

  -- The table has the file of each block exactly while it is held, with the count of its holders.
  pub record Counts (n : ℕ) (held : ℕ → ℕ) (t : OpenFiles) : Type 0 where
    pub size : t.n_blocks ≡ n
    pub entries : (s : ℕ) → s < n → t.open_files s ≡ entry s (held s)

  -- The files of the disk, as they open.
  pub record OnDisk (n : ℕ) : Type 0 where
    pub opens_as : (s : ℕ) → s < n → open_file read_block s ≡ some (file s)
    pub starts : (s : ℕ) → s < n → (file s).start ≡ s

  set-Counts :
      {n : ℕ} {held : ℕ → ℕ} {t : OpenFiles}
      → Counts n held t
      → (start k : ℕ) (held' : ℕ → ℕ) → ((s : ℕ) → held' s ≡ (if s == start then k else held s))
      → Counts n held' (set_file start (entry start k) t)
  set-Counts {n} {held} {t} h start k held' same = record {
    size = h.size;
    entries = λ s l. elim (Bool-cases (s == start)) [
      | inl e ↦ let at : s ≡ start = ground (arith, e) in rw (same s, e, at)
      | inr e ↦ rw (same s, e) (h.entries s l)
    ];
  }

  open_lem :
      {n : ℕ} {held : ℕ → ℕ} {t : OpenFiles}
      → OnDisk n
      → Counts n held t
      → (start : ℕ) → start < n
      → held start + 1 < 2 ^ 32
      → open_shared read_block start t
        ≡ some (file start, set_file start (entry start (held start + 1)) t)
  unfolding open_shared
  open_lem {n} {held} {t} disk h start l small =
      let inside : ltb start t.n_blocks ≡ true = rw h.size (ltb_of_lt start n l) in
      let more : (held start + 1 == 0) ≡ false = ground arith in
      elim (Bool-cases (held start == 0)) [
        | inl e ↦
            let z : held start ≡ 0 = ground (arith, e) in
            let empty : t.open_files start ≡ none = h.entries start l ∙ (rw e refl) in
            rw (inside, empty, disk.opens_as start l, z, add32_exact 0 1 (omega arith)) refl
        | inr e ↦
            let there : t.open_files start
                ≡ some (record { file = file start; count = held start }) =
              h.entries start l ∙ (rw e refl) in
            rw (inside, there, add32_exact (held start) 1 small, more) refl
      ]

  close_at :
      (f : OpenFile) (t : OpenFiles) (start : ℕ)
      → f.start ≡ start
      → ltb start t.n_blocks ≡ true
      → close_shared read_block f t ≡ some (set_file start (unref_shared (t.open_files start)) t)
  unfolding close_shared
  close_at f t start e inside = rw (e, inside) refl

  unref_shared_lem :
      (start k : ℕ)
      → 0 < k
      → k < 2 ^ 32
      → unref_shared (some (record { file = file start; count = k })) ≡ entry start (k - 1)
  unref_shared_lem start k any small = elim (Bool-cases (k == 1)) [
    | inl last ↦ let z : k ≡ 1 = ground (arith, last) in rw z refl
    | inr more ↦
        let left : (k - 1 == 0) ≡ false = ground (arith, more, any) in
        rw (more, sub32_exact k 1 (omega (arith, any)) small, left) refl
  ]

  close_lem :
      {n : ℕ} {held : ℕ → ℕ} {t : OpenFiles}
      → OnDisk n
      → Counts n held t
      → (start : ℕ) → start < n
      → 0 < held start
      → held start < 2 ^ 32
      → close_shared read_block (file start) t
        ≡ some (set_file start (entry start (held start - 1)) t)
  close_lem {n} {held} {t} disk h start l any small =
      let inside : ltb start t.n_blocks ≡ true = rw h.size (ltb_of_lt start n l) in
      let e : (held start == 0) ≡ false = ground (arith, any) in
      let there : t.open_files start ≡ some (record { file = file start; count = held start }) =
        h.entries start l ∙ (rw e refl) in
      close_at (file start) t start (disk.starts start l) inside
      ∙ ap (λ p. some (set_file start p t))
          (ap unref_shared there ∙ unref_shared_lem start (held start) any small)

  -- The table of open files shares one open file for each block: in every legal run of openFile and closeFile,
  -- of so few calls that no count overflows, each openFile returns the file of its block, and the table behind
  -- the run has the file of a block exactly while someone holds it, with the count of its holders.
  pub run-Counts :
      {n : ℕ}
      → OnDisk n
      → (calls : List Call) (held : ℕ → ℕ) (t : OpenFiles) → Counts n held t
      → ((s : ℕ) → held s + length calls < 2 ^ 32)
      → Legal n calls held
      → (t' : OpenFiles) × (run calls t ≡ some (opened calls, t')) × Counts n (steps calls held) t'
  run-Counts disk [] held t h small legal = (t, refl, h)
  run-Counts disk (opens start ∷ calls) held t h small (l, legal) =
      let fits : held start + 1 < 2 ^ 32 = omega (arith, small start) in
      let h' = set-Counts h start (held start + 1) (step (opens start) held) (λ s. ground arith) in
      let (t', runs, h'') =
        run-Counts disk calls (step (opens start) held) _ h' (λ s. ground (arith, small s)) legal in
      (t', rw (open_lem disk h start l fits, runs) refl, h'')
  run-Counts disk (closes start ∷ calls) held t h small (l, any, legal) =
      let fits : held start < 2 ^ 32 = omega (arith, small start) in
      let h' = set-Counts h start (held start - 1) (step (closes start) held) (λ s. ground arith) in
      let (t', runs, h'') =
        run-Counts disk calls (step (closes start) held) _ h' (λ s. ground (arith, small s))
          legal in
      (t', rw (close_lem disk h start l any fits) runs, h'')

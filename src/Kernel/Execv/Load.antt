-- ===== src/Kernel/Execv/Load.antt =====
-- What a program finds of itself behind execv of kernel/process.cc.
use net_os.Base.{
  ℕ, suc, ◌+◌, ◌^◌, ◌≤◌, ◌<◌, ◌≡◌, refl, ◌∙◌, ◌⊎◌, inl, inr, false, true, some, List, [], ◌∷◌, ◌==◌,
  if◌then◌else◌, ltb, leb, length, get_elem?, add32, arith, Bool-cases,
}
use net_os.Kernel.Execv.{
  Memory, seek_read, half, word, copy_bytes, read_into, load_loop, copy_args, execv, argv,
  strings_start, user_esp,
}
use net_os.Kernel.Execv.Args.{
  Passed, total, word_at, same_word, Passed-same, copy_args-Passed, copy_bytes-outside,
  copy_bytes-inside, get_elem?-bound,
}

-- A program header.
pub record Segment : Type 0 where
  pub kind : ℕ
  pub offset : ℕ
  pub vaddr : ℕ
  pub filesz : ℕ

module _ (prog : List ℕ) where
  -- The headers from `hoff` on, `size` bytes apart.
  unfoldable pub Headers : ℕ → List Segment → ℕ → Type 0
  Headers size [] hoff = Unit
  Headers size (s ∷ segments) hoff =
      (word (seek_read prog hoff 32) 0 ≡ some s.kind)
      × (word (seek_read prog hoff 32) 4 ≡ some s.offset)
      × (word (seek_read prog hoff 32) 8 ≡ some s.vaddr)
      × (word (seek_read prog hoff 32) 16 ≡ some s.filesz)
      × Headers size segments (add32 hoff size)

  -- The file has a header with these fields, and the program headers.
  pub record IsProgram (entry hoff size : ℕ) (segments : List Segment) : Type 0 where
    pub entry_is : word (seek_read prog 0 52) 24 ≡ some entry
    pub hoff_is : word (seek_read prog 0 52) 28 ≡ some hoff
    pub size_is : half (seek_read prog 0 52) 42 ≡ some size
    pub num_is : half (seek_read prog 0 52) 44 ≡ some (length segments)
    pub headers : Headers size segments hoff

  -- What a header has loaded.
  abbrev pub bytes : Segment → List ℕ
  bytes s = if s.kind == 1 then seek_read prog s.offset s.filesz else []

  -- An address that no header loads to.
  unfoldable pub Free : List Segment → ℕ → Type 0
  Free [] x = Unit
  Free (s ∷ segments) x = ((x < s.vaddr) ⊎ (s.vaddr + length (bytes s) ≤ x)) × Free segments x

  -- A header that loads anything loads it to the upper half, and none to what another has loaded, or to the arguments.
  unfoldable pub Disjoint : List Segment → Type 0
  Disjoint [] = Unit
  Disjoint (s ∷ segments) =
      ((x : ℕ) → s.vaddr ≤ x → x < s.vaddr + length (bytes s) → Free segments x)
      × (s.kind ≡ 1 → 0x80000000 ≤ s.vaddr)
      × (s.vaddr + length (bytes s) ≤ strings_start)
      × Disjoint segments

  -- Each header's bytes stand at its address.
  unfoldable pub Loaded : List Segment → Memory → Type 0
  Loaded [] mem = Unit
  Loaded (s ∷ segments) mem =
      ((j c : ℕ) → get_elem? (bytes s) j ≡ some c → mem (s.vaddr + j) ≡ c) × Loaded segments mem

  unfoldable loads : List Segment → Memory → Memory
  loads [] mem = mem
  loads (s ∷ segments) mem = loads segments (copy_bytes (bytes s) s.vaddr mem)

  loads-outside :
      (segments : List Segment) (x : ℕ) (mem : Memory)
      → Free segments x
      → loads segments mem x ≡ mem x
  unfolding loads Free
  loads-outside [] x mem h = refl
  loads-outside (s ∷ segments) x mem h =
      loads-outside segments x (copy_bytes (bytes s) s.vaddr mem) (h.1)
      ∙ copy_bytes-outside (bytes s) s.vaddr x mem (h.0)

  loads-Loaded :
      (segments : List Segment) (mem : Memory)
      → Disjoint segments
      → Loaded segments (loads segments mem)
  unfolding loads Disjoint Loaded
  loads-Loaded [] mem h = tt
  loads-Loaded (s ∷ segments) mem h =
      let mem₁ = copy_bytes (bytes s) s.vaddr mem in
      (
        λ j c e.
            loads-outside segments (s.vaddr + j) mem₁
              (h.0 (s.vaddr + j) (omega arith) (omega (arith, get_elem?-bound (bytes s) j c e)))
            ∙ copy_bytes-inside (bytes s) s.vaddr j c mem e,
        loads-Loaded segments mem₁ (h.3),
      )

  Disjoint-Free :
      (segments : List Segment) (x : ℕ) → Disjoint segments → strings_start ≤ x → Free segments x
  unfolding Disjoint Free
  Disjoint-Free [] x h l = tt
  Disjoint-Free (s ∷ segments) x h l =
      (inr (omega (arith, h.2, l)), Disjoint-Free segments x (h.3) l)

  read_into_lem :
      (b : List ℕ) (dest : ℕ) (mem : Memory)
      → 0x80000000 ≤ dest
      → dest + length b ≤ strings_start
      → read_into b dest mem ≡ some (copy_bytes b dest mem)
  unfolding read_into copy_bytes
  read_into_lem [] dest mem lo hi = refl
  read_into_lem (c ∷ b) dest mem lo hi =
      let any : (length (c ∷ b) == 0) ≡ false = ground (arith) in
      let upper : ltb dest 0x80000000 ≡ false = ground (arith, lo) in
      let inside : leb (dest + length (c ∷ b)) (2 ^ 32) ≡ true = ground (arith, hi) in
      rw (any, upper, inside) refl

  round_run :
      (size n hoff : ℕ) (s : Segment) (mem : Memory) (segments : List Segment)
      → Headers size (s ∷ segments) hoff
      → (s.kind ≡ 1 → 0x80000000 ≤ s.vaddr)
      → s.vaddr + length (bytes s) ≤ strings_start
      → load_loop prog size (suc n) hoff mem
        ≡ load_loop prog size n (add32 hoff size) (copy_bytes (bytes s) s.vaddr mem)
  unfolding load_loop Headers copy_bytes
  round_run size n hoff s mem segments (a, b, c, d, rest) lo hi = elim (Bool-cases (s.kind == 1)) [
    | inl e ↦
        let hi' : s.vaddr + length (seek_read prog s.offset s.filesz) ≤ strings_start =
          rw e at hi in
        rw
          (
            a,
            e,
            b,
            c,
            d,
            read_into_lem (seek_read prog s.offset s.filesz) s.vaddr mem (lo (ground (arith, e)))
                hi',
          )
          refl
    | inr e ↦ rw (a, e) refl
  ]

  load_loop-loads :
      (size hoff : ℕ) (segments : List Segment) (mem : Memory)
      → Headers size segments hoff
      → Disjoint segments
      → load_loop prog size (length segments) hoff mem ≡ some (loads segments mem)
  unfolding loads Headers Disjoint load_loop
  load_loop-loads size hoff [] mem h apart = refl
  load_loop-loads size hoff (s ∷ segments) mem h apart =
      round_run size (length segments) hoff s mem segments h (apart.1) (apart.2)
      ∙ load_loop-loads size (add32 hoff size) segments (copy_bytes (bytes s) s.vaddr mem) (h.4)
          (apart.3)

  execv_run :
      (hoff size num entry : ℕ) (args : List (List ℕ)) (mem mem' : Memory)
      → word (seek_read prog 0 52) 28 ≡ some hoff
      → half (seek_read prog 0 52) 42 ≡ some size
      → half (seek_read prog 0 52) 44 ≡ some num
      → word (seek_read prog 0 52) 24 ≡ some entry
      → load_loop prog size num hoff (copy_args args mem) ≡ some mem'
      → execv prog args mem ≡ some (entry, mem')
  unfolding execv
  execv_run hoff size num entry args mem mem' a b c d e = rw (a, b, c, e, d) refl

  -- execv of a program whose headers are in its file, load to the upper half below the strings and do not load to the same addresses,
  -- with arguments that take at most 0xf0000 bytes with their terminators, at most 0x3ffc of them, ends with the entry
  -- of the program. Memory then has the bytes of each PT_LOAD header that the file has at the header's address, the
  -- number of the arguments and the address of the pointers on the stack, and behind each pointer its string,
  -- terminated.
  pub execv-Loaded :
      (entry hoff size : ℕ) (segments : List Segment) (args : List (List ℕ)) (mem : Memory)
      → IsProgram entry hoff size segments
      → Disjoint segments
      → total args ≤ 0xf0000
      → length args ≤ 0x3ffc
      → (mem' : Memory) × (execv prog args mem ≡ some (entry, mem'))
        × Loaded segments mem'
        × (word_at mem' user_esp ≡ length args)
        × (word_at mem' (user_esp + 4) ≡ argv)
        × Passed args 0 strings_start mem'
  execv-Loaded entry hoff size segments args mem h apart few_bytes few =
      let mem₁ = copy_args args mem in
      let mem₂ = loads segments mem₁ in
      let (count, pointers, passed, _) = copy_args-Passed args mem few_bytes few in
      let same : (x : ℕ) → strings_start ≤ x → mem₂ x ≡ mem₁ x =
        λ x l. loads-outside segments x mem₁ (Disjoint-Free segments x apart l) in
      (
        mem₂,
        execv_run hoff size (length segments) entry args mem mem₂ h.hoff_is h.size_is h.num_is
            h.entry_is (load_loop-loads size hoff segments mem₁ h.headers apart),
        loads-Loaded segments mem₁ apart,
        same_word mem₂ mem₁ user_esp (λ x l u. same x (omega (arith, l))) ∙ count,
        same_word mem₂ mem₁ (user_esp + 4) (λ x l u. same x (omega (arith, l))) ∙ pointers,
        Passed-same args 0 strings_start mem₁ mem₂ (λ x l u. same x l) (omega (arith, few_bytes))
            (omega (arith, few)) passed,
      )

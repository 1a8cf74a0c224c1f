-- ===== src/Fat439/Found.antt =====
-- Files of an image of fat439/mkfs.c found and read by kernel/fs.cc.
use net_os.Base.{
  in_range, found, ℕ, zero, suc, ◌+◌, ◌-◌, ◌*◌, ◌/◌, ◌%◌, ◌^◌, ◌≤◌, ◌<◌, ◌≡◌, ◌≢◌, refl, sym, ap,
  ◌∙◌, true, false, some, List, [], ◌∷◌, ◌++◌, length, get_or, get_elem?, slice, slice-shift, ◌==◌,
  ==_ne, arith, take, drop, add32, add32_exact, ◌&&◌,
}
use net_os.User.Memory.Laws.{NoNul}
use net_os.Kernel.Fs.{OpenFile, read_fully_at, ok}
use net_os.Kernel.Fs.Chain.{IsChain, content}
use net_os.Kernel.Fs.ReadFile.{read_fully_at-content}
use net_os.Kernel.Fs.Directory.{value, matches, open_file, lookup_loop, lookup}
use net_os.Kernel.Fs.Directory.Names.{padded, matches_same, matches_other}
use net_os.Fat439.{File, Image}
use net_os.Fat439.Files.{IsEntry, Loaded}
use net_os.Fat439.Build.{IsRoot}
use net_os.Fat439.Mounted.{read_block, table, full, byte_at_lem, walk_lem, value_at, open_header}

drop_entry : (f : ℕ → ℕ) (a : ℕ) → drop 12 (slice f a 16) ≡ slice f (a + 12) 4
drop_entry f a =
    slice-shift f f (suc (suc (suc (suc (suc (suc (suc (suc (suc (suc (suc (suc a))))))))))))
      (a + 12) 4 (λ i l. ap f (omega arith))

module _ {img : Image} {r n : ℕ} (h : IsRoot img r n) (few : n ≤ 31) where
  -- The root directory as it is when it is open.
  abbrev pub opened_root : OpenFile
  opened_root = record { start = r; type = 2; length = n * 16 }

  pub open_root_lem : open_file (read_block img) r ≡ some opened_root
  open_root_lem =
      open_header img r 2 (n * 16) (omega (arith, h.inside, h.small)) (omega arith)
        (omega (arith, few)) h.type_word h.length_word

  root-IsChain : IsChain (table img) opened_root (λ k. r)
  root-IsChain = record {
    step = λ k l.
        let first : k ≡ 0 = omega (arith, l, few) in
        rw first
          (walk_lem img 0 r h.inside (λ t b. absurd (omega (arith, b))) ∙ ap some (omega arith));
    small = λ k. omega (arith, h.inside, h.small);
    fits = omega (arith, few);
  }

  -- One entry is read from one block.
  entry_lem :
      (i : ℕ)
      → i < n
      → read_fully_at (read_block img) (table img) opened_root (i * 16) 16
        ≡ ok (slice img.bytes (r * 512 + 8 + i * 16) 16, 16)
  entry_lem i l =
      let bytes : slice (content (read_block img) (λ k. r)) (i * 16) 16
          ≡ slice img.bytes (r * 512 + 8 + i * 16) 16 =
        slice-shift (content (read_block img) (λ k. r)) img.bytes (i * 16) (r * 512 + 8 + i * 16) 16
          (λ j b.
            byte_at_lem img (r * 512 + (i * 16 + j + 8) % 512)
            ∙ ap img.bytes (omega (arith, b, l, few))) in
      rw (← bytes) (
        read_fully_at-content (read_block img) (table img) opened_root (λ k. r) (full img)
          root-IsChain (i * 16) 16 (omega arith) (omega (arith, l)) (omega (arith, l, few))
          (omega (arith, l)))

  module _ (i s : ℕ) (nm : List ℕ) (e : IsEntry img (r * 512 + 8 + i * 16) nm s) where
    entry_name : take 12 (slice img.bytes (r * 512 + 8 + i * 16) 16) ≡ padded nm 12
    entry_name =
        slice-shift img.bytes (λ j. get_or nm j 0) (r * 512 + 8 + i * 16) 0 12
          (λ j l. e.name_bytes j l ∙ ap (λ k. get_or nm k 0) (omega arith))

    entry_start : s < 2 ^ 32 → value (drop 12 (slice img.bytes (r * 512 + 8 + i * 16) 16)) ≡ s
    entry_start l =
        ap value (drop_entry img.bytes (r * 512 + 8 + i * 16))
        ∙ value_at img (r * 512 + 8 + i * 16 + 12) s l (λ k b. e.start_word k b)

  -- From entry `i` on, the name is found at the first entry that has it.
  lookup_there :
      (i k s : ℕ) (nm name : List ℕ)
      → i < n
      → IsEntry img (r * 512 + 8 + i * 16) nm s
      → s < 2 ^ 32
      → matches (padded nm 12) name 0 ≡ some true
      → lookup_loop (read_block img) (table img) opened_root name (suc k) (i * 16) ≡ ok s
  unfolding lookup_loop
  lookup_there i k s nm name l e small m =
      rw (entry_lem i l, entry_name i s nm e, m, entry_start i s nm e small, lookup_loop) refl

  lookup_on :
      (i k s : ℕ) (nm name : List ℕ)
      → i < n
      → IsEntry img (r * 512 + 8 + i * 16) nm s
      → matches (padded nm 12) name 0 ≡ some false
      → lookup_loop (read_block img) (table img) opened_root name (suc k) (i * 16)
        ≡ lookup_loop (read_block img) (table img) opened_root name k ((i + 1) * 16)
  unfolding lookup_loop
  lookup_on i k s nm name l e m =
      let next : add32 (i * 16) 16 ≡ (i + 1) * 16 =
        add32_exact (i * 16) 16 (omega (arith, l, few)) ∙ omega arith in
      rw (entry_lem i l, entry_name i s nm e, m, next, lookup_loop) refl

  pub lookup_name :
      (name : List ℕ) (s : ℕ)
      → NoNul name
      → name ≢ 46 ∷ []
      → lookup_loop (read_block img) (table img) opened_root (name ++ 0 ∷ []) n 0 ≡ ok s
      → lookup (read_block img) (table img) r opened_root (name ++ 0 ∷ []) ≡ ok s
  unfolding lookup
  lookup_name [] s plain dot e = let all : n * 16 / 16 ≡ n = omega arith in rw all e
  lookup_name (c ∷ []) s plain dot e =
      let all : n * 16 / 16 ≡ n = omega arith in
      let other : (c == 46) ≡ false = ==_ne c 46 (λ q. dot (rw q refl)) in rw (all, other) e
  lookup_name (c ∷ d ∷ name) s plain dot e =
      let all : n * 16 / 16 ≡ n = omega arith in
      let other : (c == 46) && (d == 0) ≡ false = ground (arith, plain.1.0) in rw (all, other) e

  -- Past the entries with other names.
  pub lookup_skips :
      (files : List File) (f : File) (s k : ℕ)
      → Loaded img r (r * 512 + 8) 0 files
      → get_elem? files k ≡ some f
      → length files ≡ n
      → IsEntry img (r * 512 + 8 + k * 16) f.name s
      → s < 2 ^ 32
      → NoNul f.name
      → length f.name < 12
      → ((j : ℕ) (f' : File)
          → j < k
          → get_elem? files j ≡ some f'
          → NoNul f'.name × (f'.name ≢ f.name))
      → (j i : ℕ) → i + j ≡ k
      → lookup_loop (read_block img) (table img) opened_root (f.name ++ 0 ∷ []) (n - i) (i * 16)
        ≡ ok s
  lookup_skips files f s k loaded at all e small plain short others zero i same =
      let here : i ≡ k = omega (arith, same) in
      let inside : i < n = omega (arith, in_range files k f at, all, here) in
      let more : n - i ≡ suc (n - i - 1) = omega (arith, inside) in
      rw more (
        lookup_there i (n - i - 1) s f.name (f.name ++ 0 ∷ []) inside (rw (sym here) at e) small
          (matches_same f.name 12 plain short))
  lookup_skips files f s k loaded at all e small plain short others (suc j) i same =
      let before : i < k = omega (arith, same) in
      let inside : i < n = omega (arith, in_range files k f at, all, before) in
      let (f', there) = found files i (omega (arith, inside, all)) in
      let (s', below, entry, stored) = loaded.file i f' there in
      let other = others i f' before there in
      let more : n - i ≡ suc (n - (i + 1)) = omega (arith, inside) in
      let zero_on : 0 + i ≡ i = omega arith in
      rw more (
        lookup_on i (n - (i + 1)) s' f'.name (f.name ++ 0 ∷ []) inside (rw zero_on at entry)
          (matches_other f'.name f.name 12 other.0 plain other.1)
        ∙ lookup_skips files f s k loaded at all e small plain short others j (i + 1)
            (omega (arith, same)))

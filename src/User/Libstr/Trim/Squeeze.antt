-- ===== src/User/Libstr/Trim/Squeeze.antt =====
-- The loop of trimSpace that joins spaces in place: the part written, a gap, and the part to read.
use net_os.Base.{
  ℕ, suc, ◌+◌, ◌≡◌, refl, sym, ap, ◌∙◌, true, false, Option, some, List, [], ◌∷◌, ◌++◌, length,
  ◌==◌, arith, Bool-cases, inl, inr, ◌⊎◌, append-nil, append_assoc, length-append,
}
use net_os.User.Memory.{Buffer, load, store}
use net_os.User.Memory.Laws.{load-at, store-at, snoc}
use net_os.User.Libstr.{load_before, squeeze_round, squeeze_loop}
use net_os.User.Libstr.Words.{squeeze}

-- The gap after a write at its start, with `c` read behind it.
abbrev shift : List ℕ → ℕ → List ℕ
shift [] c = []
shift (g ∷ gap) c = gap ++ c ∷ []

write_lem :
    (out gap : List ℕ) (c : ℕ) (t : List ℕ)
    → store (out ++ (gap ++ c ∷ t)) (length out) c ≡ some (out ++ (c ∷ (shift gap c ++ t)))
write_lem out [] c t = store-at out c c t (length out) refl
write_lem out (g ∷ gap) c t = store-at out g c (gap ++ c ∷ t) (length out) refl ∙ rw (snoc gap c t)

read_lem :
    (out gap : List ℕ) (c : ℕ) (t : List ℕ)
    → load (out ++ (gap ++ c ∷ t)) (length out + length gap) ≡ some c
read_lem out gap c t =
    rw (sym (append_assoc out gap (c ∷ t)))
      (load-at (out ++ gap) c t _ (omega (arith, length-append out gap)))

before_lem :
    (p : List ℕ) (before : ℕ) (t : List ℕ) (i : ℕ)
    → i ≡ suc (length p)
    → load_before (p ++ before ∷ t) i ≡ some before
unfolding load_before
before_lem p before t i e = rw e (load-at p before t (length p) refl)

-- The character in front of the part to read stands at the end of `out ++ gap`.
abbrev Before : List ℕ → List ℕ → ℕ → Type 0
Before out gap before = (p : List ℕ) × (out ++ gap ≡ p ++ before ∷ [])

Before-shift : (out gap : List ℕ) (c : ℕ) → Before (out ++ c ∷ []) (shift gap c) c
Before-shift out [] c = (out, append-nil _)
Before-shift out (g ∷ gap) c = (out ++ c ∷ gap, simp append_assoc)

Before-skip : (out gap : List ℕ) (c : ℕ) → Before out (gap ++ c ∷ []) c
Before-skip out gap c = (out ++ gap, simp append_assoc)

round-Before :
    (out gap : List ℕ) (before c : ℕ) (t : List ℕ)
    → Before out gap before
    → load_before (out ++ (gap ++ c ∷ t)) (length out + length gap) ≡ some before
round-Before out gap before c t (p, e) =
    let l : length out + length gap ≡ suc (length p) =
      omega (arith, length-append out gap, length-append p (before ∷ []), ap length e) in
    rw (sym (append_assoc out gap (c ∷ t)), e, append_assoc p (before ∷ []) (c ∷ t))
      (before_lem p before (c ∷ t) _ l)

-- What the loop leaves: what it wrote, then what it did not reach again, at least the `tail`.
abbrev Squeezed : List ℕ → ℕ → List ℕ → List ℕ → Option (Buffer × ℕ) → Type 0
Squeezed out before todo tail r =
    (rest : List ℕ) × (r
      ≡ some (
        out ++ (squeeze before todo ++ (rest ++ tail)),
        length out + length (squeeze before todo),
      ))

length-shift : (gap : List ℕ) (c : ℕ) → length (shift gap c) ≡ length gap
length-shift [] c = refl
length-shift (g ∷ gap) c = omega (arith, length-append gap (c ∷ []))

module _ (out gap : List ℕ) (before c : ℕ) (s tail : List ℕ) where
  abbrev buffer : Buffer
  buffer = out ++ (gap ++ c ∷ (s ++ tail))

  -- The loop from here on, and the loop after a round that writes, and after one that does not.
  abbrev whole : Option (Buffer × ℕ)
  whole = squeeze_loop (suc (length s)) buffer (length out + length gap) (length out)

  abbrev written : Option (Buffer × ℕ)
  written =
      squeeze_loop (length s) ((out ++ c ∷ []) ++ (shift gap c ++ (s ++ tail)))
        (length (out ++ c ∷ []) + length (shift gap c)) (length (out ++ c ∷ []))

  abbrev skipped : Option (Buffer × ℕ)
  skipped =
      squeeze_loop (length s) (out ++ ((gap ++ c ∷ []) ++ (s ++ tail)))
        (length out + length (gap ++ c ∷ [])) (length out)

  whole-written :
      squeeze_round buffer (length out + length gap) (length out)
        ≡ some (out ++ (c ∷ (shift gap c ++ (s ++ tail))), length out + 1)
      → whole ≡ written
  unfolding squeeze_loop
  whole-written round =
      let j : length out + 1 ≡ length (out ++ c ∷ []) = omega (arith, length-append out (c ∷ [])) in
      let i : length out + length gap + 1 ≡ length (out ++ c ∷ []) + length (shift gap c) =
        omega (arith, length-append out (c ∷ []), length-shift gap c) in
      rw (round, snoc out c (shift gap c ++ (s ++ tail)), i, j)

  whole-skipped :
      squeeze_round buffer (length out + length gap) (length out) ≡ some (buffer, length out)
      → whole ≡ skipped
  unfolding squeeze_loop
  whole-skipped round =
      let i : length out + length gap + 1 ≡ length out + length (gap ++ c ∷ []) =
        omega (arith, length-append gap (c ∷ [])) in
      rw (round, snoc gap c (s ++ tail), i)

  Squeezed-written :
      squeeze before (c ∷ s) ≡ c ∷ squeeze c s
      → Squeezed (out ++ c ∷ []) c s tail written
      → whole ≡ written
      → Squeezed out before (c ∷ s) tail whole
  Squeezed-written kept (rest, e) same =
      let l : length (out ++ c ∷ []) + length (squeeze c s)
          ≡ length out + suc (length (squeeze c s)) =
        omega (arith, length-append out (c ∷ [])) in
      (rest, same ∙ e ∙ rw (kept, l, snoc out c (squeeze c s ++ (rest ++ tail))))

  module _ (last : Before out gap before) where
    -- A character other than the space, or the first space behind a word, is written.
    round_writes :
        ((c == b' ') ≡ false) ⊎ ((c ≡ b' ') × ((before == b' ') ≡ false))
        → squeeze_round buffer (length out + length gap) (length out)
          ≡ some (out ++ (c ∷ (shift gap c ++ (s ++ tail))), length out + 1)
    unfolding squeeze_round
    round_writes (inl ch) = rw (read_lem out gap c (s ++ tail), ch, write_lem out gap c (s ++ tail))
    round_writes (inr (sp, word)) =
        let is : (c == b' ') ≡ true = ground arith in
        rw (
          read_lem out gap c (s ++ tail),
          is,
          round-Before out gap before c (s ++ tail) last,
          word,
          sym sp,
          write_lem out gap c (s ++ tail),
        )

    round_skips :
        (c == b' ') ≡ true
        → (before == b' ') ≡ true
        → squeeze_round buffer (length out + length gap) (length out) ≡ some (buffer, length out)
    unfolding squeeze_round
    round_skips is again =
        rw (
          read_lem out gap c (s ++ tail),
          is,
          round-Before out gap before c (s ++ tail) last,
          again,
        )

pub squeeze_loop_lem :
    (todo out gap : List ℕ) (before : ℕ) (tail : List ℕ)
    → Before out gap before
    → Squeezed out before todo tail (
        squeeze_loop
          (length todo)
          (out ++ (gap ++ (todo ++ tail)))
          (length out + length gap)
          (length out))
unfolding squeeze_loop squeeze
squeeze_loop_lem [] out gap before tail last =
    let z : length out + 0 ≡ length out = omega arith in (gap, rw z)
squeeze_loop_lem (c ∷ s) out gap before tail last =
    let after = squeeze_loop_lem s (out ++ c ∷ []) (shift gap c) c tail (Before-shift out gap c) in
    let write = λ (w : ((c == b' ') ≡ false) ⊎ ((c ≡ b' ') × ((before == b' ') ≡ false))).
      whole-written out gap before c s tail (round_writes out gap before c s tail last w) in
    elim (Bool-cases (c == b' ')) [
      | inr ch ↦ Squeezed-written out gap before c s tail (rw ch refl) after (write (inl ch))
      | inl sp ↦ elim (Bool-cases (before == b' ')) [
        | inr word ↦
            let c32 : c ≡ b' ' = ground arith in
            Squeezed-written out gap before c s tail
              (rw (sp, word) (ap (λ n. n ∷ squeeze c s) (sym c32))) after (write (inr (c32, word)))
        | inl again ↦
            let (rest, e) = squeeze_loop_lem s out (gap ++ c ∷ []) c tail (Before-skip out gap c) in
            (
              rest,
              rw (sp, again)
                  (whole-skipped out gap before c s tail
                      (round_skips out gap before c s tail last sp again)
                    ∙ e),
            )
      ]
    ]

-- ===== src/User/Gets/Changes.antt =====
-- The keys that change the line in gets of user/libc.c: the block holds the new line.
use net_os.Base.{
  ℕ, suc, ◌+◌, ◌-◌, ◌≤◌, ◌<◌, ◌≡◌, ◌≢◌, refl, ◌∙◌, false, some, List, [], ◌∷◌, ◌++◌, ltb, leb, ◌==◌,
  if◌then◌else◌, arith, Bool-cases, inl, inr, slice, length, get_or, replicate, ==_ne, sym,
}
use net_os.User.Gets.{put, backspace, enter, type}
use net_os.User.Gets.Line.{
  insert_at, delete_at, length-insert_at, length-delete_at, insert_before, insert_here,
  insert_after, delete_before, delete_behind, get_or-behind,
}
use net_os.User.Gets.Loops.{load_lem, store_lem, show_lem, pull_lem, push_lem}
use net_os.User.Gets.Keys.{Ready, Ends, vars}

module _ {p : ℕ → ℕ} {sz : ℕ} {text : List ℕ} {i : ℕ} (h : Ready p sz text i) (l : i < sz)
    (out : List ℕ) where
  -- The block after the characters behind the cursor have come one place to the left.
  pulled-Ready :
      (p' : ℕ → ℕ)
      → 0 < i
      → ((k : ℕ)
          → p' k ≡ (
              if leb (i - 1) k
              then (if ltb k (i - 1 + (length text - 1 - (i - 1))) then p (k + 1) else p k)
              else p k))
      → Ready (put (length text - 1) 0 p') sz (delete_at text (i - 1)) (i - 1)
  pulled-Ready p' any at =
      let e = length-delete_at text (i - 1) (omega (arith, any, h.inside)) in
      record {
        inside = omega (arith, e, h.inside);
        room = omega (arith, e, h.room);
        ten = h.ten;
        holds = λ k b. ground (
          arith,
          any,
          h.inside,
          b,
          at k,
          h.holds k b,
          h.holds (k + 1),
          delete_before text (i - 1) k,
          delete_behind text (i - 1) k,
          get_or-behind text k,
          get_or-behind text (suc k),
        );
        no_nul = λ k b. elim (Bool-cases (ltb k (i - 1))) [
          | inl before ↦
              rw (delete_before text (i - 1) k (ground (arith, before)))
                (h.no_nul k (omega (arith, b, e)))
          | inr behind ↦
              rw (delete_behind text (i - 1) k (ground (arith, behind)))
                (h.no_nul (suc k) (omega (arith, b, e)))
        ];
      }

  pub backspace_lem :
      Ends
        (backspace (vars p sz i text out))
        (if ltb 0 i then delete_at text (i - 1) else text)
        (i - 1)
  unfolding backspace
  backspace_lem = elim (Bool-cases (ltb 0 i)) [
    | inl e ↦
        let n = length text - 1 in
        let (p', runs, at) =
          pull_lem sz p (n - (i - 1)) (i - 1) (omega (arith, h.room, h.inside)) in
        let any : 0 < i = ground (arith, e) in
        let e' : length (delete_at text (i - 1)) ≡ n =
          length-delete_at text (i - 1) (omega (arith, any, h.inside)) in
        rw e (
          put n 0 p',
          sz,
          out ++ 240 ∷ slice p' (i - 1) (n - (i - 1)) ++ 32 ∷ replicate (n + 1 - (i - 1)) 240,
          rw
              (
                runs,
                show_lem sz p' (n - (i - 1)) (i - 1) (omega (arith, h.room, h.inside)),
                store_lem sz p' n 0 (omega (arith, h.room)),
                e',
              )
              refl,
          pulled-Ready p' any at,
        )
    | inr e ↦ let z : i - 1 ≡ i = ground (arith, e) in rw (e, z) (p, sz, out, refl, h)
  ]

  pub enter_lem :
      (p' : ℕ → ℕ) × (enter (vars p sz i text out)
        ≡ some (record {
          p = p';
          sz = sz;
          i = i;
          realsz = length text + 1;
          out = out ++ 13 ∷ 10 ∷ [];
        }))
      × ((k : ℕ) → k ≤ sz → p' k ≡ get_or text k 0)
  unfolding enter
  enter_lem = (
    put (length text) 0 p,
    rw (store_lem sz p (length text) 0 h.room) refl,
    λ k b. ground (arith, h.holds k b, get_or-behind text k),
  )

  -- The block with a character put in, after those behind the cursor have made room for it.
  typed-Ready :
      (c : ℕ) (p' : ℕ → ℕ)
      → c ≢ 0
      → length text < sz
      → ((k : ℕ)
          → p' k
            ≡ (if ltb i k then (if leb k (i + (length text - i)) then p (k - 1) else p k) else p k))
      → Ready (put i c p') sz (insert_at text i c) (i + 1)
  typed-Ready c p' some_char fits at =
      let e = length-insert_at text i c in
      record {
        inside = omega (arith, e, h.inside);
        room = omega (arith, e, fits);
        ten = h.ten;
        holds = λ k b. ground (
          arith,
          h.inside,
          b,
          at k,
          h.holds k b,
          h.holds (k - 1),
          insert_before text i c k,
          insert_here text i c,
          insert_after text i c k,
          get_or-behind text k,
          get_or-behind text (k - 1),
        );
        no_nul = λ k b. elim (Bool-cases (ltb k i)) [
          | inl before ↦
              rw (insert_before text i c k (ground (arith, before)) h.inside)
                (h.no_nul k (ground (arith, before, h.inside)))
          | inr behind ↦ elim (Bool-cases (k == i)) [
            | inl here ↦
                let at_i : k ≡ i = ground (arith, here) in
                rw (at_i, insert_here text i c h.inside) some_char
            | inr after ↦
                let b' : i < k = ground (arith, behind, after) in
                rw (insert_after text i c k b' h.inside)
                  (h.no_nul (k - 1) (omega (arith, b, b', e)))
          ]
        ];
      }

  pub type_lem :
      (c : ℕ)
      → c ≢ 0
      → length text < sz
      → Ends (type c (vars p sz i text out)) (insert_at text i c) (i + 1)
  unfolding type
  type_lem c some_char fits = elim (Bool-cases (ltb i (length text))) [
    | inl e ↦
        let inside : i < length text = ground (arith, e) in
        let there : (p i == 0) ≡ false =
          ==_ne (p i) 0 (λ z. h.no_nul i inside (sym (h.holds i (omega (arith, l))) ∙ z)) in
        let (p', runs, at) = push_lem sz p (length text - i) i (omega (arith, fits, inside)) in
        let n = length text + 1 - (i + 1) in
        let len = length-insert_at text i c in
        (
          put i c p',
          sz,
          (out ++ c ∷ []) ++ slice (put i c p') (i + 1) n ++ replicate n 240,
          rw
              (
                load_lem sz p i (omega (arith, l)),
                there,
                runs,
                store_lem sz p' i c (omega (arith, l)),
                show_lem sz (put i c p') n (i + 1) (omega (arith, fits)),
                len,
              )
              refl,
          typed-Ready c p' some_char fits at,
        )
    | inr e ↦
        let last : i ≡ length text = ground (arith, e, h.inside) in
        let there : p i ≡ 0 =
          h.holds i (omega (arith, l)) ∙ get_or-behind text i (omega (arith, last)) in
        let len = length-insert_at text i c in
        (
          put i c p,
          sz,
          out ++ c ∷ [],
          rw (load_lem sz p i (omega (arith, l)), there, store_lem sz p i c (omega (arith, l)), len)
              refl,
          typed-Ready c p some_char fits (λ k. ground (arith, last)),
        )
  ]

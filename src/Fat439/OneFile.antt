-- ===== src/Fat439/OneFile.antt =====
-- The blocks that oneFile of fat439/mkfs.c fills.
use net_os.Base.{
  ℕ, zero, suc, ◌+◌, ◌-◌, ◌*◌, ◌/◌, ◌%◌, ◌^◌, ◌≤◌, ◌<◌, ◌≡◌, refl, ap, ◌∙◌, true, false, Option,
  some, leb, ltb, ◌==◌, ==_self, if◌then◌else◌, ◌>>=◌, arith, Bool-cases, inl, inr, min, add32,
  add32_exact,
}
use net_os.Fat439.{File, Image, update, written, write, to_ptr, one_file_loop}
use net_os.Fat439.Alloc.{Free, after, get_block-Free, write_lem, to_ptr_lem}

-- read(2): at most what is left and what is asked for, and something if neither is 0.
pub record Reads (got : ℕ → ℕ → ℕ) : Type 0 where
  pub most : (rest asked : ℕ) → got rest asked ≤ min rest asked
  pub some_read : (rest asked : ℕ) → 0 < rest → 0 < asked → 0 < got rest asked

-- The place of the byte `x` of the blocks `b`, `b - 1`, ...
abbrev pub loc : ℕ → ℕ → ℕ
loc b x = (b - x / 512) * 512 + x % 512

-- `r` more bytes of the file, from `pos` on, have gone to the blocks from the place `off` of `current` on.
pub record Filled (lo m current off pos r : ℕ) (f : File) (img img' : Image) : Type 0 where
  pub free : Free lo (m - (off + r) / 512) img'
  pub content : (j : ℕ) → j < r → img'.bytes (loc current (off + j)) ≡ f.byte (pos + j)
  pub before : (a : ℕ) → current * 512 ≤ a → a < current * 512 + off → img'.bytes a ≡ img.bytes a
  pub above : (a : ℕ) → (current + 1) * 512 ≤ a → img'.bytes a ≡ img.bytes a
  pub chain : (t : ℕ) → t < (off + r) / 512 → img'.fat (current - t) ≡ current - t - 1
  pub last : img'.fat (current - (off + r) / 512) ≡ 0
  pub fat_above : (j : ℕ) → current < j → img'.fat j ≡ img.fat j
  pub same_size : img'.n_blocks ≡ img.n_blocks
  pub same_root : img'.root ≡ img.root

pub Free-bytes :
    {lo m : ℕ} {img : Image} (bytes : ℕ → ℕ)
    → Free lo m img
    → Free lo m (record img { bytes = bytes })
Free-bytes bytes h = record {
  above = h.above;
  inside = h.inside;
  small = h.small;
  avail_is = h.avail_is;
  links = h.links;
}

Free-fat :
    {lo m : ℕ} {img : Image}
    → Free lo m img
    → (i v : ℕ) → lo + m ≤ i
    → Free lo m (record img { fat = update img.fat i v })
Free-fat h i v l = record {
  above = h.above;
  inside = h.inside;
  small = h.small;
  avail_is = h.avail_is;
  links = λ j k. ground (arith, l, k, h.links j k);
}

-- `n` bytes here, and then the others.
Filled-step :
    {lo m current off pos r n : ℕ} {f : File} {img img' : Image}
    → n ≤ min r (512 - off)
    → off < 512
    → Filled lo m current
        (off + n)
        (pos + n)
        (r - n)
        f
        (record img { bytes = written img.bytes (current * 512 + off) n (λ i. f.byte (pos + i)) })
        img'
    → Filled lo m current off pos r f img img'
Filled-step {lo} {m} {current} {off} {pos} {r} {n} {f} {img} {img'} l part h =
    let same : off + n + (r - n) ≡ off + r = omega (arith, l) in
    record {
      free = rw same at h.free;
      content = λ j k. elim (Bool-cases (ltb j n)) [
        | inl e ↦
            let place : loc current (off + j) ≡ current * 512 + off + j =
              ground (arith, e, l, part) in
            let offset : current * 512 + off + j - (current * 512 + off) ≡ j = omega arith in
            let low : leb (current * 512 + off) (current * 512 + off + j) ≡ true = ground arith in
            let high : ltb (current * 512 + off + j) (current * 512 + off + n) ≡ true =
              ground (arith, e) in
            rw place (
              h.before (current * 512 + off + j) (omega arith) (ground (arith, e))
              ∙ rw (low, high, offset) refl)
        | inr e ↦
            let there : off + n + (j - n) ≡ off + j = ground (arith, e) in
            let here : pos + n + (j - n) ≡ pos + j = ground (arith, e) in
            rw (there, here) at (h.content (j - n) (ground (arith, e, k)))
      ];
      before = λ a b c. h.before a b (omega (arith, c)) ∙ ground (arith, c);
      above = λ a b. h.above a b ∙ ground (arith, b, l, part);
      chain = rw same at h.chain;
      last = rw same at h.last;
      fat_above = h.fat_above;
      same_size = h.same_size;
      same_root = h.same_root;
    }

-- A new block, and then the others.
Filled-next :
    {lo m current pos r : ℕ} {f : File} {img img₁ img' : Image}
    → current ≡ lo + suc m
    → ((a : ℕ) → img₁.bytes a ≡ img.bytes a)
    → img₁.fat current ≡ lo + m
    → ((j : ℕ) → current < j → img₁.fat j ≡ img.fat j)
    → img₁.n_blocks ≡ img.n_blocks
    → img₁.root ≡ img.root
    → Filled lo m (lo + m) 0 pos r f img₁ img'
    → Filled lo (suc m) current 512 pos r f img img'
Filled-next {lo} {m} {current} {pos} {r} {f} {img} {img₁} {img'} at same link rest size root h =
    let used : suc m - (512 + r) / 512 ≡ m - (0 + r) / 512 = omega arith in
    let blocks : (512 + r) / 512 ≡ suc ((0 + r) / 512) = omega arith in
    record {
      free = rw used h.free;
      content = λ j k.
          let place : loc current (512 + j) ≡ loc (lo + m) (0 + j) = omega (arith, at) in
          rw place (h.content j k);
      before = λ a b c. h.above a (omega (arith, b, at)) ∙ same a;
      above = λ a b. h.above a (omega (arith, b, at)) ∙ same a;
      chain = λ t k. elim (Bool-cases (t == 0)) [
        | inl e ↦
            let here : current - t ≡ current = ground (arith, e) in
            rw here (h.fat_above current (omega (arith, at)) ∙ link ∙ omega (arith, at))
        | inr e ↦
            let here : current - t ≡ lo + m - (t - 1) = ground (arith, e, at) in
            rw here (h.chain (t - 1) (ground (arith, e, k, blocks)))
      ];
      last =
          let end : current - (512 + r) / 512 ≡ lo + m - (0 + r) / 512 = omega (arith, at) in
          rw end h.last;
      fat_above = λ j k. h.fat_above j (omega (arith, k, at)) ∙ rest j k;
      same_size = h.same_size ∙ size;
      same_root = h.same_root ∙ root;
    }

abbrev pub Fills : Option (ℕ × Image) → ℕ → ℕ → ℕ → ℕ → ℕ → ℕ → ℕ → File → Image → Type 0
Fills res lo m current off pos r total f img =
    (img' : Image) × (res ≡ some (total + r, img')) × Filled lo m current off pos r f img img'

module _ (got : ℕ → ℕ → ℕ) (reads : Reads got) (f : File) where
  -- A round behind the test of `leftInBlock`.
  abbrev body : ℕ → ℕ → ℕ → ℕ × ℕ × ℕ × Image → Option (ℕ × Image)
  body fuel pos total (current, off, left, img) =
      let n = got (f.size - pos) left in
      let again = (do
        img ← write (to_ptr current off) n (λ i. f.byte (pos + i)) img
        one_file_loop got f fuel (pos + n) current (off + n) (left - n) (add32 total n) img) in
      if n == 0 then some (total, img) else again

  body_run :
      (fuel pos total current off n left' total' : ℕ) (img img₁ : Image) (res : Option (ℕ × Image))
      → got (f.size - pos) (512 - off) ≡ n
      → (n == 0) ≡ false
      → write (to_ptr current off) n (λ i. f.byte (pos + i)) img ≡ some img₁
      → 512 - off - n ≡ left'
      → add32 total n ≡ total'
      → one_file_loop got f fuel (pos + n) current (off + n) left' total' img₁ ≡ res
      → body fuel pos total (current, off, 512 - off, img) ≡ res
  body_run fuel pos total current off n left' total' img img₁ res e more w l t g =
      rw (e, more, w, l, t) g

  -- What the loop is to do, with `fuel` rounds.
  unfoldable pub Loops : ℕ → Type 0
  Loops fuel =
      (lo m current off pos r total : ℕ) (img : Image)
      → Free lo m img
      → current ≡ lo + m
      → current < img.n_blocks
      → img.fat current ≡ 0
      → off ≤ 512
      → (off + r) / 512 ≤ m
      → f.size ≡ pos + r
      → r < fuel
      → total + r < 2 ^ 32
      → Fills (one_file_loop got f fuel pos current off (512 - off) total img) lo m current off pos
          r total f img

  module _ (fuel : ℕ) (loops : Loops fuel) where
    body_lem :
        (lo m current off pos r total : ℕ) (img : Image)
        → Free lo m img
        → current ≡ lo + m
        → current < img.n_blocks
        → img.fat current ≡ 0
        → off < 512
        → (off + r) / 512 ≤ m
        → f.size ≡ pos + r
        → r < suc fuel
        → total + r < 2 ^ 32
        → Fills
            (body fuel pos total (current, off, 512 - off, img))
            lo
            m
            current
            off
            pos
            r
            total
            f
            img
    unfolding Loops
    body_lem lo m current off pos r total img free at inside zero_end part room size fuelled bound =
        let left : f.size - pos ≡ r = omega (arith, size) in
        elim (Bool-cases (got r (512 - off) == 0)) [
          | inl e ↦
              let nothing : r ≡ 0 = ground (arith, e, reads.some_read r (512 - off), part) in
              (
                img,
                (let plus : total + 0 ≡ total = omega arith in rw (left, e, nothing, plus) refl),
                record {
                  free =
                      (let same : m - (off + r) / 512 ≡ m = omega (arith, nothing, part) in
                        rw same free);
                  content = λ j l. absurd (omega (arith, l, nothing));
                  before = λ a b c. refl;
                  above = λ a b. refl;
                  chain = λ t l. absurd (omega (arith, l, nothing, part));
                  last =
                      (let same : current - (off + r) / 512 ≡ current =
                          omega (arith, nothing, part) in
                        rw same zero_end);
                  fat_above = λ j l. refl;
                  same_size = refl;
                  same_root = refl;
                },
              )
          | inr e ↦
              let n = got r (512 - off) in
              let most = reads.most r (512 - off) in
              let small = free.small in
              let img₁ : Image = record img {
                bytes = written img.bytes (current * 512 + off) n (λ i. f.byte (pos + i));
              } in
              let rest : 512 - off - n ≡ 512 - (off + n) = omega arith in
              let (img', runs, filled) =
                loops lo m current (off + n) (pos + n) (r - n) (total + n) img₁
                  (Free-bytes img₁.bytes free) at inside zero_end (omega (arith, most, part))
                  (ground (arith, most, room)) (omega (arith, size, most))
                  (ground (arith, e, fuelled, most)) (omega (arith, bound, most)) in
              let whole : total + n + (r - n) ≡ total + r = omega (arith, most) in
              (
                img',
                body_run fuel pos total current off n (512 - (off + n)) (total + n) img img₁
                    (some (total + r, img')) (rw left refl) e
                    (rw (to_ptr_lem current off (omega (arith, inside, small))) (
                      write_lem (current * 512 + off) n (λ i. f.byte (pos + i)) img
                        (omega (arith, inside, most, part))))
                    rest (add32_exact total n (omega (arith, bound, most)))
                    (runs ∙ ap (λ t. some (t, img')) whole),
                Filled-step most part filled,
              )
        ]

    full_lem :
        (lo m current pos r total : ℕ) (img : Image)
        → Free lo m img
        → current ≡ lo + m
        → current < img.n_blocks
        → img.fat current ≡ 0
        → (512 + r) / 512 ≤ m
        → f.size ≡ pos + r
        → r < suc fuel
        → total + r < 2 ^ 32
        → Fills
            (one_file_loop got f (suc fuel) pos current 512 0 total img)
            lo
            m
            current
            512
            pos
            r
            total
            f
            img
    unfolding one_file_loop
    full_lem lo zero current pos r total img free at inside zero_end room size fuelled bound =
        absurd (omega (arith, room))
    full_lem lo (suc m) current pos r total img free at inside zero_end room size fuelled bound =
        let b = get_block-Free free in
        let img₁ : Image = record (after free) { fat = update (after free).fat current (lo + m) } in
        let free₁ : Free lo m img₁ = Free-fat b.1 current (lo + m) (omega (arith, at)) in
        let link : img₁.fat current ≡ lo + m = rw (==_self current) refl in
        let ended : img₁.fat (lo + m) ≡ 0 = ground (arith, at) in
        let (img', runs, filled) =
          body_lem lo m (lo + m) 0 pos r total img₁ free₁ refl (omega (arith, at, inside)) ended
            (omega arith) (omega (arith, room)) size fuelled bound in
        (
          img',
          rw b.0 runs,
          Filled-next at (λ a. refl) link (λ j k. ground (arith, at, k)) refl refl filled,
        )

  pub loop_lem : (fuel : ℕ) → Loops fuel
  unfolding Loops one_file_loop
  loop_lem zero lo m current off pos r total img free at inside zero_end part room size fuelled
        bound =
      absurd (omega (arith, fuelled))
  loop_lem (suc fuel) lo m current off pos r total img free at inside zero_end part room size
        fuelled bound =
      elim (Bool-cases (off == 512)) [
        | inl e ↦
            let full : off ≡ 512 = ground (arith, e) in
            rw full (
              full_lem fuel (loop_lem fuel) lo m current pos r total img free at inside zero_end
                (rw full at room) size fuelled bound)
        | inr e ↦
            let left : (512 - off == 0) ≡ false = ground (arith, e, part) in
            rw left (
              body_lem fuel (loop_lem fuel) lo m current off pos r total img free at inside zero_end
                (ground (arith, e, part)) room size fuelled bound)
      ]

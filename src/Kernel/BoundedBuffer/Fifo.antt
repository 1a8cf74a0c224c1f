-- ===== src/Kernel/BoundedBuffer/Fifo.antt =====
-- The bounded buffer as a queue.
use net_os.Base.{
  in_range, unwrap, ℕ, zero, suc, ◌+◌, ◌-◌, ◌<◌, ◌≡◌, ◌≢◌, refl, sym, ap, ◌∙◌, ◌==◌, if◌then◌else◌,
  ltb, ltb_of_lt, ◌⊎◌, inl, inr, none, some, true, List, [], ◌∷◌, ◌++◌, get_elem?, set, length,
  length-append, arith,
}
use net_os.Kernel.BoundedBuffer.{Bb, put, get}

-- An index at most once around the array.
pub wrap : ℕ → ℕ → ℕ
wrap n i = if ltb i n then i else i - n

-- That a buffer holds the queue `q`, the first element at the head.
pub record Holds (b : Bb) (q : List ℕ) : Type 0 where
  pub full : b.n_full ≡ length q
  pub room : b.n_full + b.n_empty ≡ b.n
  pub size : length b.arr ≡ b.n
  pub head : b.head < b.n
  pub tail : b.tail ≡ wrap b.n (b.head + length q)
  pub items : (j v : ℕ) → get_elem? q j ≡ some v → get_elem? b.arr (wrap b.n (b.head + j)) ≡ some v

set_here : (xs : List ℕ) (i v : ℕ) → i < length xs → get_elem? (set xs i v) i ≡ some v
set_here [] i v h = absurd (omega arith)
set_here (x ∷ xs) zero v h = refl
set_here (x ∷ xs) (suc i) v h = set_here xs i v (omega arith)

set_elsewhere : (xs : List ℕ) (i j v : ℕ) → j ≢ i → get_elem? (set xs i v) j ≡ get_elem? xs j
set_elsewhere [] i j v h = refl
set_elsewhere (x ∷ xs) zero zero v h = absurd (h refl)
set_elsewhere (x ∷ xs) zero (suc j) v h = refl
set_elsewhere (x ∷ xs) (suc i) zero v h = refl
set_elsewhere (x ∷ xs) (suc i) (suc j) v h = set_elsewhere xs i j v (λ e. h (ap suc e))

length-set : (xs : List ℕ) (i v : ℕ) → length (set xs i v) ≡ length xs
length-set [] i v = refl
length-set (x ∷ xs) zero v = refl
length-set (x ∷ xs) (suc i) v = ap suc (length-set xs i v)

get_elem?-last :
    (q : List ℕ) (v j w : ℕ)
    → get_elem? (q ++ v ∷ []) j ≡ some w
    → (get_elem? q j ≡ some w) ⊎ ((j ≡ length q) × (v ≡ w))
get_elem?-last [] v zero w e = inr (refl, unwrap e)
get_elem?-last [] v (suc j) w e = absurd (cc e)
get_elem?-last (x ∷ q) v zero w e = inl e
get_elem?-last (x ∷ q) v (suc j) w e = elim (get_elem?-last q v j w e) [
  | inl h ↦ inl h
  | inr (h, k) ↦ inr (ap suc h, k)
]

-- Indices around the array.
wrap-next :
    (n i : ℕ) → i + 1 < n + n → (if wrap n i + 1 == n then 0 else wrap n i + 1) ≡ wrap n (i + 1)
unfolding wrap
wrap-next n i h = ground arith

wrap_ne : (n h i j : ℕ) → h < n → i < j → j < n → wrap n (h + i) ≢ wrap n (h + j)
unfolding wrap
wrap_ne n h i j a b c = ground arith

wrap_lt : (n i : ℕ) → i < n + n → wrap n i < n
unfolding wrap
wrap_lt n i h = ground arith

wrap-step :
    (n h j : ℕ)
    → h < n
    → j + 1 < n + 1
    → wrap n ((if h + 1 == n then 0 else h + 1) + j) ≡ wrap n (h + suc j)
unfolding wrap
wrap-step n h j a b = ground arith

pub wrap_start : (n h : ℕ) → h < n → wrap n (h + 0) ≡ h
unfolding wrap
wrap_start n h a = ground arith

put_run :
    (v e : ℕ) (b : Bb)
    → b.n_empty ≡ suc e
    → ltb b.tail (length b.arr) ≡ true
    → put v b
      ≡ some (record b {
        arr = set b.arr b.tail v;
        tail = if b.tail + 1 == b.n then 0 else b.tail + 1;
        n_empty = e;
        n_full = b.n_full + 1;
      })
unfolding put
put_run v e b h l = rw (h, l, put) refl

get_run :
    (v f : ℕ) (b : Bb)
    → b.n_full ≡ suc f
    → get_elem? b.arr b.head ≡ some v
    → get b
      ≡ some (
        v,
        record b {
          head = if b.head + 1 == b.n then 0 else b.head + 1;
          n_full = f;
          n_empty = b.n_empty + 1;
        },
      )
unfolding get
get_run v f b h e = rw (h, e, get) refl

pub put_full : (v : ℕ) {b : Bb} {q : List ℕ} → Holds b q → length q ≡ b.n → put v b ≡ none
unfolding put
put_full v {b} h e =
    let zero_left : b.n_empty ≡ 0 = omega (arith, h.full, h.room) in rw (zero_left, put) refl

pub get_empty : {b : Bb} → Holds b [] → get b ≡ none
unfolding get
get_empty {b} h = rw (h.full, get) refl

behind :
    (n h k k' t : ℕ)
    → h < n
    → k < n
    → t ≡ wrap n (h + k)
    → k' ≡ k + 1
    → (if t + 1 == n then 0 else t + 1) ≡ wrap n (h + k')
behind n h k k' t a l e e' =
    let one : h + k' ≡ h + k + 1 = omega (arith, e') in
    rw (one, e) (wrap-next n (h + k) (omega arith))

pub put-Holds :
    (v : ℕ) {b : Bb} {q : List ℕ}
    → Holds b q
    → length q < b.n
    → (b' : Bb) × (put v b ≡ some b') × (b'.n ≡ b.n) × Holds b' (q ++ v ∷ [])
put-Holds v {b} {q} h l =
    let len : length (q ++ v ∷ []) ≡ length q + 1 = omega (arith, length-append q (v ∷ [])) in
    let inside : b.tail < length b.arr =
      rw (h.tail, h.size) (wrap_lt b.n (b.head + length q) (omega (arith, h.head))) in
    (
      record b {
        arr = set b.arr b.tail v;
        tail = if b.tail + 1 == b.n then 0 else b.tail + 1;
        n_empty = b.n - length q - 1;
        n_full = b.n_full + 1;
      },
      put_run v (b.n - length q - 1) b (omega (arith, h.full, h.room))
          (ltb_of_lt b.tail (length b.arr) inside),
      refl,
      record {
        full = omega (arith, h.full, len);
        room = omega (arith, h.full, h.room);
        size = length-set b.arr b.tail v ∙ h.size;
        head = h.head;
        tail = behind b.n b.head (length q) (length (q ++ v ∷ [])) b.tail h.head l h.tail len;
        items = λ j w e. elim (get_elem?-last q v j w e) [
          | inl k ↦
              rw
                (set_elsewhere b.arr b.tail (wrap b.n (b.head + j)) v
                  (λ z. wrap_ne b.n b.head j (length q) h.head (in_range q j w k) l (z ∙ h.tail)))
                (h.items j w k)
          | inr (last, same) ↦ rw (last, ← h.tail, ← same) (set_here b.arr b.tail v inside)
        ];
      },
    )

pub get-Holds :
    (v : ℕ) {b : Bb} {q : List ℕ}
    → Holds b (v ∷ q)
    → (b' : Bb) × (get b ≡ some (v, b')) × (b'.n ≡ b.n) × Holds b' q
get-Holds v {b} {q} h =
    let first : get_elem? b.arr b.head ≡ some v =
      rw (wrap_start b.n b.head h.head) at (h.items 0 v refl) in
    let next = record b {
      head = if b.head + 1 == b.n then 0 else b.head + 1;
      n_full = length q;
      n_empty = b.n_empty + 1;
    } in
    (
      next,
      get_run v (length q) b h.full first,
      refl,
      record {
        full = refl;
        room = omega (arith, h.full, h.room);
        size = h.size;
        head = ground (arith, h.head);
        tail =
            h.tail ∙ sym (wrap-step b.n b.head (length q) h.head (omega (arith, h.full, h.room)));
        items = λ j w e.
            rw (wrap-step b.n b.head j h.head (omega (arith, in_range q j w e, h.full, h.room)))
              (h.items (suc j) w e);
      },
    )

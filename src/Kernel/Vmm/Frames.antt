-- ===== src/Kernel/Vmm/Frames.antt =====
-- The frames of physical memory in kernel/vmm.cc: which are free, and what the others are for.
use net_os.Base.{
  ℕ, ◌+◌, ◌-◌, ◌*◌, ◌/◌, ◌%◌, ◌^◌, ◌≤◌, ◌<◌, ◌≡◌, ◌≢◌, refl, ◌⊎◌, inl, inr, true, false, none, some,
  ◌==◌, if◌then◌else◌, add32_exact, arith, Bool-cases,
}
use net_os.Kernel.Vmm.{Phys, store, set_frame, clear_frame, alloc, free}

-- The list of free frames from its end, `w 0`, to its head, `w (m - 1)`; the frames from `fresh` to `last` have
-- not been used; `role` tells what a frame is for.
pub record Plan : Type 0 where
  pub w : ℕ → ℕ
  pub m : ℕ
  pub fresh : ℕ
  pub last : ℕ
  pub role : ℕ → ℕ

-- The roles of free frames: that of one in the list has its place.
abbrev pub unused : ℕ
unused = 1

abbrev pub listed : ℕ → ℕ
listed j = 2 ^ 40 + j

-- A frame with another role.
abbrev pub assign : (ℕ → ℕ) → ℕ → ℕ → ℕ → ℕ
assign role f r f' = if f' == f then r else role f'

pub record Planned (g : Plan) (s : Phys) : Type 0 where
  pub first : s.first_free ≡ (if g.m == 0 then 0 else g.w (g.m - 1) * 4096)
  pub link : (j : ℕ) → j < g.m → s.mem (g.w j) 0 ≡ (if j == 0 then 0 else g.w (j - 1) * 4096)
  pub listed_role : (j : ℕ) → j < g.m → g.role (g.w j) ≡ listed j
  pub not_zero : (j : ℕ) → j < g.m → 0 < g.w j
  pub in_memory : (j : ℕ) → j < g.m → g.w j < g.last
  pub avail_is : s.avail ≡ g.fresh * 4096
  pub limit_is : s.limit ≡ g.last * 4096
  pub some_used : 0 < g.fresh
  pub below : g.fresh ≤ g.last
  pub fits : g.last < 2 ^ 20
  pub unused_role : (f : ℕ) → g.fresh ≤ f → f < g.last → g.role f ≡ unused

-- How many frames are left.
abbrev pub left : Plan → ℕ
left g = g.m + (g.last - g.fresh)

-- What alloc does: it takes a free frame, clears it and gives it the role `r`.
pub record Takes (g : Plan) (s : Phys) (r f : ℕ) (g' : Plan) (s' : Phys) : Type 0 where
  pub runs : alloc s ≡ some (f * 4096, s')
  pub planned : Planned g' s'
  pub was_free : (g.role f ≡ unused) ⊎ (listed 0 ≤ g.role f)
  pub positive : 0 < f
  pub inside : f < g.last
  pub roles : (f' : ℕ) → g'.role f' ≡ assign g.role f r f'
  pub memory : (f' i : ℕ) → s'.mem f' i ≡ set_frame s.mem f (λ i. 0) f' i
  pub one_less : left g ≡ left g' + 1
  pub same_last : g'.last ≡ g.last

-- The memory with a frame cleared.
abbrev cleared : Phys → ℕ → ℕ → ℕ → ℕ
cleared s f = set_frame s.mem f (λ i. 0)

alloc_listed :
    (s : Phys) (f : ℕ)
    → s.first_free ≡ f * 4096
    → 0 < f
    → alloc s
      ≡ some (
        f * 4096,
        record { mem = cleared s f; first_free = s.mem f 0; avail = s.avail; limit = s.limit },
      )
unfolding alloc clear_frame
alloc_listed s f e any =
    let behind : (f * 4096 == 0) ≡ false = ground (arith, any) in
    let frame : f * 4096 / 4096 ≡ f = omega arith in
    let start : f * 4096 % 4096 / 4 ≡ 0 = omega arith in rw (e, behind, frame, start) refl

alloc_unused :
    (s : Phys) (f : ℕ)
    → s.first_free ≡ 0
    → s.avail ≡ f * 4096
    → s.avail ≢ s.limit
    → f + 1 < 2 ^ 20
    → alloc s
      ≡ some (
        f * 4096,
        record { mem = cleared s f; first_free = 0; avail = (f + 1) * 4096; limit = s.limit },
      )
unfolding alloc clear_frame
alloc_unused s f e e' room fits =
    let more : (f * 4096 == s.limit) ≡ false = ground (arith, room, e') in
    let frame : f * 4096 / 4096 ≡ f = omega arith in
    let next : f * 4096 + 4096 ≡ (f + 1) * 4096 = omega arith in
    rw (e, e', more, add32_exact (f * 4096) 4096 (omega (arith, fits)), frame, next) refl

module _ {g : Plan} {s : Phys} (h : Planned g s) (r : ℕ) (busy : r < 2 ^ 40)
    (not_unused : r ≢ unused) where
  take_listed : 0 < g.m → (f : ℕ) × (g' : Plan) × (s' : Phys) × Takes g s r f g' s'
  take_listed some_left =
      let f = g.w (g.m - 1) in
      let head : s.first_free ≡ f * 4096 = ground (arith, h.first, some_left) in
      let any = h.not_zero (g.m - 1) (omega (arith, some_left)) in
      let below = h.in_memory (g.m - 1) (omega (arith, some_left)) in
      let old = h.listed_role (g.m - 1) (omega (arith, some_left)) in
      let g' : Plan = record {
        w = g.w;
        m = g.m - 1;
        fresh = g.fresh;
        last = g.last;
        role = assign g.role f r;
      } in
      (
        f,
        g',
        _,
        record {
          runs = alloc_listed s f head any;
          planned = record {
            first = h.link (g.m - 1) (omega (arith, some_left));
            link = λ j l. ground (arith, l, h.link j, h.listed_role j, old);
            listed_role = λ j l. ground (arith, l, h.listed_role j, old);
            not_zero = λ j l. h.not_zero j (omega (arith, l));
            in_memory = λ j l. h.in_memory j (omega (arith, l));
            avail_is = h.avail_is;
            limit_is = h.limit_is;
            some_used = h.some_used;
            below = h.below;
            fits = h.fits;
            unused_role = λ k a b. ground (arith, a, b, h.unused_role k, old);
          };
          was_free = inr (omega (arith, old));
          positive = any;
          inside = below;
          roles = λ k. refl;
          memory = λ k i. refl;
          one_less = omega (arith, some_left);
          same_last = refl;
        },
      )

  take_unused :
      g.m ≡ 0 → g.fresh < g.last → (f : ℕ) × (g' : Plan) × (s' : Phys) × Takes g s r f g' s'
  take_unused none_left room =
      let f = g.fresh in
      let empty : s.first_free ≡ 0 = ground (arith, h.first, none_left) in
      let differ : s.avail ≢ s.limit = λ e. omega (arith, e, h.avail_is, h.limit_is, room) in
      let g' : Plan = record {
        w = g.w;
        m = g.m;
        fresh = g.fresh + 1;
        last = g.last;
        role = assign g.role f r;
      } in
      (
        f,
        g',
        _,
        record {
          runs = alloc_unused s f empty h.avail_is differ (omega (arith, room, h.fits));
          planned = record {
            first = ground (arith, none_left);
            link = λ j l. absurd (omega (arith, l, none_left));
            listed_role = λ j l. absurd (omega (arith, l, none_left));
            not_zero = λ j l. absurd (omega (arith, l, none_left));
            in_memory = λ j l. absurd (omega (arith, l, none_left));
            avail_is = refl;
            limit_is = h.limit_is;
            some_used = omega arith;
            below = omega (arith, room);
            fits = h.fits;
            unused_role = λ k a b. ground (arith, a, b, h.unused_role k);
          };
          was_free = inl (h.unused_role f (omega arith) room);
          positive = h.some_used;
          inside = room;
          roles = λ k. refl;
          memory = λ k i. refl;
          one_less = omega (arith, none_left, room);
          same_last = refl;
        },
      )

  -- alloc takes a free frame as long as one is left.
  pub alloc_lem : 0 < left g → (f : ℕ) × (g' : Plan) × (s' : Phys) × Takes g s r f g' s'
  alloc_lem room = elim (Bool-cases (g.m == 0)) [
    | inl e ↦ take_unused (ground (arith, e)) (ground (arith, e, room, h.below))
    | inr e ↦ take_listed (ground (arith, e))
  ]

-- With none left it is a panic.
pub alloc_panics : {g : Plan} {s : Phys} → Planned g s → left g ≡ 0 → alloc s ≡ none
unfolding alloc
alloc_panics {g} {s} h e =
    let empty : s.first_free ≡ 0 = ground (arith, h.first, e) in
    let same : (s.avail == s.limit) ≡ true = ground (arith, h.avail_is, h.limit_is, h.below, e) in
    rw (empty, same) refl

-- free puts a frame that is not free into the list.
pub free_lem :
    {g : Plan} {s : Phys}
    → Planned g s
    → (f : ℕ) → 0 < f
    → f < g.last
    → g.role f < 2 ^ 40
    → g.role f ≢ unused
    → Planned
        (record {
          w = λ j. if j == g.m then f else g.w j;
          m = g.m + 1;
          fresh = g.fresh;
          last = g.last;
          role = assign g.role f (listed g.m);
        })
        (free (f * 4096) s)
unfolding free store
free_lem {g} {s} h f any inside busy not_unused =
    let frame : f * 4096 / 4096 ≡ f = omega arith in
    let start : f * 4096 % 4096 / 4 ≡ 0 = omega arith in
    record {
      first = ground arith;
      link = λ j l. ground (arith, l, frame, start, h.link j, h.first, h.listed_role j, busy);
      listed_role = λ j l. ground (arith, l, h.listed_role j, busy);
      not_zero = λ j l. ground (arith, l, any, h.not_zero j);
      in_memory = λ j l. ground (arith, l, inside, h.in_memory j);
      avail_is = h.avail_is;
      limit_is = h.limit_is;
      some_used = h.some_used;
      below = h.below;
      fits = h.fits;
      unused_role = λ k a b. ground (arith, a, b, not_unused, h.unused_role k);
    }

-- ===== src/Kernel/Heap/Take.antt =====
-- Taking a free block in malloc of kernel/heap.cc.
use net_os.Base.{
  ℕ, ◌+◌, ◌-◌, ◌≤◌, ◌<◌, ◌≡◌, ◌≢◌, refl, ◌∙◌, Bool, true, false, some, ◌==◌, ==_self, eq_of_==, leb,
  arith, Bool-cases, inl, inr,
}
use net_os.Kernel.Heap.{Heap, take_block}
use net_os.Kernel.Heap.Ghost.{Ghost, Inv, Coalesced, Whole, unlink}
use net_os.Kernel.Heap.Remove.{without, remove_lem, listed_block}
use net_os.Kernel.Heap.Blocks.{split}
use net_os.Kernel.Heap.Opened.{unlink-Open}
use net_os.Kernel.Heap.Close.{as_taken, occupy, make_taken_lem, occupy-Inv, split-Open}
use net_os.Kernel.Heap.Push.{as_avail, push, make_avail_lem, push-Inv, avail_inside}
use net_os.Kernel.Heap.Frame.{InUse, Keeps, relinked_frame, taken_frame, pushed_frame}

-- The block `p` was free, is in use now with at least `ints` ints, and every block that was in use
-- is so still, with its size and its content.
pub record Allocated (g : Ghost) (h : Heap) (ints p : ℕ) (g' : Ghost) (h' : Heap) : Type 0 where
  pub was_free : g.free p ≡ true
  pub starts : g'.start p ≡ true
  pub taken : g'.free p ≡ false
  pub enough : ints ≤ g'.size p
  pub keeps : Keeps g h g' h' p

abbrev pub Allocates : Bool → Ghost → Heap → ℕ → ℕ → ℕ → Type 0
Allocates panics g h r ints p =
    (g' : Ghost) × (h' : Heap) × (take_block panics h p (g.size p) ints ≡ some h')
    × Whole g' h' (r + 1)
    × Allocated g h ints p g' h'

weaken : {g : Ghost} {h : Heap} {r : ℕ} → Inv g h r → Inv g h (r + 1)
weaken o = record {
  geo = o.geo;
  mem = o.mem;
  links = o.links;
  graph = record {
    nxt = o.graph.nxt;
    prv = o.graph.prv;
    head = o.graph.head;
    top = o.graph.top;
    bound = λ i l. omega (arith, o.graph.bound i l);
    listed_zero = o.graph.listed_zero;
    listed_free = o.graph.listed_free;
  };
  all_listed = o.all_listed;
  unlisted = o.unlisted;
}

module _ {g : Ghost} {h : Heap} {r : ℕ} (panics : Bool) (o : Inv g h r) (c : Coalesced g) (p : ℕ)
    (l : g.listed p ≡ true) where
  not_last : p ≢ h.len - 2
  not_last = ground (arith, o.geo.last, o.graph.listed_free p l)

  whole_lem :
      (ints : ℕ) → ints ≤ g.size p → leb 4 (g.size p - ints) ≡ false → Allocates panics g h r ints p
  unfolding take_block
  whole_lem ints a few =
      let b = listed_block o p l in
      let o₁ = unlink-Open o p l in
      (
        occupy p (unlink p g),
        as_taken p (g.size p) (without p g h),
        rw (remove_lem o p l panics, few)
            (make_taken_lem (without p g h) p (g.size p) (omega (arith, b.3)) (omega (arith, b.4))),
        (weaken (occupy-Inv o₁ b.0 b.2 not_last), λ j f. ground (arith, f, c j)),
        record {
          was_free = o.graph.listed_free p l;
          starts = b.0;
          taken = ground arith;
          enough = a;
          keeps = λ j s t ne. (
            s,
            ground (arith, t),
            refl,
            λ k lo hi.
                let u : InUse g j k = record { starts = s; taken = t; low = lo; high = hi } in
                let u₁ : InUse (unlink p g) j k = record {
                  starts = s;
                  taken = t;
                  low = lo;
                  high = hi;
                } in
                taken_frame o₁ j k u₁ (g.size p) b.0 ne (omega (arith, b.3)) (omega arith)
                ∙ relinked_frame o j k u p l,
          );
        },
      )

  pub split-Coalesced :
      (ints : ℕ)
      → 0 < ints
      → ints < g.size p
      → Coalesced (push (p + ints) (without p g h).avail r (split p ints (unlink p g)))
  split-Coalesced ints a d j f =
      let b = listed_block o p l in
      let free = o.graph.listed_free p l in
      let end : p + ints + (g.size p - ints) ≡ p + g.size p = omega arith in
      elim (Bool-cases (j == p + ints)) [
        | inl e ↦
            let start = eq_of_== j (p + ints) e in
            let off : (p + ints == p) ≡ false = ground (arith, a) in
            let past : (p + g.size p == p + ints) ≡ false = ground (arith, d) in
            let off₂ : (p + g.size p == p) ≡ false = ground (arith, a, d) in
            rw (start, ==_self (p + ints), end, past, off₂) (c p free)
        | inr e ↦ ground (
          arith,
          f,
          e,
          c j,
          o.geo.free_start j,
          o.geo.after j,
          o.geo.within p (p + ints) b.0,
          b.4,
          o.geo.fits p b.0,
        )
      ]

  split_lem :
      (ints : ℕ)
      → 4 ≤ ints
      → ints + 4 ≤ g.size p
      → leb 4 (g.size p - ints) ≡ true
      → Allocates panics g h r ints p
  unfolding take_block
  split_lem ints a d many =
      let b = listed_block o p l in
      let o₁ = unlink-Open o p l in
      let o₂ = split-Open o₁ b.0 ints b.2 not_last a d in
      let g₂ = split p ints (unlink p g) in
      let h₂ = as_taken p ints (without p g h) in
      let rest : g₂.size (p + ints) ≡ g.size p - ints = ground arith in
      let starts : g₂.start (p + ints) ≡ true = ground arith in
      let room : p + ints + (g.size p - ints) ≤ h.len = omega (arith, b.4) in
      let inv : Inv (push (p + ints) h₂.avail r g₂) (as_avail (p + ints) (g.size p - ints) h₂)
          (r + 1) =
        rw rest at (push-Inv o₂ starts (omega arith) (omega (arith, b.4))) in
      (
        push (p + ints) h₂.avail r g₂,
        as_avail (p + ints) (g.size p - ints) h₂,
        rw
            (
              remove_lem o p l panics,
              many,
              make_taken_lem (without p g h) p ints (omega (arith, a)) (omega (arith, b.4)),
            )
            (make_avail_lem h₂ (p + ints) (g.size p - ints) (omega arith) room
              (avail_inside o₂ starts)),
        (inv, split-Coalesced ints (omega (arith, a)) (omega (arith, d))),
        record {
          was_free = o.graph.listed_free p l;
          starts = ground (arith, b.0);
          taken = ground (arith, a);
          enough = ground (arith, a);
          keeps = λ j s t ne.
              let off : j ≢ p + ints = ground (arith, s, o.geo.within p (p + ints) b.0) in
              let starts₂ : g₂.start j ≡ true = ground (arith, s) in
              let taken₂ : g₂.free j ≡ false = ground (arith, t) in
              let size₂ : g₂.size j ≡ g.size j = ground (arith, off, ne) in
              (
                starts₂,
                ground (arith, taken₂, off),
                size₂,
                λ k lo hi.
                    let u : InUse g j k = record { starts = s; taken = t; low = lo; high = hi } in
                    let u₁ : InUse (unlink p g) j k = record {
                      starts = s;
                      taken = t;
                      low = lo;
                      high = hi;
                    } in
                    let u₂ : InUse g₂ j k = record {
                      starts = starts₂;
                      taken = taken₂;
                      low = lo;
                      high = omega (arith, size₂, hi);
                    } in
                    rw rest at (pushed_frame o₂ j k u₂ starts off (omega arith))
                    ∙ taken_frame o₁ j k u₁ ints b.0 ne (omega (arith, a)) (omega (arith, d))
                    ∙ relinked_frame o j k u p l,
              );
        },
      )

  pub take_block_lem : (ints : ℕ) → 4 ≤ ints → ints ≤ g.size p → Allocates panics g h r ints p
  take_block_lem ints a d = elim (Bool-cases (leb 4 (g.size p - ints))) [
    | inl many ↦ split_lem ints a (ground (arith, many)) many
    | inr few ↦ whole_lem ints d few
  ]

-- ===== src/Ring/Push.antt =====
-- Putting a value into the buffer, and copying a buffer.
use test_assignment.Prelude.{
  ap, append-nil, append_assoc, sym, ℕ, zero, suc, ◌+◌, ◌≤◌, ◌<◌, ◌≡◌, refl, ◌∙◌, inl, inr, Bool,
  true, false, ◌||◌, some, List, [], ◌∷◌, ◌++◌, length, length-append, drop, ltb, ◌==◌,
  if◌then◌else◌, arith, Bool-cases,
}
use mathlib.Core.Path.{subst}
use test_assignment.Prelude.Result.{ok}
use test_assignment.Ring.{
  Traits, RingBuffer, store_at, wrp_idx, at, overwrite, append, push_copy, push_move, emplace_back,
  copy_loop, assign, clear,
}
use test_assignment.Ring.Window.{
  element, enqueue, element-snoc, element-tail, Holds, wrp_idx-wrap, wrp_idx-bound, at-overwrite,
  at-append,
}

module _ {T : Type 0} (capacity : ℕ) where
  Holds-overwrite :
      (val : T) (r : RingBuffer T) (xs : List T)
      → Holds capacity r xs
      → length xs ≡ capacity
      → Holds capacity (overwrite capacity val r) (drop 1 xs ++ val ∷ [])
  Holds-overwrite val r [] h full = absurd (omega (arith, h.pos_bound))
  Holds-overwrite val r (x ∷ xs) h full = record {
    pos_bound = wrp_idx-bound capacity r 1 h.pos_bound (omega arith);
    size_is = omega (arith, h.size_is, length-append xs (val ∷ []));
    size_bound = omega (arith, length-append xs (val ∷ []));
    reads = λ i. ground (
      arith,
      at-overwrite capacity val r i h.pos_bound (omega (arith, h.size_is)),
      element-snoc xs val i,
      element-tail (x ∷ xs) i,
      h.reads (i + 1),
    );
  }

  Holds-append :
      (val : T) (r : RingBuffer T) (xs : List T)
      → Holds capacity r xs
      → length xs < capacity
      → Holds capacity (append capacity val r) (xs ++ val ∷ [])
  Holds-append val r xs h room = record {
    pos_bound = h.pos_bound;
    size_is = omega (arith, h.size_is, length-append xs (val ∷ []));
    size_bound = omega (arith, length-append xs (val ∷ []));
    reads = λ i. ground (
      arith,
      at-append capacity val r i h.pos_bound (omega (arith, h.size_is)),
      element-snoc xs val i,
      h.reads i,
      h.size_is,
    );
  }

  Holds-enqueue :
      (val : T) (r : RingBuffer T) (xs : List T)
      → Holds capacity r xs
      → Holds capacity
          (if r.size == capacity then overwrite capacity val r else append capacity val r)
          (enqueue capacity val xs)
  unfolding enqueue
  Holds-enqueue val r xs h = elim (Bool-cases (length xs == capacity)) [
    | inl e ↦ rw (size_test true e, e) (Holds-overwrite val r xs h (ground arith))
    | inr e ↦ rw (size_test false e, e) (Holds-append val r xs h (ground (arith, h.size_bound)))
  ]
    where
      size_test : (b : Bool) → (length xs == capacity) ≡ b → (r.size == capacity) ≡ b
      size_test b e = ground (arith, e, h.size_is)

  -- On a type that can be copied or assigned by copy, `push_back` of a value never fails: the
  -- buffer then holds the queue with the value behind it, without its first element where the
  -- buffer was full.
  pub push_copy_lem :
      (t : Traits) (val : T) (r : RingBuffer T) (xs : List T)
      → (t.copy_assignable || t.copy_constructible) ≡ true
      → Holds capacity r xs
      → (r' : RingBuffer T) × (push_copy capacity t val r ≡ ok r')
        × Holds capacity r' (enqueue capacity val xs)
  unfolding push_copy
  push_copy_lem t val r xs can h = (
    (if r.size == capacity then overwrite capacity val r else append capacity val r),
    ground arith,
    Holds-enqueue val r xs h,
  )

  -- On a type that can be moved, `emplace_back` does the same.
  pub emplace_back_lem :
      (t : Traits) (val : T) (r : RingBuffer T) (xs : List T)
      → (t.move_assignable || t.move_constructible) ≡ true
      → Holds capacity r xs
      → (r' : RingBuffer T) × (emplace_back capacity t val r ≡ ok r')
        × Holds capacity r' (enqueue capacity val xs)
  unfolding emplace_back
  emplace_back_lem t val r xs can h = (
    (if r.size == capacity then overwrite capacity val r else append capacity val r),
    ground arith,
    Holds-enqueue val r xs h,
  )

  abbrev in_place : T → RingBuffer T → RingBuffer T
  in_place val r = record r { buff = store_at r.pos (some val) r.buff }

  at-in_place :
      (val : T) (r : RingBuffer T) (i : ℕ)
      → r.pos < capacity
      → r.size ≤ capacity
      → 0 < r.size
      → at capacity i (in_place val r) ≡ (if i == 0 then ok val else at capacity i r)
  unfolding at
  at-in_place val r i h k some_there = elim (Bool-cases (ltb i r.size)) [
    | inr e ↦ ground arith
    | inl e ↦ ground (
      arith,
      wrp_idx-wrap capacity (in_place val r) i h (ground arith),
      wrp_idx-wrap capacity r i h (ground arith),
    )
  ]

  element-cons :
      (x y : T) (xs : List T) (i : ℕ)
      → element (y ∷ xs) i ≡ (if i == 0 then ok y else element (x ∷ xs) i)
  unfolding element
  element-cons x y xs zero = refl
  element-cons x y xs (suc i) = ground arith

  -- `push_back` of a value that is moved into a full buffer, on a type that can be constructed but
  -- not assigned by move, leaves the new value in front: it takes the place of the oldest one.
  pub push_move-in_front :
      (t : Traits) (val : T) (r : RingBuffer T) (x : T) (xs : List T)
      → t.move_assignable ≡ false
      → t.move_constructible ≡ true
      → length (x ∷ xs) ≡ capacity
      → Holds capacity r (x ∷ xs)
      → (r' : RingBuffer T) × (push_move capacity t val r ≡ ok r') × Holds capacity r' (val ∷ xs)
  unfolding push_move
  push_move-in_front t val r x xs assigns constructs full h = (
    in_place val r,
    ground (arith, h.size_is),
    record {
      pos_bound = h.pos_bound;
      size_is = omega (arith, h.size_is);
      size_bound = omega (arith, h.size_bound);
      reads = λ i. ground (
        arith,
        at-in_place val r i h.pos_bound (omega (arith, h.size_is, h.size_bound))
            (omega (arith, h.size_is)),
        element-cons x val xs i,
        h.reads i,
      );
    },
  )

  element-middle : (ys : List T) (z : T) (zs : List T) → element (ys ++ z ∷ zs) (length ys) ≡ ok z
  unfolding element
  element-middle [] z zs = refl
  element-middle (y ∷ ys) z zs = element-middle ys z zs

  -- one round of the loop of `operator=`
  Holds-next :
      (val : T) (r : RingBuffer T) (ys : List T) (i : ℕ)
      → Holds capacity r ys
      → length ys < capacity
      → r.size ≡ i
      → Holds capacity
          (record r { buff = store_at (wrp_idx capacity r i) (some val) r.buff; size = r.size + 1 })
          (ys ++ val ∷ [])
  Holds-next val r ys i h room e =
      subst
        (λ (j : ℕ).
          Holds capacity
            (record r {
              buff = store_at (wrp_idx capacity r j) (some val) r.buff;
              size = r.size + 1;
            })
            (ys ++ val ∷ []))
        e (Holds-append val r ys h room)

  copy_loop_lem :
      (zs ys qs : List T) (i : ℕ) (that r : RingBuffer T)
      → ys ++ zs ≡ qs
      → length ys ≡ i
      → Holds capacity that qs
      → Holds capacity r ys
      → (r' : RingBuffer T) × (copy_loop capacity (length zs) i that r ≡ ok r')
        × Holds capacity r' qs
  unfolding copy_loop
  copy_loop_lem [] ys qs i that r e n h k =
      (r, refl, subst (Holds capacity r) (sym (append-nil ys) ∙ e) k)
  copy_loop_lem (z ∷ zs) ys qs i that r e n h k =
      let (r', made, held) =
        copy_loop_lem zs (ys ++ z ∷ []) qs (i + 1) that
          (record r { buff = store_at (wrp_idx capacity r i) (some z) r.buff; size = r.size + 1 })
          (append_assoc ys (z ∷ []) zs ∙ e) (omega (arith, n, length-append ys (z ∷ []))) h
          (Holds-next z r ys i k
            (omega (arith, ap length e, length-append ys (z ∷ zs), h.size_bound))
            (omega (arith, k.size_is, n))) in
      (r', rw found made, held)
    where
      found : at capacity i that ≡ ok z
      found =
          h.reads i
          ∙ subst (λ (j : ℕ). element qs j ≡ ok z) n
              (subst (λ l. element l (length ys) ≡ ok z) e (element-middle ys z zs))

  -- Assigning another buffer never fails and leaves the queue of that buffer.
  pub assign_lem :
      (that r : RingBuffer T) (xs : List T)
      → Holds capacity that xs
      → (r' : RingBuffer T) × (assign capacity that r ≡ ok r') × Holds capacity r' xs
  unfolding assign clear
  assign_lem that r xs h =
      let (r', made, held) = copy_loop_lem xs [] xs 0 that (clear capacity r) refl refl h (record {
        pos_bound = omega (arith, h.pos_bound);
        size_is = refl;
        size_bound = omega arith;
        reads = λ i. unfold at element in ground arith;
      }) in
      (r', ap (λ n. copy_loop capacity n 0 that (clear capacity r)) h.size_is ∙ made, held)

-- ===== src/Ring/Pop.antt =====
-- Taking an element out of the buffer.
use test_assignment.Prelude.{
  ℕ, ◌+◌, ◌-◌, ◌≤◌, ◌<◌, ◌≡◌, inl, inr, none, List, [], ◌∷◌, ◌++◌, length, length-append, ltb,
  arith, Bool-cases,
}
use test_assignment.Prelude.Result.{ok}
use test_assignment.Ring.{RingBuffer, store_at, object_at, wrp_idx, at, pop_front, pop_back}
use test_assignment.Ring.Window.{
  element, element-snoc, element-past, Holds, wrp_idx-wrap, wrp_idx-bound, at-past,
}

module _ {T : Type 0} (capacity : ℕ) where
  read_first :
      (r : RingBuffer T) (x : T) (xs : List T)
      → Holds capacity r (x ∷ xs)
      → object_at (r.buff r.pos) ≡ ok x
  unfolding at element
  read_first r x xs h = ground (
    arith,
    h.reads 0,
    h.size_is,
    h.pos_bound,
    wrp_idx-wrap capacity r 0 h.pos_bound (omega arith),
  )

  abbrev without_first : RingBuffer T → RingBuffer T
  without_first r = record {
    buff = store_at r.pos none r.buff;
    pos = wrp_idx capacity r 1;
    size = r.size - 1;
  }

  at-without_first :
      (r : RingBuffer T) (i : ℕ)
      → r.pos < capacity
      → r.size ≤ capacity
      → 0 < r.size
      → at capacity i (without_first r) ≡ at capacity (i + 1) r
  unfolding at
  at-without_first r i h k some_there = elim (Bool-cases (ltb (i + 1) r.size)) [
    | inr e ↦ ground arith
    | inl e ↦ ground (
      arith,
      wrp_idx-wrap capacity r (i + 1) h (ground arith),
      wrp_idx-wrap capacity r 1 h (ground arith),
      wrp_idx-wrap capacity (without_first r) i (wrp_idx-bound capacity r 1 h (ground arith))
          (ground arith),
    )
  ]

  -- `pop_front` of a buffer that holds a queue with a first element returns that element and
  -- leaves a buffer that holds the rest.
  pub pop_front_lem :
      (r : RingBuffer T) (x : T) (xs : List T)
      → Holds capacity r (x ∷ xs)
      → (r' : RingBuffer T) × (pop_front capacity r ≡ ok (x, r')) × Holds capacity r' xs
  unfolding pop_front element
  pop_front_lem r x xs h = (
    without_first r,
    ground (arith, read_first r x xs h, h.size_is),
    record {
      pos_bound = wrp_idx-bound capacity r 1 h.pos_bound (omega (arith, h.size_bound));
      size_is = omega (arith, h.size_is);
      size_bound = omega (arith, h.size_bound);
      reads = λ i. ground (
        arith,
        at-without_first r i h.pos_bound (omega (arith, h.size_is, h.size_bound))
            (omega (arith, h.size_is)),
        h.reads (i + 1),
      );
    },
  )

  abbrev without_last : RingBuffer T → RingBuffer T
  without_last r = record r {
    buff = store_at (wrp_idx capacity r (r.size - 1)) none r.buff;
    size = r.size - 1;
  }

  at-without_last :
      (r : RingBuffer T) (i : ℕ)
      → r.pos < capacity
      → r.size ≤ capacity
      → i + 1 < r.size
      → at capacity i (without_last r) ≡ at capacity i r
  unfolding at
  at-without_last r i h k below = ground (
    arith,
    wrp_idx-wrap capacity r i h (omega arith),
    wrp_idx-wrap capacity r (r.size - 1) h (omega arith),
    wrp_idx-wrap capacity (without_last r) i h (omega arith),
  )

  read_last :
      (r : RingBuffer T) (x : T) (xs : List T)
      → Holds capacity r (xs ++ x ∷ [])
      → object_at (r.buff (wrp_idx capacity r (r.size - 1))) ≡ ok x
  unfolding at
  read_last r x xs h = ground (
    arith,
    h.reads (r.size - 1),
    h.size_is,
    element-snoc xs x (r.size - 1),
    length-append xs (x ∷ []),
  )

  -- `pop_back` of a buffer that holds a queue with a last element returns that element and leaves
  -- a buffer that holds the elements before it.
  pub pop_back_lem :
      (r : RingBuffer T) (x : T) (xs : List T)
      → Holds capacity r (xs ++ x ∷ [])
      → (r' : RingBuffer T) × (pop_back capacity r ≡ ok (x, r')) × Holds capacity r' xs
  unfolding pop_back
  pop_back_lem r x xs h =
      let sizes = length-append xs (x ∷ []) in
      (
        without_last r,
        ground (arith, read_last r x xs h, h.size_is, sizes),
        record {
          pos_bound = h.pos_bound;
          size_is = omega (arith, h.size_is, sizes);
          size_bound = omega (arith, h.size_bound, sizes);
          reads = λ i. elim (Bool-cases (ltb i (length xs))) [
            | inl e ↦ ground (
              arith,
              at-without_last r i h.pos_bound (ground (arith, h.size_is, h.size_bound))
                  (ground (arith, h.size_is, sizes)),
              h.reads i,
              element-snoc xs x i,
            )
            | inr e ↦ ground (
              arith,
              at-past capacity (without_last r) i (ground (arith, h.size_is, sizes)),
              element-past xs i (ground arith),
            )
          ];
        },
      )

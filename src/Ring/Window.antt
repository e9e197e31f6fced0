-- ===== src/Ring/Window.antt =====
-- A buffer as the queue of its elements: each operation does what it does to a list.
use test_assignment.Prelude.{
  ℕ, zero, suc, ◌+◌, ◌-◌, ◌%◌, ◌≤◌, ◌<◌, ◌≡◌, refl, ◌∙◌, inl, inr, List, [], ◌∷◌, ◌++◌, length,
  drop, ltb, ◌==◌, if◌then◌else◌, arith, Bool-cases,
}
use native.Mathlib.Nat.{mod-eq_of_lt, mod-eq-sub-mod}
use test_assignment.Prelude.Result.{Result, ok, err, out_of_range}
use test_assignment.Ring.{RingBuffer, wrp_idx, at, overwrite, append}

mod-wrap : (a b c : ℕ) → a < c → b ≤ c → (a + b) % c ≡ (if ltb (a + b) c then a + b else a + b - c)
mod-wrap a b c h k = elim (Bool-cases (ltb (a + b) c)) [
  | inl e ↦ rw e (mod-eq_of_lt (ground arith))
  | inr e ↦ rw e (
      mod-eq-sub-mod {n = a + b} {m = c} (ground arith)
      ∙ mod-eq_of_lt {n = a + b - c} {m = c} (ground arith))
]

module _ {T : Type 0} where
  -- what `operator[]` is to find in a queue
  unfoldable pub element : List T → ℕ → Result T
  element [] i = err out_of_range
  element (x ∷ xs) zero = ok x
  element (x ∷ xs) (suc i) = element xs i

  -- a queue of at most so many elements, which loses its first one where it is full
  unfoldable pub enqueue : ℕ → T → List T → List T
  enqueue capacity val xs = (if length xs == capacity then drop 1 xs else xs) ++ val ∷ []

  pub element-snoc :
      (xs : List T) (val : T) (i : ℕ)
      → element (xs ++ val ∷ []) i ≡ (if i == length xs then ok val else element xs i)
  unfolding element
  element-snoc [] val zero = refl
  element-snoc [] val (suc i) = ground arith
  element-snoc (x ∷ xs) val zero = ground arith
  element-snoc (x ∷ xs) val (suc i) = ground (arith, element-snoc xs val i)

  pub element-tail : (xs : List T) (i : ℕ) → element (drop 1 xs) i ≡ element xs (i + 1)
  unfolding element
  element-tail [] i = refl
  element-tail (x ∷ xs) i = ground arith

  pub element-past : (xs : List T) (i : ℕ) → length xs ≤ i → element xs i ≡ err out_of_range
  unfolding element
  element-past [] i h = refl
  element-past (x ∷ xs) zero h = absurd (omega arith)
  element-past (x ∷ xs) (suc i) h = element-past xs i (omega arith)

  module _ (capacity : ℕ) where
    -- The buffer holds the queue: reading it finds the queue's elements, and nothing past them.
    pub record Holds (r : RingBuffer T) (xs : List T) : Type 0 where
      pub pos_bound : r.pos < capacity
      pub size_is : r.size ≡ length xs
      pub size_bound : length xs ≤ capacity
      pub reads : (i : ℕ) → at capacity i r ≡ element xs i

    pub wrp_idx-wrap :
        (r : RingBuffer T) (i : ℕ)
        → r.pos < capacity
        → i ≤ capacity
        → wrp_idx capacity r i
          ≡ (if ltb (r.pos + i) capacity then r.pos + i else r.pos + i - capacity)
    unfolding wrp_idx
    wrp_idx-wrap r i h k = mod-wrap r.pos i capacity h k

    pub wrp_idx-bound :
        (r : RingBuffer T) (i : ℕ)
        → r.pos < capacity
        → i ≤ capacity
        → wrp_idx capacity r i < capacity
    wrp_idx-bound r i h k = ground (arith, wrp_idx-wrap r i h k)

    pub at-overwrite :
        (val : T) (r : RingBuffer T) (i : ℕ)
        → r.pos < capacity
        → r.size ≡ capacity
        → at capacity i (overwrite capacity val r)
          ≡ (if i + 1 == capacity then ok val else at capacity (i + 1) r)
    unfolding at
    at-overwrite val r i h full = elim (Bool-cases (ltb i r.size)) [
      | inr e ↦ ground arith
      | inl e ↦ ground (
        arith,
        wrp_idx-wrap r (i + 1) h (ground arith),
        wrp_idx-wrap r 1 h (ground arith),
        wrp_idx-wrap (overwrite capacity val r) i (wrp_idx-bound r 1 h (ground arith))
            (ground arith),
      )
    ]

    pub at-append :
        (val : T) (r : RingBuffer T) (i : ℕ)
        → r.pos < capacity
        → r.size < capacity
        → at capacity i (append capacity val r) ≡ (if i == r.size then ok val else at capacity i r)
    unfolding at
    at-append val r i h room = elim (Bool-cases (ltb i (r.size + 1))) [
      | inr e ↦ ground arith
      | inl e ↦ ground (
        arith,
        wrp_idx-wrap r i h (ground arith),
        wrp_idx-wrap r r.size h (ground arith),
        wrp_idx-wrap (append capacity val r) i h (ground arith),
      )
    ]

    pub at-past : (r : RingBuffer T) (i : ℕ) → r.size ≤ i → at capacity i r ≡ err out_of_range
    unfolding at
    at-past r i h = ground arith

-- ===== src/Ring.antt =====
-- support/containers/ring_buffer.hpp: `ring_buffer<T, CAPACITY>`, a queue over raw storage that
-- drops its oldest element when it is full. A slot holds an object or is raw. An address in the
-- buffer never reaches the wrap-around of `size_t`.
pub mod Window
pub mod Push
pub mod Pop
use test_assignment.Prelude.{
  ℕ, zero, suc, ◌+◌, ◌-◌, ◌%◌, Bool, true, false, Option, none, some, ltb, ◌==◌, if◌then◌else◌,
}
use test_assignment.Prelude.Result.{Result, ok, err, ◌>>=◌, out_of_range, not_applicable, fault}

-- `std::is_copy_assignable_v<T>` and so on
pub record Traits : Type 0 where
  pub copy_assignable : Bool
  pub copy_constructible : Bool
  pub move_assignable : Bool
  pub move_constructible : Bool

-- `buf_`, `pos_` and `size_`
pub record RingBuffer (T : Type 0) : Type 0 where
  pub buff : ℕ → Option T
  pub pos : ℕ
  pub size : ℕ

abbrev pub store_at : {T : Type 0} → ℕ → Option T → (ℕ → Option T) → ℕ → Option T
store_at i o buff j = if j == i then o else buff j

abbrev pub object_at : {T : Type 0} → Option T → Result T
object_at none = err fault
object_at (some x) = ok x

module _ {T : Type 0} where
  abbrev pub empty_ring : RingBuffer T
  empty_ring = record { buff = λ i. none; pos = 0; size = 0 }

  module _ (capacity : ℕ) where
    unfoldable pub wrp_idx : RingBuffer T → ℕ → ℕ
    wrp_idx r indx = (r.pos + indx) % capacity

    -- `operator[]`
    unfoldable pub at : ℕ → RingBuffer T → Result T
    at indx r = if ltb indx r.size then object_at (r.buff (wrp_idx r indx)) else err out_of_range

    -- the object at `pos_` replaced, which is the last one now
    abbrev pub overwrite : T → RingBuffer T → RingBuffer T
    overwrite val r = record r { buff = store_at r.pos (some val) r.buff; pos = wrp_idx r 1 }

    -- an object made behind the last one
    abbrev pub append : T → RingBuffer T → RingBuffer T
    append val r = record r {
      buff = store_at (wrp_idx r r.size) (some val) r.buff;
      size = r.size + 1;
    }

    -- `push_back(T const &)`
    unfoldable pub push_copy : Traits → T → RingBuffer T → Result (RingBuffer T)
    push_copy t val r =
        if r.size == capacity
        then (if t.copy_assignable
            then ok (overwrite val r)
            else if t.copy_constructible
            then ok (overwrite val r)
            else err not_applicable)
        else if t.copy_constructible
        then ok (append val r)
        else if t.copy_assignable
        then ok (append val r)
        else err not_applicable

    -- `push_back(T &&)`: where the object is constructed anew in a full buffer, `pos_` stays.
    unfoldable pub push_move : Traits → T → RingBuffer T → Result (RingBuffer T)
    push_move t val r =
        if r.size == capacity
        then (if t.move_assignable
            then ok (overwrite val r)
            else if t.move_constructible
            then ok (record r { buff = store_at r.pos (some val) r.buff })
            else err not_applicable)
        else if t.move_constructible
        then ok (append val r)
        else if t.move_assignable
        then ok (append val r)
        else err not_applicable

    -- `emplace_back`, with the value that the arguments construct
    unfoldable pub emplace_back : Traits → T → RingBuffer T → Result (RingBuffer T)
    emplace_back t val r =
        if r.size == capacity
        then (if t.move_assignable
            then ok (overwrite val r)
            else if t.move_constructible
            then ok (overwrite val r)
            else err not_applicable)
        else if t.move_constructible
        then ok (append val r)
        else if t.move_assignable
        then ok (append val r)
        else err not_applicable

    -- the loop of `clear`, by the rounds left
    unfoldable pub destroy : ℕ → ℕ → RingBuffer T → ℕ → Option T
    destroy zero i r = r.buff
    destroy (suc rounds) i r = store_at (wrp_idx r i) none (destroy rounds (i + 1) r)

    unfoldable pub clear : RingBuffer T → RingBuffer T
    clear r = record { buff = destroy r.size 0 r; pos = 0; size = 0 }

    abbrev pub is_empty : RingBuffer T → Bool
    is_empty r = r.size == 0

    unfoldable pub front : RingBuffer T → Result T
    front r = if is_empty r then err not_applicable else object_at (r.buff r.pos)

    unfoldable pub back : RingBuffer T → Result T
    back r = if is_empty r then err not_applicable else object_at (r.buff (wrp_idx r (r.size - 1)))

    unfoldable pub pop_front : RingBuffer T → Result (T × RingBuffer T)
    pop_front r =
        if is_empty r
        then err not_applicable
        else (object_at (r.buff r.pos) >>= λ res. ok (
          res,
          record { buff = store_at r.pos none r.buff; pos = wrp_idx r 1; size = r.size - 1 },
        ))

    unfoldable pub pop_back : RingBuffer T → Result (T × RingBuffer T)
    pop_back r =
        if is_empty r
        then err not_applicable
        else (object_at (r.buff (wrp_idx r (r.size - 1))) >>= λ res. ok (
          res,
          record r { buff = store_at (wrp_idx r (r.size - 1)) none r.buff; size = r.size - 1 },
        ))

    -- The loop of `operator=(ring_buffer const &)` on a buffer that is cleared: the other buffer's
    -- elements are constructed one behind the other.
    unfoldable pub copy_loop : ℕ → ℕ → RingBuffer T → RingBuffer T → Result (RingBuffer T)
    copy_loop zero i that r = ok r
    copy_loop (suc rounds) i that r = at i that >>= λ val.
        copy_loop rounds (i + 1) that
          (record r { buff = store_at (wrp_idx r i) (some val) r.buff; size = r.size + 1 })

    unfoldable pub assign : RingBuffer T → RingBuffer T → Result (RingBuffer T)
    assign that r = copy_loop that.size 0 that (clear r)

    -- An iterator into a buffer: its position, or the end, which is `size_t` -1.
    unfoldable pub iterator : RingBuffer T → ℕ → Option ℕ
    iterator r curr_pos = if ltb curr_pos r.size then some curr_pos else none

    -- `operator++`
    unfoldable pub step : RingBuffer T → Option ℕ → Option ℕ
    step r none = none
    step r (some p) =
        if ltb p r.size then (if ltb (p + 1) r.size then some (p + 1) else none) else some p

    -- `operator*`, which throws at the end
    unfoldable pub deref : RingBuffer T → Option ℕ → Result T
    deref r none = err not_applicable
    deref r (some p) = if ltb p r.size then at p r else err out_of_range

-- ===== src/Tests/Rings.antt =====
-- The theorems on the ring buffer, on a buffer of two places.
use test_assignment.Prelude.{
  ℕ, zero, suc, none, some, compare, Ordering, ◌≡◌, refl, true, false, [], ◌∷◌, arith,
}
use test_assignment.Prelude.Result.{ok}
use test_assignment.Ring.{Traits, RingBuffer, empty_ring, at, push_copy, pop_front, wrp_idx}
use test_assignment.Ring.Window.{element, enqueue, Holds}
use test_assignment.Ring.Push.{push_copy_lem}
use test_assignment.Ring.Pop.{pop_front_lem}

abbrev all_traits : Traits
all_traits = record {
  copy_assignable = true;
  copy_constructible = true;
  move_assignable = true;
  move_constructible = true;
}

abbrev constructible : Traits
constructible = record {
  copy_assignable = false;
  copy_constructible = false;
  move_assignable = false;
  move_constructible = true;
}

abbrev no_numbers : RingBuffer ℕ
no_numbers = empty_ring

no_numbers-Holds : Holds 2 no_numbers []
no_numbers-Holds = record {
  pos_bound = omega arith;
  size_is = refl;
  size_bound = omega arith;
  reads = λ i. unfold at element in ground arith;
}

push_copy_lem_example :
    (r' : RingBuffer ℕ) × (push_copy 2 all_traits 7 no_numbers ≡ ok r')
    × Holds 2 r' (enqueue 2 7 [])
push_copy_lem_example = push_copy_lem 2 all_traits 7 no_numbers [] refl no_numbers-Holds

-- the buffer 7, 8
abbrev two : RingBuffer ℕ
two = record {
  buff =
      λ i. elim (compare i 1) [ Ordering.lt ↦ some 7 | Ordering.eq ↦ some 8 | Ordering.gt ↦ none ];
  pos = 0;
  size = 2;
}

two-reads : (i : ℕ) → at 2 i two ≡ element (7 ∷ 8 ∷ []) i
unfolding at element wrp_idx
two-reads zero = refl
two-reads (suc zero) = refl
two-reads (suc (suc i)) = ground arith

two-Holds : Holds 2 two (7 ∷ 8 ∷ [])
two-Holds = record {
  pos_bound = omega arith;
  size_is = refl;
  size_bound = omega arith;
  reads = two-reads;
}

pop_front_lem_example : (r' : RingBuffer ℕ) × (pop_front 2 two ≡ ok (7, r')) × Holds 2 r' (8 ∷ [])
pop_front_lem_example = pop_front_lem 2 two 7 (8 ∷ []) two-Holds

-- ===== src/Bits/Sort.antt =====
-- support/bit_util.hpp: `bsort`, a bubble sort that ends with the first sweep without an exchange.
-- An array is the list of its elements.
pub mod Sorted
use test_assignment.Prelude.{ℕ, zero, suc, Bool, List, [], ◌∷◌, ◌==◌, if◌then◌else◌, length}

module _ {A : Type 0} (less : A → A → Bool) where
  -- The inner loop, from the first element on, by the comparisons left: the array and the number
  -- of exchanges. What is compared next is the greater of the two.
  unfoldable pub sweep : ℕ → List A → List A × ℕ
  sweep zero array = (array, 0)
  sweep (suc i) [] = ([], 0)
  sweep (suc i) (a ∷ []) = (a ∷ [], 0)
  sweep (suc i) (a ∷ b ∷ array) =
      let swaps = less b a in
      let (rest, s) = sweep i ((if swaps then a else b) ∷ array) in
      ((if swaps then b else a) ∷ rest, (if swaps then suc s else s))

  -- the outer loop, by the rounds left
  unfoldable pub bsort_loop : ℕ → List A → List A
  bsort_loop zero array = array
  bsort_loop (suc i) array =
      let (swept, s) = sweep i array in
      let rest = bsort_loop i swept in if s == 0 then swept else rest

  unfoldable pub bsort : List A → List A
  bsort array = bsort_loop (length array) array

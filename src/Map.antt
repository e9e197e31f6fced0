-- ===== src/Map.antt =====
-- `std::map` as the program uses it: the list of its entries in the order of their keys.
-- `std::map` belongs to the language's library; the operations below are the ones that the
-- JSON model calls (find, operator[], erase, iteration, the greatest key).
pub mod Lookup
pub mod Sorted
use test_assignment.Prelude.{Bool, true, false, Option, none, some, List, [], ◌∷◌, Ordering, ℕ}
use test_assignment.Prelude.Order.{Order}

abbrev pub Map : Type 0 → Type 0 → Type 0
Map K V = List (K × V)

module _ {K : Type 0} {V : Type 0} ⦃o : Order K⦄ where
  -- `m.find(k)`
  unfoldable pub lookup : K → Map K V → Option V
  lookup k [] = none
  lookup k ((j, v) ∷ m) = elim (o.cmp k j) [ Ordering.eq ↦ some v | _ ↦ lookup k m ]

  -- `m.find(k) != m.end()`
  unfoldable pub member : K → Map K V → Bool
  member k m = elim (lookup k m) [ none ↦ false | some _ ↦ true ]

  -- `m[k] = v`
  unfoldable pub insert : K → V → Map K V → Map K V
  insert k v [] = (k, v) ∷ []
  insert k v ((j, w) ∷ m) = elim (o.cmp k j) [
    | Ordering.lt ↦ (k, v) ∷ (j, w) ∷ m
    | Ordering.eq ↦ (j, v) ∷ m
    | Ordering.gt ↦ (j, w) ∷ insert k v m
  ]

  -- `m.erase(m.find(k))`: the keys of a map are distinct.
  unfoldable pub erase : K → Map K V → Map K V
  erase k [] = []
  erase k ((j, w) ∷ m) = elim (o.cmp k j) [ Ordering.eq ↦ erase k m | _ ↦ (j, w) ∷ erase k m ]

module _ {K : Type 0} {V : Type 0} where
  abbrev pub keys : Map K V → List K
  keys [] = []
  keys ((k, v) ∷ m) = k ∷ keys m

  -- `(--m.end())->first`, for a map that is not empty
  unfoldable pub last_key : Map K V → Option K
  last_key [] = none
  last_key ((k, v) ∷ []) = some k
  last_key ((k, v) ∷ e ∷ m) = last_key (e ∷ m)

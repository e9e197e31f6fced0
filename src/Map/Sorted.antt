-- ===== src/Map/Sorted.antt =====
-- The invariant of `std::map`: the keys ascend strictly. Every operation keeps it.
use test_assignment.Prelude.{◌≡◌, refl, none, [], ◌∷◌, Ordering, arith}
use test_assignment.Prelude.Order.{Order}
use test_assignment.Map.{Map, lookup, insert, erase}

module _ {K : Type 0} {V : Type 0} ⦃o : Order K⦄ where
  -- every key of `m` is above `k`
  abbrev pub IsAbove : K → Map K V → Type 0
  IsAbove k [] = Unit
  IsAbove k ((j, v) ∷ m) = (o.cmp k j ≡ Ordering.lt) × IsAbove k m

  abbrev pub IsSorted : Map K V → Type 0
  IsSorted [] = Unit
  IsSorted ((k, v) ∷ m) = IsAbove k m × IsSorted m

  IsAbove-insert :
      (i k : K) (v : V) (m : Map K V)
      → o.cmp i k ≡ Ordering.lt
      → IsAbove i m
      → IsAbove i (insert k v m)
  unfolding insert
  IsAbove-insert i k v [] h a = (h, tt)
  IsAbove-insert i k v ((j, w) ∷ m) h a = ground (arith, IsAbove-insert i k v m h)

  IsAbove-chain : (i k : K) (m : Map K V) → o.cmp i k ≡ Ordering.lt → IsAbove k m → IsAbove i m
  IsAbove-chain i k [] h a = tt
  IsAbove-chain i k ((j, w) ∷ m) h a = (o.chain i k j h a.0, IsAbove-chain i k m h a.1)

  pub insert-IsSorted : (k : K) (v : V) (m : Map K V) → IsSorted m → IsSorted (insert k v m)
  unfolding insert
  insert-IsSorted k v [] s = (tt, tt)
  insert-IsSorted k v ((j, w) ∷ m) s =
      ground
        (arith, insert-IsSorted k v m, IsAbove-chain k j m, IsAbove-insert j k v m, o.flip_gt k j)

  IsAbove-erase : (i k : K) (m : Map K V) → IsAbove i m → IsAbove i (erase k m)
  unfolding erase
  IsAbove-erase i k [] a = tt
  IsAbove-erase i k ((j, w) ∷ m) a = ground (arith, IsAbove-erase i k m)

  pub erase-IsSorted : (k : K) (m : Map K V) → IsSorted m → IsSorted (erase k m)
  unfolding erase
  erase-IsSorted k [] s = tt
  erase-IsSorted k ((j, w) ∷ m) s = ground (arith, erase-IsSorted k m, IsAbove-erase j k m)

  lookup-above : (k : K) (m : Map K V) → IsAbove k m → lookup k m ≡ none
  unfolding lookup
  lookup-above k [] a = refl
  lookup-above k ((j, w) ∷ m) a = ground (arith, lookup-above k m)

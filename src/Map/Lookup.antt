-- ===== src/Map/Lookup.antt =====
-- What a lookup finds after each operation of `std::map`.
use test_assignment.Prelude.{◌≡◌, ◌≢◌, none, some, [], ◌∷◌, Ordering, arith}
use test_assignment.Prelude.Order.{Order}
use test_assignment.Map.{Map, lookup, insert, erase}

module _ {K : Type 0} {V : Type 0} ⦃o : Order K⦄ where
  pub lookup-insert :
      (k j : K) (v : V) (m : Map K V)
      → lookup j (insert k v m) ≡ elim (o.cmp j k) [ Ordering.eq ↦ some v | _ ↦ lookup j m ]
  unfolding lookup insert
  lookup-insert k j v [] = ground arith
  lookup-insert k j v ((i, w) ∷ m) = ground (
    arith,
    lookup-insert k j v m,
    o.eq_of k i,
    o.eq_of j i,
    o.eq_of j k,
    o.self i,
    o.self k,
    o.self j,
  )

  pub lookup-insert_self : (k : K) (v : V) (m : Map K V) → lookup k (insert k v m) ≡ some v
  lookup-insert_self k v m = ground (arith, lookup-insert k k v m, o.self k)

  pub lookup-insert_ne :
      (k j : K) (v : V) (m : Map K V) → j ≢ k → lookup j (insert k v m) ≡ lookup j m
  lookup-insert_ne k j v m h = ground (arith, lookup-insert k j v m, o.eq_of j k)

  pub lookup-erase :
      (k j : K) (m : Map K V)
      → lookup j (erase k m) ≡ elim (o.cmp j k) [ Ordering.eq ↦ none | _ ↦ lookup j m ]
  unfolding lookup erase
  lookup-erase k j [] = ground arith
  lookup-erase k j ((i, w) ∷ m) = ground (
    arith,
    lookup-erase k j m,
    o.eq_of k i,
    o.eq_of j i,
    o.eq_of j k,
    o.self i,
    o.self k,
    o.self j,
  )

  pub lookup-erase_self : (k : K) (m : Map K V) → lookup k (erase k m) ≡ none
  lookup-erase_self k m = ground (arith, lookup-erase k k m, o.self k)

  pub lookup-erase_ne : (k j : K) (m : Map K V) → j ≢ k → lookup j (erase k m) ≡ lookup j m
  lookup-erase_ne k j m h = ground (arith, lookup-erase k j m, o.eq_of j k)

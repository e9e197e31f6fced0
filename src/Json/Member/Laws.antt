-- ===== src/Json/Member/Laws.antt =====
-- What a name finds after each change of an object.
use test_assignment.Prelude.{
  ◌≡◌, refl, sym, ◌≢◌, ap, true, false, Option, none, some, Bytes, arith, same, same→eq, same_refl,
  if◌then◌else◌, Bool-cases, inl, inr,
}
use test_assignment.Prelude.Order.{bytes_order}
use mathlib.Core.Path.{subst}
use test_assignment.Prelude.Result.{Failure, ok, err, catch, field_not_exist, bad_cast}
use test_assignment.Map.{lookup, erase}
use test_assignment.Map.Lookup.{
  lookup-insert_self, lookup-insert_ne, lookup-erase_self, lookup-erase_ne,
}
use test_assignment.Map.Sorted.{IsSorted, insert-IsSorted}
use test_assignment.Json.Value.{Value, object, Fields, fields, of_fields, fields-of_fields}
use test_assignment.Json.Member.{
  own_fields, or_null, at_key, set_key, get_key, found, key_exists, key_remove,
}

module _ {F : Type 0} where
  -- the entry of a name, none in a value that is no object
  unfoldable pub entry : Bytes → Value F → Option (Value F)
  unfolding own_fields
  entry k v = lookup k (own_fields v)

  pub entry-at_key_self :
      (k : Bytes) (f : Value F → Value F) (v : Value F)
      → entry k (at_key k f v) ≡ some (f (or_null (entry k v)))
  unfolding entry at_key
  entry-at_key_self k f v =
      rw fields-of_fields
        (lookup-insert_self k (f (or_null (lookup k (own_fields v)))) (own_fields v))

  pub entry-at_key_ne :
      (k j : Bytes) (f : Value F → Value F) (v : Value F)
      → j ≢ k
      → entry j (at_key k f v) ≡ entry j v
  unfolding entry at_key
  entry-at_key_ne k j f v h =
      rw fields-of_fields
        (lookup-insert_ne k j (f (or_null (lookup k (own_fields v)))) (own_fields v) h)

  pub entry-set_key_self : (k : Bytes) (x v : Value F) → entry k (set_key k x v) ≡ some x
  unfolding set_key
  entry-set_key_self k x v = entry-at_key_self k (λ _. x) v

  pub entry-set_key_ne : (k j : Bytes) (x v : Value F) → j ≢ k → entry j (set_key k x v) ≡ entry j v
  unfolding set_key
  entry-set_key_ne k j x v h = entry-at_key_ne k j (λ _. x) v h

  -- both in one, for use as an equation
  pub entry-at_key :
      (k j : Bytes) (f : Value F → Value F) (v : Value F)
      → entry j (at_key k f v) ≡ (if same j k then some (f (or_null (entry k v))) else entry j v)
  entry-at_key k j f v = elim (Bool-cases (same j k)) [
    | inl e ↦ rw e (
        subst (λ (i : Bytes). entry i (at_key k f v) ≡ some (f (or_null (entry k v))))
          (sym (same→eq j k e)) (entry-at_key_self k f v))
    | inr e ↦ rw e (entry-at_key_ne k j f v (λ p. cc (e, ap (λ i. same i k) p, same_refl k)))
  ]

  pub entry-set_key :
      (k j : Bytes) (x v : Value F)
      → entry j (set_key k x v) ≡ (if same j k then some x else entry j v)
  unfolding set_key
  entry-set_key k j x v = entry-at_key k j (λ _. x) v

  -- on an object, the constant lookup and the test read the entry
  pub get_key_object :
      (k : Bytes) (fs : Fields F) → get_key k (object fs) ≡ found (entry k (object fs))
  unfolding get_key entry
  get_key_object k fs = refl

  pub key_exists_of_some :
      (k : Bytes) (v : Value F) {x : Value F} → entry k v ≡ some x → key_exists k v ≡ true
  unfolding key_exists entry lookup
  key_exists_of_some k (object fs) h = ground arith
  key_exists_of_some k _ h = cc

  pub key_exists_of_none : (k : Bytes) (v : Value F) → entry k v ≡ none → key_exists k v ≡ false
  unfolding key_exists entry
  key_exists_of_none k v h = ground arith

  pub get_key_of_some :
      (k : Bytes) (v : Value F) {x : Value F} → entry k v ≡ some x → get_key k v ≡ ok x
  unfolding get_key entry lookup
  get_key_of_some k (object fs) h = ground arith
  get_key_of_some k _ h = cc

  pub get_key_of_none :
      (k : Bytes) (v : Value F) → entry k v ≡ none → (e : Failure) × (get_key k v ≡ err e)
  unfolding get_key entry lookup
  get_key_of_none k (object fs) h = (field_not_exist, ground arith)
  get_key_of_none k _ h = (bad_cast, refl)

  -- erasing a name leaves an object without it, and every other entry
  pub key_remove_lem :
      (k : Bytes) (fs : Fields F)
      → (v : Value F) × (key_remove k (object fs) ≡ ok v)
        × (entry k v ≡ none)
        × ((j : Bytes) → j ≢ k → entry j v ≡ entry j (object fs))
  unfolding key_remove entry
  key_remove_lem k fs = (
    object (of_fields (erase k (fields fs))),
    refl,
    rw fields-of_fields (lookup-erase_self k (fields fs)),
    λ j h. rw fields-of_fields (lookup-erase_ne k j (fields fs) h),
  )

  -- erasing, on a value that is an object
  pub entry-key_remove :
      (k j : Bytes) (fs : Fields F)
      → entry j (catch (key_remove k (object fs)) (object fs))
        ≡ (if same j k then none else entry j (object fs))
  entry-key_remove k j fs =
      let (v, made, gone, kept) = key_remove_lem k fs in
      elim (Bool-cases (same j k)) [
        | inl e ↦ rw (made, e) (subst (λ (i : Bytes). entry i v ≡ none) (sym (same→eq j k e)) gone)
        | inr e ↦ rw (made, e) (kept j (λ p. cc (e, ap (λ i. same i k) p, same_refl k)))
      ]

  -- the names of an object ascend, as those of a `std::map` do
  abbrev pub HasSortedNames : Value F → Type 0
  HasSortedNames v = IsSorted (own_fields v)

  pub at_key-HasSortedNames :
      (k : Bytes) (f : Value F → Value F) (v : Value F)
      → IsSorted (own_fields v)
      → IsSorted (own_fields (at_key k f v))
  unfolding own_fields at_key
  at_key-HasSortedNames k f v h =
      rw fields-of_fields
        (insert-IsSorted k (f (or_null (lookup k (own_fields v)))) (own_fields v) h)

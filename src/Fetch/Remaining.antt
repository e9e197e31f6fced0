-- ===== src/Fetch/Remaining.antt =====
-- What stays on a schedule when its last date is taken away.
use test_assignment.Prelude.{
  ◌≤◌, ◌<◌, ◌≡◌, refl, Bool, true, [], ◌∷◌, Bytes, all, &&-right, length, arith,
}
use test_assignment.Prelude.Order.{bytes_order}
use test_assignment.Prelude.Result.{ok}
use test_assignment.Map.{Map, lookup, member, erase, keys}
use test_assignment.Json.Value.{Value, object, of_fields, fields-of_fields, is_object}
use test_assignment.Json.Member.{key_exists, key_remove}
use test_assignment.Schedule.{scheduled}
use test_assignment.Fetch.{last_or_empty}

module _ {V : Type 0} where
  -- a schedule without its last date
  unfoldable pub without_last : Map Bytes V → Map Bytes V
  without_last m = erase (last_or_empty (keys m)) m

  member-cons :
      (k j : Bytes) (w : V) (m : Map Bytes V) → member k m ≡ true → member k ((j, w) ∷ m) ≡ true
  unfolding member lookup
  member-cons k j w m h = ground arith

  pub member-last :
      (e : Bytes × V) (m : Map Bytes V) → member (last_or_empty (keys (e ∷ m))) (e ∷ m) ≡ true
  unfolding last_or_empty
  member-last (k, v) [] = unfold member lookup in rw (bytes_order.self k) refl
  member-last (k, v) (e ∷ m) =
      member-cons (last_or_empty (keys (e ∷ m))) k v (e ∷ m) (member-last e m)

  length-erase_le : (k : Bytes) (m : Map Bytes V) → length (erase k m) ≤ length m
  unfolding erase
  length-erase_le k [] = omega arith
  length-erase_le k ((j, w) ∷ m) = ground (arith, length-erase_le k m)

  pub length-erase :
      (k : Bytes) (m : Map Bytes V) → member k m ≡ true → length (erase k m) < length m
  unfolding erase member lookup
  length-erase k [] h = ground arith
  length-erase k ((j, w) ∷ m) h = ground (arith, length-erase_le k m, length-erase k m)

  pub all-keys-erase :
      (p : Bytes → Bool) (k : Bytes) (m : Map Bytes V)
      → all p (keys m) ≡ true
      → all p (keys (erase k m)) ≡ true
  unfolding erase
  all-keys-erase p k [] h = h
  all-keys-erase p k ((j, w) ∷ m) h = ground (arith, all-keys-erase p k m)

  pub all-last :
      (p : Bytes → Bool) (e : Bytes × V) (m : Map Bytes V)
      → all p (keys (e ∷ m)) ≡ true
      → p (last_or_empty (keys (e ∷ m))) ≡ true
  unfolding last_or_empty
  all-last p (k, v) [] h = ground arith
  all-last p (k, v) (e ∷ m) h = all-last p e m (&&-right (p k) _ h)

module _ {F : Type 0} where
  pub scheduled-last :
      (e : Bytes × Value F) (m : Map Bytes (Value F))
      → scheduled (last_or_empty (keys (e ∷ m))) (object (of_fields (e ∷ m))) ≡ true
  unfolding scheduled is_object key_exists
  scheduled-last e m = rw (fields-of_fields (e ∷ m)) (member-last e m)

  pub key_remove-last :
      (e : Bytes × Value F) (m : Map Bytes (Value F))
      → key_remove (last_or_empty (keys (e ∷ m))) (object (of_fields (e ∷ m)))
        ≡ ok (object (of_fields (without_last (e ∷ m))))
  unfolding key_remove without_last
  key_remove-last e m = rw (fields-of_fields (e ∷ m)) refl

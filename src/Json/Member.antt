-- ===== src/Json/Member.antt =====
-- support/json.hpp: the members of `object` that take a name, and those that walk an object.
-- A member that returns a reference is a function that changes what the reference stands for.
pub mod Laws
use test_assignment.Prelude.{
  ℕ, zero, suc, Bool, true, false, Option, none, some, List, [], ◌∷◌, Bytes, get_elem?,
}
use test_assignment.Prelude.Order.{bytes_order}
use test_assignment.Prelude.Result.{
  Result, ok, err, ◌>>=◌, bad_cast, field_not_exist, invalid_conversion, fault,
}
use test_assignment.Map.{Map, lookup, member, insert, erase, keys}
use test_assignment.Json.Value.{
  Value, null, object, array, Fields, fields, of_fields, is_string, is_number, is_bool, is_real,
  become_object,
}

module _ {F : Type 0} where
  -- what `become_object()` leaves in `v_`
  unfoldable pub own_fields : Value F → Map Bytes (Value F)
  own_fields (object fs) = fields fs
  own_fields _ = []

  abbrev pub or_null : Option (Value F) → Value F
  or_null none = null
  or_null (some v) = v

  -- `operator[](name)`, whose caller changes the entry by `f`: the value becomes an object, and
  -- an entry that is not there is made, null.
  unfoldable pub at_key : Bytes → (Value F → Value F) → Value F → Value F
  unfolding own_fields
  at_key k f v = let m = own_fields v in object (of_fields (insert k (f (or_null (lookup k m))) m))

  -- `v[k] = x`
  unfoldable pub set_key : Bytes → Value F → Value F → Value F
  unfolding at_key
  set_key k x v = at_key k (λ _. x) v

  abbrev pub found : Option (Value F) → Result (Value F)
  found none = err field_not_exist
  found (some v) = ok v

  -- `operator[](name) const`; the cast throws unless the value is an object.
  unfoldable pub get_key : Bytes → Value F → Result (Value F)
  get_key k (object fs) = found (lookup k (fields fs))
  get_key k _ = err bad_cast

  unfoldable pub key_exists : Bytes → Value F → Bool
  unfolding member
  key_exists k (object fs) = member k (fields fs)
  key_exists k _ = false

  abbrev pub holds : (Value F → Bool) → Option (Value F) → Bool
  holds p none = false
  holds p (some v) = p v

  unfoldable pub string_field_exists : Bytes → Value F → Bool
  string_field_exists k (object fs) = holds is_string (lookup k (fields fs))
  string_field_exists k _ = false

  unfoldable pub num_field_exists : Bytes → Value F → Bool
  num_field_exists k (object fs) = holds is_number (lookup k (fields fs))
  num_field_exists k _ = false

  unfoldable pub bool_field_exists : Bytes → Value F → Bool
  bool_field_exists k (object fs) = holds is_bool (lookup k (fields fs))
  bool_field_exists k _ = false

  unfoldable pub float_field_exists : Bytes → Value F → Bool
  float_field_exists k (object fs) = holds is_real (lookup k (fields fs))
  float_field_exists k _ = false

  unfoldable pub key_list : Value F → List Bytes
  key_list (object fs) = keys (fields fs)
  key_list _ = []

  -- `traverse_object`: the calls that the function gets, in order
  unfoldable pub traverse_object : Value F → Result (Map Bytes (Value F))
  traverse_object (object fs) = ok (fields fs)
  traverse_object _ = err invalid_conversion

  -- `key(index)`: the iterator steps without a test, so that an index past the end is undefined.
  abbrev pub nth_key : Option (Bytes × Value F) → Result Bytes
  nth_key none = err fault
  nth_key (some (k, v)) = ok k

  unfoldable pub key : ℕ → Value F → Result Bytes
  key i (object fs) = nth_key (get_elem? (fields fs) i)
  key i _ = err invalid_conversion

  unfoldable pub key_remove : Bytes → Value F → Result (Value F)
  key_remove k (object fs) = ok (object (of_fields (erase k (fields fs))))
  key_remove k _ = err invalid_conversion

  -- `key_remove(index)`
  unfoldable pub key_remove_at : ℕ → Value F → Result (Value F)
  unfolding key key_remove
  key_remove_at i v = key i v >>= λ k. key_remove k v

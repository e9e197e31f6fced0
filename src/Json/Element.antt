-- ===== src/Json/Element.antt =====
-- support/json.hpp: the members of `object` that take an index, with `size` and `push_back`.
use test_assignment.Prelude.{
  ℕ, zero, suc, ◌+◌, ◌-◌, Option, none, some, [], Bytes, get_elem?, set, length, ltb, if◌then◌else◌,
}
use test_assignment.Prelude.Order.{index_order}
use test_assignment.Prelude.Result.{
  Failure, Result, ok, err, ◌>>=◌, out_of_range, not_applicable, invalid_conversion, fault,
}
use test_assignment.Map.{Map, lookup, insert, erase, last_key}
use test_assignment.Json.Value.{
  Value, null, boolean, integer, real, string, object, array, fields, of_fields, items, of_items,
}
use test_assignment.Json.Member.{or_null, key_remove_at}

-- `a_max + 1`, or 0 for an array with no entry
unfoldable pub array_size : {V : Type 0} → Map ℕ V → ℕ
unfolding last_key
array_size m = elim (last_key m) [ none ↦ 0 | some i ↦ i + 1 ]

-- one round of the loop of `array_item_remove`
unfoldable pub shift_entry : {V : Type 0} → ℕ → Map ℕ V → Map ℕ V
shift_entry i m = elim (lookup i m) [ none ↦ m | some v ↦ erase i (insert (i - 1) v m) ]

-- `for(i = index + 1; i < s; i++)`, by the rounds left
unfoldable pub shift_loop : {V : Type 0} → ℕ → ℕ → Map ℕ V → Map ℕ V
unfolding shift_entry
shift_loop zero i m = m
shift_loop (suc rounds) i m = shift_loop rounds (i + 1) (shift_entry i m)

-- `array_item_remove` on the map: the size is taken after the first erasure.
unfoldable pub remove_item : {V : Type 0} → ℕ → Map ℕ V → Map ℕ V
unfolding array_size shift_loop
remove_item index m =
    let m' = erase index m in shift_loop (array_size m' - (index + 1)) (index + 1) m'

module _ {F : Type 0} where
  -- `size()`; `sizeof(long double)` is the compiler's.
  unfoldable pub size : ℕ → Value F → ℕ
  unfolding array_size
  size real_size null = 0
  size real_size (boolean b) = 1
  size real_size (string s) = length s
  size real_size (integer z) = 8
  size real_size (real x) = real_size
  size real_size (object fs) = length (fields fs)
  size real_size (array xs) = array_size (items xs)

  -- what `become_array()` leaves in `v_`
  unfoldable pub own_items : Value F → Map ℕ (Value F)
  own_items (array xs) = items xs
  own_items _ = []

  -- `become_array()[size()] = x`
  unfoldable pub push_back : Value F → Value F → Value F
  unfolding own_items array_size
  push_back x v = let m = own_items v in array (of_items (insert (array_size m) x m))

  abbrev pub nth_value : Option (Bytes × Value F) → Failure → Result (Value F)
  nth_value none e = err e
  nth_value (some (k, v)) e = ok v

  -- `operator[](index) const`: the element, and the value after the call, since a gap below the
  -- greatest index is filled with null.
  unfoldable pub get_index : ℕ → Value F → Result (Value F × Value F)
  get_index i (object fs) =
      nth_value (get_elem? (fields fs) i) out_of_range >>= λ v. ok (v, object fs)
  get_index i (array xs) = elim (lookup i (items xs)) [
    | some v ↦ ok (v, array xs)
    | none ↦ elim (last_key (items xs)) [
      | none ↦ err out_of_range
      | some top ↦
          if ltb i top
          then ok (null, array (of_items (insert i null (items xs))))
          else err out_of_range
    ]
  ]
  get_index i _ = err not_applicable

  -- `operator[](index)`, whose caller changes the element by `f`: the entry of an object in the
  -- order of the names (past the end the iterator is undefined), or of an array, which any other
  -- value becomes.
  unfoldable pub at_index : ℕ → (Value F → Value F) → Value F → Result (Value F)
  unfolding own_items
  at_index i f (object fs) = elim (get_elem? (fields fs) i) [
    | none ↦ err fault
    | some (k, v) ↦ ok (object (of_fields (set (fields fs) i (k, f v))))
  ]
  at_index i f v =
      let m = own_items v in ok (array (of_items (insert i (f (or_null (lookup i m))) m)))

  unfoldable pub array_item_remove : ℕ → Value F → Result (Value F)
  unfolding remove_item
  array_item_remove i (array xs) = ok (array (of_items (remove_item i (items xs))))
  array_item_remove i _ = err invalid_conversion

  -- `erase(index)` and `erase(key)`
  unfoldable pub erase_at : ℕ → Value F → Result (Value F)
  unfolding array_item_remove key_remove_at
  erase_at i (array xs) = array_item_remove i (array xs)
  erase_at i (object fs) = key_remove_at i (object fs)
  erase_at i _ = err invalid_conversion

-- ===== src/Json/Value.antt =====
-- support/json.hpp:135-171, 1012-1025: the data of `object`, `v_` with its tag `t_`, and the
-- `become_…` and `is_…` members. `o_t` is a `std::map` by names, `a_t` one by indices: an array may
-- have gaps. A `long double` is a value of a type `F` that the model leaves open.
use test_assignment.Prelude.{ℕ, Bool, true, false, [], ◌∷◌, ◌≡◌, refl, ap, Bytes}
use test_assignment.Prelude.Int.{ℤ}
use test_assignment.Map.{Map}

mutual
  pub data Value (F : Type 0) : Type 0 where
    null : Value F
    boolean : Bool → Value F
    integer : ℤ → Value F
    real : F → Value F
    string : Bytes → Value F
    object : Fields F → Value F
    array : Items F → Value F

  pub data Fields (F : Type 0) : Type 0 where
    end : Fields F
    field : Bytes → Value F → Fields F → Fields F

  pub data Items (F : Type 0) : Type 0 where
    stop : Items F
    item : ℕ → Value F → Items F → Items F

module _ {F : Type 0} where
  -- the entries as the maps that they are
  abbrev pub fields : Fields F → Map Bytes (Value F)
  fields end = []
  fields (field k v fs) = (k, v) ∷ fields fs

  abbrev pub of_fields : Map Bytes (Value F) → Fields F
  of_fields [] = end
  of_fields ((k, v) ∷ m) = field k v (of_fields m)

  abbrev pub items : Items F → Map ℕ (Value F)
  items stop = []
  items (item i v xs) = (i, v) ∷ items xs

  abbrev pub of_items : Map ℕ (Value F) → Items F
  of_items [] = stop
  of_items ((i, v) ∷ m) = item i v (of_items m)

  pub fields-of_fields : (m : Map Bytes (Value F)) → fields (of_fields m) ≡ m
  fields-of_fields [] = refl
  fields-of_fields ((k, v) ∷ m) = ap (λ t. (k, v) ∷ t) (fields-of_fields m)

  pub items-of_items : (m : Map ℕ (Value F)) → items (of_items m) ≡ m
  items-of_items [] = refl
  items-of_items ((i, v) ∷ m) = ap (λ t. (i, v) ∷ t) (items-of_items m)

  unfoldable pub is_object : Value F → Bool
  is_object (object fs) = true
  is_object _ = false

  unfoldable pub is_array : Value F → Bool
  is_array (array xs) = true
  is_array _ = false

  unfoldable pub is_string : Value F → Bool
  is_string (string s) = true
  is_string _ = false

  unfoldable pub is_bool : Value F → Bool
  is_bool (boolean b) = true
  is_bool _ = false

  unfoldable pub is_number : Value F → Bool
  is_number (integer z) = true
  is_number _ = false

  unfoldable pub is_real : Value F → Bool
  is_real (real x) = true
  is_real _ = false

  unfoldable pub is_null : Value F → Bool
  is_null null = true
  is_null _ = false

  unfoldable pub become_object : Value F → Value F
  become_object (object fs) = object fs
  become_object _ = object end

  unfoldable pub become_array : Value F → Value F
  become_array (array xs) = array xs
  become_array _ = array stop

  -- each of the branches of the next ones writes the new value
  unfoldable pub become_number : Value F → ℤ → Value F
  become_number v val = integer val

  unfoldable pub become_real : Value F → F → Value F
  become_real v val = real val

  unfoldable pub become_string : Value F → Bytes → Value F
  become_string v val = string val

  unfoldable pub become_boolean : Value F → Bool → Value F
  become_boolean v val = boolean val

  -- `become_null`, `reset`, `clear`
  unfoldable pub become_null : Value F → Value F
  become_null v = null

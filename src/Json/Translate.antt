-- ===== src/Json/Translate.antt =====
-- support/json.cpp:13-44, 52-58: `deserialize` by the accelerated parser, for which the project is
-- built. The parser is a copy of another library: its result is the document tree that it
-- documents, and `translate` makes the value of it.
use test_assignment.Prelude.{ℕ, Bool, [], ◌∷◌, Bytes, ltb, ◌==◌, if◌then◌else◌}
use test_assignment.Prelude.Int.{ℤ, pos, two_63}
use test_assignment.Prelude.Result.{Result, ok, err, ◌>>=◌, invalid_conversion}
use test_assignment.Json.Value.{
  Value, null, boolean, integer, real, string, object, array, end, stop,
}
use test_assignment.Json.Member.{set_key}
use test_assignment.Json.Element.{push_back}

-- `simdjson::dom::element`; an unsigned number is one that does not fit `int64_t`.
mutual
  pub data Node (F : Type 0) : Type 0 where
    null_node : Node F
    string_node : Bytes → Node F
    bool_node : Bool → Node F
    int64_node : ℤ → Node F
    uint64_node : ℕ → Node F
    double_node : F → Node F
    array_node : Nodes F → Node F
    object_node : Pairs F → Node F

  pub data Nodes (F : Type 0) : Type 0 where
    no_node : Nodes F
    node : Node F → Nodes F → Nodes F

  pub data Pairs (F : Type 0) : Type 0 where
    no_pair : Pairs F
    pair : Bytes → Node F → Pairs F → Pairs F

-- `std::string{it.key_c_str()}`: up to the first 0
unfoldable pub c_str : Bytes → Bytes
c_str [] = []
c_str (c ∷ s) = if c == 0 then [] else c ∷ c_str s

module _ {F : Type 0} where
  -- The loops over an array and over an object get the value made so far.
  unfoldable mutual
    pub translate : Node F → Result (Value F)
    translate null_node = ok null
    translate (string_node s) = ok (string s)
    translate (bool_node b) = ok (boolean b)
    translate (int64_node z) = ok (integer z)
    translate (uint64_node n) =
        if ltb n two_63 then ok (integer (pos n)) else err invalid_conversion
    translate (double_node x) = ok (real x)
    translate (array_node ns) = translate_array ns (array stop)
    translate (object_node ps) = translate_object ps (object end)

    pub translate_array : Nodes F → Value F → Result (Value F)
    translate_array no_node res = ok res
    translate_array (node n ns) res = translate n >>= λ v. translate_array ns (push_back v res)

    pub translate_object : Pairs F → Value F → Result (Value F)
    translate_object no_pair res = ok res
    translate_object (pair k n ps) res =
        translate n >>= λ v. translate_object ps (set_key (c_str k) v res)

  -- `deserialize`, over the parser
  unfoldable pub deserialize : (Bytes → Result (Node F)) → Bytes → Result (Value F)
  unfolding translate translate_array translate_object
  deserialize parse s = parse s >>= λ n. translate n

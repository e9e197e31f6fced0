-- ===== src/Json/Print.antt =====
-- support/json.hpp: `serialize`, with `convert::escape` and `convert::ftoa`.
pub mod Escape
use mathlib.Core.List.{reverse}
use test_assignment.Prelude.{
  ℕ, zero, suc, ◌+◌, ◌-◌, ◌<◌, Bool, true, false, ◌||◌, Option, none, some, List, [], ◌∷◌, ◌++◌,
  Bytes, codes, ltb, leb, ◌==◌, if◌then◌else◌, length,
}
use test_assignment.Prelude.Order.{index_order}
use test_assignment.Prelude.Int.{ℤ, pos}
use test_assignment.Prelude.Result.{Result, ok, err, ◌>>=◌}
use test_assignment.Map.{Map, lookup, last_key}
use test_assignment.Text.Number.{itoa}
use test_assignment.Json.Value.{
  Value, null, boolean, integer, real, string, object, array, Fields, end, field, Items, stop, item,
}
use test_assignment.Json.Real.{LongDouble}
use test_assignment.Json.Print.Escape.{escape}

abbrev pub quote_mark : Bytes
quote_mark = 34 ∷ []

-- the loop of `ftoa` from the last character back to the point
unfoldable pub strip_zeros : Bytes → Bytes
strip_zeros [] = []
strip_zeros (c ∷ s) = if c == 48 then strip_zeros s else c ∷ s

-- `res[res.size() - 1] == '.' || … == ','`
unfoldable pub strip_point : Bytes → Bytes
strip_point [] = []
strip_point (c ∷ s) = if c == 46 || c == 44 then s else c ∷ s

unfoldable pub has : ℕ → Bytes → Bool
has p [] = false
has p (c ∷ s) = c == p || has p s

-- `ftoa`: a text with a point loses the zeros at its end, and then the point.
unfoldable pub strip_fraction : Bytes → Bytes
unfolding strip_zeros strip_point has
strip_fraction s =
    if has 46 s || has 44 s then reverse (strip_point (strip_zeros (reverse s))) else s

-- `prefix` of a level
unfoldable pub prefix : Bytes → ℕ → Bytes
prefix indent zero = []
prefix indent (suc level) = prefix indent level ++ indent

-- `newline`, `indent` and `space`
pub record Style : Type 0 where
  pub newline : Bytes
  pub indent : Bytes
  pub space : Bytes

unfoldable pub style : Bool → Style
style true = record { newline = []; indent = []; space = [] }
style false = record { newline = 10 ∷ []; indent = codes "    "; space = 32 ∷ [] }

-- The loop over an object: `left` is how many entries are still to come after this one.
unfoldable pub print_entries : Style → Bytes → Map Bytes Bytes → Bytes
print_entries st pre [] = []
print_entries st pre ((k, text) ∷ []) =
    pre ++ st.indent ++ quote_mark ++ k ++ quote_mark ++ codes ":" ++ st.space ++ text
print_entries st pre ((k, text) ∷ e ∷ m) =
    pre
    ++ st.indent
    ++ quote_mark
    ++ k
    ++ quote_mark
    ++ codes ":"
    ++ st.space
    ++ text
    ++ codes ","
    ++ st.newline
    ++ print_entries st pre (e ∷ m)

unfoldable pub print_object : Style → Bytes → Map Bytes Bytes → Bytes
unfolding print_entries
print_object st pre [] = codes "{" ++ codes "}"
print_object st pre (e ∷ m) =
    codes "{" ++ st.newline ++ print_entries st pre (e ∷ m) ++ st.newline ++ pre ++ codes "}"

abbrev pub text_at : Option Bytes → Bytes
text_at none = codes "null"
text_at (some text) = text

-- The loop over an array, `i` up to `max_ind`, by the rounds left. `i - 1 < max_ind` always
-- holds there, so that a newline stands behind each element.
unfoldable pub print_elements : Style → Bytes → ℕ → ℕ → ℕ → Map ℕ Bytes → Bytes
print_elements st pre zero i max_ind m = []
print_elements st pre (suc rounds) i max_ind m =
    pre
    ++ st.indent
    ++ text_at (lookup i m)
    ++ (if leb max_ind i then [] else codes ",")
    ++ st.newline
    ++ print_elements st pre rounds (i + 1) max_ind m

unfoldable pub print_array : Style → Bytes → Map ℕ Bytes → Bytes
unfolding print_elements last_key lookup
print_array st pre m = elim (last_key m) [
  | none ↦ codes "[" ++ codes "]"
  | some top ↦
      codes "[" ++ st.newline ++ print_elements st pre (top + 1) 0 top m ++ pre ++ codes "]"
]

module _ (R : LongDouble) where
  -- `serialize_actual(compact, level)`, and the texts of the entries of an object or an array,
  -- which are those of the next level. A name is printed as it is; a text is escaped.
  unfoldable mutual
    pub serialize_actual : Style → ℕ → Value R.F → Result Bytes
    serialize_actual st level null = ok (codes "null")
    serialize_actual st level (integer z) = itoa z 10
    serialize_actual st level (real x) = ok (strip_fraction (R.fixed6 x))
    serialize_actual st level (boolean true) = ok (codes "true")
    serialize_actual st level (boolean false) = ok (codes "false")
    serialize_actual st level (string s) = escape s >>= λ t. ok (quote_mark ++ t ++ quote_mark)
    serialize_actual st level (object fs) =
        field_texts st (suc level) fs >>= λ m. ok (print_object st (prefix st.indent level) m)
    serialize_actual st level (array xs) =
        item_texts st (suc level) xs >>= λ m. ok (print_array st (prefix st.indent level) m)

    pub field_texts : Style → ℕ → Fields R.F → Result (Map Bytes Bytes)
    field_texts st level end = ok []
    field_texts st level (field k v fs) =
        serialize_actual st level v >>= λ t. field_texts st level fs >>= λ m. ok ((k, t) ∷ m)

    pub item_texts : Style → ℕ → Items R.F → Result (Map ℕ Bytes)
    item_texts st level stop = ok []
    item_texts st level (item i v xs) =
        serialize_actual st level v >>= λ t. item_texts st level xs >>= λ m. ok ((i, t) ∷ m)

  unfoldable pub serialize : Bool → Value R.F → Result Bytes
  unfolding serialize_actual field_texts item_texts style
  serialize compact v = serialize_actual (style compact) 0 v

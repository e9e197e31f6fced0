-- ===== src/Tests/Parsing.antt =====
-- The theorems on the reader of tokens at a concrete text.
use test_assignment.Prelude.{true, [], ◌∷◌, Bytes, codes, ◌≡◌, refl}
use test_assignment.Prelude.Int.{ℤ, pos}
use test_assignment.Prelude.Result.{ok, err, ◌>>=◌, unexpected_token}
use test_assignment.Text.Number.{atoi, atoi_loop, with_sign}
use test_assignment.Utf8.{from_utf8, from_utf8_loop, to_utf8, utf8_to_ucs, ucs_to_utf8}
use test_assignment.Json.Value.{
  Value, boolean, integer, object, array, stop, end, is_array, become_array,
}
use test_assignment.Json.Member.{set_key}
use test_assignment.Json.Element.{push_back}
use test_assignment.Json.Print.Escape.{unescape, wunescape, unescape_loop}
use test_assignment.Json.Deserializer.Grammar.{
  Tokens, Stands, IsText, double, number, yes, list, record_of, close, more, last_member,
  more_members,
}
use test_assignment.Json.Deserializer.Reads.{consume_all-Stands, consume_all-behind}
use test_assignment.Json.Token.{
  double_quoted, whole, word_true, open_brace, close_brace, open_bracket, close_bracket, colon,
  comma, kind_of,
}
use test_assignment.Json.Deserializer.{consume_all, consume_token, reset, harvest_result, observe}

abbrev read_real : Bytes → ℤ
read_real tk = pos 0

-- `{"a":[1,],"b":true}`
abbrev text_tokens : Tokens
text_tokens =
    (open_brace, codes "{")
    ∷ (double_quoted, codes "a")
    ∷ (colon, codes ":")
    ∷ (open_bracket, codes "[")
    ∷ (whole, codes "1")
    ∷ (comma, codes ",")
    ∷ (close_bracket, codes "]")
    ∷ (comma, codes ",")
    ∷ (double_quoted, codes "b")
    ∷ (colon, codes ":")
    ∷ (word_true, codes "true")
    ∷ (close_brace, codes "}")
    ∷ []

abbrev text_value : Value ℤ
text_value =
    set_key (codes "b") (boolean true)
      (set_key (codes "a") (push_back (integer (pos 1)) (array stop)) (object end))

a_IsText : IsText double_quoted (codes "a") (codes "a")
unfolding unescape from_utf8 from_utf8_loop to_utf8 utf8_to_ucs ucs_to_utf8 wunescape unescape_loop
a_IsText = double refl

b_IsText : IsText double_quoted (codes "b") (codes "b")
unfolding unescape from_utf8 from_utf8_loop to_utf8 utf8_to_ucs ucs_to_utf8 wunescape unescape_loop
b_IsText = double refl

one_read : atoi (codes "1") 10 ≡ ok (pos 1)
unfolding atoi atoi_loop with_sign
one_read = refl

text_Stands : Stands read_real text_tokens text_value
text_Stands = record_of (
    more_members (codes ":") (codes ",") a_IsText (list (more (codes ",") (number one_read) close))
      (last_member (codes ":") (codes "}") b_IsText (yes (codes "true"))))

consume_all-Stands_example :
    (consume_all read_real text_tokens reset >>= λ d. ok (harvest_result d)) ≡ ok text_value
consume_all-Stands_example = consume_all-Stands read_real text_tokens text_value text_Stands

consume_all-behind_example :
    consume_all read_real
      ((open_brace, codes "{")
        ∷ (double_quoted, codes "a")
        ∷ (colon, codes ":")
        ∷ (open_bracket, codes "[")
        ∷ (whole, codes "1")
        ∷ (comma, codes ",")
        ∷ (close_bracket, codes "]")
        ∷ (comma, codes ",")
        ∷ (double_quoted, codes "b")
        ∷ (colon, codes ":")
        ∷ (word_true, codes "true")
        ∷ (close_brace, codes "}")
        ∷ (comma, codes ",")
        ∷ [])
      reset
    ≡ err unexpected_token
consume_all-behind_example =
    consume_all-behind read_real text_tokens [] text_value comma (codes ",") text_Stands refl

-- a text that ends inside an array is taken for the array
cut_off :
    (observe read_real (codes " [") (codes "[") reset >>= λ d.
    observe read_real (codes " int") (codes "1") d >>= λ d. ok (harvest_result d))
    ≡ ok (push_back (integer (pos 1)) (array stop))
unfolding observe kind_of consume_token reset harvest_result push_back is_array become_array atoi
    atoi_loop with_sign
cut_off = refl

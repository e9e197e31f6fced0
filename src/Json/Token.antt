-- ===== src/Json/Token.antt =====
-- support/json.hpp:1063-1371: the kinds of tokens that the deserializer reads, and what it expects.
use test_assignment.Prelude.{
  ℕ, Bool, true, false, ◌||◌, List, [], ◌∷◌, Bytes, codes, ◌==◌, same, if◌then◌else◌,
}
use test_assignment.Prelude.Result.{Failure, unexpected_token, out_of_range}

-- The texts `tt`, by their names: `word_true` is "tru" and `other` each text that is not listed.
pub data Kind : Type 0 where
  double_quoted single_quoted whole fraction word_null word_true word_false : Kind
  open_brace close_brace open_bracket close_bracket colon comma comment other : Kind

-- `what_next_`. The set `next_list_` is read in the state `listed` only, and so it is a part of it.
pub data Expected : Type 0 where
  any nothing : Expected
  listed : List Kind → Expected

-- the place of a kind in a list of all of them, for `==` on the texts
abbrev pub kind_number : Kind → ℕ
kind_number double_quoted = 0
kind_number single_quoted = 1
kind_number whole = 2
kind_number fraction = 3
kind_number word_null = 4
kind_number word_true = 5
kind_number word_false = 6
kind_number open_brace = 7
kind_number close_brace = 8
kind_number open_bracket = 9
kind_number close_bracket = 10
kind_number colon = 11
kind_number comma = 12
kind_number comment = 13
kind_number other = 14

unfoldable pub in_list : Kind → List Kind → Bool
in_list k [] = false
in_list k (l ∷ ls) = kind_number l == kind_number k || in_list k ls

-- whether the first two of the three conditions on a token let it pass
unfoldable pub expects : Expected → Kind → Bool
unfolding in_list
expects any k = true
expects nothing k = false
expects (listed ls) k = in_list k ls

-- the tokens that begin a value
abbrev pub value_kinds : List Kind
value_kinds =
    double_quoted ∷ single_quoted ∷ whole ∷ fraction ∷ word_null ∷ word_true ∷ word_false
    ∷ open_bracket ∷ open_brace ∷ []

-- with the end of an array before them
abbrev pub element_kinds : List Kind
element_kinds = close_bracket ∷ value_kinds

abbrev pub member_kinds : List Kind
member_kinds = double_quoted ∷ single_quoted ∷ close_brace ∷ []

abbrev pub after_value : List Kind
after_value = close_brace ∷ close_bracket ∷ comma ∷ []

abbrev pub is_comment : Kind → Bool
is_comment k = kind_number k == 13

-- the exception for a token that is not expected: `exp_map.at(tt)` in its message throws for a
-- type that `exp_map` does not list
abbrev pub refusal : Kind → Failure
refusal other = out_of_range
refusal _ = unexpected_token

-- the type behind the mark that the tokenizer sets before it
unfoldable pub kind_of : Bytes → Kind
kind_of t =
    if same t (codes "str")
    then double_quoted
    else if same t (codes "sts")
    then single_quoted
    else if same t (codes "int")
    then whole
    else if same t (codes "fpl")
    then fraction
    else if same t (codes "nul")
    then word_null
    else if same t (codes "tru")
    then word_true
    else if same t (codes "fal")
    then word_false
    else if same t (codes "{")
    then open_brace
    else if same t (codes "}")
    then close_brace
    else if same t (codes "[")
    then open_bracket
    else if same t (codes "]")
    then close_bracket
    else if same t (codes ":")
    then colon
    else if same t (codes ",")
    then comma
    else if same t (codes "//")
    then comment
    else other

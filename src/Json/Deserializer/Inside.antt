-- ===== src/Json/Deserializer/Inside.antt =====
-- support/json.hpp:1063-1371: the tokens inside a list or a record, and those that end it.
use test_assignment.Prelude.{
  ◌+◌, true, false, List, [], ◌∷◌, ◌≡◌, refl, ap, ◌∙◌, arith, Bytes, length, ◌==◌, if◌then◌else◌,
}
use test_assignment.Prelude.Result.{ok}
use test_assignment.Json.Value.{
  Value, null, boolean, integer, real, string, object, array, Fields, is_array, is_object,
}
use test_assignment.Json.Deserializer.Grammar.{Tokens, IsText, double, single}
use test_assignment.Json.Token.{
  Kind, Expected, nothing, listed, double_quoted, single_quoted, close_brace, close_bracket, colon,
  comma, is_comment, expects, in_list, value_kinds, element_kinds, member_kinds,
}
use test_assignment.Json.Deserializer.{
  Item, open_item, merge, collapse_top_down, text_token, close_token, colon_token, comma_token,
  collapse, apply_token, consume_token, consume_all,
}
use test_assignment.Json.Deserializer.Place.{
  Place, root, element, member, state, named, before, under, further, after, settles, Leads,
  consume_one,
}

module _ {F : Type 0} (read_real : Bytes → F) where
  -- what is expected behind the end of a list or a record
  abbrev pub after_end : List (Item F) → Expected
  after_end rest =
      if length rest + 1 == 2 then nothing else listed (close_bracket ∷ close_brace ∷ comma ∷ [])

  closing :
      (k : Kind) (tk : Bytes) (v : Value F) (rest : List (Item F)) (w : Expected)
      → expects w k ≡ true
      → is_comment k ≡ false
      → apply_token read_real k tk (state (open_item v, rest) w)
        ≡ close_token true (state (open_item v, rest) w)
      → consume_token read_real k tk (state (open_item v, rest) w)
        ≡ ok (
            state
              (collapse_top_down (record (open_item v) { closed = true }) rest)
              (after_end rest))
  unfolding close_token
  closing k tk v rest w h c e = consume_one read_real k tk _ _ h refl c e

  after_end_deep :
      (i j : Item F) (b : List (Item F))
      → after_end (i ∷ j ∷ b) ≡ listed (close_bracket ∷ close_brace ∷ comma ∷ [])
  after_end_deep i j b = ground arith

  settles-after_end : (pl : Place F) → settles pl (after_end (under pl ∷ further pl)) ≡ true
  unfolding expects in_list
  settles-after_end root = refl
  settles-after_end (element xs p b) = rw (after_end_deep (open_item (array xs)) p b) refl
  settles-after_end (member n fs p b) =
      rw (after_end_deep (named n 3 true) (open_item (object fs)) (p ∷ b)) refl

  -- the value leaves its item for the place that it stands at
  collapse-place :
      (v : Value F) (pl : Place F)
      → collapse_top_down (record (open_item v) { closed = true }) (under pl ∷ further pl)
        ≡ after pl v
  unfolding collapse_top_down merge is_array is_object
  collapse-place v root = refl
  collapse-place v (element xs p b) = refl
  collapse-place v (member n fs p b) = refl

  -- and the tokens that close it
  place_end :
      (k : Kind) (v : Value F) (tk : Bytes) (pl : Place F) (w : Expected)
      → expects w k ≡ true
      → is_comment k ≡ false
      → apply_token read_real k tk (state (open_item v, under pl ∷ further pl) w)
        ≡ close_token true (state (open_item v, under pl ∷ further pl) w)
      → Leads read_real ((k, tk) ∷ []) (state (open_item v, under pl ∷ further pl) w) pl v
  unfolding consume_all
  place_end k v tk pl w h c e = (
    after_end (under pl ∷ further pl),
    rw (closing k tk v (under pl ∷ further pl) w h c e, collapse-place v pl) refl,
    settles-after_end pl,
  )

  pub list_end :
      (v : Value F) (tk : Bytes) (pl : Place F) (w : Expected)
      → expects w close_bracket ≡ true
      → is_array v ≡ true
      → Leads read_real
          ((close_bracket, tk) ∷ [])
          (state (open_item v, under pl ∷ further pl) w)
          pl
          v
  unfolding apply_token
  list_end v tk pl w h a = place_end close_bracket v tk pl w h refl (rw a refl)

  pub record_end :
      (v : Value F) (tk : Bytes) (pl : Place F) (w : Expected)
      → expects w close_brace ≡ true
      → is_object v ≡ true
      → Leads read_real ((close_brace, tk) ∷ []) (state (open_item v, under pl ∷ further pl) w) pl v
  unfolding apply_token
  record_end v tk pl w h a = place_end close_brace v tk pl w h refl (rw a refl)

  array_not_object : (v : Value F) → is_array v ≡ true → is_object v ≡ false
  unfolding is_array is_object
  array_not_object (array xs) h = refl
  array_not_object null h = cc
  array_not_object (boolean b) h = cc
  array_not_object (integer z) h = cc
  array_not_object (real x) h = cc
  array_not_object (string s) h = cc
  array_not_object (object fs) h = cc

  -- the tokens inside
  pub list_comma :
      (v : Value F) (tk : Bytes) (p : Item F) (b : List (Item F)) (w : Expected)
      → expects w comma ≡ true
      → is_array v ≡ true
      → consume_token read_real comma tk (state (open_item v, p ∷ b) w)
        ≡ ok (state (open_item v, p ∷ b) (listed element_kinds))
  unfolding apply_token comma_token collapse_top_down is_array is_object
  list_comma v tk p b w h k =
      let d = state (open_item v, p ∷ b) w in
      consume_one read_real comma tk d (record d { what_next = listed element_kinds }) h refl refl
        (rw (k, array_not_object v k) refl)

  pub record_comma :
      (v : Value F) (tk : Bytes) (p : Item F) (b : List (Item F)) (w : Expected)
      → expects w comma ≡ true
      → is_object v ≡ true
      → consume_token read_real comma tk (state (open_item v, p ∷ b) w)
        ≡ ok (state (open_item v, p ∷ b) (listed member_kinds))
  unfolding apply_token comma_token collapse_top_down is_array is_object
  record_comma v tk p b w h k =
      let d = state (open_item v, p ∷ b) w in
      consume_one read_real comma tk d (record d { what_next = listed member_kinds }) h refl refl
        (rw k refl)

  record_name :
      (s : Bytes) (fs : Fields F) (p : Item F) (b : List (Item F))
      → collapse (text_token s (state (open_item (object fs), p ∷ b) (listed member_kinds)))
        ≡ state (named s 1 false, open_item (object fs) ∷ p ∷ b) (listed (colon ∷ []))
  unfolding text_token is_array is_object collapse_top_down
  record_name s fs p b = refl

  consume_name :
      {k : Kind} {n s : Bytes} (fs : Fields F) (p : Item F) (b : List (Item F))
      → IsText k n s
      → consume_token read_real k n (state (open_item (object fs), p ∷ b) (listed member_kinds))
        ≡ ok (state (named s 1 false, open_item (object fs) ∷ p ∷ b) (listed (colon ∷ [])))
  unfolding apply_token expects in_list
  consume_name {k} {n} {s} fs p b (double e) =
      let d = state (open_item (object fs), p ∷ b) (listed member_kinds) in
      consume_one read_real double_quoted n d (text_token s d) refl refl refl (rw e refl)
      ∙ ap ok (record_name s fs p b)
  consume_name {k} {n} {s} fs p b (single e) =
      let d = state (open_item (object fs), p ∷ b) (listed member_kinds) in
      consume_one read_real single_quoted n d (text_token s d) refl refl refl (rw e refl)
      ∙ ap ok (record_name s fs p b)

  consume_colon :
      (s tk : Bytes) (fs : Fields F) (p : Item F) (b : List (Item F))
      → consume_token read_real colon tk
          (state (named s 1 false, open_item (object fs) ∷ p ∷ b) (listed (colon ∷ [])))
        ≡ ok (state (before (member s fs p b)) (listed value_kinds))
  unfolding apply_token colon_token expects in_list collapse_top_down
  consume_colon s tk fs p b = consume_one read_real colon tk _ _ refl refl refl refl

  -- a name and its colon
  pub record_key :
      {k : Kind} {n s : Bytes} (tk : Bytes) (fs : Fields F) (p : Item F) (b : List (Item F))
      → IsText k n s
      → (ts : Tokens)
      → consume_all read_real
          ((k, n) ∷ (colon, tk) ∷ ts)
          (state (open_item (object fs), p ∷ b) (listed member_kinds))
        ≡ consume_all read_real ts (state (before (member s fs p b)) (listed value_kinds))
  unfolding consume_all
  record_key {s = s} tk fs p b t ts =
      rw (consume_name fs p b t) (rw (consume_colon s tk fs p b) refl)

-- ===== src/Json/Deserializer/Place.antt =====
-- support/json.hpp:1063-1371: the stack at each place where a value may stand, and what one token
-- does there.
use test_assignment.Prelude.{
  ℕ, Bool, true, false, ◌&&◌, List, [], ◌∷◌, ◌++◌, ◌≡◌, refl, ap, arith, inl, inr, Bytes,
}
use test_assignment.Prelude.Result.{ok, ◌>>=◌, Result-cases}
use test_assignment.Json.Value.{
  Value, null, string, object, array, Fields, Items, end, stop, is_array, is_object, become_array,
  become_object,
}
use test_assignment.Json.Member.{set_key}
use test_assignment.Json.Element.{push_back}
use test_assignment.Json.Deserializer.Grammar.{Tokens, IsText, double, single}
use test_assignment.Json.Token.{
  Kind, Expected, nothing, listed, double_quoted, single_quoted, whole, fraction, word_null,
  word_true, word_false, open_brace, close_brace, open_bracket, close_bracket, comma, is_comment,
  expects, in_list, element_kinds, member_kinds,
}
use test_assignment.Json.Deserializer.{
  Item, Deserializer, open_item, merge, collapse_top_down, scalar, text_token, open_token, collapse,
  apply_token, is_unexpected, consume_token, consume_all,
}

-- The places where a value may stand: the whole text, an element of an array, the value of a
-- member. The last two are never at the bottom of the stack.
pub data Place (F : Type 0) : Type 0 where
  root : Place F
  element : Items F → Item F → List (Item F) → Place F
  member : Bytes → Fields F → Item F → List (Item F) → Place F

module _ {F : Type 0} where
  abbrev pub state : Item F × List (Item F) → Expected → Deserializer F
  state (t, rest) w = record { top = t; below = rest; what_next = w }

  abbrev pub named : Bytes → ℕ → Bool → Item F
  named n phase closed = record { obj = null; name = n; obj_itm_phase = phase; closed = closed }

  -- the stack that waits for the value
  abbrev pub before : Place F → Item F × List (Item F)
  before root = (open_item null, [])
  before (element xs p b) = (open_item (array xs), p ∷ b)
  before (member n fs p b) = (named n 2 false, open_item (object fs) ∷ p ∷ b)

  -- the same, while the value is an object or an array that is open
  abbrev pub under : Place F → Item F
  under root = open_item null
  under (element xs p b) = open_item (array xs)
  under (member n fs p b) = named n 3 true

  abbrev pub further : Place F → List (Item F)
  further root = []
  further (element xs p b) = p ∷ b
  further (member n fs p b) = open_item (object fs) ∷ p ∷ b

  -- the stack that has the value
  abbrev pub after : Place F → Value F → Item F × List (Item F)
  after root v = (record (open_item v) { closed = true }, [])
  after (element xs p b) v = (open_item (push_back v (array xs)), p ∷ b)
  after (member n fs p b) v = (open_item (set_key n v (object fs)), p ∷ b)

  -- what is expected then
  abbrev pub settles : Place F → Expected → Bool
  settles root w = true
  settles (element xs p b) w = expects w comma && expects w close_bracket
  settles (member n fs p b) w = expects w comma && expects w close_brace

abbrev pub ready : Expected → Bool
ready w =
    expects w double_quoted
    && expects w single_quoted
    && expects w whole
    && expects w fraction
    && expects w word_null
    && expects w word_true
    && expects w word_false
    && expects w open_bracket
    && expects w open_brace

module _ {F : Type 0} (read_real : Bytes → F) where
  -- the tokens lead from one state of the place to the other
  abbrev pub Leads : Tokens → Deserializer F → Place F → Value F → Type 0
  Leads ts d pl v =
      (w : Expected) × (consume_all read_real ts d ≡ ok (state (after pl v) w))
      × (settles pl w ≡ true)

  pub consume_all-append :
      (ts us : Tokens) (d : Deserializer F)
      → consume_all read_real (ts ++ us) d
        ≡ (consume_all read_real ts d >>= λ e. consume_all read_real us e)
  unfolding consume_all
  consume_all-append [] us d = refl
  consume_all-append ((k, tk) ∷ ts) us d = elim (Result-cases (consume_token read_real k tk d)) [
    | inl (e, eq) ↦ rw eq (consume_all-append ts us e)
    | inr (f, eq) ↦ rw eq refl
  ]

  -- a token that is expected, on a stack whose top is open
  pub consume_one :
      (k : Kind) (tk : Bytes) (d e : Deserializer F)
      → expects d.what_next k ≡ true
      → d.top.closed ≡ false
      → is_comment k ≡ false
      → apply_token read_real k tk d ≡ ok e
      → consume_token read_real k tk d ≡ ok (collapse e)
  unfolding consume_token is_unexpected
  consume_one k tk d e h o c eq = rw (c, h, eq) (ground (arith, o))

  pub place_scalar :
      (v : Value F) (pl : Place F) (w : Expected) (k : Kind) (tk : Bytes)
      → expects w k ≡ true
      → is_comment k ≡ false
      → apply_token read_real k tk (state (before pl) w) ≡ ok (scalar v (state (before pl) w))
      → Leads ((k, tk) ∷ []) (state (before pl) w) pl v
  unfolding consume_all scalar collapse_top_down merge is_array is_object expects in_list
  place_scalar v root w k tk h c e = (nothing, rw (consume_one k tk _ _ h refl c e), refl)
  place_scalar v (element xs p b) w k tk h c e =
      (listed (comma ∷ close_bracket ∷ []), rw (consume_one k tk _ _ h refl c e), refl)
  place_scalar v (member n fs p b) w k tk h c e = (
    listed (close_brace ∷ close_bracket ∷ comma ∷ []),
    rw (consume_one k tk _ _ h refl c e),
    refl,
  )

  text_scalar :
      (s : Bytes) (pl : Place F) (w : Expected)
      → text_token s (state (before pl) w) ≡ scalar (string s) (state (before pl) w)
  unfolding text_token is_array is_object
  text_scalar s root w = refl
  text_scalar s (element xs p b) w = refl
  text_scalar s (member n fs p b) w = refl

  pub place_text :
      {k : Kind} {tk s : Bytes} (pl : Place F) (w : Expected)
      → IsText k tk s
      → ready w ≡ true
      → Leads ((k, tk) ∷ []) (state (before pl) w) pl (string s)
  unfolding apply_token
  place_text {k} {tk} {s} pl w (double e) r =
      place_scalar (string s) pl w double_quoted tk (ground (arith, r)) refl
        (rw e (ap ok (text_scalar s pl w)))
  place_text {k} {tk} {s} pl w (single e) r =
      place_scalar (string s) pl w single_quoted tk (ground (arith, r)) refl
        (rw e (ap ok (text_scalar s pl w)))

  -- the tokens that open an object or an array
  pub place_list :
      (tk : Bytes) (pl : Place F) (w : Expected)
      → ready w ≡ true
      → consume_token read_real open_bracket tk (state (before pl) w)
        ≡ ok (state (open_item (array stop), under pl ∷ further pl) (listed element_kinds))
  unfolding apply_token open_token collapse_top_down become_array
  place_list tk root w r = consume_one open_bracket tk _ _ (ground (arith, r)) refl refl refl
  place_list tk (element xs p b) w r =
      consume_one open_bracket tk _ _ (ground (arith, r)) refl refl refl
  place_list tk (member n fs p b) w r =
      consume_one open_bracket tk _ _ (ground (arith, r)) refl refl refl

  pub place_record :
      (tk : Bytes) (pl : Place F) (w : Expected)
      → ready w ≡ true
      → consume_token read_real open_brace tk (state (before pl) w)
        ≡ ok (state (open_item (object end), under pl ∷ further pl) (listed member_kinds))
  unfolding apply_token open_token collapse_top_down become_object
  place_record tk root w r = consume_one open_brace tk _ _ (ground (arith, r)) refl refl refl
  place_record tk (element xs p b) w r =
      consume_one open_brace tk _ _ (ground (arith, r)) refl refl refl
  place_record tk (member n fs p b) w r =
      consume_one open_brace tk _ _ (ground (arith, r)) refl refl refl

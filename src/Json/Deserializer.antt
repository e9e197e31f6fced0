-- ===== src/Json/Deserializer.antt =====
-- support/json.hpp:1063-1371: `object_deserializer`, which makes a value of the tokens of a text,
-- for the parser that does not need the accelerated one. A token's line and column are only in
-- the message of an exception.
pub mod Grammar
pub mod Place
pub mod Inside
pub mod Reads
use test_assignment.Prelude.{
  ℕ, ◌+◌, ◌-◌, Bool, true, false, not, ◌&&◌, ◌||◌, List, [], ◌∷◌, Bytes, codes, ◌==◌, length, take,
  same, if◌then◌else◌,
}
use test_assignment.Prelude.Int.{ℤ}
use test_assignment.Prelude.Result.{
  Failure, Result, ok, err, ◌>>=◌, unexpected_token, invalid_token, out_of_range,
}
use test_assignment.Text.Number.{atoi}
use test_assignment.Json.Value.{
  Value, null, boolean, integer, real, string, is_array, is_object, become_array, become_object,
}
use test_assignment.Json.Member.{set_key}
use test_assignment.Json.Element.{push_back}
use test_assignment.Json.Print.Escape.{unescape, unescape_s}
use test_assignment.Json.Token.{
  Kind, double_quoted, single_quoted, whole, fraction, word_null, word_true, word_false, open_brace,
  close_brace, open_bracket, close_bracket, colon, comma, comment, other, Expected, any, nothing,
  listed, kind_number, in_list, expects, value_kinds, element_kinds, member_kinds, after_value,
  is_comment, refusal, kind_of,
}

pub record Item (F : Type 0) : Type 0 where
  pub obj : Value F
  pub name : Bytes
  pub obj_itm_phase : ℕ
  pub closed : Bool

-- The stack is its top and what is below; it is never empty.
pub record Deserializer (F : Type 0) : Type 0 where
  pub top : Item F
  pub below : List (Item F)
  pub what_next : Expected

module _ {F : Type 0} where
  -- what `push()` puts on the stack, with its value
  abbrev pub open_item : Value F → Item F
  open_item v = record { obj = v; name = []; obj_itm_phase = 0; closed = false }

  -- `reset()`
  unfoldable pub reset : Deserializer F
  reset = record { top = open_item null; below = []; what_next = listed value_kinds }

  unfoldable pub harvest_result : Deserializer F → Value F
  harvest_result d = d.top.obj

  -- the three branches of the loop of `collapse_top_down`: what the item below becomes
  unfoldable pub merge : Item F → Item F → Item F
  merge t pre =
      if is_object pre.obj && t.obj_itm_phase == 3
      then record pre { obj = set_key t.name t.obj pre.obj }
      else if is_array pre.obj
      then record pre { obj = push_back t.obj pre.obj }
      else record pre { obj = t.obj }

  -- `if(stack_.size() == 1) { top().closed = true; }`
  abbrev seal : Item F → List (Item F) → Item F
  seal t [] = record t { closed = true }
  seal t (pre ∷ rest) = t

  -- `collapse_top_down`: a round takes one item off the stack.
  unfoldable pub collapse_top_down : Item F → List (Item F) → Item F × List (Item F)
  unfolding merge
  collapse_top_down t [] = (t, [])
  collapse_top_down t (pre ∷ rest) =
      let after = collapse_top_down (seal (merge t pre) rest) rest in
      if t.closed then after else (t, pre ∷ rest)

  abbrev pub collapse : Deserializer F → Deserializer F
  collapse d = let (t, rest) = collapse_top_down d.top d.below in record d { top = t; below = rest }

  -- the three branches that the tokens of a number, of a word and of a text have in common
  unfoldable pub scalar : Value F → Deserializer F → Deserializer F
  scalar v d =
      let t = d.top in
      if is_array t.obj
      then record d {
        top = record t { obj = push_back v t.obj };
        what_next = listed (comma ∷ close_bracket ∷ []);
      }
      else if t.obj_itm_phase == 2
      then record d {
        top = record t { obj = v; obj_itm_phase = t.obj_itm_phase + 1; closed = true };
        what_next = listed after_value;
      }
      else record d { top = record t { obj = v; closed = true }; what_next = nothing }

  -- the branch of a text in an object: a name
  abbrev pub begin_name : Bytes → Deserializer F → Deserializer F
  begin_name n d = record d {
    top = record (open_item null) { name = n; obj_itm_phase = 1 };
    below = d.top ∷ d.below;
    what_next = listed (colon ∷ []);
  }

  unfoldable pub text_token : Bytes → Deserializer F → Deserializer F
  unfolding scalar
  text_token s d =
      if is_array d.top.obj
      then scalar (string s) d
      else if is_object d.top.obj
      then begin_name s d
      else scalar (string s) d

  -- `{` and `[`: the item of a member that waits for its value is closed at once.
  unfoldable pub open_token : Value F → List Kind → Deserializer F → Deserializer F
  open_token v next d =
      let t = d.top in
      record d {
        top = open_item v;
        below =
            (if t.obj_itm_phase == 2
              then record t { obj_itm_phase = t.obj_itm_phase + 1; closed = true }
              else t)
            ∷ d.below;
        what_next = listed next;
      }

  -- `}` and `]`; the flag is `is_object()` or `is_array()` of the top.
  unfoldable pub close_token : Bool → Deserializer F → Result (Deserializer F)
  close_token false d = err invalid_token
  close_token true d = ok (record d {
    top = record d.top { closed = true };
    what_next =
        (if length d.below + 1 == 2
          then nothing
          else listed (close_bracket ∷ close_brace ∷ comma ∷ []));
  })

  unfoldable pub colon_token : Deserializer F → Result (Deserializer F)
  colon_token d =
      if not (d.top.obj_itm_phase == 1)
      then err invalid_token
      else ok (record d {
        top = record d.top { obj_itm_phase = d.top.obj_itm_phase + 1 };
        what_next = listed value_kinds;
      })

  unfoldable pub comma_token : Deserializer F → Result (Deserializer F)
  comma_token d =
      if not (is_object d.top.obj) && not (is_array d.top.obj)
      then err invalid_token
      else if is_object d.top.obj
      then ok (record d { what_next = listed member_kinds })
      else ok (record d { what_next = listed element_kinds })

-- `std::istringstream os(tk); long double ld; os >> ld;` is the library's: `read_real`.
module _ {F : Type 0} (read_real : Bytes → F) where
  -- the chain of branches on `tt`, for a token that passed the test
  unfoldable pub apply_token : Kind → Bytes → Deserializer F → Result (Deserializer F)
  unfolding text_token scalar open_token close_token colon_token comma_token
  apply_token double_quoted tk d = unescape tk >>= λ s. ok (text_token s d)
  apply_token single_quoted tk d = unescape_s tk >>= λ s. ok (text_token s d)
  apply_token whole tk d = atoi tk 10 >>= λ z. ok (scalar (integer z) d)
  apply_token fraction tk d = ok (scalar (real (read_real tk)) d)
  apply_token word_null tk d = ok (scalar null d)
  apply_token word_true tk d = ok (scalar (boolean (length tk == 4)) d)
  apply_token word_false tk d = ok (scalar (boolean (length tk == 4)) d)
  apply_token open_brace tk d = ok (open_token (become_object null) member_kinds d)
  apply_token close_brace tk d = close_token (is_object d.top.obj) d
  apply_token open_bracket tk d = ok (open_token (become_array null) element_kinds d)
  apply_token close_bracket tk d = close_token (is_array d.top.obj) d
  apply_token colon tk d = colon_token d
  apply_token comma tk d = comma_token d
  apply_token comment tk d = ok d
  apply_token other tk d = err invalid_token

  -- the condition under which a token is not expected
  unfoldable pub is_unexpected : Kind → Deserializer F → Bool
  unfolding expects
  is_unexpected k d = not (expects d.what_next k) || (length d.below + 1 == 1 && d.top.closed)

  -- the whole handler of a token
  unfoldable pub consume_token : Kind → Bytes → Deserializer F → Result (Deserializer F)
  unfolding apply_token is_unexpected collapse_top_down
  consume_token k tk d =
      if is_comment k
      then ok d
      else if is_unexpected k d
      then err (refusal k)
      else (apply_token k tk d >>= λ d'. ok (collapse d'))

  -- the loop that the tokenizer runs, one call for each token
  unfoldable pub consume_all : List (Kind × Bytes) → Deserializer F → Result (Deserializer F)
  consume_all [] d = ok d
  consume_all ((k, tk) ∷ ts) d = consume_token k tk d >>= λ d'. consume_all ts d'

  -- `any_value_observer_accept_value`, on the fields `type` and `token`. `substr(1, size - 2)` of a
  -- text with one byte has the length that `size - 2` wraps to: all that there is.
  unfoldable pub observe : Bytes → Bytes → Deserializer F → Result (Deserializer F)
  unfolding consume_token kind_of
  observe [] token d = err out_of_range
  observe (c ∷ t) [] d =
      if same t (codes "spc")
      then ok d
      else if same t (codes "str") || same t (codes "sts")
      then err out_of_range
      else consume_token (kind_of t) [] d
  observe (c ∷ t) (q ∷ s) d =
      if same t (codes "spc")
      then ok d
      else if same t (codes "str") || same t (codes "sts")
      then consume_token (kind_of t) (if length s == 0 then s else take (length s - 1) s) d
      else consume_token (kind_of t) (q ∷ s) d

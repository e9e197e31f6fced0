-- ===== src/Json/Deserializer/Reads.antt =====
-- support/json.hpp:1063-1371: the stack reads each list of tokens that stands for a value.
use test_assignment.Prelude.{
  true, false, ◌∷◌, ◌++◌, ◌≡◌, refl, ◌∙◌, arith, Bytes, &&-left, &&-right,
}
use test_assignment.Prelude.Result.{ok, err, ◌>>=◌}
use test_assignment.Json.Value.{
  Value, integer, object, array, Fields, Items, end, stop, is_array, is_object,
}
use test_assignment.Json.Member.{set_key, at_key}
use test_assignment.Json.Element.{push_back}
use test_assignment.Json.Deserializer.Grammar.{
  Tokens, IsText, Stands, Elements, Members, text, number, fractional, nothing, yes, no, list,
  record_of, remark, close, last, more, close_members, last_member, more_members,
}
use test_assignment.Json.Deserializer.Place.{
  Place, root, element, member, state, before, under, further, after, ready, Leads,
  consume_all-append, place_scalar, place_text, place_list, place_record,
}
use test_assignment.Json.Deserializer.Inside.{
  list_end, record_end, list_comma, record_comma, record_key,
}
use test_assignment.Json.Token.{
  Kind, Expected, listed, whole, fraction, word_null, word_true, word_false, colon, comment,
  expects, in_list, value_kinds, element_kinds, member_kinds, is_comment, refusal,
}
use test_assignment.Json.Deserializer.{
  Deserializer, open_item, apply_token, consume_token, consume_all, reset, harvest_result,
  is_unexpected,
}

module _ {F : Type 0} (read_real : Bytes → F) where
  token_before :
      (k : Kind) (tk : Bytes) (ts : Tokens) (v : Value F) (d e : Deserializer F) (pl : Place F)
      → consume_token read_real k tk d ≡ ok e
      → Leads read_real ts e pl v
      → Leads read_real ((k, tk) ∷ ts) d pl v
  unfolding consume_all
  token_before k tk ts v d e pl q (w, reads, s) = (w, rw q reads, s)

  -- the tokens of a value, and then the rest
  followed :
      (ts us : Tokens) (v : Value F) (d e : Deserializer F) (pl : Place F)
      → consume_all read_real ts d ≡ ok e
      → Leads read_real us e pl v
      → Leads read_real (ts ++ us) d pl v
  followed ts us v d e pl q (w, reads, s) =
      (w, consume_all-append read_real ts us d ∙ rw q reads, s)

  is_array-push_back : (x v : Value F) → is_array (push_back x v) ≡ true
  unfolding is_array push_back
  is_array-push_back x v = refl

  is_object-set_key : (k : Bytes) (x v : Value F) → is_object (set_key k x v) ≡ true
  unfolding is_object set_key at_key
  is_object-set_key k x v = refl

  grown : (x : Value F) (xs : Items F) → (ys : Items F) × (push_back x (array xs) ≡ array ys)
  unfolding push_back
  grown x xs = (_, refl)

  changed :
      (k : Bytes) (x : Value F) (fs : Fields F)
      → (gs : Fields F) × (set_key k x (object fs) ≡ object gs)
  unfolding set_key at_key
  changed k x fs = (_, refl)

  -- the name of a member and its colon, and then its value
  with_name :
      {k : Kind} {n s : Bytes} (tk : Bytes) (ts : Tokens) (v a : Value F) (fs : Fields F)
      (pl : Place F)
      → IsText k n s
      → a ≡ object fs
      → Leads read_real ts
          (state (before (member s fs (under pl) (further pl))) (listed value_kinds))
          pl
          v
      → Leads read_real
          ((k, n) ∷ (colon, tk) ∷ ts)
          (state (open_item a, under pl ∷ further pl) (listed member_kinds))
          pl
          v
  with_name tk ts v a fs pl t q (w, reads, s) =
      (w, rw q (record_key read_real tk fs (under pl) (further pl) t ts ∙ reads), s)

  skip_comment : (tk : Bytes) (d : Deserializer F) → consume_token read_real comment tk d ≡ ok d
  unfolding consume_token
  skip_comment tk d = refl

  mutual
    unfolding apply_token expects in_list is_array is_object

    reads_value :
        {ts : Tokens} {v : Value F}
        → Stands read_real ts v
        → (pl : Place F) (w : Expected) → ready w ≡ true
        → Leads read_real ts (state (before pl) w) pl v
    reads_value (text t) pl w r = place_text read_real pl w t r
    reads_value (number {tk} {z} e) pl w r =
        place_scalar read_real (integer z) pl w whole tk (ground (arith, r)) refl (rw e refl)
    reads_value (fractional tk) pl w r =
        place_scalar read_real _ pl w fraction tk (ground (arith, r)) refl refl
    reads_value (nothing tk) pl w r =
        place_scalar read_real _ pl w word_null tk (ground (arith, r)) refl refl
    reads_value (yes tk) pl w r =
        place_scalar read_real _ pl w word_true tk (ground (arith, r)) refl refl
    reads_value (no tk) pl w r =
        place_scalar read_real _ pl w word_false tk (ground (arith, r)) refl refl
    reads_value (list {tk} es) pl w r =
        token_before _ _ _ _ _ _ pl (place_list read_real tk pl w r) (reads_list es stop refl pl)
    reads_value (record_of {tk} ms) pl w r =
        token_before _ _ _ _ _ _ pl (place_record read_real tk pl w r) (reads_record ms end refl pl)
    reads_value (remark {tk} s) pl w r =
        token_before _ _ _ _ _ _ pl (skip_comment tk _) (reads_value s pl w r)

    reads_list :
        {a v : Value F} {ts : Tokens}
        → Elements read_real a ts v
        → (xs : Items F) → a ≡ array xs
        → (pl : Place F)
        → Leads read_real ts
            (state (open_item a, under pl ∷ further pl) (listed element_kinds))
            pl
            v
    reads_list (close {a} {tk}) xs q pl =
        list_end read_real a tk pl (listed element_kinds) refl (rw q refl)
    reads_list (last {a} {v} {ts} tk s) xs q pl =
        let (w, reads, after_it) =
          reads_value s (element xs (under pl) (further pl)) (listed element_kinds) refl in
        followed ts _ _ (state (open_item a, under pl ∷ further pl) (listed element_kinds))
          (state (open_item (push_back v a), under pl ∷ further pl) w) pl (rw q reads)
          (list_end read_real (push_back v a) tk pl w (&&-right _ _ after_it)
            (is_array-push_back v a))
    reads_list (more {a} {b} {v} {ts} {us} tk s es) xs q pl =
        let (w, reads, after_it) =
          reads_value s (element xs (under pl) (further pl)) (listed element_kinds) refl in
        let (ys, grows) = grown v xs in
        followed ts _ _ (state (open_item a, under pl ∷ further pl) (listed element_kinds))
          (state (open_item (push_back v a), under pl ∷ further pl) w) pl (rw q reads)
          (token_before _ _ _ _ _ _ pl
            (list_comma read_real (push_back v a) tk (under pl) (further pl) w
              (&&-left _ _ after_it) (is_array-push_back v a))
            (reads_list es ys (rw q grows) pl))

    reads_record :
        {a v : Value F} {ts : Tokens}
        → Members read_real a ts v
        → (fs : Fields F) → a ≡ object fs
        → (pl : Place F)
        → Leads read_real ts (state (open_item a, under pl ∷ further pl) (listed member_kinds)) pl v
    reads_record (close_members {a} {tk}) fs q pl =
        record_end read_real a tk pl (listed member_kinds) refl (rw q refl)
    reads_record (last_member {a} {v} {ts} {k} {n} {s} tk tk' t val) fs q pl =
        let at = member s fs (under pl) (further pl) in
        let (w, reads, after_it) = reads_value val at (listed value_kinds) refl in
        with_name tk _ _ a fs pl t q (
          followed ts _ _ (state (before at) (listed value_kinds))
            (state (open_item (set_key s v a), under pl ∷ further pl) w) pl (rw q reads)
            (record_end read_real (set_key s v a) tk' pl w (&&-right _ _ after_it)
              (is_object-set_key s v a)))
    reads_record (more_members {a} {b} {v} {ts} {us} {k} {n} {s} tk tk' t val ms) fs q pl =
        let at = member s fs (under pl) (further pl) in
        let (w, reads, after_it) = reads_value val at (listed value_kinds) refl in
        let (gs, grows) = changed s v fs in
        with_name tk _ _ a fs pl t q (
          followed ts _ _ (state (before at) (listed value_kinds))
            (state (open_item (set_key s v a), under pl ∷ further pl) w) pl (rw q reads)
            (token_before _ _ _ _ _ _ pl
              (record_comma read_real (set_key s v a) tk' (under pl) (further pl) w
                (&&-left _ _ after_it) (is_object-set_key s v a))
              (reads_record ms gs (rw q grows) pl)))

  -- From the start, each list of tokens that stands for a value is read, and the result is that
  -- value.
  pub consume_all-Stands :
      (ts : Tokens) (v : Value F)
      → Stands read_real ts v
      → (consume_all read_real ts reset >>= λ d. ok (harvest_result d)) ≡ ok v
  unfolding reset harvest_result expects in_list
  consume_all-Stands ts v s =
      let (w, reads, _) = reads_value s root (listed value_kinds) refl in rw reads refl

  refused :
      (k : Kind) (tk : Bytes) (us : Tokens) (v : Value F) (w : Expected)
      → is_comment k ≡ false
      → consume_all read_real ((k, tk) ∷ us) (state (after root v) w) ≡ err (refusal k)
  unfolding consume_all consume_token is_unexpected
  refused k tk us v w c = rw c (ground arith)

  -- Behind the tokens of a value, each token but a comment is refused, whatever comes after it.
  pub consume_all-behind :
      (ts us : Tokens) (v : Value F) (k : Kind) (tk : Bytes)
      → Stands read_real ts v
      → is_comment k ≡ false
      → consume_all read_real (ts ++ ((k, tk) ∷ us)) reset ≡ err (refusal k)
  unfolding reset expects in_list
  consume_all-behind ts us v k tk s c =
      let (w, reads, _) = reads_value s root (listed value_kinds) refl in
      consume_all-append read_real ts ((k, tk) ∷ us) reset ∙ rw reads (refused k tk us v w c)

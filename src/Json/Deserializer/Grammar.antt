-- ===== src/Json/Deserializer/Grammar.antt =====
-- The lists of tokens that stand for a value, by rules of their own: what support/json.hpp:1063-1371
-- reads, a comma before the end of an object or an array included.
use test_assignment.Prelude.{List, [], ◌∷◌, ◌++◌, ◌≡◌, Bytes, ◌==◌, length}
use test_assignment.Prelude.Int.{ℤ}
use test_assignment.Prelude.Result.{ok}
use test_assignment.Text.Number.{atoi}
use test_assignment.Json.Value.{
  Value, null, boolean, integer, real, string, object, array, end, stop,
}
use test_assignment.Json.Member.{set_key}
use test_assignment.Json.Element.{push_back}
use test_assignment.Json.Print.Escape.{unescape, unescape_s}
use test_assignment.Json.Token.{
  Kind, double_quoted, single_quoted, whole, fraction, word_null, word_true, word_false, open_brace,
  close_brace, open_bracket, close_bracket, colon, comma, comment,
}

abbrev pub Tokens : Type 0
Tokens = List (Kind × Bytes)

-- a token that is a text, and the text
pub data IsText : Kind → Bytes → Bytes → Type 0 where
  double : {tk s : Bytes} → unescape tk ≡ ok s → IsText double_quoted tk s
  single : {tk s : Bytes} → unescape_s tk ≡ ok s → IsText single_quoted tk s

module _ {F : Type 0} (read_real : Bytes → F) where
  mutual
    pub data Stands : Tokens → Value F → Type 0 where
      text : {k : Kind} {tk s : Bytes} → IsText k tk s → Stands ((k, tk) ∷ []) (string s)
      number : {tk : Bytes} {z : ℤ} → atoi tk 10 ≡ ok z → Stands ((whole, tk) ∷ []) (integer z)
      fractional : (tk : Bytes) → Stands ((fraction, tk) ∷ []) (real (read_real tk))
      nothing : (tk : Bytes) → Stands ((word_null, tk) ∷ []) null
      yes : (tk : Bytes) → Stands ((word_true, tk) ∷ []) (boolean (length tk == 4))
      no : (tk : Bytes) → Stands ((word_false, tk) ∷ []) (boolean (length tk == 4))
      list :
          {tk : Bytes} {ts : Tokens} {v : Value F}
          → Elements (array stop) ts v
          → Stands ((open_bracket, tk) ∷ ts) v
      record_of :
          {tk : Bytes} {ts : Tokens} {v : Value F}
          → Members (object end) ts v
          → Stands ((open_brace, tk) ∷ ts) v
      remark :
          {tk : Bytes} {ts : Tokens} {v : Value F} → Stands ts v → Stands ((comment, tk) ∷ ts) v

    -- what stands behind `[`, or behind a comma, turns the array read so far into the last one
    pub data Elements : Value F → Tokens → Value F → Type 0 where
      close : {a : Value F} {tk : Bytes} → Elements a ((close_bracket, tk) ∷ []) a
      last :
          {a v : Value F} {ts : Tokens} (tk : Bytes)
          → Stands ts v
          → Elements a (ts ++ ((close_bracket, tk) ∷ [])) (push_back v a)
      more :
          {a b v : Value F} {ts us : Tokens} (tk : Bytes)
          → Stands ts v
          → Elements (push_back v a) us b
          → Elements a (ts ++ ((comma, tk) ∷ us)) b

    pub data Members : Value F → Tokens → Value F → Type 0 where
      close_members : {a : Value F} {tk : Bytes} → Members a ((close_brace, tk) ∷ []) a
      last_member :
          {a v : Value F} {ts : Tokens} {k : Kind} {n s : Bytes} (tk tk' : Bytes)
          → IsText k n s
          → Stands ts v
          → Members a ((k, n) ∷ (colon, tk) ∷ (ts ++ ((close_brace, tk') ∷ []))) (set_key s v a)
      more_members :
          {a b v : Value F} {ts us : Tokens} {k : Kind} {n s : Bytes} (tk tk' : Bytes)
          → IsText k n s
          → Stands ts v
          → Members (set_key s v a) us b
          → Members a ((k, n) ∷ (colon, tk) ∷ (ts ++ ((comma, tk') ∷ us))) b

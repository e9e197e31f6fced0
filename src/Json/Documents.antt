-- ===== src/Json/Documents.antt =====
-- What the JSON parser that support/json.cpp calls is documented to read: the grammar of RFC 8259,
-- for an object whose members are `true` or `false`, under names that need no escape.
use test_assignment.Prelude.{
  ℕ, Bool, true, false, ◌&&◌, ◌||◌, not, [], ◌∷◌, ◌++◌, Bytes, ◌≡◌, leb, ◌==◌, all,
}
use test_assignment.Prelude.Result.{Result, ok}
use test_assignment.Json.Translate.{Node, bool_node, object_node, Pairs, no_pair, pair}

-- blank space: a space, a line feed, a carriage return, a tab
abbrev pub is_blank : ℕ → Bool
is_blank c = c == 32 || c == 10 || c == 13 || c == 9

-- a printed character of ASCII that is no quotation mark and no backslash
abbrev pub is_plain : ℕ → Bool
is_plain c = leb 32 c && leb c 126 && not (c == 34) && not (c == 92)

-- Where the text of a document has been cut: before the object, behind its brace, behind a comma,
-- behind a name, behind its colon, behind a member, and behind the object.
pub data Place : Type 0 where
  before first another after behind : Place
  colon value : Bytes → Place

-- What the rest of a text holds that was cut there: the members that are still to come.
pub data Reads {F : Type 0} : Place → Bytes → Pairs F → Type 0 where
  blank :
      {p : Place} {s : Bytes} {ps : Pairs F} (c : ℕ)
      → is_blank c ≡ true
      → Reads p s ps
      → Reads p (c ∷ s) ps
  opened : {s : Bytes} {ps : Pairs F} → Reads first s ps → Reads before (123 ∷ s) ps
  first_name :
      {s : Bytes} {ps : Pairs F} (k : Bytes)
      → all is_plain k ≡ true
      → Reads (colon k) s ps
      → Reads first (34 ∷ k ++ 34 ∷ s) ps
  next_name :
      {s : Bytes} {ps : Pairs F} (k : Bytes)
      → all is_plain k ≡ true
      → Reads (colon k) s ps
      → Reads another (34 ∷ k ++ 34 ∷ s) ps
  coloned : {k s : Bytes} {ps : Pairs F} → Reads (value k) s ps → Reads (colon k) (58 ∷ s) ps
  true_read :
      {k s : Bytes} {ps : Pairs F}
      → Reads after s ps
      → Reads (value k) (116 ∷ 114 ∷ 117 ∷ 101 ∷ s) (pair k (bool_node true) ps)
  false_read :
      {k s : Bytes} {ps : Pairs F}
      → Reads after s ps
      → Reads (value k) (102 ∷ 97 ∷ 108 ∷ 115 ∷ 101 ∷ s) (pair k (bool_node false) ps)
  comma : {s : Bytes} {ps : Pairs F} → Reads another s ps → Reads after (44 ∷ s) ps
  closed : {s : Bytes} → Reads behind s no_pair → Reads after (125 ∷ s) no_pair
  closed_empty : {s : Bytes} → Reads behind s no_pair → Reads first (125 ∷ s) no_pair
  ended : Reads behind [] no_pair

-- The parser reads what the grammar says.
abbrev pub ReadsDocuments : {F : Type 0} → (Bytes → Result (Node F)) → Type 0
ReadsDocuments {F} parse =
    (text : Bytes) (ps : Pairs F) → Reads before text ps → parse text ≡ ok (object_node ps)

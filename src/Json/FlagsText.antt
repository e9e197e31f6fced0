-- ===== src/Json/FlagsText.antt =====
-- support/json.hpp and support/json.cpp: an object whose entries are all `true` or `false`, printed
-- and read back.
use test_assignment.Prelude.{ℕ, Bool, true, false, [], ◌∷◌, ◌++◌, Bytes, ◌≡◌, refl, sym, ap, all}
use mathlib.Core.Path.{subst}
use test_assignment.Prelude.Order.{bytes_order}
use test_assignment.Prelude.Result.{Result, ok}
use test_assignment.Map.{Map}
use test_assignment.Map.Sorted.{IsSorted}
use test_assignment.Json.Real.{LongDouble}
use test_assignment.Json.Value.{of_fields}
use test_assignment.Json.Print.{
  Style, style, print_entries, print_object, serialize, serialize_actual, field_texts, prefix,
}
use test_assignment.Json.Translate.{Node, bool_node, Pairs, pair, translate, deserialize}
use test_assignment.Json.Documents.{
  is_plain, Place, before, first, another, after, colon, value, Reads, blank, opened, first_name,
  next_name, coloned, true_read, false_read, comma, closed, closed_empty, ended, ReadsDocuments,
}
use test_assignment.Json.Flags.{values, pairs, word, texts, HasPlainNames, flags, translate-pairs}

module _ (R : LongDouble) where
  field_texts-flags :
      (st : Style) (level : ℕ) (l : Map Bytes Bool)
      → field_texts R st level (of_fields (values l)) ≡ ok (texts l)
  unfolding field_texts serialize_actual
  field_texts-flags st level [] = refl
  field_texts-flags st level ((k, true) ∷ l) = rw (field_texts-flags st level l) refl
  field_texts-flags st level ((k, false) ∷ l) = rw (field_texts-flags st level l) refl

  serialize-flags :
      (l : Map Bytes Bool)
      → serialize R false (flags l) ≡ ok (print_object (style false) [] (texts l))
  unfolding serialize serialize_actual prefix
  serialize-flags l = rw (field_texts-flags (style false) 1 l) refl

-- the parts of a member in a row, of the last one and of one with a comma behind it
last_row :
    (k t tail : Bytes)
    → (k ++ 34 ∷ [] ++ 58 ∷ [] ++ 32 ∷ [] ++ t) ++ tail ≡ k ++ (34 ∷ 58 ∷ 32 ∷ (t ++ tail))
last_row [] t tail = refl
last_row (c ∷ k) t tail = ap (λ s. c ∷ s) (last_row k t tail)

word_row :
    (t rest tail : Bytes)
    → (t ++ 44 ∷ [] ++ 10 ∷ [] ++ rest) ++ tail ≡ t ++ (44 ∷ 10 ∷ (rest ++ tail))
word_row [] rest tail = refl
word_row (c ∷ t) rest tail = ap (λ s. c ∷ s) (word_row t rest tail)

row :
    (k t rest tail : Bytes)
    → (k ++ 34 ∷ [] ++ 58 ∷ [] ++ 32 ∷ [] ++ t ++ 44 ∷ [] ++ 10 ∷ [] ++ rest) ++ tail
      ≡ k ++ (34 ∷ 58 ∷ 32 ∷ (t ++ (44 ∷ 10 ∷ (rest ++ tail))))
row [] t rest tail = ap (λ s. 34 ∷ 58 ∷ 32 ∷ s) (word_row t rest tail)
row (c ∷ k) t rest tail = ap (λ s. c ∷ s) (row k t rest tail)

end_row : (s : Bytes) → s ++ 10 ∷ [] ++ [] ++ 125 ∷ [] ≡ s ++ (10 ∷ 125 ∷ [])
end_row [] = refl
end_row (c ∷ s) = ap (λ r. c ∷ r) (end_row s)

abbrev name_place : Bool → Place
name_place true = first
name_place false = another

module _ {F : Type 0} where
  named :
      (u : Bool) {s : Bytes} {ps : Pairs F} (k : Bytes)
      → all is_plain k ≡ true
      → Reads (colon k) s ps
      → Reads (name_place u) (34 ∷ (k ++ (34 ∷ s))) ps
  named true k h r = first_name k h r
  named false k h r = next_name k h r

  word-Reads :
      (b : Bool) {k s : Bytes} {ps : Pairs F}
      → Reads after s ps
      → Reads (value k) (word b ++ s) (pair k (bool_node b) ps)
  word-Reads true r = true_read r
  word-Reads false r = false_read r

  -- The four spaces, the name, the colon, the space and the word of a member.
  member-Reads :
      (u b : Bool) {s : Bytes} {ps : Pairs F} (k : Bytes)
      → all is_plain k ≡ true
      → Reads after s ps
      → Reads
          (name_place u)
          (32 ∷ 32 ∷ 32 ∷ 32 ∷ 34 ∷ (k ++ (34 ∷ 58 ∷ 32 ∷ (word b ++ s))))
          (pair k (bool_node b) ps)
  member-Reads u b k h r =
      let spaced = blank 32 refl (word-Reads b r) in
      blank 32 refl (blank 32 refl (blank 32 refl (blank 32 refl (named u k h (coloned spaced)))))

  entries-Reads :
      (u : Bool) (k : Bytes) (b : Bool) (l : Map Bytes Bool)
      → HasPlainNames ((k, b) ∷ l)
      → Reads {F = F}
          (name_place u)
          (print_entries (style false) [] (texts ((k, b) ∷ l)) ++ 10 ∷ 125 ∷ [])
          (pairs ((k, b) ∷ l))
  unfolding print_entries style
  entries-Reads u k b [] (h, p) =
      subst (λ s. Reads {F = F} (name_place u) (32 ∷ 32 ∷ 32 ∷ 32 ∷ 34 ∷ s) (pairs ((k, b) ∷ [])))
        (sym (last_row k (word b) (10 ∷ 125 ∷ [])))
        (member-Reads u b k h (blank 10 refl (closed ended)))
  entries-Reads u k b ((j, c) ∷ l) (h, p) =
      subst
        (λ s.
          Reads {F = F} (name_place u) (32 ∷ 32 ∷ 32 ∷ 32 ∷ 34 ∷ s) (pairs ((k, b) ∷ (j, c) ∷ l)))
        (sym (row k (word b) (print_entries (style false) [] (texts ((j, c) ∷ l))) (10 ∷ 125 ∷ [])))
        (member-Reads u b k h (comma (blank 10 refl (entries-Reads false j c l p))))

  -- What the serializer prints is a document of the grammar.
  object-Reads :
      (l : Map Bytes Bool)
      → HasPlainNames l
      → Reads {F = F} before (print_object (style false) [] (texts l)) (pairs l)
  unfolding print_object style
  object-Reads [] p = opened (closed_empty ended)
  object-Reads ((k, b) ∷ l) p =
      subst (λ s. Reads {F = F} before (123 ∷ 10 ∷ s) (pairs ((k, b) ∷ l)))
        (sym (end_row (print_entries (style false) [] (texts ((k, b) ∷ l)))))
        (opened (blank 10 refl (entries-Reads true k b l p)))

-- An object whose entries are all `true` or `false`, with plain names, is read back from its text
-- by a parser that reads what the grammar says.
pub deserialize-serialize :
    (R : LongDouble) (parse : Bytes → Result (Node R.F)) (l : Map Bytes Bool) (text : Bytes)
    → ReadsDocuments parse
    → HasPlainNames l
    → IsSorted l
    → serialize R false (flags l) ≡ ok text
    → deserialize parse text ≡ ok (flags l)
unfolding deserialize translate
deserialize-serialize R parse l text reads p s h =
    let printed : print_object (style false) [] (texts l) ≡ text = cc (serialize-flags R l, h) in
    let parsed =
      reads text (pairs l)
        (subst (λ t. Reads {F = R.F} before t (pairs l)) printed (object-Reads l p)) in
    rw parsed (translate-pairs [] l p s)

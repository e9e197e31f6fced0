-- ===== src/Json/Flags.antt =====
-- Objects whose entries are all `true` or `false`, as support/json.hpp prints them and as
-- support/json.cpp reads them.
use test_assignment.Prelude.{
  Bool, true, false, [], ◌∷◌, ◌++◌, Bytes, codes, ◌≡◌, refl, sym, ap, all, arith, Ordering, ◌∙◌,
  append_assoc, append-nil,
}
use mathlib.Core.Path.{subst}
use test_assignment.Prelude.Order.{Order, bytes_order}
use test_assignment.Prelude.Result.{ok}
use test_assignment.Map.{Map, insert}
use test_assignment.Map.Sorted.{IsAbove, IsSorted}
use test_assignment.Json.Value.{Value, boolean, object, of_fields, fields-of_fields}
use test_assignment.Json.Member.{set_key, at_key, own_fields}
use test_assignment.Json.Translate.{
  bool_node, Pairs, no_pair, pair, c_str, translate, translate_object,
}
use test_assignment.Json.Documents.{is_plain}

-- the entries as values, as the parser's pairs, and as texts
abbrev pub values : {F : Type 0} → Map Bytes Bool → Map Bytes (Value F)
values [] = []
values ((k, b) ∷ l) = (k, boolean b) ∷ values l

abbrev pub pairs : {F : Type 0} → Map Bytes Bool → Pairs F
pairs [] = no_pair
pairs ((k, b) ∷ l) = pair k (bool_node b) (pairs l)

abbrev pub word : Bool → Bytes
word true = codes "true"
word false = codes "false"

abbrev pub texts : Map Bytes Bool → Map Bytes Bytes
texts [] = []
texts ((k, b) ∷ l) = (k, word b) ∷ texts l

-- The names need no escape.
abbrev pub HasPlainNames : Map Bytes Bool → Type 0
HasPlainNames [] = Unit
HasPlainNames ((k, b) ∷ l) = (all is_plain k ≡ true) × HasPlainNames l

abbrev pub flags : {F : Type 0} → Map Bytes Bool → Value F
flags l = object (of_fields (values l))

module _ {F : Type 0} where
  pub insert-values :
      (k : Bytes) (b : Bool) (l : Map Bytes Bool)
      → insert {V = Value F} k (boolean b) (values l) ≡ values (insert k b l)
  unfolding insert
  insert-values k b [] = refl
  insert-values k b ((j, c) ∷ l) = ground (arith, insert-values k b l)

after_of :
    {K : Type 0} ⦃o : Order K⦄ (j k : K)
    → o.cmp j k ≡ Ordering.lt
    → (x : Ordering) → o.cmp k j ≡ x
    → x ≡ Ordering.gt
after_of ⦃o⦄ j k h Ordering.lt e = cc (o.chain j k j h e, o.self j)
after_of ⦃o⦄ j k h Ordering.eq e = cc (h, ap (o.cmp j) (o.eq_of k j e), o.self j)
after_of j k h Ordering.gt e = refl

module _ {K : Type 0} {V : Type 0} ⦃o : Order K⦄ where
  IsAbove-append :
      (j : K) (m : Map K V) (k : K) (v : V) (r : Map K V)
      → IsAbove j (m ++ (k, v) ∷ r)
      → o.cmp j k ≡ Ordering.lt
  IsAbove-append j [] k v r h = h.0
  IsAbove-append j ((i, w) ∷ m) k v r h = IsAbove-append j m k v r h.1

  -- What is above all others is put at the end.
  insert-above :
      (k : K) (v : V) (m r : Map K V) → IsSorted (m ++ (k, v) ∷ r) → insert k v m ≡ m ++ (k, v) ∷ []
  unfolding insert
  insert-above k v [] r s = refl
  insert-above k v ((j, w) ∷ m) r s =
      let e = after_of j k (IsAbove-append j m k v r s.0) (o.cmp k j) refl in
      rw (e, insert) (ap (λ t. (j, w) ∷ t) (insert-above k v m r s.1))

plain-c_str : (k : Bytes) → all is_plain k ≡ true → c_str k ≡ k
unfolding c_str
plain-c_str [] h = refl
plain-c_str (c ∷ k) h = ground (arith, plain-c_str k)

module _ {F : Type 0} where
  pub set_key-flags :
      (k : Bytes) (b : Bool) (l : Map Bytes Bool)
      → set_key {F = F} k (boolean b) (flags l) ≡ flags (insert k b l)
  unfolding set_key at_key own_fields
  set_key-flags k b l = rw fields-of_fields (ap (λ m. object (of_fields m)) (insert-values k b l))

  -- What the parser's pairs are made into, where their names ascend.
  pub translate-pairs :
      (m r : Map Bytes Bool)
      → HasPlainNames r
      → IsSorted (m ++ r)
      → translate_object (pairs r) (flags {F = F} m) ≡ ok (flags (m ++ r))
  unfolding translate translate_object
  translate-pairs m [] p s = ap (λ l. ok (flags l)) (sym (append-nil m))
  translate-pairs m ((k, b) ∷ r) (pk, p) s =
      ap (λ i. translate_object (pairs r) (set_key i (boolean b) (flags m))) (plain-c_str k pk)
      ∙ ap (translate_object (pairs r)) (set_key-flags k b m ∙ ap flags (insert-above k b m r s))
      ∙ translate-pairs (m ++ (k, b) ∷ []) r p
          (subst IsSorted (sym (append_assoc m ((k, b) ∷ []) r)) s)
      ∙ ap (λ l. ok (flags l)) (append_assoc m ((k, b) ∷ []) r)

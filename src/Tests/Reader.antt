-- ===== src/Tests/Reader.antt =====
-- A parser that reads the documents of Json.Documents, for the tests: it stands for the one that
-- the program gets from another library.
use test_assignment.Prelude.{
  ℕ, Bool, true, false, [], ◌∷◌, ◌++◌, Bytes, codes, ◌≡◌, refl, sym, all, arith, ◌==◌,
  if◌then◌else◌, append_assoc, append-nil,
}
use mathlib.Core.Path.{subst}
use test_assignment.Prelude.Int.{ℤ}
use test_assignment.Prelude.Result.{Result, ok, err, ◌>>=◌, io_error}
use test_assignment.Json.Translate.{Node, bool_node, object_node, Pairs, no_pair, pair}
use test_assignment.Json.Documents.{
  is_blank, is_plain, Place, before, first, another, after, behind, colon, value, Reads, blank,
  opened, first_name, next_name, coloned, true_read, false_read, comma, closed, closed_empty, ended,
  ReadsDocuments,
}

-- a place between the parts of a document, in a name, or in a word of which the rest is still to come
data Spot : Type 0 where
  at_place : Place → Spot
  in_name : Bytes → Spot
  in_word : Bytes → Bool → Bytes → Spot

abbrev expect : ℕ → Spot → Result Spot → ℕ → Result Spot
expect d p other c = if c == d then ok p else other

abbrev refuse : Result Spot
refuse = err io_error

abbrev move : Spot → ℕ → Result Spot
move (at_place before) c = expect 123 (at_place first) refuse c
move (at_place first) c = expect 34 (in_name []) (expect 125 (at_place behind) refuse c) c
move (at_place another) c = expect 34 (in_name []) refuse c
move (at_place (colon k)) c = expect 58 (at_place (value k)) refuse c
move (at_place (value k)) c =
    expect 116 (in_word k true (codes "rue")) (expect 102 (in_word k false (codes "alse")) refuse c)
      c
move (at_place after) c = expect 44 (at_place another) (expect 125 (at_place behind) refuse c) c
move (at_place behind) c = refuse
move (in_name k) c = if c == 34 then ok (at_place (colon k)) else ok (in_name (k ++ c ∷ []))
move (in_word k b []) c = refuse
move (in_word k b (d ∷ [])) c = expect d (at_place after) refuse c
move (in_word k b (d ∷ e ∷ w)) c = expect d (in_word k b (e ∷ w)) refuse c

abbrev next : Spot → ℕ → Result Spot
next (at_place p) c = if is_blank c then ok (at_place p) else move (at_place p) c
next p c = move p c

-- a member is made at the last character of its word
abbrev made : Spot → Pairs ℤ → Pairs ℤ
made (in_word k b (d ∷ [])) ps = pair k (bool_node b) ps
made p ps = ps

unfoldable scan : Spot → Bytes → Result (Pairs ℤ)
scan (at_place behind) [] = ok no_pair
scan p [] = err io_error
scan p (c ∷ s) = next p c >>= λ q. scan q s >>= λ ps. ok (made p ps)

pub reader : Bytes → Result (Node ℤ)
reader text = scan (at_place before) text >>= λ ps. ok (object_node ps)

scan-name :
    (acc k s : Bytes) (ps : Pairs ℤ)
    → all is_plain k ≡ true
    → scan (at_place (colon (acc ++ k))) s ≡ ok ps
    → scan (in_name acc) (k ++ (34 ∷ s)) ≡ ok ps
unfolding scan
scan-name acc [] s ps h r =
    rw (subst (λ k. scan (at_place (colon k)) s ≡ ok ps) (append-nil acc) r) refl
scan-name acc (c ∷ k) s ps h r =
    let other : (c == 34) ≡ false = ground arith in
    let tail : all is_plain k ≡ true = ground arith in
    let there =
      subst (λ n. scan (at_place (colon n)) s ≡ ok ps) (sym (append_assoc acc (c ∷ []) k)) r in
    rw (other, scan-name (acc ++ c ∷ []) k s ps tail there) refl

scan-Reads : {p : Place} {s : Bytes} {ps : Pairs ℤ} → Reads p s ps → scan (at_place p) s ≡ ok ps
unfolding scan
scan-Reads (blank c h r) = rw (h, scan-Reads r) refl
scan-Reads (opened r) = rw (scan-Reads r) refl
scan-Reads (first_name {s} {ps} k h r) = rw (scan-name [] k s ps h (scan-Reads r)) refl
scan-Reads (next_name {s} {ps} k h r) = rw (scan-name [] k s ps h (scan-Reads r)) refl
scan-Reads (coloned r) = rw (scan-Reads r) refl
scan-Reads (true_read r) = rw (scan-Reads r) refl
scan-Reads (false_read r) = rw (scan-Reads r) refl
scan-Reads (comma r) = rw (scan-Reads r) refl
scan-Reads (closed r) = rw (scan-Reads r) refl
scan-Reads (closed_empty r) = rw (scan-Reads r) refl
scan-Reads ended = refl

pub reader-ReadsDocuments : ReadsDocuments reader
unfolding reader
reader-ReadsDocuments text ps r = rw (scan-Reads r) refl

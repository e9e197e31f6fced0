-- ===== src/Disk/Path.antt =====
-- support/file_util.cpp: `extract_file_dir`, the part of a path up to its last component, with the
-- separator of Windows.
use test_assignment.Prelude.{
  Bool, true, false, ◌||◌, not, List, [], ◌∷◌, ◌++◌, Bytes, ◌≡◌, refl, ap, ◌∙◌, if◌then◌else◌, none,
}
use test_assignment.Text.Split.{str_tok, str_tok_loop, cut}

abbrev pub separator : Bytes
separator = 92 ∷ []

abbrev pub is_empty : Bytes → Bool
is_empty [] = true
is_empty (c ∷ s) = false

-- the loop that erases the empty tokens at the end
abbrev pub put_before : Bytes → List Bytes → List Bytes
put_before t [] = if is_empty t then [] else t ∷ []
put_before t (u ∷ us) = t ∷ u ∷ us

unfoldable pub without_empty_end : List Bytes → List Bytes
without_empty_end [] = []
without_empty_end (t ∷ ts) = put_before t (without_empty_end ts)

-- the loop over all tokens but the last, from the first one on or behind it
unfoldable pub directories : Bool → List Bytes → Bytes
directories first [] = []
directories first (t ∷ []) = []
directories first (t ∷ u ∷ ts) =
    (if first || not (is_empty t) then t ++ separator else []) ++ directories false (u ∷ ts)

unfoldable pub extract_file_dir : Bytes → Bytes
extract_file_dir path = directories true (without_empty_end (str_tok path separator))

plain_tokens : (name : Bytes) → cut name separator ≡ none → str_tok name separator ≡ name ∷ []
unfolding str_tok str_tok_loop
plain_tokens name e = rw (e, str_tok, str_tok_loop) refl

one_token : (name : Bytes) → directories true (without_empty_end (name ∷ [])) ≡ []
unfolding directories without_empty_end
one_token [] = refl
one_token (c ∷ s) = refl

-- A name without a separator has no directory.
pub extract_file_dir-plain : (name : Bytes) → cut name separator ≡ none → extract_file_dir name ≡ []
unfolding extract_file_dir
extract_file_dir-plain name e =
    ap (λ ts. directories true (without_empty_end ts)) (plain_tokens name e) ∙ one_token name

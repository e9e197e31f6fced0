-- ===== src/Text/Split.antt =====
-- support/str_util.hpp: `str_tok`, `unquote`, `string_starts_from`, `replace_substring`.
use test_assignment.Prelude.{
  ℕ, zero, suc, ◌-◌, ◌+◌, Bool, true, false, ◌&&◌, Option, none, some, List, [], ◌∷◌, ◌++◌, Bytes,
  ◌==◌, same, leb, if◌then◌else◌, length, take, drop,
}

-- `str.size() >= from.size() && str.substr(0, from.size()) == from`
unfoldable pub string_starts_from : Bytes → Bytes → Bool
string_starts_from s [] = true
string_starts_from [] (b ∷ from) = false
string_starts_from (a ∷ s) (b ∷ from) = a == b && string_starts_from s from

-- `s.find(what)`: what stands before the first occurrence, and what stands after it
unfoldable pub cut : Bytes → Bytes → Option (Bytes × Bytes)
unfolding string_starts_from
cut [] sep = if string_starts_from [] sep then some ([], []) else none
cut (c ∷ s) sep =
    let rest = cut s sep in
    if string_starts_from (c ∷ s) sep
    then some ([], drop (length sep) (c ∷ s))
    else elim rest [ none ↦ none | some (before, after) ↦ some (c ∷ before, after) ]

-- `while(begin_pos <= str.size())` with `separator_entire_str`. Every round passes a separator, so
-- that one round more than there are characters is enough unless the separator is empty.
unfoldable pub str_tok_loop : ℕ → Bytes → Bytes → List Bytes
unfolding cut
str_tok_loop zero s sep = []
str_tok_loop (suc fuel) s sep = elim (cut s sep) [
  | none ↦ s ∷ []
  | some (before, after) ↦ before ∷ str_tok_loop fuel after sep
]

unfoldable pub str_tok : Bytes → Bytes → List Bytes
unfolding str_tok_loop
str_tok s sep = str_tok_loop (suc (length s)) s sep

-- `replace_substring`: `pos` goes past what was put in.
unfoldable pub replace_loop : ℕ → Bytes → Bytes → Bytes → Bytes
unfolding cut
replace_loop zero s what to = s
replace_loop (suc fuel) s what to = elim (cut s what) [
  | none ↦ s
  | some (before, after) ↦ before ++ to ++ replace_loop fuel after what to
]

unfoldable pub replace_substring : Bytes → Bytes → Bytes → Bytes
unfolding replace_loop
replace_substring s what to = replace_loop (suc (length s)) s what to

-- `unquote`: the text between `l` and `r`, or nothing where it does not stand between them
unfoldable pub unquote : Bytes → Bytes → Bytes → Bytes
unquote s l r =
    if leb (length l + length r) (length s)
      && same (take (length l) s) l
      && same (drop (length s - length r) s) r
    then take (length s - length l - length r) (drop (length l) s)
    else []

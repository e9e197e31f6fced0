-- ===== src/Text/Tokens.antt =====
-- The tokens of a text: `str_tok` cuts it so that it can be put together again, and
-- `replace_substring` puts the tokens together with another separator.
use test_assignment.Prelude.{
  ℕ, zero, suc, ◌<◌, ◌≡◌, refl, sym, ap, ◌∙◌, inl, inr, true, some, List, [], ◌∷◌, ◌++◌, Bytes,
  arith, length, length-append, drop, Bool-cases, Option-cases,
}
use test_assignment.Text.Split.{
  string_starts_from, cut, str_tok_loop, str_tok, replace_loop, replace_substring,
}

-- the texts with a separator between each two
unfoldable pub join : Bytes → List Bytes → Bytes
join sep [] = []
join sep (t ∷ []) = t
join sep (t ∷ u ∷ ts) = t ++ sep ++ join sep (u ∷ ts)

starts-split : (s sep : Bytes) → string_starts_from s sep ≡ true → s ≡ sep ++ drop (length sep) s
unfolding string_starts_from
starts-split s [] h = refl
starts-split [] (b ∷ sep) h = ground arith
starts-split (a ∷ s) (b ∷ sep) h = ground (arith, starts-split s sep)

cut-split :
    (s sep before after : Bytes) → cut s sep ≡ some (before, after) → s ≡ before ++ sep ++ after
unfolding cut
cut-split [] [] before after h = unfold string_starts_from in ground arith
cut-split [] (b ∷ sep) before after h = unfold string_starts_from in ground arith
cut-split (c ∷ s) sep before after h = elim (Bool-cases (string_starts_from (c ∷ s) sep)) [
  | inl e ↦ ground (arith, starts-split (c ∷ s) sep e)
  | inr e ↦ elim (Option-cases (cut s sep)) [
    | inl n ↦ ground (arith, e, n)
    | inr ((b, a), f) ↦ ground (arith, e, f, cut-split s sep b a f)
  ]
]

abbrev pub IsNonempty : Bytes → Type 0
IsNonempty [] = ⊥
IsNonempty (b ∷ t) = Unit {0}

-- what is cut off is shorter by a separator at least
length-after :
    (s sep before after : Bytes)
    → IsNonempty sep
    → cut s sep ≡ some (before, after)
    → length after < length s
length-after s [] before after h e = absurd h
length-after s (b ∷ sep) before after h e = omega (
  arith,
  ap length (cut-split s (b ∷ sep) before after e),
  length-append (before ++ b ∷ sep) after,
  length-append before (b ∷ sep),
)

join-cons :
    (to sep t : Bytes) (fuel : ℕ) (s : Bytes)
    → join to (t ∷ str_tok_loop (suc fuel) s sep)
      ≡ t ++ to ++ join to (str_tok_loop (suc fuel) s sep)
unfolding join str_tok_loop
join-cons to sep t fuel s = elim (Option-cases (cut s sep)) [
  | inl e ↦ rw (e, str_tok_loop) refl
  | inr ((b, a), e) ↦ rw (e, str_tok_loop) refl
]

join-str_tok_loop :
    (fuel : ℕ) (s sep : Bytes)
    → IsNonempty sep
    → length s < fuel
    → join sep (str_tok_loop fuel s sep) ≡ s
unfolding str_tok_loop
join-str_tok_loop zero s sep h k = absurd (omega arith)
join-str_tok_loop (suc zero) (c ∷ s) sep h k = absurd (omega arith)
join-str_tok_loop (suc zero) [] [] h k = absurd h
join-str_tok_loop (suc zero) [] (b ∷ sep) h k = unfold join cut string_starts_from in refl
join-str_tok_loop (suc (suc fuel)) s sep h k = elim (Option-cases (cut s sep)) [
  | inl e ↦ rw (e, str_tok_loop) (unfold join in refl)
  | inr ((before, after), e) ↦
      rw (e, str_tok_loop)
        (join-cons sep sep before fuel after
          ∙ ap (λ t. before ++ sep ++ t)
              (join-str_tok_loop (suc fuel) after sep h
                (omega (arith, length-after s sep before after h e)))
          ∙ sym (cut-split s sep before after e))
]

replace-join :
    (fuel : ℕ) (s sep to : Bytes)
    → IsNonempty sep
    → length s < fuel
    → replace_loop fuel s sep to ≡ join to (str_tok_loop fuel s sep)
unfolding str_tok_loop replace_loop
replace-join zero s sep to h k = absurd (omega arith)
replace-join (suc zero) (c ∷ s) sep to h k = absurd (omega arith)
replace-join (suc zero) [] [] to h k = absurd h
replace-join (suc zero) [] (b ∷ sep) to h k = unfold join cut string_starts_from in refl
replace-join (suc (suc fuel)) s sep to h k = elim (Option-cases (cut s sep)) [
  | inl e ↦ rw (e, str_tok_loop, replace_loop) (unfold join in refl)
  | inr ((before, after), e) ↦
      rw (e, str_tok_loop, replace_loop)
        (ap (λ t. before ++ to ++ t)
            (replace-join (suc fuel) after sep to h
              (omega (arith, length-after s sep before after h e)))
          ∙ sym (join-cons to sep before fuel after))
]

-- The tokens of a text, put together with the separator, are the text, for every separator that
-- is not empty.
pub join-str_tok : (s sep : Bytes) → IsNonempty sep → join sep (str_tok s sep) ≡ s
unfolding str_tok
join-str_tok s sep h = join-str_tok_loop (suc (length s)) s sep h (omega arith)

-- Replacing a substring that is not empty puts the tokens together with the replacement.
pub replace_substring-str_tok :
    (s what to : Bytes) → IsNonempty what → replace_substring s what to ≡ join to (str_tok s what)
unfolding str_tok replace_substring
replace_substring-str_tok s what to h = replace-join (suc (length s)) s what to h (omega arith)

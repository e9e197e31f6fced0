-- ===== src/Text/Sign.antt =====
-- What stands in front of a sign is not read.
use mathlib.Core.List.{reverse, reverse-append, reverse-cons}
use test_assignment.Prelude.{
  ℕ, ◌+◌, ◌*◌, ◌%◌, ◌≡◌, refl, ap, ◌∙◌, [], ◌∷◌, ◌++◌, Bytes, arith, length-append, append_assoc,
  Option-cases, inl, inr,
}
use test_assignment.Prelude.Int.{two_64}
use test_assignment.Text.Number.{minus, digit_below, atoi_loop, atoi}

-- the loop ends at the sign
loop_at_sign :
    (radix : ℕ) (digits x y : Bytes) (result pwr : ℕ)
    → atoi_loop radix (digits ++ minus ∷ x) result pwr
      ≡ atoi_loop radix (digits ++ minus ∷ y) result pwr
unfolding atoi_loop
loop_at_sign radix [] x y result pwr = refl
loop_at_sign radix (c ∷ digits) x y result pwr = elim (Option-cases (digit_below radix c)) [
  | inl e ↦ rw (e, atoi_loop) refl
  | inr (d, e) ↦
      rw (e, atoi_loop)
        (rw (loop_at_sign radix digits x y ((result + d * pwr) % two_64) (pwr * radix % two_64))
          refl)
]

reverse-at_sign :
    (before s : Bytes) → reverse (before ++ minus ∷ s) ≡ reverse s ++ minus ∷ reverse before
reverse-at_sign before s =
    reverse-append before (minus ∷ s)
    ∙ ap (λ t. t ++ reverse before) (reverse-cons minus s)
    ∙ append_assoc (reverse s) (minus ∷ []) (reverse before)

-- `atoi` reads a text with a minus sign as what stands from the last such sign on: any text in
-- front of the sign is accepted.
pub atoi-before_sign :
    (before s : Bytes) (radix : ℕ) → atoi (before ++ minus ∷ s) radix ≡ atoi (minus ∷ s) radix
unfolding atoi
atoi-before_sign before s radix =
    rw (reverse-at_sign before s, reverse-at_sign [] s)
      (ground (
        arith,
        length-append before (minus ∷ s),
        loop_at_sign radix (reverse s) (reverse before) [] 0 1,
      ))

-- ===== src/Text/RoundTrip.antt =====
-- A number through its digits in a radix and back.
use mathlib.Core.Path.{subst}
use mathlib.Core.List.{reverse, reverse-reverse, reverse-cons}
use native.Mathlib.Nat.{
  mod-add-mod, add-mod-mod, add-mul-mod_self_left, div-add-mod, mod-lt, div-lt_iff_lt-mul,
  mul-le-mul_right,
}
use test_assignment.Prelude.{
  ℕ, zero, suc, ◌+◌, ◌-◌, ◌*◌, ◌/◌, ◌%◌, ◌^◌, ◌≤◌, ◌<◌, ◌≡◌, refl, sym, ap, ◌∙◌, ◌≢◌, inl, inr,
  Bool, true, false, not, ◌&&◌, none, some, [], length-append, append-nil, ◌∷◌, ◌++◌, Bytes, codes,
  arith, length, get_or, leb, ◌==◌, all_below, all_below_sound, Bool-cases,
}
use test_assignment.Prelude.Int.{ℤ, pos, negsuc, two_63, two_64, FitsInt64}
use test_assignment.Prelude.Result.{ok, ◌>>=◌}
use test_assignment.Text.Number.{
  digit_of, digit_below, minus, plus, atoi_loop, with_sign, atoi, digit_chars, char_stack, itoa,
  bad_radix,
}

mul-mod : (x y m : ℕ) → x * (y % m) % m ≡ x * y % m
mul-mod x y m =
    sym (add-mul-mod_self_left (x * (y % m)) m (x * (y / m)))
    ∙ ap (λ (k : ℕ). k % m) (omega (arith, ap (λ (k : ℕ). x * k) (div-add-mod y m)))

-- the character of a digit: no sign, in ASCII, and read back
is_read_back : ℕ → ℕ → Bool
is_read_back d c = elim (digit_of c) [ none ↦ false | some e ↦ e == d ]

good_digit : ℕ → Bool
good_digit d =
    let c = get_or digit_chars d 0 in
    not (c == minus) && not (c == plus) && not (leb 128 c) && is_read_back d c

good_digits : all_below 36 good_digit ≡ true
unfolding all_below good_digit is_read_back digit_of
good_digits = refl

-- one round on the character of a digit
round_digit :
    (radix d : ℕ) (s : Bytes) (result pwr : ℕ)
    → d < radix
    → radix < 37
    → atoi_loop radix (get_or digit_chars d 0 ∷ s) result pwr
      ≡ atoi_loop radix s ((result + d * pwr) % two_64) (pwr * radix % two_64)
unfolding atoi_loop digit_below good_digit is_read_back
round_digit radix d s result pwr h k =
    ground (arith, all_below_sound 36 good_digit d good_digits (omega arith))

wrap_round :
    (radix n d q result pwr : ℕ)
    → radix * q + d ≡ n
    → ((result + d * pwr) % two_64 + q * (pwr * radix % two_64)) % two_64
      ≡ (result + n * pwr) % two_64
wrap_round radix n d q result pwr e =
    mod-add-mod (result + d * pwr) two_64 (q * (pwr * radix % two_64))
    ∙ sym (add-mod-mod (result + d * pwr) (q * (pwr * radix % two_64)) two_64)
    ∙ ap (λ (k : ℕ). (result + d * pwr + k) % two_64) (mul-mod q (pwr * radix) two_64)
    ∙ add-mod-mod (result + d * pwr) (q * (pwr * radix)) two_64
    ∙ ap (λ (k : ℕ). k % two_64) (omega (arith, ap (λ (k : ℕ). k * pwr) e))

-- what stands in front of the digits
abbrev sign_of : Bool → Bytes
sign_of true = minus ∷ []
sign_of false = []

loop_sign :
    (radix : ℕ) (negative : Bool) (result pwr : ℕ)
    → atoi_loop radix (sign_of negative) result pwr ≡ ok (result, negative)
unfolding atoi_loop
loop_sign radix true result pwr = refl
loop_sign radix false result pwr = refl

loop_end :
    (radix val : ℕ) (negative : Bool) (result pwr : ℕ)
    → val < 1
    → result < two_64
    → atoi_loop radix (sign_of negative) result pwr ≡ ok ((result + val * pwr) % two_64, negative)
loop_end radix val negative result pwr bound fits =
    loop_sign radix negative result pwr ∙ ap (λ (k : ℕ). ok (k, negative)) (ground arith)

div-below : (radix val top : ℕ) → 2 ≤ radix → val < 2 * top → val / radix < top
div-below radix val top low bound =
    (div-lt_iff_lt-mul (omega arith)).1 (omega (arith, mul-le-mul_right top low))

loop-char_stack :
    (radix fuel val : ℕ) (negative : Bool) (result pwr : ℕ)
    → 2 ≤ radix
    → radix < 37
    → val < 2 ^ fuel
    → result < two_64
    → atoi_loop radix (char_stack radix fuel val ++ sign_of negative) result pwr
      ≡ ok ((result + val * pwr) % two_64, negative)
unfolding char_stack
loop-char_stack radix zero val negative result pwr low high bound fits =
    loop_end radix val negative result pwr bound fits
loop-char_stack radix (suc fuel) val negative result pwr low high bound fits =
    elim (Bool-cases (val == 0)) [
      | inl e ↦ rw e (loop_end radix val negative result pwr (ground arith) fits)
      | inr e ↦ rw e (
          round_digit radix (val % radix) (char_stack radix fuel (val / radix) ++ sign_of negative)
            result pwr (mod-lt val (omega arith)) high
          ∙ loop-char_stack radix fuel (val / radix) negative
              ((result + val % radix * pwr) % two_64) (pwr * radix % two_64) low high
              (div-below radix val (2 ^ fuel) low (omega arith)) (mod-lt _ (omega arith))
          ∙ ap (λ (k : ℕ). ok (k, negative))
              (wrap_round radix val (val % radix) (val / radix) result pwr (div-add-mod val radix)))
    ]

-- reading what `itoa` prints of a magnitude
read_digits :
    (radix n : ℕ) (negative : Bool)
    → 2 ≤ radix
    → radix < 37
    → n < two_63
    → (length (reverse (char_stack radix 64 n ++ sign_of negative)) == 0) ≡ false
    → atoi (reverse (char_stack radix 64 n ++ sign_of negative)) radix
      ≡ ok (with_sign (n, negative))
unfolding atoi
read_digits radix n negative low high bound there = rw there (
    rw (reverse-reverse (char_stack radix 64 n ++ sign_of negative)) (
      rw (loop-char_stack radix 64 n negative 0 1 low high (omega arith) (omega arith))
        (ground arith)))

reverse_there : (c : ℕ) (s : Bytes) → (length (reverse (c ∷ s)) == 0) ≡ false
reverse_there c s = rw (reverse-cons c s) (ground (arith, length-append (reverse s) (c ∷ [])))

char_stack_there :
    (radix fuel n : ℕ) (rest : Bytes)
    → (n == 0) ≡ false
    → (length (reverse (char_stack radix (suc fuel) n ++ rest)) == 0) ≡ false
unfolding char_stack
char_stack_there radix fuel n rest e =
    rw e
      (reverse_there (get_or digit_chars (n % radix) 0) (char_stack radix fuel (n / radix) ++ rest))

radix_fits : (radix : ℕ) → 2 ≤ radix → radix < 37 → bad_radix radix ≡ false
radix_fits radix low high = ground arith

read_zero : (radix : ℕ) → 2 ≤ radix → radix < 37 → atoi (codes "0") radix ≡ ok (pos 0)
unfolding atoi atoi_loop digit_below digit_of with_sign
read_zero radix low high = ground arith

with_sign_pos : (n : ℕ) → n < two_63 → with_sign (n, false) ≡ pos n
unfolding with_sign
with_sign_pos n h = ground arith

with_sign_neg : (n : ℕ) → suc n < two_63 → with_sign (suc n, true) ≡ negsuc n
unfolding with_sign
with_sign_neg n h = ground arith

-- What `itoa` prints of a number in any radix from 2 to 36, `atoi` reads back; INT64_MIN alone is
-- excepted.
pub atoi-itoa :
    (z : ℤ) (radix : ℕ)
    → 2 ≤ radix
    → radix < 37
    → FitsInt64 z
    → z ≢ negsuc (two_63 - 1)
    → (itoa z radix >>= λ s. atoi s radix) ≡ ok z
unfolding itoa
atoi-itoa (pos n) radix low high fits no_min = elim (Bool-cases (n == 0)) [
  | inl e ↦
      rw (radix_fits radix low high, e)
        (read_zero radix low high ∙ ap (λ (k : ℕ). ok (pos k)) (ground arith))
  | inr e ↦
      rw (radix_fits radix low high, e)
        (subst (λ s. atoi (reverse s) radix ≡ ok (pos n)) (append-nil (char_stack radix 64 n))
          (read_digits radix n false low high fits (char_stack_there radix 63 n [] e)
            ∙ ap ok (with_sign_pos n fits)))
]
atoi-itoa (negsuc n) radix low high fits no_min =
    rw (radix_fits radix low high, in_range)
      (read_digits radix (suc n) true low high (ground (arith, in_range))
          (char_stack_there radix 63 (suc n) (minus ∷ []) (ground arith))
        ∙ ap ok (with_sign_neg n (ground (arith, in_range))))
  where
    in_range : (suc n == two_63) ≡ false
    in_range = elim (Bool-cases (suc n == two_63)) [
      | inl e ↦ absurd (no_min (ap negsuc (ground arith)))
      | inr e ↦ e
    ]

-- ===== src/Utf8/Words.antt =====
-- Wide strings through UTF-8 and back.
use test_assignment.Prelude.{
  ℕ, zero, suc, ◌%◌, ◌≤◌, ◌<◌, ◌≡◌, refl, ◌≢◌, ap, List, [], ◌∷◌, ◌++◌, Bytes, arith, length, drop,
  All, length-append, append-nil,
}
use test_assignment.Prelude.Result.{ok, ◌>>=◌}
use test_assignment.Utf8.{utf8_to_ucs, ucs_to_utf8, to_utf8, from_utf8_loop, from_utf8, wchar}
use mathlib.Core.Path.{subst}
use test_assignment.Utf8.Code.{utf8_to_ucs-ucs_to_utf8}

drop-append {ℓ} : {A : Type ℓ} (xs ys : List A) → drop (length xs) (xs ++ ys) ≡ ys
drop-append [] ys = refl
drop-append (x ∷ xs) ys = drop-append xs ys

abbrev StartsNonzero : Bytes → Type 0
StartsNonzero [] = ⊥
StartsNonzero (b ∷ t) = b ≢ 0

-- a code that is not 0 has a first byte, and it is not 0
ucs_to_utf8-StartsNonzero : (c : ℕ) → 0 < c → StartsNonzero (ucs_to_utf8 c)
unfolding ucs_to_utf8
ucs_to_utf8-StartsNonzero c h = ground arith

-- one round of the loop over the bytes of a code
round_over :
    (fuel c : ℕ) (bytes rest : Bytes)
    → StartsNonzero bytes
    → utf8_to_ucs (bytes ++ rest) ≡ (c, length bytes)
    → wchar c ≢ 0
    → from_utf8_loop (suc fuel) (bytes ++ rest)
      ≡ (from_utf8_loop fuel rest >>= λ ws. ok (wchar c ∷ ws))
unfolding from_utf8_loop
round_over fuel c [] rest h k w = absurd h
round_over fuel c (b ∷ t) rest h k w =
    rw k (ground (arith, drop-append (b ∷ t) rest, length-append (b ∷ t) rest))

round_over_code :
    (fuel c : ℕ) (rest : Bytes)
    → 0 < c
    → c < 0x4000000
    → wchar c ≢ 0
    → from_utf8_loop (suc fuel) (ucs_to_utf8 c ++ rest)
      ≡ (from_utf8_loop fuel rest >>= λ ws. ok (wchar c ∷ ws))
round_over_code fuel c rest h k w =
    round_over fuel c (ucs_to_utf8 c) rest (ucs_to_utf8-StartsNonzero c h)
      (utf8_to_ucs-ucs_to_utf8 c rest k) w

-- a UTF-16 unit that is not 0
abbrev pub IsUnit16 : ℕ → Type 0
IsUnit16 w = (0 < w) × (w < 0x10000)

length-to_utf8 : (ws : List ℕ) → All IsUnit16 ws → length ws ≤ length (to_utf8 ws)
unfolding to_utf8
length-to_utf8 [] h = omega arith
length-to_utf8 (w ∷ ws) h = omega (
  arith,
  length-append (ucs_to_utf8 w) (to_utf8 ws),
  length-to_utf8 ws h.1,
  length_pos (ucs_to_utf8 w) (ucs_to_utf8-StartsNonzero w h.0.0),
)
  where
    length_pos : (s : Bytes) → StartsNonzero s → 0 < length s
    length_pos [] h = absurd h
    length_pos (b ∷ t) h = omega arith

loop-to_utf8 :
    (fuel : ℕ) (ws : List ℕ)
    → All IsUnit16 ws
    → length ws ≤ fuel
    → from_utf8_loop fuel (to_utf8 ws) ≡ ok ws
unfolding to_utf8
loop-to_utf8 fuel [] h k = unfold from_utf8_loop in refl
loop-to_utf8 zero (w ∷ ws) h k = absurd (omega arith)
loop-to_utf8 (suc fuel) (w ∷ ws) h k =
    rw (round_over_code fuel w (to_utf8 ws) h.0.0 (omega arith) (omega arith))
      (rw (loop-to_utf8 fuel ws h.1 (omega arith)) (ap (λ c. ok (c ∷ ws)) (omega arith)))

-- A wide string of 16-bit units that are not 0 is read back from its UTF-8 bytes, and the loop
-- ends.
pub from_utf8-to_utf8 : (ws : List ℕ) → All IsUnit16 ws → from_utf8 (to_utf8 ws) ≡ ok ws
unfolding from_utf8
from_utf8-to_utf8 ws h = loop-to_utf8 (length (to_utf8 ws)) ws h (length-to_utf8 ws h)

one_code :
    (c : ℕ) (bytes : Bytes)
    → StartsNonzero bytes
    → utf8_to_ucs (bytes ++ []) ≡ (c, length bytes)
    → wchar c ≢ 0
    → from_utf8_loop (length bytes) (bytes ++ []) ≡ ok (wchar c ∷ [])
one_code c [] h k w = absurd h
one_code c (b ∷ t) h k w =
    rw (round_over (length t) c (b ∷ t) [] h k w) (unfold from_utf8_loop in refl)

-- A code from 2^16 on, below 2^26 and no multiple of 2^16, comes out of `from_utf8` cut to its
-- low 16 bits.
pub from_utf8-truncates :
    (c : ℕ)
    → 0x10000 ≤ c
    → c < 0x4000000
    → c % 0x10000 ≢ 0
    → from_utf8 (ucs_to_utf8 c) ≡ ok (c % 0x10000 ∷ [])
unfolding from_utf8
from_utf8-truncates c h k w =
    subst (λ s. from_utf8_loop (length (ucs_to_utf8 c)) s ≡ ok (c % 0x10000 ∷ []))
      (append-nil (ucs_to_utf8 c))
      (one_code c (ucs_to_utf8 c) (ucs_to_utf8-StartsNonzero c (omega arith))
        (utf8_to_ucs-ucs_to_utf8 c [] k) w)

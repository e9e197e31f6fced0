-- ===== src/Bits/Swap.antt =====
-- support/bit_util.hpp: the byte order of numbers.
use test_assignment.Prelude.{ℕ, Bool, true, false, [], ◌∷◌, ◌≡◌, refl}
use test_assignment.Bits.{
  inplace_swap, swap_loop, swap_16_bits, swap_32_bits, swap_64_bits, swap_128_bits, hnswap, bits_32,
}

-- The swaps that are written out for numbers of two, four, eight and sixteen bytes do what the
-- general loop does, and twice the loop leaves a number of eight bytes as it was.
pub swaps-agree :
    (a b c d : ℕ) (a0 a1 a2 a3 a4 a5 a6 a7 a8 a9 a10 a11 a12 a13 a14 a15 : ℕ)
    → (swap_16_bits (a ∷ b ∷ []) ≡ inplace_swap (a ∷ b ∷ []))
      × (swap_32_bits (a ∷ b ∷ c ∷ d ∷ []) ≡ inplace_swap (a ∷ b ∷ c ∷ d ∷ []))
      × (swap_64_bits (a0 ∷ a1 ∷ a2 ∷ a3 ∷ a4 ∷ a5 ∷ a6 ∷ a7 ∷ [])
          ≡ inplace_swap (a0 ∷ a1 ∷ a2 ∷ a3 ∷ a4 ∷ a5 ∷ a6 ∷ a7 ∷ []))
      × (swap_128_bits (
            a0 ∷ a1 ∷ a2 ∷ a3 ∷ a4 ∷ a5 ∷ a6 ∷ a7 ∷ a8 ∷ a9 ∷ a10 ∷ a11 ∷ a12 ∷ a13 ∷ a14 ∷ a15
            ∷ [])
          ≡ inplace_swap (
              a0 ∷ a1 ∷ a2 ∷ a3 ∷ a4 ∷ a5 ∷ a6 ∷ a7 ∷ a8 ∷ a9 ∷ a10 ∷ a11 ∷ a12 ∷ a13 ∷ a14 ∷ a15
              ∷ []))
      × (inplace_swap (inplace_swap (a0 ∷ a1 ∷ a2 ∷ a3 ∷ a4 ∷ a5 ∷ a6 ∷ a7 ∷ []))
          ≡ a0 ∷ a1 ∷ a2 ∷ a3 ∷ a4 ∷ a5 ∷ a6 ∷ a7 ∷ [])
unfolding swap_16_bits swap_32_bits swap_64_bits swap_128_bits inplace_swap swap_loop
swaps-agree a b c d a0 a1 a2 a3 a4 a5 a6 a7 a8 a9 a10 a11 a12 a13 a14 a15 =
    (refl, refl, refl, refl, refl)

-- A 32-bit number that is swapped on the way out and on the way in is the same again, whatever the
-- order of the machine's bytes.
pub hnswap-hnswap :
    (little : Bool) (a b c d : ℕ)
    → hnswap little bits_32 (hnswap little bits_32 (a ∷ b ∷ c ∷ d ∷ [])) ≡ a ∷ b ∷ c ∷ d ∷ []
unfolding hnswap swap_32_bits
hnswap-hnswap true a b c d = refl
hnswap-hnswap false a b c d = refl

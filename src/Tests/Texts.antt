-- ===== src/Tests/Texts.antt =====
-- The theorems on texts at concrete inputs.
use test_assignment.Prelude.{ℕ, ◌≡◌, ap, arith}
use test_assignment.Prelude.Int.{ℤ, pos, negsuc}
use test_assignment.Prelude.Result.{ok, ◌>>=◌}
use test_assignment.Text.Number.{itoa, atoi}
use test_assignment.Text.RoundTrip.{atoi-itoa}

abbrev below : ℤ → ℕ
below (pos n) = 0
below (negsuc n) = n

atoi-itoa_example : (itoa (negsuc 254) 16 >>= λ s. atoi s 16) ≡ ok (negsuc 254)
atoi-itoa_example =
    atoi-itoa (negsuc 254) 16 (omega arith) (omega arith) (omega arith)
      (λ e. omega (arith, ap below e))

-- ===== src/Prelude/Result.antt =====
-- What a C++ call that may throw returns. `fault` stands for behaviour that the C++ standard
-- leaves undefined, and `endless` for a loop that never leaves: the model stops there.
use mathlib.Core.Path.{◌≡◌, refl}
use mathlib.Core.Logic.{◌⊎◌, inl, inr}
use mathlib.Core.Bool.{Bool, true, false}

pub data Failure : Type 0 where
  bad_cast field_not_exist out_of_range not_applicable invalid_conversion : Failure
  wrong_number invalid_string invalid_radix empty_string bad_base64 bad_hex io_error : Failure
  bad_token bad_cron unexpected_token invalid_token bad_character end_of_input configuration_error
        fault endless :
      Failure

pub data Result {ℓ} (A : Type ℓ) : Type ℓ where
  ok : A → Result A
  err : Failure → Result A

module _ {ℓ} {A : Type ℓ} where
  infixl 5 ◌>>=◌
  -- what follows a call runs where the call returned
  abbrev pub ◌>>=◌ {κ} : {B : Type κ} → Result A → (A → Result B) → Result B
  ok value >>= next = next value
  err failure >>= next = err failure

  -- `catch(...)`: what stands after a failed call
  abbrev pub catch : Result A → A → A
  catch (ok value) otherwise = value
  catch (err failure) otherwise = otherwise

  abbrev pub succeeds : Result A → Bool
  succeeds (ok value) = true
  succeeds (err failure) = false

  pub Result-cases : (r : Result A) → ((a : A) × (r ≡ ok a)) ⊎ ((e : Failure) × (r ≡ err e))
  Result-cases (ok value) = inl (value, refl)
  Result-cases (err failure) = inr (failure, refl)

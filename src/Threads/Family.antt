-- ===== src/Threads/Family.antt =====
-- What a group of threads has: a value for each thread, one of them replaced, and sums of a weight
-- over the first threads. It models no code by itself.
use test_assignment.Prelude.{
  ℕ, zero, suc, ◌+◌, ◌≤◌, ◌<◌, false, ◌≡◌, refl, ◌==◌, if◌then◌else◌, Bool-cases, inl, inr, arith,
}

-- `f` with the value of thread `i` replaced
abbrev pub update {ℓ} : {A : Type ℓ} → (ℕ → A) → ℕ → A → ℕ → A
update f i a j = if i == j then a else f j

pub update-at {ℓ} : {A : Type ℓ} (f : ℕ → A) (i : ℕ) (a : A) → update f i a i ≡ a
update-at f i a = ground arith

module _ {ℓ} {A : Type ℓ} (weight : A → ℕ) where
  -- the weights of the threads below `n`
  unfoldable pub total : ℕ → (ℕ → A) → ℕ
  total zero f = 0
  total (suc n) f = weight (f n) + total n f

  beyond : (n : ℕ) (f : ℕ → A) (i : ℕ) (a : A) → n ≤ i → total n (update f i a) ≡ total n f
  unfolding total
  beyond zero f i a h = refl
  beyond (suc n) f i a h = ground (arith, beyond n f i a)

  -- Where one thread is replaced, the sum changes by its weight alone.
  pub total-split :
      (n : ℕ) (f : ℕ → A) (i : ℕ)
      → i < n
      → (rest : ℕ) × (total n f ≡ rest + weight (f i))
        × ((a : A) → total n (update f i a) ≡ rest + weight a)
  unfolding total
  total-split zero f i h = absurd (omega arith)
  total-split (suc n) f i h = elim (Bool-cases (i == n)) [
    | inl e ↦ (total n f, ground arith, λ a. ground (arith, beyond n f i a))
    | inr e ↦
        let (rest, before, after) = total-split n f i (ground arith) in
        (weight (f n) + rest, omega arith, λ a. ground (arith, after a))
  ]

  pub total-some : (n : ℕ) (f : ℕ → A) (i : ℕ) → i < n → weight (f i) ≤ total n f
  total-some n f i h = let (rest, e, _) = total-split n f i h in omega arith

  pub total-two :
      (n : ℕ) (f : ℕ → A) (i j : ℕ)
      → i < n
      → j < n
      → (i == j) ≡ false
      → weight (f i) + weight (f j) ≤ total n f
  unfolding total
  total-two zero f i j h k d = absurd (omega arith)
  total-two (suc n) f i j h k d = elim (Bool-cases (i == n)) [
    | inl e ↦ ground (arith, total-some n f j)
    | inr e ↦ elim (Bool-cases (j == n)) [
      | inl e' ↦ ground (arith, total-some n f i)
      | inr e' ↦ ground (arith, total-two n f i j)
    ]
  ]

  pub total-bound : ((a : A) → weight a ≤ 1) → (n : ℕ) (f : ℕ → A) → total n f ≤ n
  unfolding total
  total-bound small zero f = omega arith
  total-bound small (suc n) f = omega (arith, small (f n), total-bound small n f)

  pub total-none : (n : ℕ) (f : ℕ → A) → ((i : ℕ) → weight (f i) ≡ 0) → total n f ≡ 0
  unfolding total
  total-none zero f h = refl
  total-none (suc n) f h = omega (arith, h n, total-none n f h)

  pub total-zero : (n : ℕ) (f : ℕ → A) → ((i : ℕ) → i < n → weight (f i) ≡ 0) → total n f ≡ 0
  unfolding total
  total-zero zero f h = refl
  total-zero (suc n) f h =
      omega (arith, h n (omega arith), total-zero n f (λ i k. h i (omega arith)))

-- ===== src/Bits/Sort/Sorted.antt =====
-- support/bit_util.hpp: `bsort` sorts.
use test_assignment.Prelude.{
  ℕ, zero, suc, Bool, true, false, List, [], ◌∷◌, ◌≡◌, refl, ap, ◌==◌, length, drop, All,
  Bool-cases, ==_iff, ◌≢◌, inl, inr, arith,
}
use mathlib.Core.List.{Perm}
use mathlib.Core.List.Perm
use test_assignment.Bits.Sort.{sweep, bsort_loop, bsort}

-- What `operator<` of the elements keeps to.
pub record IsStrictOrder {A : Type 0} (less : A → A → Bool) : Type 0 where
  pub asym : (a b : A) → less a b ≡ true → less b a ≡ false
  pub trans : (a b c : A) → less b a ≡ false → less c b ≡ false → less c a ≡ false

module _ {A : Type 0} (less : A → A → Bool) where
  -- no element is less than `a`
  abbrev pub IsAbove : A → List A → Type 0
  IsAbove a = All (λ b. less b a ≡ false)

  -- no element is less than one in front of it
  abbrev pub IsSorted : List A → Type 0
  IsSorted [] = Unit
  IsSorted (a ∷ xs) = IsAbove a xs × IsSorted xs

  -- Behind the first `k` elements the array is sorted, and nothing there is less than one of them.
  IsDone : ℕ → List A → Type 0
  IsDone zero xs = IsSorted xs
  IsDone (suc k) [] = Unit
  IsDone (suc k) (a ∷ xs) = IsAbove a (drop k xs) × IsDone k xs

  IsAbove-nil : (j : ℕ) (a : A) → IsAbove a (drop j [])
  IsAbove-nil zero a = tt
  IsAbove-nil (suc j) a = tt

  IsDone-nil : (j : ℕ) → IsDone j []
  unfolding IsDone
  IsDone-nil zero = tt
  IsDone-nil (suc j) = tt

  IsDone-length : (xs : List A) → IsDone (length xs) xs
  unfolding IsDone
  IsDone-length [] = tt
  IsDone-length (a ∷ xs) = (above_all a xs, IsDone-length xs)
    where
      above_all : (b : A) (ys : List A) → IsAbove b (drop (length ys) ys)
      above_all b [] = tt
      above_all b (y ∷ ys) = above_all b ys

  module _ (o : IsStrictOrder less) where
    -- What stands behind a sweep of the first elements is not less than what was not above any of
    -- them.
    IsAbove-sweep :
        (j : ℕ) (lo h : A) (ys : List A)
        → less h lo ≡ false
        → IsAbove lo (drop j ys)
        → IsAbove lo (drop j (sweep less j (h ∷ ys)).0)
    unfolding sweep
    IsAbove-sweep zero lo h ys e p = (e, p)
    IsAbove-sweep (suc j) lo h [] e p = IsAbove-nil j lo
    IsAbove-sweep (suc j) lo h (c ∷ zs) e p = elim (Bool-cases (less c h)) [
      | inl s ↦ rw s (IsAbove-sweep j lo h zs e p)
      | inr s ↦ rw s (IsAbove-sweep j lo c zs (o.trans lo h c e s) p)
    ]

    sweep-IsDone :
        (i : ℕ) (a : A) (xs : List A) → IsDone (suc i) (a ∷ xs) → IsDone i (sweep less i (a ∷ xs)).0
    unfolding sweep IsDone
    sweep-IsDone zero a xs d = d
    sweep-IsDone (suc j) a [] d = (IsAbove-nil j a, IsDone-nil j)
    sweep-IsDone (suc j) a (b ∷ ys) (pa, (pb, d)) = elim (Bool-cases (less b a)) [
      | inl s ↦ rw s (IsAbove-sweep j b a ys (o.asym b a s) pb, sweep-IsDone j a ys (pa, d))
      | inr s ↦ rw s (IsAbove-sweep j a b ys s pa, sweep-IsDone j b ys (pb, d))
    ]

    IsAbove-chain : (a b : A) (ys : List A) → less b a ≡ false → IsAbove b ys → IsAbove a ys
    IsAbove-chain a b [] e p = tt
    IsAbove-chain a b (y ∷ ys) e (py, ps) = (o.trans a b y e py, IsAbove-chain a b ys e ps)

    -- A sweep without an exchange has found the array in order.
    unmoved-IsSorted :
        (i : ℕ) (xs : List A)
        → IsDone (suc i) xs
        → (sweep less i xs).1 ≡ 0
        → ((sweep less i xs).0 ≡ xs) × IsSorted xs
    unfolding sweep IsDone
    unmoved-IsSorted zero [] d e = (refl, tt)
    unmoved-IsSorted zero (a ∷ xs) d e = (refl, d)
    unmoved-IsSorted (suc j) [] d e = (refl, tt)
    unmoved-IsSorted (suc j) (a ∷ []) d e = (refl, (tt, tt))
    unmoved-IsSorted (suc j) (a ∷ b ∷ ys) (pa, d) e = elim (Bool-cases (less b a)) [
      | inl s ↦ absurd (moved (rw s at e))
      | inr s ↦
          let (same, sorted) = unmoved-IsSorted j (b ∷ ys) d (rw s at e) in
          (rw s (ap (λ l. a ∷ l) same), ((s, IsAbove-chain a b ys s sorted.0), sorted))
    ]
      where
        moved : {x : ℕ} → suc x ≢ 0
        moved e = omega arith

  sweep-Perm : (i : ℕ) (xs : List A) → Perm (sweep less i xs).0 xs
  unfolding sweep
  sweep-Perm zero xs = Perm.refl xs
  sweep-Perm (suc i) [] = Perm.refl []
  sweep-Perm (suc i) (a ∷ []) = Perm.refl (a ∷ [])
  sweep-Perm (suc i) (a ∷ b ∷ xs) = elim (Bool-cases (less b a)) [
    | inl s ↦ rw s (Perm.trans (Perm.cons b (sweep-Perm i (a ∷ xs))) (Perm.swap a b xs))
    | inr s ↦ rw s (Perm.cons a (sweep-Perm i (b ∷ xs)))
  ]

  loop-Perm : (k : ℕ) (xs : List A) → Perm (bsort_loop less k xs) xs
  unfolding bsort_loop
  loop-Perm zero xs = Perm.refl xs
  loop-Perm (suc i) xs = elim (Bool-cases ((sweep less i xs).1 == 0)) [
    | inl s ↦ rw s (sweep-Perm i xs)
    | inr s ↦ rw s (Perm.trans (loop-Perm i (sweep less i xs).0) (sweep-Perm i xs))
  ]

  nothing : (i : ℕ) → IsDone i (sweep less i []).0
  unfolding sweep
  nothing zero = IsDone-nil 0
  nothing (suc i) = IsDone-nil (suc i)

  module _ (o : IsStrictOrder less) where
    loop-IsSorted : (k : ℕ) (xs : List A) → IsDone k xs → IsSorted (bsort_loop less k xs)
    unfolding bsort_loop
    loop-IsSorted zero xs d = unfold IsDone in d
    loop-IsSorted (suc i) xs d = elim (Bool-cases ((sweep less i xs).1 == 0)) [
      | inl s ↦
          let (same, sorted) = unmoved-IsSorted o i xs d ((==_iff (sweep less i xs).1 0).0 s) in
          rw s (rw same sorted)
      | inr s ↦ rw s (loop-IsSorted i (sweep less i xs).0 (swept xs d))
    ]
      where
        swept : (ys : List A) → IsDone (suc i) ys → IsDone i (sweep less i ys).0
        swept [] e = nothing i
        swept (a ∷ ys) e = sweep-IsDone o i a ys e

    -- `bsort` leaves the elements of the array in order, and they are the ones that it was given,
    -- if `<` of the elements is a strict order whose negation is transitive.
    pub bsort-IsSorted :
        (array : List A) → IsSorted (bsort less array) × Perm (bsort less array) array
    unfolding bsort
    bsort-IsSorted array =
        (loop-IsSorted (length array) array (IsDone-length array), loop-Perm (length array) array)

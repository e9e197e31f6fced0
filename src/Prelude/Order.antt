-- ===== src/Prelude/Order.antt =====
-- The order of the keys of a `std::map`: three-way comparison with the laws that a strict weak
-- order whose equivalence is equality has, for indices and for byte strings.
use Prim.Native.Nat.{ℕ, compare, Ordering}
use Prim.Native.Nat.Ordering.{lt, eq, gt}
use mathlib.Core.Path.{◌≡◌, refl}
use mathlib.Core.List.{List, [], ◌∷◌}
use native.Mathlib.Omega.{arith}

pub record Order (K : Type 0) : Type 0 where
  pub cmp : K → K → Ordering
  pub self : (a : K) → cmp a a ≡ eq
  pub eq_of : (a b : K) → cmp a b ≡ eq → a ≡ b
  pub flip_gt : (a b : K) → cmp a b ≡ gt → cmp b a ≡ lt
  pub chain : (a b c : K) → cmp a b ≡ lt → cmp b c ≡ lt → cmp a c ≡ lt

pub compare_self : (a : ℕ) → compare a a ≡ eq
compare_self a = ground arith

pub compare-eq_of : (a b : ℕ) → compare a b ≡ eq → a ≡ b
compare-eq_of a b h = ground arith

pub compare_flip : (a b : ℕ) → compare a b ≡ gt → compare b a ≡ lt
compare_flip a b h = ground arith

pub compare_chain : (a b c : ℕ) → compare a b ≡ lt → compare b c ≡ lt → compare a c ≡ lt
compare_chain a b c h k = ground arith

instance abbrev pub index_order : Order ℕ
index_order = record {
  cmp = compare;
  self = compare_self;
  eq_of = compare-eq_of;
  flip_gt = compare_flip;
  chain = compare_chain;
}

-- `std::string::compare`: lexicographic over unsigned bytes
abbrev pub compare_bytes : List ℕ → List ℕ → Ordering
compare_bytes [] [] = eq
compare_bytes [] (b ∷ t) = lt
compare_bytes (a ∷ s) [] = gt
compare_bytes (a ∷ s) (b ∷ t) = elim (compare a b) [ eq ↦ compare_bytes s t | lt ↦ lt | gt ↦ gt ]

pub bytes_self : (s : List ℕ) → compare_bytes s s ≡ eq
bytes_self [] = refl
bytes_self (a ∷ s) = ground (arith, bytes_self s)

pub bytes_eq_of : (s t : List ℕ) → compare_bytes s t ≡ eq → s ≡ t
bytes_eq_of [] [] h = refl
bytes_eq_of [] (b ∷ t) h = ground arith
bytes_eq_of (a ∷ s) [] h = ground arith
bytes_eq_of (a ∷ s) (b ∷ t) h = ground (arith, bytes_eq_of s t)

pub bytes_flip : (s t : List ℕ) → compare_bytes s t ≡ gt → compare_bytes t s ≡ lt
bytes_flip [] [] h = ground arith
bytes_flip [] (b ∷ t) h = ground arith
bytes_flip (a ∷ s) [] h = refl
bytes_flip (a ∷ s) (b ∷ t) h = ground (arith, bytes_flip s t)

pub bytes_chain :
    (s t u : List ℕ) → compare_bytes s t ≡ lt → compare_bytes t u ≡ lt → compare_bytes s u ≡ lt
bytes_chain [] [] u h k = k
bytes_chain [] (b ∷ t) [] h k = ground arith
bytes_chain [] (b ∷ t) (c ∷ u) h k = refl
bytes_chain (a ∷ s) [] u h k = ground arith
bytes_chain (a ∷ s) (b ∷ t) [] h k = k
bytes_chain (a ∷ s) (b ∷ t) (c ∷ u) h k = ground (arith, bytes_chain s t u)

instance abbrev pub bytes_order : Order (List ℕ)
bytes_order = record {
  cmp = compare_bytes;
  self = bytes_self;
  eq_of = bytes_eq_of;
  flip_gt = bytes_flip;
  chain = bytes_chain;
}

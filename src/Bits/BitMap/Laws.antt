-- ===== src/Bits/BitMap/Laws.antt =====
-- What a bit of a map is after a bit was set.
use test_assignment.Prelude.{
  ℕ, zero, suc, ◌/◌, ◌%◌, ◌<◌, ◌≡◌, refl, Bool, true, false, ◌&&◌, [], ◌∷◌, Bytes, length,
  length-set, get_or, set, all, ltb, ◌==◌, ==_iff, if◌then◌else◌, all_below, all_below_sound, arith,
  Bool-cases, inl, inr, &&-left, &&-right,
}
use test_assignment.Prelude.Result.{ok, ◌>>=◌}
use test_assignment.Bits.BitMap.{BitMap, put_bit, get_bit, set_bit, bit}

abbrev digit : Bool → ℕ
digit true = 1
digit false = 0

right_at : ℕ → ℕ → ℕ → Bool
right_at c k l =
    get_bit (put_bit c k true) l == (if k == l then 1 else get_bit c l)
    && get_bit (put_bit c k false) l == (if k == l then 0 else get_bit c l)

table : all_below 256 (λ c. all_below 8 (λ k. all_below 8 (λ l. right_at c k l))) ≡ true
unfolding all_below right_at put_bit get_bit
table = refl

looked_up : (c k l : ℕ) → c < 256 → k < 8 → l < 8 → right_at c k l ≡ true
looked_up c k l hc hk hl =
    all_below_sound 8 (λ l. right_at c k l) l
      (all_below_sound 8 (λ k. all_below 8 (λ l. right_at c k l)) k
        (all_below_sound 256 (λ c. all_below 8 (λ k. all_below 8 (λ l. right_at c k l))) c table hc)
        hk)
      hl

get_bit-put_bit :
    (c k l : ℕ) (v : Bool)
    → c < 256
    → k < 8
    → l < 8
    → get_bit (put_bit c k v) l ≡ (if k == l then digit v else get_bit c l)
unfolding right_at
get_bit-put_bit c k l true hc hk hl = (==_iff _ _).0 (&&-left _ _ (looked_up c k l hc hk hl))
get_bit-put_bit c k l false hc hk hl = (==_iff _ _).0 (
    &&-right (get_bit (put_bit c k true) l == (if k == l then 1 else get_bit c l)) _
      (looked_up c k l hc hk hl))

get_or-set :
    (xs : Bytes) (i j v : ℕ)
    → i < length xs
    → get_or (set xs i v) j 0 ≡ (if i == j then v else get_or xs j 0)
get_or-set [] i j v h = absurd (omega arith)
get_or-set (x ∷ xs) zero zero v h = refl
get_or-set (x ∷ xs) zero (suc j) v h = ground arith
get_or-set (x ∷ xs) (suc i) zero v h = ground arith
get_or-set (x ∷ xs) (suc i) (suc j) v h =
    let less : i < length xs = omega arith in ground (arith, get_or-set xs i j v less)

get_or-bound : (xs : Bytes) (i : ℕ) → all (λ c. ltb c 256) xs ≡ true → get_or xs i 0 < 256
get_or-bound [] i h = omega arith
get_or-bound (x ∷ xs) zero h = ground (arith, &&-left (ltb x 256) _ h)
get_or-bound (x ∷ xs) (suc i) h = get_or-bound xs i (&&-right (ltb x 256) _ h)

-- A bit of a map that was set or cleared is what was set, and each other bit is what it was, on the
-- bytes that the map has.
pub bit-set_bit :
    (i j : ℕ) (v : Bool) (m : BitMap)
    → all (λ c. ltb c 256) m.contents ≡ true
    → i / 8 < length m.contents
    → j / 8 < length m.contents
    → (set_bit i v m >>= λ m'. bit j m') ≡ (if i == j then ok (digit v) else bit j m)
unfolding set_bit bit
bit-set_bit i j v m b hi hj =
    let xs = m.contents in
    let c = get_or xs (i / 8) 0 in
    let new = put_bit c (i % 8) v in
    let inside : ltb (i / 8) (length xs) ≡ true = ground (arith, hi) in
    let there : ltb (j / 8) (length xs) ≡ true = ground (arith, hj) in
    let still : ltb (j / 8) (length (set xs (i / 8) new)) ≡ true =
      rw (length-set xs (i / 8) new) there in
    elim (Bool-cases (i / 8 == j / 8)) [
      | inl q ↦
          let byte : i / 8 ≡ j / 8 = (==_iff _ _).0 q in
          let both : (i % 8 == j % 8) ≡ (i == j) = ground (arith, byte) in
          rw
            (
              inside,
              still,
              get_or-set xs (i / 8) (j / 8) new hi,
              q,
              there,
              get_bit-put_bit c (i % 8) (j % 8) v (get_or-bound xs (i / 8) b) (omega arith)
                  (omega arith),
              both,
            )
            (elim (Bool-cases (i == j)) [ inl e ↦ rw e refl | inr e ↦ rw (e, byte) refl ])
      | inr q ↦
          let apart : (i == j) ≡ false = ground (arith, q) in
          rw (inside, still, get_or-set xs (i / 8) (j / 8) new hi, q, there, apart) refl
    ]

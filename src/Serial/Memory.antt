-- ===== src/Serial/Memory.antt =====
-- Writing into bytes, and reading them, where they are pieces one behind the other; and the bytes
-- of a size turned round.
use mathlib.Core.List.{reverse, reverse_aux, reverse-cons, reverse-reverse}
use test_assignment.Prelude.{
  ℕ, zero, suc, ◌+◌, ◌-◌, ◌≤◌, ◌≡◌, refl, ap, ◌∙◌, sym, [], ◌∷◌, ◌++◌, append-nil, append_assoc,
  Bytes, true, arith, length, take, drop, replicate, get_or, if◌then◌else◌, ltb,
}
use test_assignment.Bits.{inplace_swap, swap_loop}
use test_assignment.Serial.{copy_to}

zero_plus : (n : ℕ) → 0 + n ≡ n
zero_plus n = omega arith

suc_plus : (m n : ℕ) → suc m + n ≡ suc (m + n)
suc_plus m n = omega arith

pub drop-append : (xs ys : Bytes) → drop (length xs) (xs ++ ys) ≡ ys
drop-append [] ys = refl
drop-append (x ∷ xs) ys = drop-append xs ys

pub take-append : (xs ys : Bytes) → take (length xs) (xs ++ ys) ≡ xs
take-append [] ys = refl
take-append (x ∷ xs) ys = ap (λ t. x ∷ t) (take-append xs ys)

pub drop_plus : (xs ys : Bytes) (n : ℕ) → drop (length xs + n) (xs ++ ys) ≡ drop n ys
drop_plus [] ys n = ap (λ k. drop k ys) (zero_plus n)
drop_plus (x ∷ xs) ys n =
    ap (λ k. drop k (x ∷ (xs ++ ys))) (suc_plus (length xs) n) ∙ drop_plus xs ys n

pub get-append : (xs ys : Bytes) (n : ℕ) → get_or (xs ++ ys) (length xs + n) 0 ≡ get_or ys n 0
get-append [] ys n = ap (λ k. get_or ys k 0) (zero_plus n)
get-append (x ∷ xs) ys n =
    ap (λ k. get_or (x ∷ (xs ++ ys)) k 0) (suc_plus (length xs) n) ∙ get-append xs ys n

abbrev pub zeros : ℕ → Bytes
zeros n = replicate n 0

pub replicate_plus : (n k : ℕ) → zeros (n + k) ≡ zeros n ++ zeros k
replicate_plus zero k = ap zeros (zero_plus k)
replicate_plus (suc n) k = ap zeros (suc_plus n k) ∙ ap (λ t. 0 ∷ t) (replicate_plus n k)

pub take_plus : (xs ys : Bytes) (n : ℕ) → take (length xs + n) (xs ++ ys) ≡ xs ++ take n ys
take_plus [] ys n = ap (λ k. take k ys) (zero_plus n)
take_plus (x ∷ xs) ys n =
    ap (λ k. take k (x ∷ (xs ++ ys))) (suc_plus (length xs) n) ∙ ap (λ t. x ∷ t) (take_plus xs ys n)

-- Writing replaces a piece of the same length.
pub write_first :
    (old new zs : Bytes) → length old ≡ length new → copy_to 0 new (old ++ zs) ≡ new ++ zs
unfolding copy_to
write_first old new zs h = rw (zero_plus (length new), sym h, drop-append old zs) refl

pub write_plus :
    (xs ys new : Bytes) (n : ℕ) → copy_to (length xs + n) new (xs ++ ys) ≡ xs ++ copy_to n new ys
unfolding copy_to
write_plus xs ys new n =
    let at : length xs + n + length new ≡ length xs + (n + length new) = omega arith in
    rw (at, take_plus xs ys n, drop_plus xs ys (n + length new))
      (append_assoc (xs ++ take n ys) new _
        ∙ append_assoc xs (take n ys) _
        ∙ ap (λ t. xs ++ t) (sym (append_assoc (take n ys) new _)))

pub write_second :
    (xs old new zs : Bytes)
    → length old ≡ length new
    → copy_to (length xs) new (xs ++ (old ++ zs)) ≡ xs ++ (new ++ zs)
write_second xs old new zs h =
    let at : length xs ≡ length xs + 0 = omega arith in
    ap (λ k. copy_to k new (xs ++ (old ++ zs))) at
    ∙ write_plus xs (old ++ zs) new 0
    ∙ ap (λ t. xs ++ t) (write_first old new zs h)

pub write_third :
    (xs ys old new zs : Bytes)
    → length old ≡ length new
    → copy_to (length xs + length ys) new (xs ++ (ys ++ (old ++ zs))) ≡ xs ++ (ys ++ (new ++ zs))
write_third xs ys old new zs h =
    write_plus xs (ys ++ (old ++ zs)) new (length ys)
    ∙ ap (λ t. xs ++ t) (write_second ys old new zs h)

pub write_fourth :
    (xs ys us old new : Bytes)
    → length old ≡ length new
    → copy_to (length xs + length ys + length us) new (xs ++ (ys ++ (us ++ old)))
      ≡ xs ++ (ys ++ (us ++ new))
write_fourth xs ys us old new h =
    let at : length xs + length ys + length us ≡ length xs + (length ys + length us) =
      omega arith in
    let e = write_third ys us old new [] h in
    ap (λ k. copy_to k new (xs ++ (ys ++ (us ++ old)))) at
    ∙ write_plus xs (ys ++ (us ++ old)) new (length ys + length us)
    ∙ ap (λ t. xs ++ t) (rw (append-nil old, append-nil new) at e)

pub drop_fourth :
    (xs ys us w : Bytes) → drop (length xs + length ys + length us) (xs ++ (ys ++ (us ++ w))) ≡ w
drop_fourth xs ys us w =
    let at : length xs + length ys + length us ≡ length xs + (length ys + length us) =
      omega arith in
    ap (λ k. drop k (xs ++ (ys ++ (us ++ w)))) at
    ∙ drop_plus xs (ys ++ (us ++ w)) (length ys + length us)
    ∙ drop_plus ys (us ++ w) (length us)
    ∙ drop-append us w

pub take_all : (xs : Bytes) → take (length xs) xs ≡ xs
take_all [] = refl
take_all (x ∷ xs) = ap (λ t. x ∷ t) (take_all xs)

length-reverse_aux : (l r : Bytes) → length (reverse_aux l r) ≡ length l + length r
length-reverse_aux [] r = omega arith
length-reverse_aux (x ∷ l) r = omega (arith, length-reverse_aux l (x ∷ r))

pub length-reverse : (l : Bytes) → length (reverse l) ≡ length l
length-reverse l = omega (arith, length-reverse_aux l [])

-- The bytes of a size are few enough to try each number of them.
pub inplace_swap-reverse : (l : Bytes) → length l ≤ 9 → inplace_swap l ≡ reverse l
unfolding inplace_swap swap_loop
inplace_swap-reverse [] h = refl
inplace_swap-reverse (a ∷ []) h = refl
inplace_swap-reverse (a ∷ b ∷ []) h = refl
inplace_swap-reverse (a ∷ b ∷ c ∷ []) h = refl
inplace_swap-reverse (a ∷ b ∷ c ∷ d ∷ []) h = refl
inplace_swap-reverse (a ∷ b ∷ c ∷ d ∷ e ∷ []) h = refl
inplace_swap-reverse (a ∷ b ∷ c ∷ d ∷ e ∷ f ∷ []) h = refl
inplace_swap-reverse (a ∷ b ∷ c ∷ d ∷ e ∷ f ∷ g ∷ []) h = refl
inplace_swap-reverse (a ∷ b ∷ c ∷ d ∷ e ∷ f ∷ g ∷ i ∷ []) h = refl
inplace_swap-reverse (a ∷ b ∷ c ∷ d ∷ e ∷ f ∷ g ∷ i ∷ j ∷ []) h = refl
inplace_swap-reverse (a ∷ b ∷ c ∷ d ∷ e ∷ f ∷ g ∷ i ∷ j ∷ k ∷ l) h = absurd (omega arith)

-- Behind a list that is turned round stands its first byte.
pub last_byte :
    (xs c zs : Bytes)
    → 1 ≤ length c
    → get_or (xs ++ (reverse c ++ zs)) (length xs + length c - 1) 0 ≡ get_or c 0 0
last_byte xs [] zs h = absurd (omega arith)
last_byte xs (b ∷ t) zs h =
    let at : length xs + suc (length t) - 1 ≡ length xs + (length (reverse t) + 0) =
      omega (arith, length-reverse t) in
    ap (λ k. get_or (xs ++ (reverse (b ∷ t) ++ zs)) k 0) at
    ∙ get-append xs (reverse (b ∷ t) ++ zs) (length (reverse t) + 0)
    ∙ rw (reverse-cons b t, append_assoc (reverse t) (b ∷ []) zs)
        (get-append (reverse t) (b ∷ zs) 0)

-- Turning round twice gives the bytes back; one byte alone is not turned.
pub turned_back : (c : Bytes) → length c ≤ 9 → inplace_swap (reverse c) ≡ c
turned_back c h =
    inplace_swap-reverse (reverse c) (omega (arith, length-reverse c)) ∙ reverse-reverse c

pub turned_if_long :
    (c : Bytes)
    → length c ≤ 9
    → 1 ≤ length c
    → (if ltb 1 (length c) then inplace_swap (reverse c) else reverse c) ≡ c
turned_if_long [] h k = absurd (omega arith)
turned_if_long (b ∷ []) h k = refl
turned_if_long (b ∷ a ∷ t) h k =
    let long : ltb 1 (suc (suc (length t))) ≡ true = ground arith in
    rw long (turned_back (b ∷ a ∷ t) h)

-- ===== src/Text/Base64/Decode.antt =====
-- support/str_util.cpp: data through its base64 text.
use test_assignment.Prelude.{
  ℕ, ◌%◌, ◌<◌, true, false, [], ◌∷◌, Bytes, ◌≡◌, refl, ap, ap₂, ◌∙◌, ◌==◌, length, All, arith,
}
use test_assignment.Prelude.Result.{ok, ◌>>=◌}
use test_assignment.Text.Base64.{
  base64_char, sextet_0, sextet_1, sextet_2, sextet_3, data_to_base64_str, base64_remap, is_base64,
  octet_0, octet_1, octet_2, Group, group_0, group_1, group_2, group_3, last_octets, base64_loop,
  base64_str_to_data,
}

-- A character of the alphabet is accepted, ends no text, and has its value.
char_remap : (n : ℕ) → n < 64 → base64_remap (base64_char n) ≡ n
unfolding base64_remap base64_char
char_remap n h = ground arith

char_accepted :
    (n : ℕ) → n < 64 → (is_base64 (base64_char n) ≡ true) × ((base64_char n == 61) ≡ false)
unfolding is_base64 base64_char
char_accepted n h = ground arith

loop_char :
    (n : ℕ) (s : Bytes) (g : Group)
    → n < 64
    → base64_loop (base64_char n ∷ s) g ≡ elim g [
      | group_0 ↦ base64_loop s (group_1 (base64_char n))
      | group_1 x ↦ base64_loop s (group_2 x (base64_char n))
      | group_2 x y ↦ base64_loop s (group_3 x y (base64_char n))
      | group_3 x y z ↦ base64_loop s group_0 >>= λ rest. ok (
          octet_0 (base64_remap x) (base64_remap y)
          ∷ octet_1 (base64_remap y) (base64_remap z)
          ∷ octet_2 (base64_remap z) (base64_remap (base64_char n))
          ∷ rest)
    ]
unfolding base64_loop
loop_char n s g h = let (accepted, other) = char_accepted n h in rw (other, accepted) refl

octets_back :
    (a b c : ℕ)
    → a < 256
    → b < 256
    → c < 256
    → (octet_0 (sextet_0 a) (sextet_1 a b) ≡ a)
      × (octet_1 (sextet_1 a b) (sextet_2 b c) ≡ b)
      × (octet_2 (sextet_2 b c) (sextet_3 c) ≡ c)
octets_back a b c ha hb hc = (omega arith, omega arith, omega arith)

abbrev IsData : Bytes → Type 0
IsData = All (λ b. b < 256)

-- Two and three characters of the alphabet go into the group.
two_chars :
    (x y : ℕ) (s : Bytes)
    → x < 64
    → y < 64
    → base64_loop (base64_char x ∷ base64_char y ∷ s) group_0
      ≡ base64_loop s (group_2 (base64_char x) (base64_char y))
two_chars x y s hx hy =
    loop_char x (base64_char y ∷ s) group_0 hx ∙ loop_char y s (group_1 (base64_char x)) hy

three_chars :
    (x y z : ℕ) (s : Bytes)
    → x < 64
    → y < 64
    → z < 64
    → base64_loop (base64_char x ∷ base64_char y ∷ base64_char z ∷ s) group_0
      ≡ base64_loop s (group_3 (base64_char x) (base64_char y) (base64_char z))
three_chars x y z s hx hy hz =
    two_chars x y (base64_char z ∷ s) hx hy
    ∙ loop_char z s (group_2 (base64_char x) (base64_char y)) hz

-- What stands in the group at the end.
ends_2 :
    (x y : ℕ)
    → x < 64
    → y < 64
    → base64_loop (61 ∷ 61 ∷ []) (group_2 (base64_char x) (base64_char y)) ≡ ok (octet_0 x y ∷ [])
unfolding base64_loop last_octets
ends_2 x y hx hy = rw (char_remap x hx, char_remap y hy) refl

ends_3 :
    (x y z : ℕ)
    → x < 64
    → y < 64
    → z < 64
    → base64_loop (61 ∷ []) (group_3 (base64_char x) (base64_char y) (base64_char z))
      ≡ ok (octet_0 x y ∷ octet_1 y z ∷ [])
unfolding base64_loop last_octets
ends_3 x y z hx hy hz = rw (char_remap x hx, char_remap y hy, char_remap z hz) refl

fourth_char :
    (x y z w : ℕ) (s rest : Bytes)
    → x < 64
    → y < 64
    → z < 64
    → w < 64
    → base64_loop s group_0 ≡ ok rest
    → base64_loop (base64_char w ∷ s) (group_3 (base64_char x) (base64_char y) (base64_char z))
      ≡ ok (octet_0 x y ∷ octet_1 y z ∷ octet_2 z w ∷ rest)
fourth_char x y z w s rest hx hy hz hw e =
    loop_char w s (group_3 (base64_char x) (base64_char y) (base64_char z)) hw
    ∙ rw (e, char_remap x hx, char_remap y hy, char_remap z hz, char_remap w hw) refl

loop_back :
    (data_ : Bytes) → IsData data_ → base64_loop (data_to_base64_str data_) group_0 ≡ ok data_
unfolding data_to_base64_str
loop_back [] h = unfold base64_loop last_octets in refl
loop_back (a ∷ []) h =
    let (ea, eb, ec) = octets_back a 0 0 h.0 (omega arith) (omega arith) in
    two_chars (sextet_0 a) (sextet_1 a 0) (61 ∷ 61 ∷ []) (omega arith) (omega arith)
    ∙ ends_2 (sextet_0 a) (sextet_1 a 0) (omega arith) (omega arith)
    ∙ ap (λ x. ok (x ∷ [])) ea
loop_back (a ∷ b ∷ []) h =
    let (ha, others) = h in
    let (hb, end) = others in
    let (ea, eb, ec) = octets_back a b 0 ha hb (omega arith) in
    three_chars (sextet_0 a) (sextet_1 a b) (sextet_2 b 0) (61 ∷ []) (omega arith) (omega arith)
      (omega arith)
    ∙ ends_3 (sextet_0 a) (sextet_1 a b) (sextet_2 b 0) (omega arith) (omega arith) (omega arith)
    ∙ ap₂ (λ x y. ok (x ∷ y ∷ [])) ea eb
loop_back (a ∷ b ∷ c ∷ data_) h =
    let (ha, others) = h in
    let (hb, others') = others in
    let (hc, hd) = others' in
    let (ea, eb, ec) = octets_back a b c ha hb hc in
    three_chars (sextet_0 a) (sextet_1 a b) (sextet_2 b c)
      (base64_char (sextet_3 c) ∷ data_to_base64_str data_) (omega arith) (omega arith)
      (omega arith)
    ∙ fourth_char (sextet_0 a) (sextet_1 a b) (sextet_2 b c) (sextet_3 c) (data_to_base64_str data_)
        data_ (omega arith) (omega arith) (omega arith) (omega arith) (loop_back data_ hd)
    ∙ rw (ea, eb, ec) refl

whole_text : (s : Bytes) → length s % 4 ≡ 0 → base64_str_to_data s ≡ base64_loop s group_0
unfolding base64_str_to_data
whole_text [] e = unfold base64_loop last_octets in refl
whole_text (c ∷ s) e = ground (arith, e)

whole_groups : (data_ : Bytes) → length (data_to_base64_str data_) % 4 ≡ 0
unfolding data_to_base64_str
whole_groups [] = refl
whole_groups (a ∷ []) = refl
whole_groups (a ∷ b ∷ []) = refl
whole_groups (a ∷ b ∷ c ∷ data_) = omega (arith, whole_groups data_)

-- Bytes that are written as base64 text are read back.
pub base64_str_to_data-data_to_base64_str :
    (data_ : Bytes)
    → All (λ b. b < 256) data_
    → base64_str_to_data (data_to_base64_str data_) ≡ ok data_
base64_str_to_data-data_to_base64_str data_ h =
    whole_text (data_to_base64_str data_) (whole_groups data_) ∙ loop_back data_ h

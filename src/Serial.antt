-- ===== src/Serial.antt =====
-- support/serialization.hpp: data in buffers that stand one behind the other, each with its size
-- before it and, turned round, behind it. The bytes of the whole are a list, and a pointer into
-- them is an offset. What is read past the end of them is a `fault`.
pub mod Iterator
pub mod Readers
pub mod Sizes
pub mod Wide
pub mod Memory
pub mod Push
pub mod Walk
pub mod Index
pub mod Values
use mathlib.Core.List.{reverse}
use test_assignment.Prelude.{
  ℕ, zero, suc, ◌+◌, ◌-◌, ◌*◌, ◌/◌, ◌%◌, ◌^◌, ◌<◌, ◌≤◌, ◌≡◌, Bool, true, false, ◌&&◌, ◌||◌, not,
  List, [], ◌∷◌, ◌++◌, Bytes, ltb, leb, ◌==◌, if◌then◌else◌, length, get_or, take, drop, replicate,
}
use test_assignment.Prelude.Int.{ℤ, pos, negsuc, two_63}
use test_assignment.Prelude.Result.{Result, ok, err, ◌>>=◌, fault, endless, out_of_range, bad_cast}
use test_assignment.Bits.{inplace_swap}

-- `n_size`, `m_to_n` and `n_to_m`, which a macro chooses, and what the other code relies on. The
-- second part of `m_to_n` is what it writes through `increment`.
pub record SizeCode : Type 0 where
  pub n_size : ℕ → ℕ
  pub m_to_n : Bytes → ℕ × ℕ
  pub n_to_m : ℕ → Bytes
  pub limit : ℕ
  pub m_to_n-n_to_m :
      (c : ℕ) (rest : Bytes) → c < limit → m_to_n (n_to_m c ++ rest) ≡ (c, length (n_to_m c))
  pub n_size-n_to_m :
      (c : ℕ) (rest : Bytes)
      → c < limit
      → n_size (get_or (n_to_m c ++ rest) 0 0) ≡ length (n_to_m c)
  pub zero_code : n_to_m 0 ≡ 0 ∷ []
  pub bounds : (c : ℕ) → (1 ≤ length (n_to_m c)) × (length (n_to_m c) ≤ 9)

-- `std::memcpy(m + at, src, …)`
unfoldable pub copy_to : ℕ → Bytes → Bytes → Bytes
copy_to at src m = take at m ++ src ++ drop (at + length src) m

-- the bytes of a number in memory, the lowest first
unfoldable pub to_bytes : ℕ → ℕ → Bytes
to_bytes zero v = []
to_bytes (suc n) v = v % 256 ∷ to_bytes n (v / 256)

-- two's complement in `width` bytes
unfoldable pub pattern : ℕ → ℤ → ℕ
pattern width (pos n) = n
pattern width (negsuc n) = 256 ^ width - 1 - n

-- `inplace_swap` of `count` bytes from an offset on
unfoldable pub swap_range : ℕ → ℕ → Bytes → Bytes
swap_range at count m = copy_to at (inplace_swap (take count (drop at m))) m

module _ (C : SizeCode) where
  -- `n_bytes`
  unfoldable pub n_bytes : ℕ → ℕ
  n_bytes num = length (C.n_to_m num)

  -- `mem_to_unumber`: the number and the increment
  unfoldable pub mem_to_unumber : Bytes → Result (ℕ × ℕ)
  mem_to_unumber s =
      let r = C.m_to_n s in if ltb 0 (length s) && leb r.1 (length s) then ok r else err fault

  -- `size()` and `size_size()` of the buffer at an offset
  unfoldable pub buffer_size : Bytes → ℕ → Result ℕ
  buffer_size m p = mem_to_unumber (drop p m) >>= λ r. ok r.0

  unfoldable pub size_size : Bytes → ℕ → Result ℕ
  size_size m p = mem_to_unumber (drop p m) >>= λ r. ok r.1

  -- `data()`
  unfoldable pub data_at : Bytes → ℕ → Result ℕ
  data_at m p = size_size m p >>= λ n. ok (p + n)

  unfoldable pub set_sizes : ℕ → Bytes → ℕ → Result Bytes
  set_sizes s m p =
      let m1 = copy_to p (C.n_to_m s) m in
      data_at m1 p >>= λ d.
      let m2 = copy_to (d + s) (C.n_to_m s) m1 in
      data_at m2 p >>= λ e. size_size m2 p >>= λ n. ok (swap_range (e + s) n m2)

  -- `set_data(d, s)`, which does nothing without data
  unfoldable pub set_data : Bytes → Bytes → ℕ → Result Bytes
  set_data [] m p = ok m
  set_data (b ∷ d) m p =
      set_sizes (length (b ∷ d)) m p >>= λ m1. data_at m1 p >>= λ at. ok (copy_to at (b ∷ d) m1)

  -- `push_back(d, s)`: `resize` fills with zeros.
  unfoldable pub push_back : Bytes → Bytes → Result Bytes
  push_back d m = set_data d (m ++ replicate (length d + n_bytes (length d) * 2) 0) (length m)

  -- `push_back(d)` of an unsigned or a signed number of `width` bytes
  unfoldable pub push_unumber : ℕ → ℕ → Bytes → Result Bytes
  push_unumber width v m = push_back (to_bytes width v) m

  unfoldable pub push_number : ℕ → ℤ → Bytes → Result Bytes
  push_number width z m = push_back (to_bytes width (pattern width z)) m

-- ===== src/Serial/Iterator.antt =====
-- support/serialization.hpp: `serialized_data_iter` over the bytes `m`, the buffers that it goes to, and
-- the indices of a serializer.
use test_assignment.Prelude.{
  ℕ, zero, suc, ◌+◌, ◌-◌, ◌*◌, Bool, false, ◌||◌, not, Bytes, ltb, leb, ◌==◌, if◌then◌else◌, length,
  get_or, take, drop,
}
use test_assignment.Prelude.Int.{two_63}
use test_assignment.Prelude.Result.{Result, ok, err, ◌>>=◌, fault, endless, out_of_range}
use test_assignment.Bits.{inplace_swap}
use test_assignment.Serial.{SizeCode, mem_to_unumber, buffer_size, size_size}

module _ (C : SizeCode) where
  -- `next_buffer()`, and `operator++` of an iterator over `m`
  unfoldable pub next_buffer : Bytes → ℕ → Result ℕ
  next_buffer m p = size_size C m p >>= λ n. buffer_size C m p >>= λ s. ok (p + (n * 2 + s))

  abbrev into_bounds : Bytes → ℕ → ℕ
  into_bounds m p = if ltb (length m) p then length m else p

  unfoldable pub increment : Bytes → ℕ → Result ℕ
  increment m p =
      if ltb (length m) p then ok (length m) else (next_buffer m p >>= λ q. ok (into_bounds m q))

  -- `prev_buffer()`: the copy in `buff` has the bytes of the size, the first one first.
  unfoldable pub prev_buffer : Bytes → ℕ → Result ℕ
  prev_buffer m p =
      let n = C.n_size (get_or m (p - 1) 0) in
      if n == 0 || ltb p n || ltb (length m) p
      then err fault
      else (mem_to_unumber C (inplace_swap (take n (drop (p - n) m))) >>= λ r.
          ok (p - (n * 2 + r.0)))

  -- `operator--`; a pointer below the data, here 0 by the subtraction, comes back into bounds.
  unfoldable pub decrement : Bytes → ℕ → Result ℕ
  decrement m p = if p == 0 then ok p else (prev_buffer m p >>= λ q. ok (into_bounds m q))

  -- the last test of `valid`, with the sizes known
  unfoldable pub same_sizes : Bytes → ℕ → ℕ → ℕ → Result Bool
  same_sizes m p ss s =
      let last = p + ss * 2 + s - 1 in
      let back = take (if ltb 1 ss then ss else 1) (drop (p + ss + s) m) in
      if leb (length m) last
      then err fault
      else if not (C.n_size (get_or m last 0) == ss)
      then ok false
      else (mem_to_unumber C (if ltb 1 ss then inplace_swap back else back) >>= λ r. ok (r.0 == s))

  -- `valid(e)` with the end of the data; a sum from 2^63 on is negative in the comparison.
  unfoldable pub valid : Bytes → ℕ → Result Bool
  valid m p =
      let limit = length m - p in
      let ss = C.n_size (get_or m p 0) in
      if limit == 0 || ltb limit (ss * 2)
      then ok false
      else (buffer_size C m p >>= λ s.
          if leb (ss * 2 + s) limit || leb two_63 (ss * 2 + s)
          then same_sizes m p ss s
          else ok false)

  -- The loop of `operator[](indx)`, with the index and the place of the iterator. A round moves it
  -- by a byte at least: one round more than there are bytes is enough.
  unfoldable pub locate : ℕ → Bytes → ℕ → ℕ → ℕ → Result ℕ
  locate zero m indx i p = err endless
  locate (suc fuel) m indx i p =
      if p == length m
      then err out_of_range
      else if i == indx
      then ok p
      else (increment m p >>= λ q. locate fuel m indx (i + 1) q)

  -- `operator[](indx)`
  unfoldable pub buffer_at : Bytes → ℕ → Result ℕ
  buffer_at m indx = locate (length m + 1) m indx 0 0

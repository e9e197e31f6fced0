-- ===== src/Serial/Walk.antt =====
-- support/serialization.hpp: an iterator over data that `push_back` wrote.
use mathlib.Core.List.{reverse}
use test_assignment.Prelude.{
  ℕ, suc, ◌+◌, ◌-◌, ◌*◌, ◌<◌, ◌≡◌, refl, ap, ◌∙◌, sym, [], ◌∷◌, ◌++◌, append-nil, append_assoc,
  Bytes, true, false, arith, length, length-append, take, drop, get_or, leb, ltb, ◌==◌,
  if◌then◌else◌,
}
use test_assignment.Prelude.Result.{ok}
use test_assignment.Serial.Memory.{
  last_byte, turned_back, turned_if_long, drop-append, take-append, length-reverse, get-append,
  drop_plus,
}
use test_assignment.Serial.Push.{
  size_bytes, frame, mem_to_unumber_lem, buffer_size_lem, size_size_lem, data_at_lem,
}
use test_assignment.Serial.Iterator.{
  next_buffer, increment, prev_buffer, decrement, same_sizes, valid,
}
use test_assignment.Serial.Readers.{stored, as_bytevec}
use test_assignment.Serial.{SizeCode, mem_to_unumber, buffer_size, data_at}

module _ (C : SizeCode) where
  pub length-frame : (d : Bytes) → length (frame C d) ≡ length (size_bytes C d) * 2 + length d
  length-frame d = omega (
    arith,
    length-append (size_bytes C d) (d ++ reverse (size_bytes C d)),
    length-append d (reverse (size_bytes C d)),
    length-reverse (size_bytes C d),
  )

  -- a frame with what is before and behind it
  abbrev pub around : Bytes → Bytes → Bytes → Bytes
  around pre d post = pre ++ (frame C d ++ post)

  around_eq :
      (pre d post : Bytes)
      → around pre d post ≡ pre ++ (size_bytes C d ++ (d ++ reverse (size_bytes C d) ++ post))
  around_eq pre d post =
      ap (λ t. pre ++ t) (append_assoc (size_bytes C d) (d ++ reverse (size_bytes C d)) post)

  module _ (pre d post : Bytes) (h : length d < C.limit) where
    next_buffer_lem :
        next_buffer C (around pre d post) (length pre) ≡ ok (length pre + length (frame C d))
    unfolding next_buffer
    next_buffer_lem =
        rw
          (
            around_eq pre d post,
            size_size_lem C pre (length d) h (d ++ reverse (size_bytes C d) ++ post),
            buffer_size_lem C pre (length d) h (d ++ reverse (size_bytes C d) ++ post),
            length-frame d,
          )
          refl

    -- `++` goes from one buffer to the next_buffer
    pub increment_lem :
        increment C (around pre d post) (length pre) ≡ ok (length pre + length (frame C d))
    unfolding increment
    increment_lem =
        rw next_buffer_lem
          (ground (arith, length-append pre (frame C d ++ post), length-append (frame C d) post))

    length_lem :
        length (around pre d post)
        ≡ length pre + length (size_bytes C d) * 2 + length d + length post
    length_lem = omega (
      arith,
      length-frame d,
      length-append pre (frame C d ++ post),
      length-append (frame C d) post,
    )

    -- the size behind the data, and what is before it
    abbrev data_end : Bytes
    data_end = pre ++ size_bytes C d ++ d

    length-data_end : length data_end ≡ length pre + length (size_bytes C d) + length d
    length-data_end =
        omega (arith, length-append (pre ++ size_bytes C d) d, length-append pre (size_bytes C d))

    data_end_eq : around pre d post ≡ data_end ++ (reverse (size_bytes C d) ++ post)
    data_end_eq =
        around_eq pre d post
        ∙ ap (λ t. pre ++ (size_bytes C d ++ t)) (append_assoc d (reverse (size_bytes C d)) post)
        ∙ sym (append_assoc pre (size_bytes C d) (d ++ (reverse (size_bytes C d) ++ post)))
        ∙ sym (append_assoc (pre ++ size_bytes C d) d (reverse (size_bytes C d) ++ post))

    data_lem : take (length d) (drop (length pre + length (size_bytes C d)) (around pre d post)) ≡ d
    data_lem =
        let c = size_bytes C d in
        let rest = d ++ reverse c ++ post in
        ap (λ t. take (length d) (drop (length pre + length c) t)) (around_eq pre d post)
        ∙ ap (take (length d)) (drop_plus pre (c ++ rest) (length c) ∙ drop-append c rest)
        ∙ ap (take (length d)) (append_assoc d (reverse c) post)
        ∙ take-append d (reverse c ++ post)

    -- The bytes of the size in data_end tell how many they are, and so do those behind the data.
    first_lem : C.n_size (get_or (around pre d post) (length pre) 0) ≡ length (size_bytes C d)
    first_lem =
        let c = size_bytes C d in
        let rest = d ++ reverse c ++ post in
        let at : length pre ≡ length pre + 0 = omega arith in
        ap (λ t. C.n_size (get_or t (length pre) 0)) (around_eq pre d post)
        ∙ ap (λ k. C.n_size (get_or (pre ++ (c ++ rest)) k 0)) at
        ∙ ap C.n_size (get-append pre (c ++ rest) 0)
        ∙ C.n_size-n_to_m (length d) rest h

    last_lem :
        (k : ℕ)
        → k ≡ length pre + length (size_bytes C d) * 2 + length d - 1
        → C.n_size (get_or (around pre d post) k 0) ≡ length (size_bytes C d)
    last_lem k e =
        let c = size_bytes C d in
        let at : k ≡ length data_end + length c - 1 = omega (arith, length-data_end) in
        ap (λ t. C.n_size (get_or t k 0)) data_end_eq
        ∙ ap (λ i. C.n_size (get_or (data_end ++ (reverse c ++ post)) i 0)) at
        ∙ ap C.n_size (last_byte data_end c post (C.bounds (length d)).0)
        ∙ ap (λ t. C.n_size (get_or t 0 0)) (sym (append-nil c))
        ∙ C.n_size-n_to_m (length d) [] h

    behind_lem :
        (k : ℕ)
        → k ≡ length pre + length (size_bytes C d) + length d
        → take (length (size_bytes C d)) (drop k (around pre d post)) ≡ reverse (size_bytes C d)
    behind_lem k e =
        let c = size_bytes C d in
        let at : k ≡ length data_end = omega (arith, length-data_end) in
        ap (λ t. take (length c) (drop k t)) data_end_eq
        ∙ ap (λ i. take (length c) (drop i (data_end ++ (reverse c ++ post)))) at
        ∙ ap (take (length c)) (drop-append data_end (reverse c ++ post))
        ∙ ap (λ i. take i (reverse c ++ post)) (sym (length-reverse c))
        ∙ take-append (reverse c) post

    alone_lem : mem_to_unumber C (size_bytes C d) ≡ ok (length d, length (size_bytes C d))
    alone_lem =
        ap (mem_to_unumber C) (sym (append-nil (size_bytes C d)))
        ∙ mem_to_unumber_lem C (length d) [] h

    -- the size of the data that a buffer holds, and the data
    pub size_lem : buffer_size C (around pre d post) (length pre) ≡ ok (length d)
    size_lem =
        rw (around_eq pre d post)
          (buffer_size_lem C pre (length d) h (d ++ reverse (size_bytes C d) ++ post))

    place_lem :
        data_at C (around pre d post) (length pre) ≡ ok (length pre + length (size_bytes C d))
    place_lem =
        rw (around_eq pre d post)
          (data_at_lem C pre (length d) h (d ++ reverse (size_bytes C d) ++ post))

    prev_buffer_lem :
        prev_buffer C (around pre d post) (length pre + length (frame C d)) ≡ ok (length pre)
    unfolding prev_buffer
    prev_buffer_lem =
        let c = size_bytes C d in
        let at : length pre + length (frame C d) ≡ length pre + length c * 2 + length d =
          omega (arith, length-frame d) in
        let back = behind_lem (length pre + length c * 2 + length d - length c) (omega arith) in
        rw
          (
            at,
            last_lem (length pre + length c * 2 + length d - 1) refl,
            back,
            turned_back c (C.bounds (length d)).1,
            alone_lem,
          )
          (ground (arith, length_lem, C.bounds (length d)))

    decrement_lem :
        decrement C (around pre d post) (length pre + length (frame C d)) ≡ ok (length pre)
    unfolding decrement
    decrement_lem =
        rw prev_buffer_lem (ground (arith, length-frame d, length_lem, C.bounds (length d)))

    -- At a buffer that `push_back` wrote, with any bytes before and behind it, `++` goes to its end,
    -- and from there `--` comes back.
    pub decrement-increment :
        (increment C (around pre d post) (length pre) ≡ ok (length pre + length (frame C d)))
        × (decrement C (around pre d post) (length pre + length (frame C d)) ≡ ok (length pre))
    decrement-increment = (increment_lem, decrement_lem)

    same_sizes_lem :
        same_sizes C (around pre d post) (length pre) (length (size_bytes C d)) (length d) ≡ ok true
    unfolding same_sizes
    same_sizes_lem =
        let c = size_bytes C d in
        let n = length c in
        let count : (if ltb 1 n then n else 1) ≡ n = ground (arith, C.bounds (length d)) in
        let same : (n == n) ≡ true = ground arith in
        let whole : (length d == length d) ≡ true = ground arith in
        let inside : leb (length (around pre d post)) (length pre + n * 2 + length d - 1) ≡ false =
          ground (arith, length_lem, C.bounds (length d)) in
        rw
          (
            inside,
            last_lem (length pre + n * 2 + length d - 1) refl,
            same,
            count,
            behind_lem (length pre + n + length d) refl,
            turned_if_long c (C.bounds (length d)).1 (C.bounds (length d)).0,
            alone_lem,
            whole,
          )
          refl

    -- A buffer that `push_back` wrote is valid, whatever stands before and behind it.
    pub valid_lem : valid C (around pre d post) (length pre) ≡ ok true
    unfolding valid
    valid_lem =
        rw (first_lem, size_lem, same_sizes_lem) (ground (arith, length_lem, C.bounds (length d)))

  pub stored_lem :
      (pre d post : Bytes)
      → length d < C.limit
      → stored C (around pre d post) (length pre) (length d) ≡ ok d
  stored_lem pre d post h =
      let short : ltb (length (around pre d post)) (length pre + length (size_bytes C d) + length d)
          ≡ false =
        ground (arith, length_lem pre d post h) in
      rw (place_lem pre d post h, short) (ap ok (data_lem pre d post h))

  pub as_bytevec_lem :
      (pre d post : Bytes)
      → length d < C.limit
      → as_bytevec C (around pre d post) (length pre) ≡ ok d
  unfolding as_bytevec
  as_bytevec_lem pre [] post h = rw (size_lem pre [] post h) refl
  as_bytevec_lem pre (b ∷ d) post h =
      let some_bytes : (suc (length d) == 0) ≡ false = ground arith in
      rw (size_lem pre (b ∷ d) post h, some_bytes) (stored_lem pre (b ∷ d) post h)

-- ===== src/Serial/Push.antt =====
-- support/serialization.hpp: what `push_back` leaves in memory.
use mathlib.Core.List.{reverse}
use test_assignment.Prelude.{
  ℕ, ◌+◌, ◌*◌, ◌<◌, ◌≡◌, refl, ap, ◌∙◌, sym, [], ◌∷◌, ◌++◌, Bytes, arith, length, length-append,
  take, drop, length-replicate,
}
use test_assignment.Prelude.Result.{ok}
use test_assignment.Bits.{inplace_swap}
use test_assignment.Serial.Memory.{
  zeros, replicate_plus, write_second, write_third, write_fourth, drop-append, drop_fourth,
  take_all, length-reverse, inplace_swap-reverse,
}
use test_assignment.Serial.{
  SizeCode, copy_to, n_bytes, mem_to_unumber, buffer_size, size_size, data_at, swap_range,
  set_sizes, set_data, push_back,
}

module _ (C : SizeCode) where
  abbrev pub size_bytes : Bytes → Bytes
  size_bytes d = C.n_to_m (length d)

  -- data with its size on both sides
  abbrev pub frame : Bytes → Bytes
  frame d = size_bytes d ++ (d ++ reverse (size_bytes d))

  pub mem_to_unumber_lem :
      (s : ℕ) (rest : Bytes)
      → s < C.limit
      → mem_to_unumber C (C.n_to_m s ++ rest) ≡ ok (s, length (C.n_to_m s))
  unfolding mem_to_unumber
  mem_to_unumber_lem s rest h =
      rw (C.m_to_n-n_to_m s rest h) (ground (arith, length-append (C.n_to_m s) rest, C.bounds s))

  module _ (m : Bytes) (s : ℕ) (h : s < C.limit) where
    pub buffer_size_lem :
        (rest : Bytes) → buffer_size C (m ++ (C.n_to_m s ++ rest)) (length m) ≡ ok s
    unfolding buffer_size
    buffer_size_lem rest = rw (drop-append m (C.n_to_m s ++ rest), mem_to_unumber_lem s rest h) refl

    pub size_size_lem :
        (rest : Bytes)
        → size_size C (m ++ (C.n_to_m s ++ rest)) (length m) ≡ ok (length (C.n_to_m s))
    unfolding size_size
    size_size_lem rest = rw (drop-append m (C.n_to_m s ++ rest), mem_to_unumber_lem s rest h) refl

    pub data_at_lem :
        (rest : Bytes)
        → data_at C (m ++ (C.n_to_m s ++ rest)) (length m) ≡ ok (length m + length (C.n_to_m s))
    unfolding data_at
    data_at_lem rest = rw (size_size_lem rest) refl

    -- the size behind the data, turned round
    swap_range_lem :
        (us : Bytes)
        → length us ≡ s
        → swap_range
            (length m + length (C.n_to_m s) + s)
            (length (C.n_to_m s))
            (m ++ (C.n_to_m s ++ (us ++ C.n_to_m s)))
          ≡ m ++ (C.n_to_m s ++ (us ++ reverse (C.n_to_m s)))
    unfolding swap_range
    swap_range_lem us hs =
        let c = C.n_to_m s in
        let at = length m + length c in
        let mem = m ++ (c ++ (us ++ c)) in
        let there : drop (at + s) mem ≡ c =
          ap (λ k. drop (at + k) mem) (sym hs) ∙ drop_fourth m c us c in
        let turned : inplace_swap (take (length c) c) ≡ reverse c =
          ap inplace_swap (take_all c) ∙ inplace_swap-reverse c (C.bounds s).1 in
        rw (there, turned)
          (ap (λ k. copy_to (at + k) (reverse c) mem) (sym hs)
            ∙ write_fourth m c us c (reverse c) (sym (length-reverse c)))

    set_sizes_lem :
        (a us b : Bytes)
        → length a ≡ length (C.n_to_m s)
        → length us ≡ s
        → length b ≡ length (C.n_to_m s)
        → set_sizes C s (m ++ (a ++ (us ++ b))) (length m)
          ≡ ok (m ++ (C.n_to_m s ++ (us ++ reverse (C.n_to_m s))))
    unfolding set_sizes
    set_sizes_lem a us b ha hs hb =
        let c = C.n_to_m s in
        let at = length m + length c in
        let behind : copy_to (at + s) c (m ++ (c ++ (us ++ b))) ≡ m ++ (c ++ (us ++ c)) =
          ap (λ k. copy_to (at + k) c (m ++ (c ++ (us ++ b)))) (sym hs)
          ∙ write_fourth m c us b c hb in
        rw
          (
            write_second m a c (us ++ b) ha,
            data_at_lem (us ++ b),
            behind,
            data_at_lem (us ++ c),
            size_size_lem (us ++ c),
          )
          (ap ok (swap_range_lem us hs))

  -- Data of a size below the limit of the encoding stands behind what was there, between its size
  -- and its size turned round; nothing else changes.
  pub push_back_lem : (d m : Bytes) → length d < C.limit → push_back C d m ≡ ok (m ++ frame d)
  unfolding push_back set_data n_bytes
  push_back_lem [] m h = rw C.zero_code refl
  push_back_lem (b ∷ t) m h =
      let d = b ∷ t in
      let s = length d in
      let c = C.n_to_m s in
      let n = length c in
      let split : zeros (s + n * 2) ≡ zeros n ++ (zeros s ++ zeros n) =
        ap zeros (omega arith)
        ∙ replicate_plus n (s + n)
        ∙ ap (λ z. zeros n ++ z) (replicate_plus s n) in
      let sized =
        set_sizes_lem m s h (zeros n) (zeros s) (zeros n) (length-replicate n 0)
          (length-replicate s 0) (length-replicate n 0) in
      let placed = data_at_lem m s h (zeros s ++ reverse c) in
      rw (split, sized, placed)
        (ap ok (write_third m c (zeros s) d (reverse c) (length-replicate s 0)))

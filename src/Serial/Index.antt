-- ===== src/Serial/Index.antt =====
-- support/serialization.hpp: what is pushed, one after the other, is what the indices find.
use test_assignment.Prelude.{
  ℕ, zero, suc, ◌+◌, ◌-◌, ◌<◌, ◌≤◌, ◌≡◌, refl, ap, ◌∙◌, sym, Option, none, some, List, [], ◌∷◌,
  ◌++◌, append-nil, append_assoc, Bytes, true, false, arith, length, length-append, get_elem?, ◌==◌,
  All, Bool-cases, inl, inr, ==_iff,
}
use test_assignment.Prelude.Result.{Result, ok, err, ◌>>=◌, out_of_range}
use test_assignment.Serial.Push.{frame, push_back_lem}
use test_assignment.Serial.Walk.{length-frame, increment_lem, as_bytevec_lem}
use test_assignment.Serial.Iterator.{increment, locate, buffer_at}
use test_assignment.Serial.Readers.{as_bytevec}
use test_assignment.Serial.{SizeCode, push_back}

-- what an index finds in a list
abbrev pub found : Option Bytes → Result Bytes
found none = err out_of_range
found (some d) = ok d

module _ (C : SizeCode) where
  -- `s << a << b << …`
  unfoldable pub push_all : List Bytes → Bytes → Result Bytes
  push_all [] m = ok m
  push_all (d ∷ ds) m = push_back C d m >>= λ m'. push_all ds m'

  abbrev pub IsShort : Bytes → Type 0
  IsShort d = length d < C.limit

  abbrev frames : List Bytes → Bytes
  frames [] = []
  frames (d ∷ ds) = frame C d ++ frames ds

  push_all_lem :
      (ds : List Bytes) (m : Bytes) → All IsShort ds → push_all ds m ≡ ok (m ++ frames ds)
  unfolding push_all
  push_all_lem [] m h = rw append-nil refl
  push_all_lem (d ∷ ds) m h =
      rw (push_back_lem C d m h.0, push_all_lem ds (m ++ frame C d) h.1)
        (ap ok (append_assoc m (frame C d) (frames ds)))

  length-frames : (ds : List Bytes) → length ds ≤ length (frames ds)
  length-frames [] = omega arith
  length-frames (d ∷ ds) = omega (
    arith,
    length-append (frame C d) (frames ds),
    length-frame C d,
    C.bounds (length d),
    length-frames ds,
  )

  -- the loop, from an iterator on
  locate_lem :
      (ds : List Bytes) (pre m : Bytes) (fuel indx i : ℕ)
      → All IsShort ds
      → m ≡ pre ++ frames ds
      → length ds < fuel
      → i ≤ indx
      → (locate C fuel m indx i (length pre) >>= λ p. as_bytevec C m p)
        ≡ found (get_elem? ds (indx - i))
  unfolding locate
  locate_lem ds pre m zero indx i h e f k = absurd (omega arith)
  locate_lem [] pre m (suc fuel) indx i h e f k =
      let at : (length pre == length m) ≡ true = rw (e, append-nil) (ground arith) in rw at refl
  locate_lem (d ∷ ds) pre m (suc fuel) indx i h e f k =
      let rest = frames ds in
      let behind : length m ≡ length pre + (length (frame C d) + length rest) =
        rw e
          (omega (arith, length-append pre (frame C d ++ rest), length-append (frame C d) rest)) in
      let at : (length pre == length m) ≡ false =
        ground (arith, behind, length-frame C d, C.bounds (length d)) in
      let read : as_bytevec C m (length pre) ≡ ok d = rw e (as_bytevec_lem C pre d rest h.0) in
      let step : increment C m (length pre) ≡ ok (length (pre ++ frame C d)) =
        rw e (increment_lem C pre d rest h.0 ∙ ap ok (sym (length-append pre (frame C d)))) in
      let later =
        locate_lem ds (pre ++ frame C d) m fuel indx (i + 1) h.1
          (e ∙ sym (append_assoc pre (frame C d) rest)) (omega arith) in
      elim (Bool-cases (i == indx)) [
        | inl q ↦
            let here : indx - i ≡ 0 = ground (arith, (==_iff i indx).0 q) in
            rw (at, q, here, read) refl
        | inr q ↦
            let further : indx - i ≡ suc (indx - (i + 1)) = ground (arith, q) in
            let below : i + 1 ≤ indx = ground (arith, q) in rw (at, q, step, further) (later below)
      ]

  -- Data that is pushed into an empty serializer, each of a size below the limit of the encoding,
  -- is all kept: an index gives the data that was pushed at that place, and one past the last
  -- throws.
  pub buffer_at-push_all :
      (ds : List Bytes) (indx : ℕ)
      → All IsShort ds
      → (push_all ds [] >>= λ m. buffer_at C m indx >>= λ p. as_bytevec C m p)
        ≡ found (get_elem? ds indx)
  unfolding buffer_at
  buffer_at-push_all ds indx h =
      let few : length ds < length (frames ds) + 1 = omega (arith, length-frames ds) in
      let whole : indx - 0 ≡ indx = omega arith in
      rw (push_all_lem ds [] h) (
        locate_lem ds [] (frames ds) (length (frames ds) + 1) indx 0 h refl few (omega arith)
        ∙ ap (λ k. found (get_elem? ds k)) whole)

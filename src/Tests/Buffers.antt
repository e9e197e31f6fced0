-- ===== src/Tests/Buffers.antt =====
-- The theorems on the serializer at concrete data.
use test_assignment.Prelude.{
  ℕ, ◌+◌, ◌<◌, List, [], ◌∷◌, ◌++◌, Bytes, codes, ◌≡◌, refl, arith, length,
}
use test_assignment.Prelude.Int.{negsuc}
use test_assignment.Prelude.Result.{ok, ◌>>=◌}
use test_assignment.Serial.Sizes.{code_32, n_to_m_32, m_to_n_32}
use test_assignment.Serial.Push.{frame, push_back_lem}
use test_assignment.Serial.Walk.{around, decrement-increment}
use test_assignment.Serial.Index.{push_all, buffer_at-push_all}
use test_assignment.Serial.Values.{as_number-push_number}
use test_assignment.Serial.Iterator.{increment, decrement, buffer_at}
use test_assignment.Serial.Readers.{as_bytevec, as_number, as_unumber}
use test_assignment.Serial.{push_back, push_number, push_unumber}

abbrev texts : List Bytes
texts = codes "ab" ∷ [] ∷ codes "xyz" ∷ []

short : (n : ℕ) → n < 10 → n < code_32.limit
unfolding code_32
short n h = omega arith

push_back_lem_example :
    push_back code_32 (codes "ab") (7 ∷ []) ≡ ok (7 ∷ [] ++ frame code_32 (codes "ab"))
push_back_lem_example = push_back_lem code_32 (codes "ab") (7 ∷ []) (short 2 (omega arith))

buffer_at-push_all_example :
    (push_all code_32 texts [] >>= λ m. buffer_at code_32 m 2 >>= λ p. as_bytevec code_32 m p)
    ≡ ok (codes "xyz")
buffer_at-push_all_example =
    buffer_at-push_all code_32 texts 2
      (short 2 (omega arith), (short 0 (omega arith), (short 3 (omega arith), tt)))

decrement-increment_example :
    (increment code_32 (around code_32 (1 ∷ []) (codes "ab") (9 ∷ [])) 1
      ≡ ok (1 + length (frame code_32 (codes "ab"))))
    × (decrement code_32
          (around code_32 (1 ∷ []) (codes "ab") (9 ∷ []))
          (1 + length (frame code_32 (codes "ab")))
        ≡ ok 1)
decrement-increment_example =
    decrement-increment code_32 (1 ∷ []) (codes "ab") (9 ∷ []) (short 2 (omega arith))

as_number-push_number_example :
    ((push_unumber code_32 4 305419896 [] >>= λ m. as_unumber code_32 m 0) ≡ ok 305419896)
    × ((push_number code_32 4 (negsuc 1) [] >>= λ m. as_number code_32 m 0) ≡ ok (negsuc 1))
as_number-push_number_example =
    as_number-push_number code_32 [] 4 305419896 (negsuc 1) refl (short 4 (omega arith))
      (omega arith) (omega arith)

-- a size from 2^26 on that is not read back
lost_bit : m_to_n_32 (n_to_m_32 0x4000002) ≡ (0x44000002, 6)
unfolding n_to_m_32 m_to_n_32
lost_bit = refl

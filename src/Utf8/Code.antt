-- ===== src/Utf8/Code.antt =====
-- A code point through its UTF-8 bytes and back.
use test_assignment.Prelude.{ℕ, ◌<◌, ◌≡◌, ◌++◌, Bytes, arith, length}
use test_assignment.Utf8.{utf8_to_ucs, ucs_to_utf8}

-- Every code below 2^26 is read back from its bytes, whatever follows them, with the increment
-- that is their number.
pub utf8_to_ucs-ucs_to_utf8 :
    (c : ℕ) (rest : Bytes)
    → c < 0x4000000
    → utf8_to_ucs (ucs_to_utf8 c ++ rest) ≡ (c, length (ucs_to_utf8 c))
unfolding utf8_to_ucs ucs_to_utf8
utf8_to_ucs-ucs_to_utf8 c rest h = ground arith

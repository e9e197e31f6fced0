-- ===== src/Utf8.antt =====
-- support/str_util.cpp:52-161: UTF-8 both ways. `wchar_t` has 16 bits, as on Windows, for which the
-- service is written. `x & 0x3f` is `x % 64`, `x >> 6` is `x / 64`, a test of leading bits is a test
-- of a quotient, and `|` of parts that share no bit is a sum.
pub mod Code
pub mod Words
use test_assignment.Prelude.{
  ℕ, zero, suc, ◌+◌, ◌-◌, ◌*◌, ◌/◌, ◌%◌, [], ◌∷◌, ◌++◌, List, Bytes, ltb, leb, ◌==◌, if◌then◌else◌,
  length, get_or, drop, Bool, true, false,
}
use test_assignment.Prelude.Result.{Result, ok, err, ◌>>=◌, fault, endless}

abbrev pub low6 : ℕ → ℕ
low6 b = b % 64

-- `utf8_to_ucs` at the bytes from `utf8[0]` on, which is not 0: the code and the increment.
-- A byte past the end reads as 0, the terminator; `from_utf8` rejects such a read.
unfoldable pub utf8_to_ucs : Bytes → ℕ × ℕ
utf8_to_ucs s =
    let b0 = get_or s 0 0 in
    let b1 = low6 (get_or s 1 0) in
    let b2 = low6 (get_or s 2 0) in
    let b3 = low6 (get_or s 3 0) in
    let b4 = low6 (get_or s 4 0) in
    let b5 = low6 (get_or s 5 0) in
    if ltb b0 0x80
    then (b0, 1)
    else if b0 / 32 == 6
    then (b0 % 32 * 64 + b1, 2)
    else if b0 / 16 == 14
    then (b0 % 16 * 4096 + b1 * 64 + b2, 3)
    else if b0 / 8 == 30
    then (b0 % 8 * 262144 + b1 * 4096 + b2 * 64 + b3, 4)
    else if b0 / 4 == 62
    then (b0 % 4 * 16777216 + b1 * 262144 + b2 * 4096 + b3 * 64 + b4, 5)
    else if b0 / 2 == 126
    then (b0 % 2 * 1073741824 + b1 * 16777216 + b2 * 262144 + b3 * 4096 + b4 * 64 + b5, 6)
    else (b0, 1)

abbrev pub tail_byte : ℕ → ℕ
tail_byte c = c % 64 + 0x80

-- `ucs_to_utf8`: the bytes before the terminator, as many as it returns. The lead byte of six
-- has bit 1 of the code where bit 30 belongs.
unfoldable pub ucs_to_utf8 : ℕ → Bytes
ucs_to_utf8 c =
    if leb c 0x7f
    then c % 128 ∷ []
    else if leb c 0x7ff
    then (c / 64 % 32 + 0xc0) ∷ tail_byte c ∷ []
    else if leb c 0xffff
    then (c / 4096 % 16 + 0xe0) ∷ tail_byte (c / 64) ∷ tail_byte c ∷ []
    else if leb c 0x1fffff
    then (c / 262144 % 8 + 0xf0) ∷ tail_byte (c / 4096) ∷ tail_byte (c / 64) ∷ tail_byte c ∷ []
    else if leb c 0x3ffffff
    then (c / 16777216 % 4 + 0xf8)
      ∷ tail_byte (c / 262144)
      ∷ tail_byte (c / 4096)
      ∷ tail_byte (c / 64)
      ∷ tail_byte c
      ∷ []
    else (c / 2 % 2 + 0xfc)
      ∷ tail_byte (c / 16777216)
      ∷ tail_byte (c / 262144)
      ∷ tail_byte (c / 4096)
      ∷ tail_byte (c / 64)
      ∷ tail_byte c
      ∷ []

abbrev pub wchar : ℕ → ℕ
wchar c = c % 0x10000

unfoldable pub to_utf8 : List ℕ → Bytes
to_utf8 [] = []
to_utf8 (c ∷ ws) = ucs_to_utf8 c ++ to_utf8 ws

-- The loop of `from_utf8(std::string const &)`. At a 0 byte `utf8_to_ucs` returns -1 with the
-- increment 0; `(wchar_t)-1` is 0xffff, which is above 0, so that the loop stays where it is. A
-- sequence that the end cuts off makes `len` wrap, and the reads leave the string. A round takes a
-- byte at least: as many rounds as bytes are enough.
unfoldable pub from_utf8_loop : ℕ → Bytes → Result (List ℕ)
from_utf8_loop fuel [] = ok []
from_utf8_loop zero (b ∷ s) = err endless
from_utf8_loop (suc fuel) (b ∷ s) =
    let (code, increment) = utf8_to_ucs (b ∷ s) in
    let rest = from_utf8_loop fuel (drop increment (b ∷ s)) in
    if b == 0
    then err endless
    else if wchar code == 0
    then ok []
    else if ltb (length (b ∷ s)) increment
    then err fault
    else (rest >>= λ ws. ok (wchar code ∷ ws))

unfoldable pub from_utf8 : Bytes → Result (List ℕ)
unfolding from_utf8_loop
from_utf8 s = from_utf8_loop (length s) s

-- ===== src/Bits.antt =====
-- support/bit_util.hpp: reversing the bits of a byte in three ways, counting them, and reversing the
-- bytes of a number. A number in memory is the list of its bytes.
pub mod Flip
pub mod Swap
pub mod Sort
pub mod BitMap
use Prim.Native.Nat.{bit_and, bit_or}
use test_assignment.Prelude.{
  ℕ, zero, suc, ◌+◌, ◌-◌, ◌*◌, ◌/◌, ◌%◌, ◌^◌, Bool, true, false, List, [], ◌∷◌, if◌then◌else◌,
  get_or, set, length, ltb,
}

-- a byte's shifts, of which the one to the left is cut to a byte at the end
abbrev pub shr : ℕ → ℕ → ℕ
shr b n = b / 2 ^ n

abbrev pub shl : ℕ → ℕ → ℕ
shl b n = b * 2 ^ n

-- one line of `byte_flip`
abbrev pub exchange_parts : ℕ → ℕ → ℕ → ℕ → ℕ
exchange_parts high low n b = bit_or (shr (bit_and b high) n) (shl (bit_and b low) n) % 256

unfoldable pub byte_flip : ℕ → ℕ
byte_flip b = exchange_parts 0xaa 0x55 1 (exchange_parts 0xcc 0x33 2 (exchange_parts 0xf0 0x0f 4 b))

-- `byte_flip_2`, by a number that holds the sixteen reversed nibbles
unfoldable pub byte_flip_2 : ℕ → ℕ
byte_flip_2 n =
    bit_or (shl (bit_and (shr 17848844570815808640 (shl (bit_and n 0xf) 2)) 0xf) 4)
      (bit_and (shr 17848844570815808640 (shl (bit_and (shr n 4) 0xf) 2)) 0xf)
    % 256

-- the table of `byte_flip_3`
abbrev flip_table : List ℕ
flip_table =
    0 ∷ 128 ∷ 64 ∷ 192 ∷ 32 ∷ 160 ∷ 96 ∷ 224 ∷ 16 ∷ 144 ∷ 80 ∷ 208 ∷ 48 ∷ 176 ∷ 112 ∷ 240 ∷ 8 ∷ 136
    ∷ 72 ∷ 200 ∷ 40 ∷ 168 ∷ 104 ∷ 232 ∷ 24 ∷ 152 ∷ 88 ∷ 216 ∷ 56 ∷ 184 ∷ 120 ∷ 248 ∷ 4 ∷ 132 ∷ 68
    ∷ 196 ∷ 36 ∷ 164 ∷ 100 ∷ 228 ∷ 20 ∷ 148 ∷ 84 ∷ 212 ∷ 52 ∷ 180 ∷ 116 ∷ 244 ∷ 12 ∷ 140 ∷ 76 ∷ 204
    ∷ 44 ∷ 172 ∷ 108 ∷ 236 ∷ 28 ∷ 156 ∷ 92 ∷ 220 ∷ 60 ∷ 188 ∷ 124 ∷ 252 ∷ 2 ∷ 130 ∷ 66 ∷ 194 ∷ 34
    ∷ 162 ∷ 98 ∷ 226 ∷ 18 ∷ 146 ∷ 82 ∷ 210 ∷ 50 ∷ 178 ∷ 114 ∷ 242 ∷ 10 ∷ 138 ∷ 74 ∷ 202 ∷ 42 ∷ 170
    ∷ 106 ∷ 234 ∷ 26 ∷ 154 ∷ 90 ∷ 218 ∷ 58 ∷ 186 ∷ 122 ∷ 250 ∷ 6 ∷ 134 ∷ 70 ∷ 198 ∷ 38 ∷ 166 ∷ 102
    ∷ 230 ∷ 22 ∷ 150 ∷ 86 ∷ 214 ∷ 54 ∷ 182 ∷ 118 ∷ 246 ∷ 14 ∷ 142 ∷ 78 ∷ 206 ∷ 46 ∷ 174 ∷ 110 ∷ 238
    ∷ 30 ∷ 158 ∷ 94 ∷ 222 ∷ 62 ∷ 190 ∷ 126 ∷ 254 ∷ 1 ∷ 129 ∷ 65 ∷ 193 ∷ 33 ∷ 161 ∷ 97 ∷ 225 ∷ 17
    ∷ 145 ∷ 81 ∷ 209 ∷ 49 ∷ 177 ∷ 113 ∷ 241 ∷ 9 ∷ 137 ∷ 73 ∷ 201 ∷ 41 ∷ 169 ∷ 105 ∷ 233 ∷ 25 ∷ 153
    ∷ 89 ∷ 217 ∷ 57 ∷ 185 ∷ 121 ∷ 249 ∷ 5 ∷ 133 ∷ 69 ∷ 197 ∷ 37 ∷ 165 ∷ 101 ∷ 229 ∷ 21 ∷ 149 ∷ 85
    ∷ 213 ∷ 53 ∷ 181 ∷ 117 ∷ 245 ∷ 13 ∷ 141 ∷ 77 ∷ 205 ∷ 45 ∷ 173 ∷ 109 ∷ 237 ∷ 29 ∷ 157 ∷ 93 ∷ 221
    ∷ 61 ∷ 189 ∷ 125 ∷ 253 ∷ 3 ∷ 131 ∷ 67 ∷ 195 ∷ 35 ∷ 163 ∷ 99 ∷ 227 ∷ 19 ∷ 147 ∷ 83 ∷ 211 ∷ 51
    ∷ 179 ∷ 115 ∷ 243 ∷ 11 ∷ 139 ∷ 75 ∷ 203 ∷ 43 ∷ 171 ∷ 107 ∷ 235 ∷ 27 ∷ 155 ∷ 91 ∷ 219 ∷ 59 ∷ 187
    ∷ 123 ∷ 251 ∷ 7 ∷ 135 ∷ 71 ∷ 199 ∷ 39 ∷ 167 ∷ 103 ∷ 231 ∷ 23 ∷ 151 ∷ 87 ∷ 215 ∷ 55 ∷ 183 ∷ 119
    ∷ 247 ∷ 15 ∷ 143 ∷ 79 ∷ 207 ∷ 47 ∷ 175 ∷ 111 ∷ 239 ∷ 31 ∷ 159 ∷ 95 ∷ 223 ∷ 63 ∷ 191 ∷ 127 ∷ 255
    ∷ []

unfoldable pub byte_flip_3 : ℕ → ℕ
byte_flip_3 n = get_or flip_table n 0

-- the table of `num_of_set_bits`
abbrev pub nibble_counts : List ℕ
nibble_counts = 0 ∷ 1 ∷ 1 ∷ 2 ∷ 1 ∷ 2 ∷ 2 ∷ 3 ∷ 1 ∷ 2 ∷ 2 ∷ 3 ∷ 2 ∷ 3 ∷ 3 ∷ 4 ∷ []

unfoldable pub num_of_set_bits : ℕ → ℕ
num_of_set_bits byte =
    get_or nibble_counts (bit_and (shr byte 4) 0xf) 0 + get_or nibble_counts (bit_and byte 0xf) 0

-- `std::swap` of two bytes
abbrev pub swap_at : ℕ → ℕ → List ℕ → List ℕ
swap_at i j bytes = set (set bytes i (get_or bytes j 0)) j (get_or bytes i 0)

-- the loop of `inplace_swap`, by the rounds left
unfoldable pub swap_loop : ℕ → ℕ → ℕ → List ℕ → List ℕ
swap_loop zero i count bytes = bytes
swap_loop (suc rounds) i count bytes =
    swap_loop rounds (i + 1) count (swap_at i (count - 1 - i) bytes)

unfoldable pub inplace_swap : List ℕ → List ℕ
inplace_swap bytes =
    if ltb 1 (length bytes) then swap_loop (length bytes / 2) 0 (length bytes) bytes else bytes

-- the swaps that are written out for numbers of two, four, eight and sixteen bytes
unfoldable pub swap_16_bits : List ℕ → List ℕ
swap_16_bits bytes = swap_at 0 1 bytes

unfoldable pub swap_32_bits : List ℕ → List ℕ
swap_32_bits bytes = swap_at 1 2 (swap_at 0 3 bytes)

unfoldable pub swap_64_bits : List ℕ → List ℕ
swap_64_bits bytes = swap_at 3 4 (swap_at 2 5 (swap_at 1 6 (swap_at 0 7 bytes)))

unfoldable pub swap_128_bits : List ℕ → List ℕ
swap_128_bits bytes = swap_at 7 8 (
    swap_at 6 9 (
      swap_at 5 10
        (swap_at 4 11 (swap_at 3 12 (swap_at 2 13 (swap_at 1 14 (swap_at 0 15 bytes)))))))

-- the type of a number: one of those that have a specialization of their own, or any other
pub data Width : Type 0 where
  bits_16 bits_32 bits_64 bits_128 other : Width

-- `hnswap(v)` and `swap_on_le(v)`, on a machine that is little-endian or not
unfoldable pub hnswap : Bool → Width → List ℕ → List ℕ
hnswap false w bytes = bytes
hnswap true bits_16 bytes = swap_16_bits bytes
hnswap true bits_32 bytes = swap_32_bits bytes
hnswap true bits_64 bytes = swap_64_bits bytes
hnswap true bits_128 bytes = inplace_swap bytes
hnswap true other bytes = inplace_swap bytes

unfoldable pub swap_on_le : Bool → Width → List ℕ → List ℕ
swap_on_le false w bytes = bytes
swap_on_le true bits_16 bytes = swap_16_bits bytes
swap_on_le true bits_32 bytes = swap_32_bits bytes
swap_on_le true bits_64 bytes = swap_64_bits bytes
swap_on_le true bits_128 bytes = inplace_swap bytes
swap_on_le true other bytes = inplace_swap bytes

-- `swap_on_be(v)`, on a machine that is big-endian or not
unfoldable pub swap_on_be : Bool → Width → List ℕ → List ℕ
swap_on_be false w bytes = bytes
swap_on_be true bits_16 bytes = swap_16_bits bytes
swap_on_be true bits_32 bytes = swap_32_bits bytes
swap_on_be true bits_64 bytes = swap_64_bits bytes
swap_on_be true bits_128 bytes = swap_128_bits bytes
swap_on_be true other bytes = inplace_swap bytes

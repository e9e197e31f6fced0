-- ===== src/Text.antt =====
-- support/str_util.cpp and support/str_util.hpp: the text routines that the service calls.
-- A `char` is a byte; `char` is signed in the project's compilers, so that a byte from 128 on is
-- a negative `int`, which indexes in front of a table.
pub mod Hex
pub mod Base64
pub mod Number
pub mod Split
pub mod Tokens
pub mod RoundTrip
pub mod Sign
use test_assignment.Prelude.{
  ℕ, zero, suc, ◌-◌, ◌+◌, ◌<◌, Bool, true, false, ◌||◌, ◌&&◌, [], ◌∷◌, ◌++◌, map, Bytes, codes, ltb,
  leb, ◌==◌, if◌then◌else◌, length, replicate,
}
use mathlib.Core.List.{reverse}

-- the characters of " \n\r\t"
unfoldable pub is_blank : ℕ → Bool
is_blank c = c == 32 || c == 10 || c == 13 || c == 9

-- s.substr(s.find_first_not_of(" \n\r\t")), or nothing
unfoldable pub ltrim : Bytes → Bytes
unfolding is_blank
ltrim [] = []
ltrim (c ∷ s) = if is_blank c then ltrim s else c ∷ s

-- result.erase(result.find_last_not_of(" \n\r\t") + 1): where there is no such character,
-- `npos + 1` is 0 and everything goes.
unfoldable pub rtrim : Bytes → Bytes
unfolding is_blank
rtrim [] = []
rtrim (c ∷ s) = elim (rtrim s) [ [] ↦ if is_blank c then [] else c ∷ [] | d ∷ t ↦ c ∷ d ∷ t ]

unfoldable pub trim : Bytes → Bytes
unfolding ltrim rtrim
trim s = rtrim (ltrim s)

-- `prepend`: the loop runs until the size is `up_to_size`.
unfoldable pub prepend : Bytes → ℕ → ℕ → Bytes
prepend what with up_to_size = replicate (up_to_size - length what) with ++ what

-- `::tolower` in the "C" locale, and `strtolower`
unfoldable pub tolower : ℕ → ℕ
tolower c = if leb 65 c && leb c 90 then c + 32 else c

unfoldable pub strtolower : Bytes → Bytes
unfolding tolower
strtolower s = map tolower s

-- `std::isdigit` in the "C" locale
abbrev pub is_digit : ℕ → Bool
is_digit c = leb 48 c && leb c 57

-- ===== src/Json/Print/Escape.antt =====
-- support/json.hpp:52-137: `wescape`, `wunescape`, `wunescape_s`, and `escape`, `unescape`,
-- `unescape_s` over them.
use test_assignment.Prelude.{
  ℕ, Bool, true, false, ◌||◌, List, [], ◌∷◌, ◌++◌, ◌≡◌, refl, arith, Bytes, ◌==◌, if◌then◌else◌,
}
use test_assignment.Prelude.Result.{Result, ok, ◌>>=◌}
use test_assignment.Utf8.{to_utf8, from_utf8}

abbrev pub backslash : ℕ
backslash = 92

-- what one character becomes
unfoldable pub wescape_char : ℕ → List ℕ
wescape_char c =
    if c == 34 || c == backslash
    then backslash ∷ c ∷ []
    else if c == 8
    then backslash ∷ b'b' ∷ []
    else if c == 12
    then backslash ∷ b'f' ∷ []
    else if c == 10
    then backslash ∷ b'n' ∷ []
    else if c == 13
    then backslash ∷ b'r' ∷ []
    else if c == 9
    then backslash ∷ b't' ∷ []
    else c ∷ []

unfoldable pub wescape : List ℕ → List ℕ
unfolding wescape_char
wescape [] = []
wescape (c ∷ ws) = wescape_char c ++ wescape ws

-- what a character behind a backslash stands for
unfoldable pub unescape_char : ℕ → ℕ
unescape_char c =
    if c == b'b'
    then 8
    else if c == b'n'
    then 10
    else if c == b'r'
    then 13
    else if c == b't'
    then 9
    else if c == b'f'
    then 12
    else c

-- The loop of `wunescape` and of `wunescape_s`, which list the same cases; the flag is `escp`.
unfoldable pub unescape_loop : Bool → List ℕ → List ℕ
unfolding unescape_char
unescape_loop escp [] = []
unescape_loop true (c ∷ ws) = unescape_char c ∷ unescape_loop false ws
unescape_loop false (c ∷ ws) =
    let after = unescape_loop true ws in
    let plain = c ∷ unescape_loop false ws in if c == backslash then after else plain

unfoldable pub wunescape : List ℕ → List ℕ
unfolding unescape_loop
wunescape ws = unescape_loop false ws

unfoldable pub escape : Bytes → Result Bytes
unfolding wescape
escape s = from_utf8 s >>= λ ws. ok (to_utf8 (wescape ws))

unfoldable pub unescape : Bytes → Result Bytes
unfolding wunescape
unescape s = from_utf8 s >>= λ ws. ok (to_utf8 (wunescape ws))

unfoldable pub wunescape_s : List ℕ → List ℕ
unfolding unescape_loop
wunescape_s ws = unescape_loop false ws

unfoldable pub unescape_s : Bytes → Result Bytes
unfolding wunescape_s
unescape_s s = from_utf8 s >>= λ ws. ok (to_utf8 (wunescape_s ws))

unescape-escape_char :
    (c : ℕ) (ws : List ℕ) → unescape_loop false (wescape_char c ++ ws) ≡ c ∷ unescape_loop false ws
unfolding wescape_char unescape_loop
unescape-escape_char c ws = ground arith

-- Unescaping undoes escaping.
pub wunescape-wescape : (ws : List ℕ) → wunescape (wescape ws) ≡ ws
unfolding wunescape wescape
wunescape-wescape [] = refl
wunescape-wescape (c ∷ ws) = rw (unescape-escape_char c (wescape ws)) (rw (wunescape-wescape ws))

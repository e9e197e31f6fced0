-- ===== src/Tests/Cutting.antt =====
-- The theorems on the tokenizer with two states: words of the letter a, and any other symbol.
use test_assignment.Prelude.{ℕ, Bool, true, [], ◌∷◌, ◌++◌, List, Bytes, codes, same, ◌≡◌, refl}
use test_assignment.Prelude.Order.{bytes_order}
use test_assignment.Prelude.Result.{Result, ok}
use test_assignment.Map.{Map, lookup, member}
use test_assignment.Tokenizer.{
  Rules, Token, Tokenizer, reset, state_initial, state_final, is_self, accept, accept_char,
  accept_string, choose, weigh, react, follow_match, follow_default, set_state, create_token,
  count_symbol, finalize, end_input,
}
use test_assignment.Tokenizer.Kept.{texts, IsReady}
use test_assignment.Tokenizer.Lossless.{accept_string-texts}
use test_assignment.Tokenizer.Progress.{moves_on}
use test_assignment.Tokenizer.Ends.{ends, accept_twice}

abbrev word_rules : Map Bytes Rules
word_rules =
    (codes "#rd", (codes "a", codes "w") ∷ (codes "$df", codes "<other") ∷ [])
    ∷ (codes "w", (codes "a", codes "w") ∷ (codes "$df", codes "^word") ∷ [])
    ∷ []

abbrev match : ℕ → Bytes → Result Bool
match c class = ok (same (c ∷ []) class)

abbrev start : Tokenizer
start = record {
  buffer = [];
  state_prev = state_initial;
  state_current = state_initial;
  rules = word_rules;
  line = 0;
  colmn = 0;
  current_l = 0;
  current_c = 0;
}

abbrev at_end : Tokenizer
at_end = record start { colmn = 2; current_c = 3 }

abbrev cut_tokens : List Token
cut_tokens =
    record { text = codes "aa"; kind = codes "^word"; line = 0; column = 0 }
    ∷ record { text = codes "b"; kind = codes "<other"; line = 0; column = 2 }
    ∷ []

start-IsReady : IsReady start
unfolding state_final member lookup
start-IsReady = (refl, refl, refl)

text_cut : accept_string match 2 (codes "aab") start ≡ ok (at_end, cut_tokens)
unfolding accept_string accept_char accept lookup choose weigh react follow_match state_final
    count_symbol set_state follow_default is_self create_token
text_cut = refl

accept_string-texts_example : texts cut_tokens ++ at_end.buffer ≡ codes "aab"
accept_string-texts_example =
    accept_string-texts match 2 (codes "aab") start at_end cut_tokens refl start-IsReady text_cut

start_moves : moves_on start.rules ≡ true
unfolding state_final is_self lookup
start_moves = refl

accept_twice_example :
    (accept match 5 98 start ≡ accept match 2 98 start) × (ends (accept match 2 98 start) ≡ true)
accept_twice_example = accept_twice match (λ c class. refl) 3 98 start start_moves

-- the rules are lost at the end of a text
rules_lost : finalize match 2 start ≡ ok (reset, [])
unfolding finalize accept lookup choose weigh react end_input state_final
rules_lost = refl

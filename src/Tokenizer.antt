-- ===== src/Tokenizer.antt =====
-- support/fsm_tokenizer.hpp: the state machine that cuts a text into tokens by rules. A rule of a
-- state has a class of symbols and a next state; the mark in front of a next state makes it final:
-- `<` where the symbol belongs to the token that ends, `^` where it does not. `match`, the test of
-- a symbol for a class, is a parameter. A listener is set; the tokens are what it gets.
pub mod Kept
pub mod Lossless
pub mod Progress
pub mod Ends
use test_assignment.Prelude.{
  ℕ, zero, suc, ◌+◌, Bool, true, false, not, ◌&&◌, ◌||◌, Option, none, some, List, [], ◌∷◌, ◌++◌,
  Bytes, codes, same, ◌==◌, if◌then◌else◌,
}
use test_assignment.Prelude.Order.{bytes_order}
use test_assignment.Prelude.Result.{Result, ok, err, ◌>>=◌, endless, bad_character, end_of_input}
use test_assignment.Map.{Map, lookup}

-- the rules of a state, in the order in which they were added
abbrev pub Rules : Type 0
Rules = List (Bytes × Bytes)

pub record Token : Type 0 where
  pub text : Bytes
  pub kind : Bytes
  pub line : ℕ
  pub column : ℕ

pub record Tokenizer : Type 0 where
  pub buffer : Bytes
  pub state_prev : Bytes
  pub state_current : Bytes
  pub rules : Map Bytes Rules
  pub line : ℕ
  pub colmn : ℕ
  pub current_l : ℕ
  pub current_c : ℕ

-- the names that the setters may change, as they are at first
abbrev pub state_initial : Bytes
state_initial = codes "#rd"

abbrev pub state_error : Bytes
state_error = codes "#er"

abbrev pub class_default : Bytes
class_default = codes "$df"

-- `reset()`: the rules are lost as well.
unfoldable pub reset : Tokenizer
reset = record {
  buffer = [];
  state_prev = state_initial;
  state_current = state_initial;
  rules = [];
  line = 0;
  colmn = 0;
  current_l = 0;
  current_c = 0;
}

-- whether a state is final and takes the symbol, and whether it is final
unfoldable pub is_self : Bytes → Bool
is_self [] = false
is_self (c ∷ s) = c == b'<'

unfoldable pub state_final : Bytes → Bool
state_final [] = false
state_final (c ∷ s) = c == b'<' || c == b'^'

abbrev pub no_text : Bytes → Bool
no_text [] = true
no_text (c ∷ s) = false

unfoldable pub set_state : Bytes → Tokenizer → Tokenizer
set_state s t =
    let moved = record t { state_prev = t.state_current; state_current = s } in
    if same s state_initial then record moved { line = t.current_l; colmn = t.current_c } else moved

unfoldable pub create_token : Tokenizer → Bytes → Bytes → Token
create_token t text kind = record { text = text; kind = kind; line = t.line; column = t.colmn }

-- what the loop over the rules of a state finds
pub record RuleChoice : Type 0 where
  pub default_state : Bytes
  pub match_state : Bytes
  pub final_states : List Bytes

abbrev pub no_choice : RuleChoice
no_choice = record { default_state = []; match_state = []; final_states = [] }

-- What is left to do: nothing, or `accept(sym)` once more, in the state that was set.
pub data Reaction : Type 0 where
  done : Tokenizer → List Token → Reaction
  again : Tokenizer → List Token → Reaction

-- the branches for a rule that matches
unfoldable pub follow_match : ℕ → Bytes → Tokenizer → Reaction
follow_match sym next t =
    if state_final next
    then (if same t.state_current state_initial
        then done (record t { buffer = [] }) (create_token t (sym ∷ []) next ∷ [])
        else if is_self next
        then done (set_state state_initial (record t { buffer = [] }))
            (create_token t (t.buffer ++ sym ∷ []) next ∷ [])
        else again (set_state state_initial (record t { buffer = [] }))
            (create_token t t.buffer next ∷ []))
    else done (set_state next (record t { buffer = t.buffer ++ sym ∷ [] })) []

-- the branches for the default
unfoldable pub follow_default : ℕ → Bytes → Tokenizer → Reaction
follow_default sym next t =
    if state_final next
    then (if is_self next
        then done (set_state state_initial (record t { buffer = [] }))
            (create_token t (t.buffer ++ sym ∷ []) next ∷ [])
        else again (set_state state_initial (record t { buffer = [] }))
            (create_token t t.buffer next ∷ []))
    else done (record (set_state next t) { buffer = t.buffer ++ sym ∷ [] }) []

-- the end of the input, for which the symbol 0 stands
unfoldable pub end_input : List Bytes → Tokenizer → Result Reaction
end_input finals t =
    if not (same t.state_current state_initial) && not (no_text t.buffer)
    then (elim finals [
      | [] ↦ err end_of_input
      | f ∷ fs ↦ ok (done reset (create_token t t.buffer f ∷ []))
    ])
    else ok (done reset [])

unfoldable pub react : ℕ → RuleChoice → Tokenizer → Result Reaction
react sym c t =
    if sym == 0
    then end_input c.final_states t
    else if same c.match_state state_error
    then err bad_character
    else if not (no_text c.match_state)
    then ok (follow_match sym c.match_state t)
    else if not (no_text c.default_state)
    then ok (follow_default sym c.default_state t)
    else err bad_character

-- the counters of lines and columns behind a symbol
unfoldable pub count_symbol : ℕ → Tokenizer → Tokenizer
count_symbol sym t =
    if sym == b'\n'
    then record t { current_l = t.current_l + 1; current_c = 0 }
    else record t { current_c = t.current_c + 1 }

abbrev pub after_reaction :
    (Tokenizer → Result (Tokenizer × List Token)) → Reaction → Result (Tokenizer × List Token)
after_reaction go (done t ts) = ok (t, ts)
after_reaction go (again t ts) = go t >>= λ p. ok (p.0, ts ++ p.1)

module _ (match : ℕ → Bytes → Result Bool) where
  -- one round of the loop over the rules: the last default counts, and the first match
  unfoldable pub weigh : ℕ → Bytes × Bytes → RuleChoice → Result RuleChoice
  weigh sym (class, next) c =
      let c' = record c {
        final_states =
            (if sym == 0 && state_final next then c.final_states ++ next ∷ [] else c.final_states);
      } in
      if same class class_default
      then ok (record c' { default_state = next })
      else if no_text c.match_state
      then (match sym class >>= λ b. ok (if b then record c' { match_state = next } else c'))
      else ok c'

  unfoldable pub choose : ℕ → Rules → RuleChoice → Result RuleChoice
  choose sym [] c = ok c
  choose sym (r ∷ rs) c = weigh sym r c >>= λ c'. choose sym rs c'

  -- `accept`, whose calls of itself are counted. A state without rules takes the symbol silently.
  unfoldable pub accept : ℕ → ℕ → Tokenizer → Result (Tokenizer × List Token)
  accept zero sym t = err endless
  accept (suc fuel) sym t = elim (lookup t.state_current t.rules) [
    | none ↦ ok (t, [])
    | some rs ↦ choose sym rs no_choice >>= λ c.
        react sym c t >>= λ r. after_reaction (λ t'. accept fuel sym t') r
  ]

  -- `accept_char`, and the loop of `accept_string`
  unfoldable pub accept_char : ℕ → ℕ → Tokenizer → Result (Tokenizer × List Token)
  accept_char fuel sym t = accept fuel sym t >>= λ p. ok (count_symbol sym p.0, p.1)

  unfoldable pub accept_string : ℕ → Bytes → Tokenizer → Result (Tokenizer × List Token)
  accept_string fuel [] t = ok (t, [])
  accept_string fuel (sym ∷ s) t =
      accept_char fuel sym t >>= λ p. accept_string fuel s p.0 >>= λ q. ok (q.0, p.1 ++ q.1)

  unfoldable pub finalize : ℕ → Tokenizer → Result (Tokenizer × List Token)
  finalize fuel t = accept fuel 0 t

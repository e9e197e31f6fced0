-- ===== src/Tokenizer/Kept.antt =====
-- support/fsm_tokenizer.hpp: what one reaction to a symbol keeps of the buffer and of the states.
use test_assignment.Prelude.{
  ℕ, Bool, true, false, not, ◌&&◌, ◌||◌, List, [], ◌∷◌, ◌++◌, Bytes, ◌≡◌, refl, sym, ap, ◌∙◌,
  append-nil, append_assoc, same, ◌==◌, if◌then◌else◌, all, arith, Bool-cases, inl, inr, &&-left,
  &&-right,
}
use test_assignment.Prelude.Order.{bytes_order}
use test_assignment.Prelude.Result.{Result, ok, err, ◌>>=◌, Result-cases}
use test_assignment.Map.{Map, member}
use test_assignment.Tokenizer.{
  Rules, Token, Tokenizer, state_initial, state_error, class_default, is_self, state_final, no_text,
  set_state, create_token, RuleChoice, Reaction, done, again, follow_match, follow_default, react,
  weigh, choose,
}

abbrev pub texts : List Token → Bytes
texts [] = []
texts (t ∷ ts) = t.text ++ texts ts

-- a next state that is final, or has rules and is not the initial one
abbrev pub leads : Map Bytes Rules → Bytes → Bool
leads rules s = state_final s || (not (same s state_initial) && member s rules)

abbrev pub all_lead : Map Bytes Rules → Rules → Bool
all_lead rules rs = all (λ r. leads rules r.1) rs

-- The rules lead nowhere where there are none.
abbrev pub closed : Map Bytes Rules → Bool
closed rules = all (λ e. all_lead rules e.1) rules && member state_initial rules

-- A state with rules; the initial one has nothing in the buffer.
abbrev pub IsReady : Tokenizer → Type 0
IsReady t =
    (closed t.rules ≡ true)
    × (member t.state_current t.rules ≡ true)
    × ((same t.state_current state_initial && not (no_text t.buffer)) ≡ false)

pub texts-append : (ts us : List Token) → texts (ts ++ us) ≡ texts ts ++ texts us
texts-append [] us = refl
texts-append (t ∷ ts) us =
    ap (λ s. t.text ++ s) (texts-append ts us) ∙ sym (append_assoc t.text (texts ts) (texts us))

-- what a reaction has to keep of the buffer and the symbol
abbrev pub Kept : ℕ → Tokenizer → Reaction → Type 0
Kept c t (done t' ts) = (texts ts ++ t'.buffer ≡ t.buffer ++ c ∷ []) × IsReady t'
Kept c t (again t' ts) = (texts ts ++ t'.buffer ≡ t.buffer) × IsReady t'

-- the initial state, with an empty buffer
pub at_start :
    (t : Tokenizer)
    → closed t.rules ≡ true
    → IsReady (set_state state_initial (record t { buffer = [] }))
unfolding set_state
at_start t h = (h, &&-right _ _ h, refl)

pub one_text : (a b : Bytes) → (a ++ []) ++ [] ≡ a
one_text a b = append-nil (a ++ []) ∙ append-nil a

pub empty_eq : (a : Bytes) → no_text a ≡ true → a ≡ []
empty_eq [] h = refl
empty_eq (x ∷ a) h = cc

pub started :
    (t : Tokenizer) → IsReady t → same t.state_current state_initial ≡ true → t.buffer ≡ []
started t r i = empty_eq t.buffer (ground (arith, r.2, i))

-- the branches that the two kinds of rules have in common
pub final-Kept :
    (c : ℕ) (next : Bytes) (t : Tokenizer)
    → closed t.rules ≡ true
    → Kept c t (
        if is_self next
        then done
            (set_state state_initial (record t { buffer = [] }))
            (create_token t (t.buffer ++ c ∷ []) next ∷ [])
        else again
            (set_state state_initial (record t { buffer = [] }))
            (create_token t t.buffer next ∷ []))
unfolding set_state create_token
final-Kept c next t h = elim (Bool-cases (is_self next)) [
  | inl e ↦ rw e (one_text (t.buffer ++ c ∷ []) [], at_start t h)
  | inr e ↦ rw e (one_text t.buffer [], at_start t h)
]

pub follow_match-Kept :
    (c : ℕ) (next : Bytes) (t : Tokenizer)
    → IsReady t
    → leads t.rules next ≡ true
    → Kept c t (follow_match c next t)
unfolding follow_match set_state create_token
follow_match-Kept c next t r l = elim (Bool-cases (state_final next)) [
  | inl f ↦ elim (Bool-cases (same t.state_current state_initial)) [
    | inl i ↦ rw (f, i) (rw (started t r i) refl, (r.0, r.1, ground arith))
    | inr i ↦ rw (f, i) (final-Kept c next t r.0)
  ]
  | inr f ↦
      let goes : (not (same next state_initial) && member next t.rules) ≡ true =
        ground (arith, l, f) in
      let other : same next state_initial ≡ false = ground (arith, goes) in
      rw (f, other) (refl, (r.0, &&-right _ _ goes, rw other refl))
]

pub follow_default-Kept :
    (c : ℕ) (next : Bytes) (t : Tokenizer)
    → IsReady t
    → leads t.rules next ≡ true
    → Kept c t (follow_default c next t)
unfolding follow_default set_state
follow_default-Kept c next t r l = elim (Bool-cases (state_final next)) [
  | inl f ↦ rw f (final-Kept c next t r.0)
  | inr f ↦
      let goes : (not (same next state_initial) && member next t.rules) ≡ true =
        ground (arith, l, f) in
      let other : same next state_initial ≡ false = ground (arith, goes) in
      rw (f, other) (refl, (r.0, &&-right _ _ goes, rw other refl))
]

-- a property of what a call returns, if it returns
abbrev pub Returns : {A : Type 0} → (A → Type 0) → Result A → Type 0
Returns P (ok a) = P a
Returns P (err e) = Unit

pub bind-Returns :
    {A B : Type 0} (P : A → Type 0) (Q : B → Type 0) (m : Result A) (f : A → Result B)
    → Returns P m
    → ((a : A) → P a → Returns Q (f a))
    → Returns Q (m >>= f)
bind-Returns P Q (ok a) f h k = k a h
bind-Returns P Q (err e) f h k = tt

-- the states that a choice may go to
abbrev pub sound : Map Bytes Rules → RuleChoice → Bool
sound rules c =
    (no_text c.match_state || leads rules c.match_state)
    && (no_text c.default_state || leads rules c.default_state)

module _ (match : ℕ → Bytes → Result Bool) where
  weigh-sound :
      (rules : Map Bytes Rules) (c : ℕ) (r : Bytes × Bytes) (ch : RuleChoice)
      → leads rules r.1 ≡ true
      → sound rules ch ≡ true
      → Returns (λ ch'. sound rules ch' ≡ true) (weigh match c r ch)
  unfolding weigh
  weigh-sound rules c (class, next) ch l h = elim (Bool-cases (same class class_default)) [
    | inl d ↦ rw d (ground (arith, l, h))
    | inr d ↦ elim (Bool-cases (no_text ch.match_state)) [
      | inr e ↦ rw (d, e) h
      | inl e ↦ elim (Result-cases (match c class)) [
        | inr (f, q) ↦ rw (d, e, q) tt
        | inl (b, q) ↦ elim (Bool-cases b) [
          | inl y ↦ rw (d, e, q, y) (ground (arith, l, h))
          | inr y ↦ rw (d, e, q, y) h
        ]
      ]
    ]
  ]

  pub choose-sound :
      (rules : Map Bytes Rules) (c : ℕ) (rs : Rules) (ch : RuleChoice)
      → all_lead rules rs ≡ true
      → sound rules ch ≡ true
      → Returns (λ ch'. sound rules ch' ≡ true) (choose match c rs ch)
  unfolding choose
  choose-sound rules c [] ch l h = h
  choose-sound rules c (r ∷ rs) ch l h =
      bind-Returns (λ ch'. sound rules ch' ≡ true) (λ ch'. sound rules ch' ≡ true)
        (weigh match c r ch) (λ ch'. choose match c rs ch')
        (weigh-sound rules c r ch (&&-left _ _ l) h)
        (λ ch' k. choose-sound rules c rs ch' (&&-right _ _ l) k)

pub react-Kept :
    (c : ℕ) (ch : RuleChoice) (t : Tokenizer)
    → (c == 0) ≡ false
    → IsReady t
    → sound t.rules ch ≡ true
    → Returns (Kept c t) (react c ch t)
unfolding react
react-Kept c ch t z r h = elim (Bool-cases (same ch.match_state state_error)) [
  | inl e ↦ rw (z, e) tt
  | inr e ↦ elim (Bool-cases (no_text ch.match_state)) [
    | inr m ↦ rw (z, e, m) (follow_match-Kept c ch.match_state t r (ground (arith, h, m)))
    | inl m ↦ elim (Bool-cases (no_text ch.default_state)) [
      | inr d ↦ rw (z, e, m, d) (follow_default-Kept c ch.default_state t r (ground (arith, h, d)))
      | inl d ↦ rw (z, e, m, d) tt
    ]
  ]
]

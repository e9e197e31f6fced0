-- ===== src/Tokenizer/Progress.antt =====
-- support/fsm_tokenizer.hpp: how often `accept` calls itself.
use test_assignment.Prelude.{
  ℕ, suc, Bool, true, false, not, ◌&&◌, Option, none, some, List, [], ◌∷◌, ◌++◌, Bytes, ◌≡◌, refl,
  same, ◌==◌, if◌then◌else◌, all, arith, Bool-cases, List-cases, Option-cases, inl, inr, &&-left,
  &&-right,
}
use test_assignment.Prelude.Order.{bytes_order}
use test_assignment.Prelude.Result.{Result, ok, err, ◌>>=◌, Result-cases}
use test_assignment.Map.{Map, lookup}
use test_assignment.Tokenizer.{
  Rules, Token, Tokenizer, state_initial, state_error, class_default, is_self, state_final, no_text,
  set_state, create_token, RuleChoice, no_choice, Reaction, done, again, follow_match,
  follow_default, reset, end_input, react, after_reaction, weigh, choose, accept,
}
use test_assignment.Tokenizer.Kept.{Returns, bind-Returns}

-- a final state that leaves the symbol to the next token
abbrev pub is_outer : Bytes → Bool
is_outer s = state_final s && not (is_self s)

abbrev pub stays : Rules → Bool
stays rs = all (λ r. not (same r.0 class_default && is_outer r.1)) rs

-- no default of the initial state leaves its symbol to the next token
abbrev pub settled : Option Rules → Bool
settled none = true
settled (some rs) = stays rs

abbrev pub moves_on : Map Bytes Rules → Bool
moves_on rules = settled (lookup state_initial rules)

pub Returns-any : {A : Type 0} (m : Result A) → Returns (λ a. Unit) m
Returns-any (ok a) = tt
Returns-any (err e) = tt

bind-agree :
    {A B : Type 0} (P : A → Type 0) (m : Result A) (f g : A → Result B)
    → Returns P m
    → ((a : A) → P a → f a ≡ g a)
    → m >>= f ≡ m >>= g
bind-agree P (ok a) f g h k = k a h
bind-agree P (err e) f g h k = refl

abbrev pub is_done : Reaction → Bool
is_done (done t ts) = true
is_done (again t ts) = false

-- the state of a second call
abbrev pub Restarts : Tokenizer → Reaction → Type 0
Restarts t (done t' ts) = Unit
Restarts t (again t' ts) = (t'.state_current ≡ state_initial) × (t'.rules ≡ t.rules)

outer-Restarts :
    (c : ℕ) (next : Bytes) (t : Tokenizer)
    → Restarts t (
        if is_self next
        then done
            (set_state state_initial (record t { buffer = [] }))
            (create_token t (t.buffer ++ c ∷ []) next ∷ [])
        else again
            (set_state state_initial (record t { buffer = [] }))
            (create_token t t.buffer next ∷ []))
unfolding set_state
outer-Restarts c next t = elim (Bool-cases (is_self next)) [
  | inl e ↦ rw e tt
  | inr e ↦ rw e (refl, refl)
]

follow_match-Restarts : (c : ℕ) (next : Bytes) (t : Tokenizer) → Restarts t (follow_match c next t)
unfolding follow_match
follow_match-Restarts c next t = elim (Bool-cases (state_final next)) [
  | inr f ↦ rw f tt
  | inl f ↦ elim (Bool-cases (same t.state_current state_initial)) [
    | inl i ↦ rw (f, i) tt
    | inr i ↦ rw (f, i) (outer-Restarts c next t)
  ]
]

follow_default-Restarts :
    (c : ℕ) (next : Bytes) (t : Tokenizer) → Restarts t (follow_default c next t)
unfolding follow_default
follow_default-Restarts c next t = elim (Bool-cases (state_final next)) [
  | inr f ↦ rw f tt
  | inl f ↦ rw f (outer-Restarts c next t)
]

-- a property that each branch of `react` has
react_by :
    (P : Reaction → Type 0) (c : ℕ) (ch : RuleChoice) (t : Tokenizer)
    → ((ts : List Token) → P (done reset ts))
    → P (follow_match c ch.match_state t)
    → P (follow_default c ch.default_state t)
    → Returns P (react c ch t)
unfolding react end_input
react_by P c ch t f g h = elim (Bool-cases (c == 0)) [
  | inl z ↦ elim (Bool-cases (not (same t.state_current state_initial) && not (no_text t.buffer))) [
    | inr n ↦ rw (z, n) (f [])
    | inl n ↦ elim (List-cases ch.final_states) [
      | inl e ↦ rw (z, n, e) tt
      | inr (s, ss, e) ↦ rw (z, n, e) (f _)
    ]
  ]
  | inr z ↦ elim (Bool-cases (same ch.match_state state_error)) [
    | inl e ↦ rw (z, e) tt
    | inr e ↦ elim (Bool-cases (no_text ch.match_state)) [
      | inr m ↦ rw (z, e, m) g
      | inl m ↦ elim (Bool-cases (no_text ch.default_state)) [
        | inr d ↦ rw (z, e, m, d) h
        | inl d ↦ rw (z, e, m, d) tt
      ]
    ]
  ]
]

pub react-Restarts : (c : ℕ) (ch : RuleChoice) (t : Tokenizer) → Returns (Restarts t) (react c ch t)
react-Restarts c ch t =
    react_by (Restarts t) c ch t (λ ts. tt) (follow_match-Restarts c ch.match_state t)
      (follow_default-Restarts c ch.default_state t)

match_done :
    (c : ℕ) (next : Bytes) (t : Tokenizer)
    → same t.state_current state_initial ≡ true
    → is_done (follow_match c next t) ≡ true
unfolding follow_match
match_done c next t i = elim (Bool-cases (state_final next)) [
  | inr f ↦ rw f refl
  | inl f ↦ rw (f, i) refl
]

default_done :
    (c : ℕ) (next : Bytes) (t : Tokenizer)
    → is_outer next ≡ false
    → is_done (follow_default c next t) ≡ true
unfolding follow_default
default_done c next t o = elim (Bool-cases (state_final next)) [
  | inr f ↦ rw f refl
  | inl f ↦ let self : is_self next ≡ true = ground (arith, o, f) in rw (f, self) refl
]

pub react_done :
    (c : ℕ) (ch : RuleChoice) (t : Tokenizer)
    → t.state_current ≡ state_initial
    → is_outer ch.default_state ≡ false
    → Returns (λ r. is_done r ≡ true) (react c ch t)
react_done c ch t i o =
    react_by (λ r. is_done r ≡ true) c ch t (λ ts. refl) (match_done c ch.match_state t (rw i refl))
      (default_done c ch.default_state t o)

done_agree :
    (f g : Tokenizer → Result (Tokenizer × List Token)) (r : Reaction)
    → is_done r ≡ true
    → after_reaction f r ≡ after_reaction g r
done_agree f g (done t ts) h = refl
done_agree f g (again t ts) h = cc

module _ (match : ℕ → Bytes → Result Bool) where
  weigh_inner :
      (c : ℕ) (r : Bytes × Bytes) (ch : RuleChoice)
      → (same r.0 class_default && is_outer r.1) ≡ false
      → is_outer ch.default_state ≡ false
      → Returns (λ ch'. is_outer ch'.default_state ≡ false) (weigh match c r ch)
  unfolding weigh
  weigh_inner c (class, next) ch h o = elim (Bool-cases (same class class_default)) [
    | inl d ↦ rw d (ground (arith, h, d))
    | inr d ↦ elim (Bool-cases (no_text ch.match_state)) [
      | inr e ↦ rw (d, e) o
      | inl e ↦ elim (Result-cases (match c class)) [
        | inr (f, q) ↦ rw (d, e, q) tt
        | inl (b, q) ↦ elim (Bool-cases b) [ inl y ↦ rw (d, e, q, y) o | inr y ↦ rw (d, e, q, y) o ]
      ]
    ]
  ]

  pub choose_inner :
      (c : ℕ) (rs : Rules) (ch : RuleChoice)
      → stays rs ≡ true
      → is_outer ch.default_state ≡ false
      → Returns (λ ch'. is_outer ch'.default_state ≡ false) (choose match c rs ch)
  unfolding choose
  choose_inner c [] ch h o = o
  choose_inner c (r ∷ rs) ch h o =
      let first : (same r.0 class_default && is_outer r.1) ≡ false =
        ground (arith, &&-left (not (same r.0 class_default && is_outer r.1)) (stays rs) h) in
      bind-Returns (λ ch'. is_outer ch'.default_state ≡ false)
        (λ ch'. is_outer ch'.default_state ≡ false) (weigh match c r ch)
        (λ ch'. choose match c rs ch') (weigh_inner c r ch first o)
        (λ ch' k. choose_inner c rs ch' (&&-right _ _ h) k)

  -- in the initial state, one call is enough
  accept_once :
      (fuel c : ℕ) (t : Tokenizer)
      → t.state_current ≡ state_initial
      → moves_on t.rules ≡ true
      → accept match (suc fuel) c t ≡ accept match 1 c t
  unfolding accept state_final
  accept_once fuel c t i h = elim (Option-cases (lookup t.state_current t.rules)) [
    | inl q ↦ rw (q, accept) refl
    | inr (rs, q) ↦
        let here : lookup state_initial t.rules ≡ some rs = rw i at q in
        let kept : stays rs ≡ true = rw here at h in
        rw (q, accept)
          (bind-agree (λ ch. is_outer ch.default_state ≡ false) (choose match c rs no_choice) _ _
            (choose_inner c rs no_choice kept refl)
            (λ ch o.
              bind-agree (λ r. is_done r ≡ true) (react c ch t) _ _ (react_done c ch t i o)
                (λ r d. done_agree (λ t'. accept match fuel c t') (λ t'. accept match 0 c t') r d)))
  ]

  twice_agree :
      (fuel c : ℕ) (t : Tokenizer) (r : Reaction)
      → moves_on t.rules ≡ true
      → Restarts t r
      → after_reaction (λ t'. accept match (suc fuel) c t') r
        ≡ after_reaction (λ t'. accept match 1 c t') r
  twice_agree fuel c t (done t' ts) h k = refl
  twice_agree fuel c t (again t' ts) h k =
      let same_rules : moves_on t'.rules ≡ true = rw k.1 h in
      rw (accept_once fuel c t' k.0 same_rules) refl

  pub agree_twice :
      (fuel c : ℕ) (t : Tokenizer)
      → moves_on t.rules ≡ true
      → accept match (suc (suc fuel)) c t ≡ accept match 2 c t
  unfolding accept
  agree_twice fuel c t h = elim (Option-cases (lookup t.state_current t.rules)) [
    | inl q ↦ rw (q, accept) refl
    | inr (rs, q) ↦
        rw (q, accept)
          (bind-agree (λ ch. Unit) (choose match c rs no_choice) _ _
            (Returns-any (choose match c rs no_choice))
            (λ ch o.
              bind-agree (Restarts t) (react c ch t) _ _ (react-Restarts c ch t)
                (λ r k. twice_agree fuel c t r h k)))
  ]

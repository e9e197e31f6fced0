-- ===== src/Tokenizer/Ends.antt =====
-- support/fsm_tokenizer.hpp: `accept` comes to an end.
use test_assignment.Prelude.{
  ℕ, suc, Bool, true, false, not, ◌&&◌, some, List, [], ◌∷◌, Bytes, ◌≡◌, refl, same, ◌==◌,
  Bool-cases, List-cases, Option-cases, inl, inr,
}
use test_assignment.Prelude.Order.{bytes_order}
use test_assignment.Prelude.Result.{Failure, Result, ok, err, endless, ◌>>=◌}
use test_assignment.Map.{lookup}
use test_assignment.Tokenizer.{
  Rules, Token, Tokenizer, state_initial, state_error, class_default, state_final, no_text,
  RuleChoice, no_choice, Reaction, done, again, end_input, react, after_reaction, weigh, choose,
  accept,
}
use test_assignment.Tokenizer.Kept.{Returns}
use test_assignment.Tokenizer.Progress.{
  is_outer, stays, moves_on, is_done, Restarts, agree_twice, Returns-any, choose_inner, react_done,
  react-Restarts,
}

abbrev comes_to_end : Failure → Bool
comes_to_end endless = false
comes_to_end _ = true

-- whether a call comes to an end, with a result or an exception
abbrev pub ends : {A : Type 0} → Result A → Bool
ends (ok a) = true
ends (err f) = comes_to_end f

bind_ends :
    {A B : Type 0} (P : A → Type 0) (m : Result A) (f : A → Result B)
    → ends m ≡ true
    → Returns P m
    → ((a : A) → P a → ends (f a) ≡ true)
    → ends (m >>= f) ≡ true
bind_ends P (ok a) f e h k = k a h
bind_ends P (err x) f e h k = e

react-ends : (c : ℕ) (ch : RuleChoice) (t : Tokenizer) → ends (react c ch t) ≡ true
unfolding react end_input
react-ends c ch t = elim (Bool-cases (c == 0)) [
  | inl z ↦ elim (Bool-cases (not (same t.state_current state_initial) && not (no_text t.buffer))) [
    | inr n ↦ rw (z, n) refl
    | inl n ↦ elim (List-cases ch.final_states) [
      | inl e ↦ rw (z, n, e) refl
      | inr (s, ss, e) ↦ rw (z, n, e) refl
    ]
  ]
  | inr z ↦ elim (Bool-cases (same ch.match_state state_error)) [
    | inl e ↦ rw (z, e) refl
    | inr e ↦ elim (Bool-cases (no_text ch.match_state)) [
      | inr m ↦ rw (z, e, m) refl
      | inl m ↦ elim (Bool-cases (no_text ch.default_state)) [
        | inr d ↦ rw (z, e, m, d) refl
        | inl d ↦ rw (z, e, m, d) refl
      ]
    ]
  ]
]

done_ends :
    (f : Tokenizer → Result (Tokenizer × List Token)) (r : Reaction)
    → is_done r ≡ true
    → ends (after_reaction f r) ≡ true
done_ends f (done t ts) h = refl
done_ends f (again t ts) h = cc

module _ (match : ℕ → Bytes → Result Bool)
    (match_ends : (c : ℕ) (s : Bytes) → ends (match c s) ≡ true) where
  weigh-ends : (c : ℕ) (r : Bytes × Bytes) (ch : RuleChoice) → ends (weigh match c r ch) ≡ true
  unfolding weigh
  weigh-ends c (class, next) ch = elim (Bool-cases (same class class_default)) [
    | inl d ↦ rw d refl
    | inr d ↦ elim (Bool-cases (no_text ch.match_state)) [
      | inr e ↦ rw (d, e) refl
      | inl e ↦
          rw (d, e)
            (bind_ends (λ b. Unit) (match c class) _ (match_ends c class)
              (Returns-any (match c class)) (λ b u. refl))
    ]
  ]

  choose-ends : (c : ℕ) (rs : Rules) (ch : RuleChoice) → ends (choose match c rs ch) ≡ true
  unfolding choose
  choose-ends c [] ch = refl
  choose-ends c (r ∷ rs) ch =
      bind_ends (λ ch'. Unit) (weigh match c r ch) _ (weigh-ends c r ch)
        (Returns-any (weigh match c r ch)) (λ ch' u. choose-ends c rs ch')

  once_ends :
      (c : ℕ) (t : Tokenizer)
      → t.state_current ≡ state_initial
      → moves_on t.rules ≡ true
      → ends (accept match 1 c t) ≡ true
  unfolding accept state_final
  once_ends c t i h = elim (Option-cases (lookup t.state_current t.rules)) [
    | inl q ↦ rw (q, accept) refl
    | inr (rs, q) ↦
        let here : lookup state_initial t.rules ≡ some rs = rw i at q in
        let kept : stays rs ≡ true = rw here at h in
        rw (q, accept)
          (bind_ends (λ ch. is_outer ch.default_state ≡ false) (choose match c rs no_choice) _
            (choose-ends c rs no_choice) (choose_inner match c rs no_choice kept refl)
            (λ ch o.
              bind_ends (λ r. is_done r ≡ true) (react c ch t) _ (react-ends c ch t)
                (react_done c ch t i o) (λ r d. done_ends (λ t'. accept match 0 c t') r d)))
  ]

  after_ends :
      (c : ℕ) (t : Tokenizer) (r : Reaction)
      → moves_on t.rules ≡ true
      → Restarts t r
      → ends (after_reaction (λ t'. accept match 1 c t') r) ≡ true
  after_ends c t (done t' ts) h k = refl
  after_ends c t (again t' ts) h k =
      let same_rules : moves_on t'.rules ≡ true = rw k.1 h in
      bind_ends (λ p. Unit) (accept match 1 c t') _ (once_ends c t' k.0 same_rules)
        (Returns-any (accept match 1 c t')) (λ p u. refl)

  twice_ends : (c : ℕ) (t : Tokenizer) → moves_on t.rules ≡ true → ends (accept match 2 c t) ≡ true
  unfolding accept
  twice_ends c t h = elim (Option-cases (lookup t.state_current t.rules)) [
    | inl q ↦ rw (q, accept) refl
    | inr (rs, q) ↦
        rw (q, accept)
          (bind_ends (λ ch. Unit) (choose match c rs no_choice) _ (choose-ends c rs no_choice)
            (Returns-any (choose match c rs no_choice))
            (λ ch u.
              bind_ends (Restarts t) (react c ch t) _ (react-ends c ch t) (react-Restarts c ch t)
                (λ r k. after_ends c t r h k)))
  ]

  -- Where the test of a symbol ends and no default of the initial state leaves its symbol to the
  -- next token, `accept` calls itself once at most: two calls in all come to an end, and any
  -- greater number of calls comes to the same.
  pub accept_twice :
      (fuel c : ℕ) (t : Tokenizer)
      → moves_on t.rules ≡ true
      → (accept match (suc (suc fuel)) c t ≡ accept match 2 c t)
        × (ends (accept match 2 c t) ≡ true)
  accept_twice fuel c t h = (agree_twice match fuel c t h, twice_ends c t h)

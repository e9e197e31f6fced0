-- ===== src/Tokenizer/Lossless.antt =====
-- support/fsm_tokenizer.hpp: each symbol of a text is in one token or still in the buffer.
use test_assignment.Prelude.{
  ℕ, zero, suc, Bool, true, false, not, Option, none, some, List, [], ◌∷◌, ◌++◌, Bytes, ◌≡◌, refl,
  sym, ap, ◌∙◌, append-nil, append_assoc, ◌==◌, all, arith, Bool-cases, Option-cases, inl, inr,
  &&-left, &&-right,
}
use test_assignment.Prelude.Order.{bytes_order}
use test_assignment.Prelude.Result.{Result, ok}
use test_assignment.Map.{Map, lookup, member}
use test_assignment.Tokenizer.{
  Rules, Token, Tokenizer, no_choice, Reaction, done, again, react, after_reaction, choose, accept,
  count_symbol, accept_char, accept_string,
}
use test_assignment.Tokenizer.Kept.{
  texts, all_lead, IsReady, texts-append, Kept, Returns, bind-Returns, sound, choose-sound,
  react-Kept,
}

-- the rules that a state has, if any, lead somewhere
abbrev lead_on : Map Bytes Rules → Option Rules → Bool
lead_on rules none = true
lead_on rules (some rs) = all_lead rules rs

lead_on-lookup :
    (s : Bytes) (m rules : Map Bytes Rules)
    → all (λ e. all_lead rules e.1) m ≡ true
    → lead_on rules (lookup s m) ≡ true
unfolding lookup
lead_on-lookup s [] rules h = refl
lead_on-lookup s ((j, v) ∷ m) rules h =
    let first : all_lead rules v ≡ true = &&-left _ _ h in
    let later : all (λ e. all_lead rules e.1) m ≡ true = &&-right (all_lead rules v) _ h in
    ground (arith, lead_on-lookup s m rules later, first)

-- what a call of `accept` keeps
abbrev Passes : Bytes → Tokenizer → Tokenizer × List Token → Type 0
Passes s t p = (texts p.1 ++ p.0.buffer ≡ t.buffer ++ s) × IsReady p.0

Passes-again :
    (c : ℕ) (t t' : Tokenizer) (ts : List Token) (p : Tokenizer × List Token)
    → texts ts ++ t'.buffer ≡ t.buffer
    → Passes (c ∷ []) t' p
    → Passes (c ∷ []) t (p.0, ts ++ p.1)
Passes-again c t t' ts p h k = (
  rw (texts-append ts p.1) (
      append_assoc (texts ts) (texts p.1) p.0.buffer
      ∙ ap (λ s. texts ts ++ s) k.0
      ∙ sym (append_assoc (texts ts) t'.buffer (c ∷ []))
      ∙ ap (λ s. s ++ c ∷ []) h),
  k.1,
)

has_rules :
    (s : Bytes) (m : Map Bytes Rules) → member s m ≡ true → (rs : Rules) × (lookup s m ≡ some rs)
unfolding member
has_rules s m h = elim (Option-cases (lookup s m)) [
  | inr (rs, q) ↦ (rs, q)
  | inl q ↦ absurd (ground (arith, h, q))
]

module _ (match : ℕ → Bytes → Result Bool) where
  after_reaction-Passes :
      (c : ℕ) (t : Tokenizer) (go : Tokenizer → Result (Tokenizer × List Token)) (r : Reaction)
      → ((t' : Tokenizer) → IsReady t' → Returns (Passes (c ∷ []) t') (go t'))
      → Kept c t r
      → Returns (Passes (c ∷ []) t) (after_reaction go r)
  after_reaction-Passes c t go (done t' ts) h k = k
  after_reaction-Passes c t go (again t' ts) h k =
      bind-Returns (Passes (c ∷ []) t') (Passes (c ∷ []) t) (go t') (λ p. ok (p.0, ts ++ p.1))
        (h t' k.1) (λ p m. Passes-again c t t' ts p k.0 m)

  accept-Passes :
      (fuel c : ℕ) (t : Tokenizer)
      → (c == 0) ≡ false
      → IsReady t
      → Returns (Passes (c ∷ []) t) (accept match fuel c t)
  unfolding accept
  accept-Passes zero c t z r = tt
  accept-Passes (suc fuel) c t z r =
      let (rs, q) = has_rules t.state_current t.rules r.1 in
      let leading : all_lead t.rules rs ≡ true =
        rw q at (lead_on-lookup t.state_current t.rules t.rules (&&-left _ _ r.0)) in
      rw (q, Returns)
        (bind-Returns (λ ch. sound t.rules ch ≡ true) (Passes (c ∷ []) t)
          (choose match c rs no_choice) _ (choose-sound match t.rules c rs no_choice leading refl)
          (λ ch s.
            bind-Returns (Kept c t) (Passes (c ∷ []) t) (react c ch t) _ (react-Kept c ch t z r s)
              (λ k m.
                after_reaction-Passes c t (λ t'. accept match fuel c t') k
                  (λ t' r'. accept-Passes fuel c t' z r') m)))

  counted :
      (c : ℕ) (s : Bytes) (t : Tokenizer) (p : Tokenizer × List Token)
      → Passes s t p
      → Passes s t (count_symbol c p.0, p.1)
  unfolding count_symbol
  counted c s t p h = elim (Bool-cases (c == b'\n')) [ inl e ↦ rw e h | inr e ↦ rw e h ]

  Passes-append :
      (c : ℕ) (s : Bytes) (t : Tokenizer) (p q : Tokenizer × List Token)
      → Passes (c ∷ []) t p
      → Passes s p.0 q
      → Passes (c ∷ s) t (q.0, p.1 ++ q.1)
  Passes-append c s t p q h k = (
    rw (texts-append p.1 q.1) (
        append_assoc (texts p.1) (texts q.1) q.0.buffer
        ∙ ap (λ u. texts p.1 ++ u) k.0
        ∙ sym (append_assoc (texts p.1) p.0.buffer s)
        ∙ ap (λ u. u ++ s) h.0
        ∙ append_assoc t.buffer (c ∷ []) s),
    k.1,
  )

  accept_string-Passes :
      (fuel : ℕ) (s : Bytes) (t : Tokenizer)
      → all (λ c. not (c == 0)) s ≡ true
      → IsReady t
      → Returns (Passes s t) (accept_string match fuel s t)
  unfolding accept_string accept_char
  accept_string-Passes fuel [] t z r = (sym (append-nil t.buffer), r)
  accept_string-Passes fuel (c ∷ s) t z r =
      let here : not (c == 0) ≡ true = &&-left _ _ z in
      let nonzero : (c == 0) ≡ false = ground (arith, here) in
      let one =
        bind-Returns (Passes (c ∷ []) t) (Passes (c ∷ []) t) (accept match fuel c t)
          (λ p. ok (count_symbol c p.0, p.1)) (accept-Passes fuel c t nonzero r)
          (λ p h. counted c (c ∷ []) t p h) in
      bind-Returns (Passes (c ∷ []) t) (Passes (c ∷ s) t) _ _ one (λ p h.
        bind-Returns (Passes s p.0) (Passes (c ∷ s) t) (accept_string match fuel s p.0) _
          (accept_string-Passes fuel s p.0 (&&-right (not (c == 0)) _ z) h.1)
          (λ q k. Passes-append c s t p q h k))

  -- Where every next state of the rules is final or a state with rules other than the initial one,
  -- and the tokenizer is in a state with rules, whose buffer is empty if it is the initial one, no
  -- symbol of a text without the symbol 0 is lost or doubled: the texts of the tokens and what is
  -- left in the buffer are the buffer before and the text.
  pub accept_string-texts :
      (fuel : ℕ) (s : Bytes) (t t' : Tokenizer) (ts : List Token)
      → all (λ c. not (c == 0)) s ≡ true
      → IsReady t
      → accept_string match fuel s t ≡ ok (t', ts)
      → texts ts ++ t'.buffer ≡ t.buffer ++ s
  accept_string-texts fuel s t t' ts z r e = (rw e at (accept_string-Passes fuel s t z r)).0

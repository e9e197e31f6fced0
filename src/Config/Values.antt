-- ===== src/Config/Values.antt =====
-- src/configuration.hpp: which values of the file the configuration takes.
use test_assignment.Prelude.{
  ℕ, Bool, false, Option, none, some, Bytes, codes, ◌≡◌, refl, sym, ap, Bool-cases, Option-cases,
  inl, inr, arith, ◌∙◌, same, same→eq,
}
use mathlib.Core.Path.{subst}
use test_assignment.Prelude.Order.{bytes_order}
use test_assignment.Prelude.Result.{Result, ok, err, ◌>>=◌}
use test_assignment.Text.{strtolower}
use test_assignment.Json.Value.{Value}
use test_assignment.Json.Member.{at_key, or_null}
use test_assignment.Json.Member.Laws.{entry, entry-at_key, key_exists_of_some, key_exists_of_none}
use test_assignment.Json.Object.{as_string, as_boolean}
use test_assignment.Config.{
  Configuration, Surroundings, read_string, read_cron, read_data_type, read_file_name, log_switch,
  read_log, read_configuration,
}

-- What a call that returned has passed.
pub bind-ok :
    {A B : Type 0} (r : Result A) (f : A → Result B) (b : B)
    → (r >>= f) ≡ ok b
    → (a : A) × (r ≡ ok a) × (f a ≡ ok b)
bind-ok (ok a) f b h = (a, refl, h)
bind-ok (err e) f b h = ground arith

module _ (E : Surroundings) where
  -- the text of an entry of what the file holds
  abbrev pub text_of : Bytes → Value E.R.F → Result Bytes
  text_of name cfg = as_string E.R (or_null (entry name cfg))

  -- Each value is that of the entry of its own name: the data type in lower case, and the switch of
  -- the log off where it is not there.
  pub record IsReadFrom (cfg : Value E.R.F) (c : Configuration) : Type 0 where
    pub cron : text_of (codes "cron_string") cfg ≡ ok c.cron_string
    pub sched_cron : text_of (codes "failed_sched_cron_string") cfg ≡ ok c.failed_sched_cron_string
    pub type :
        (text_of (codes "fetched_data_type") cfg >>= λ t. ok (strtolower t))
        ≡ ok c.fetched_data_type
    pub data_file : text_of (codes "data_file_name") cfg ≡ ok c.data_file_name
    pub sched_file : text_of (codes "sched_file_name") cfg ≡ ok c.sched_file_name
    pub log_file : text_of (codes "log_file_name") cfg ≡ ok c.log_file_name
    pub switched : log_switch E cfg ≡ c.enable_log_file

  -- What the calls of `operator[]` leave of the entries: one that was not there may be null now, but
  -- not that of the switch.
  record Kept (cfg cfg' : Value E.R.F) : Type 0 where
    texts : (name : Bytes) → text_of name cfg' ≡ text_of name cfg
    switch : log_switch E cfg' ≡ log_switch E cfg

  abbrev switch_of : Option (Value E.R.F) → Bool
  switch_of none = false
  switch_of (some v) = as_boolean E.R v

  log_switch-entry :
      (cfg : Value E.R.F) → log_switch E cfg ≡ switch_of (entry (codes "enable_log_file") cfg)
  unfolding entry
  log_switch-entry cfg = elim (Option-cases (entry (codes "enable_log_file") cfg)) [
    | inl e ↦ rw (key_exists_of_none (codes "enable_log_file") cfg e, e) refl
    | inr (x, e) ↦ rw (key_exists_of_some (codes "enable_log_file") cfg e, e) refl
  ]

  text_of-at_key :
      (j name : Bytes) (cfg : Value E.R.F) → text_of j (at_key name (λ v. v) cfg) ≡ text_of j cfg
  text_of-at_key j name cfg =
      ap (λ o. as_string E.R (or_null o)) (entry-at_key name j (λ v. v) cfg)
      ∙ elim (Bool-cases (same j name)) [
        | inl e ↦ rw e (ap (λ k. as_string E.R (or_null (entry k cfg))) (sym (same→eq j name e)))
        | inr e ↦ rw e refl
      ]

  at_key-Kept :
      (name : Bytes) (cfg : Value E.R.F)
      → same (codes "enable_log_file") name ≡ false
      → Kept cfg (at_key name (λ v. v) cfg)
  at_key-Kept name cfg d = record {
    texts = λ j. text_of-at_key j name cfg;
    switch =
        log_switch-entry (at_key name (λ v. v) cfg)
        ∙ ap switch_of (entry-at_key name (codes "enable_log_file") (λ v. v) cfg ∙ rw d refl)
        ∙ sym (log_switch-entry cfg);
  }

  trans-Kept : (x y z : Value E.R.F) → Kept x y → Kept y z → Kept x z
  trans-Kept x y z k l = record {
    texts = λ name. l.texts name ∙ k.texts name;
    switch = l.switch ∙ k.switch;
  }

  -- What a call of `operator[]` has read, where it returned.
  HasRead : Bytes → Value E.R.F → Bytes × Value E.R.F → Type 0
  HasRead name cfg r = (text_of name cfg ≡ ok r.0) × Kept cfg r.1

  read_string-HasRead :
      (name : Bytes) (cfg : Value E.R.F) (r : Bytes × Value E.R.F)
      → same (codes "enable_log_file") name ≡ false
      → read_string E name cfg ≡ ok r
      → HasRead name cfg r
  unfolding read_string HasRead entry
  read_string-HasRead name cfg r d h =
      let (text, e, made) =
        bind-ok (text_of name cfg) (λ t. ok (t, at_key name (λ v. v) cfg)) r h in
      let same_pair : (text, at_key name (λ v. v) cfg) ≡ r = cc made in
      subst (HasRead name cfg) same_pair (e, at_key-Kept name cfg d)

  read_cron-HasRead :
      (now : ℕ) (name : Bytes) (cfg : Value E.R.F) (r : Bytes × Value E.R.F)
      → same (codes "enable_log_file") name ≡ false
      → read_cron E now name cfg ≡ ok r
      → HasRead name cfg r
  unfolding read_cron
  read_cron-HasRead now name cfg r d h = read_string-HasRead name cfg r d (ground arith)

  read_file_name-HasRead :
      (s : E.D.State) (name : Bytes) (cfg : Value E.R.F) (r : Bytes × Value E.R.F)
      → same (codes "enable_log_file") name ≡ false
      → read_file_name E s name cfg ≡ ok r
      → HasRead name cfg r
  unfolding read_file_name
  read_file_name-HasRead s name cfg r d h = read_string-HasRead name cfg r d (ground arith)

  type-HasRead :
      (cfg : Value E.R.F) (r : Bytes × Value E.R.F)
      → read_data_type E cfg ≡ ok r
      → ((text_of (codes "fetched_data_type") cfg >>= λ t. ok (strtolower t)) ≡ ok r.0)
        × Kept cfg r.1
  unfolding read_data_type HasRead
  type-HasRead cfg r h =
      let (q, e, h1) = bind-ok (read_string E (codes "fetched_data_type") cfg) _ r h in
      let (read, kept) = read_string-HasRead (codes "fetched_data_type") cfg q refl e in
      let same_pair : (strtolower q.0, q.1) ≡ r = ground arith in
      (rw read (ap (λ x. ok x.0) same_pair), subst (λ x. Kept cfg x.1) same_pair kept)

  log-HasRead :
      (s : E.D.State) (cfg : Value E.R.F) (r : Bool × Bytes)
      → read_log E s cfg ≡ ok r
      → (text_of (codes "log_file_name") cfg ≡ ok r.1) × (log_switch E cfg ≡ r.0)
  unfolding read_log HasRead
  log-HasRead s cfg r h =
      let (q, e, h1) = bind-ok (read_string E (codes "log_file_name") cfg) _ r h in
      let (read, kept) = read_string-HasRead (codes "log_file_name") cfg q refl e in
      let same_pair : (log_switch E cfg, q.0) ≡ r = ground arith in
      (read ∙ ap (λ x. ok x.1) same_pair, ap (λ x. x.0) same_pair)

  -- Every value of a configuration that was read is that of the entry of its own name.
  pub read_configuration-IsReadFrom :
      (now : ℕ) (filepath : Bytes) (s : E.D.State) (cfg : Value E.R.F) (c : Configuration)
      → read_configuration E now filepath s cfg ≡ ok c
      → IsReadFrom cfg c
  unfolding read_configuration HasRead
  read_configuration-IsReadFrom now filepath s cfg c h =
      let (cron, e1, h1) = bind-ok (read_cron E now (codes "cron_string") cfg) _ c h in
      let (sched_cron, e2, h2) =
        bind-ok (read_cron E now (codes "failed_sched_cron_string") cron.1) _ c h1 in
      let (type, e3, h3) = bind-ok (read_data_type E sched_cron.1) _ c h2 in
      let (rates, e4, h4) = bind-ok (read_file_name E s (codes "data_file_name") type.1) _ c h3 in
      let (sched, e5, h5) = bind-ok (read_file_name E s (codes "sched_file_name") rates.1) _ c h4 in
      let (log, e6, h6) = bind-ok (read_log E s sched.1) _ c h5 in
      let (r1, k1) = read_cron-HasRead now (codes "cron_string") cfg cron refl e1 in
      let (r2, k2) =
        read_cron-HasRead now (codes "failed_sched_cron_string") cron.1 sched_cron refl e2 in
      let (r3, k3) = type-HasRead sched_cron.1 type e3 in
      let (r4, k4) = read_file_name-HasRead s (codes "data_file_name") type.1 rates refl e4 in
      let (r5, k5) = read_file_name-HasRead s (codes "sched_file_name") rates.1 sched refl e5 in
      let (r6, on) = log-HasRead s sched.1 log e6 in
      let to2 = trans-Kept cfg cron.1 sched_cron.1 k1 k2 in
      let to3 = trans-Kept cfg sched_cron.1 type.1 to2 k3 in
      let to4 = trans-Kept cfg type.1 rates.1 to3 k4 in
      let to5 = trans-Kept cfg rates.1 sched.1 to4 k5 in
      let made : Configuration = record {
        filepath = filepath;
        cron_string = cron.0;
        failed_sched_cron_string = sched_cron.0;
        fetched_data_type = type.0;
        data_file_name = rates.0;
        sched_file_name = sched.0;
        enable_log_file = log.0;
        log_file_name = log.1;
      } in
      let same_one : made ≡ c = cc h6 in
      subst (IsReadFrom cfg) same_one (record {
        cron = r1;
        sched_cron = sym (k1.texts (codes "failed_sched_cron_string")) ∙ r2;
        type =
            ap (λ x. x >>= λ t. ok (strtolower t)) (sym (to2.texts (codes "fetched_data_type")))
            ∙ r3;
        data_file = sym (to3.texts (codes "data_file_name")) ∙ r4;
        sched_file = sym (to4.texts (codes "sched_file_name")) ∙ r5;
        log_file = sym (to5.texts (codes "log_file_name")) ∙ r6;
        switched = sym to5.switch ∙ on;
      })

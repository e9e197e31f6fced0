-- ===== src/Fetch/Cron.antt =====
-- src/exchange_rates_fetch_logic.hpp:46-98: the loop that both cron threads run. The cron library
-- is a copy of another project's.
use test_assignment.Prelude.{
  ℕ, ◌≤◌, ◌<◌, ◌≡◌, Bool, true, false, List, [], ◌∷◌, Bytes, same, ltb, arith, if◌then◌else◌,
}

-- `cron::make_cron` and `cron::cron_next`
pub record CronLibrary : Type 1 where
  pub Expression : Type 0
  pub make_cron : Bytes → Expression
  pub cron_next : Expression → ℕ → ℕ

-- `cron_next` is documented to find a time after the given one.
abbrev pub IsForward : CronLibrary → Type 0
IsForward L = (x : L.Expression) (t : ℕ) → t < L.cron_next x t

module _ (L : CronLibrary) where
  -- `cronstr`, `cron` and `next`
  pub record CronState : Type 0 where
    pub cronstr : Bytes
    pub cron : L.Expression
    pub next : ℕ

  unfoldable pub cron_start : Bytes → ℕ → CronState
  cron_start text now =
      let x = L.make_cron text in record { cronstr = text; cron = x; next = L.cron_next x now }

  -- a changed string in the configuration makes a new expression
  unfoldable pub reconfigure : Bytes → ℕ → CronState → CronState
  unfolding cron_start
  reconfigure text now s = if same s.cronstr text then s else cron_start text now

  -- One round at the time `now`: the state, and whether a job is put into the queue.
  unfoldable pub cron_round : Bytes → ℕ → CronState → CronState × Bool
  unfolding reconfigure
  cron_round text now s =
      let s' = reconfigure text now s in
      if ltb s'.next now then (record s' { next = L.cron_next s'.cron now }, true) else (s', false)

  -- The rounds of a thread: at each one the string in the configuration and the time.
  unfoldable pub cron_rounds : List (Bytes × ℕ) → CronState → List Bool
  unfolding cron_round
  cron_rounds [] s = []
  cron_rounds ((text, now) ∷ rounds) s =
      let (s', fired) = cron_round text now s in fired ∷ cron_rounds rounds s'

  -- After a round no firing is due: a job that was put into the queue leaves the next time ahead
  -- of the clock, and a changed configuration does so without a job, if the next time that the
  -- cron library gives lies ahead.
  pub cron_round_lem :
      (text : Bytes) (now : ℕ) (s : CronState)
      → IsForward L
      → (now ≤ (cron_round text now s).0.next)
        × ((if (cron_round text now s).1 then ltb now (cron_round text now s).0.next else true)
            ≡ true)
        × ((if same s.cronstr text then false else (cron_round text now s).1) ≡ false)
        × ((if same s.cronstr text then true else ltb now (cron_round text now s).0.next) ≡ true)
  unfolding cron_round
  cron_round_lem text now s h = ground (arith, h s.cron now, h (L.make_cron text) now)

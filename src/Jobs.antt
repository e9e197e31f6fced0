-- ===== src/Jobs.antt =====
-- support/command_queue.hpp: `command_queue`, the jobs that clients add and worker threads fetch,
-- and the three-valued latch by which the arbiter stops a worker between two jobs. What stands
-- under `evt_mtp_` is one step; an access to an atomic variable is one step. Times, the condition
-- variables and the arbiter's statistics decide when a step is taken, and any order is considered.
pub mod Steps
pub mod Order
pub mod Bounds
pub mod Latch
pub mod Deferred
use test_assignment.Prelude.{
  ℕ, zero, suc, ◌+◌, ◌<◌, Bool, true, false, Option, none, some, List, [], ◌∷◌, ◌++◌, ltb, leb,
  length, if◌then◌else◌,
}
use test_assignment.Prelude.Int.{ℤ, pos, negsuc, same_int}

-- `max_queue_len_`, `jobs_`, `hp_jobs_` and `size_approx_`
pub record CommandQueue (J : Type 0) : Type 0 where
  pub max_queue_len : ℕ
  pub jobs : List J
  pub hp_jobs : List J
  pub size_approx : ℕ

-- `work_or_stop_pending_` and where the worker's thread stands. `taking` is `fetch_job` with the
-- latch taken, `took` the end of its block, `gone` a thread that has seen `termination()`.
pub data WorkerPlace (J : Type 0) : Type 0 where
  top fetching taking gone : WorkerPlace J
  took : Option J → WorkerPlace J
  working : J → WorkerPlace J

-- A client of the queue, outside or behind the test of the queue's length.
pub data Client (J : Type 0) : Type 0 where
  outside : Client J
  admitted : Bool → J → Client J

-- `lock_for_processing`, `unlock_for_stop`, `prepare_for_stopping`: the latch goes from one
-- value to another where it has the first.
abbrev pub exchange : ℤ → ℤ → ℤ → ℤ × Bool
exchange latch expected wanted = if same_int latch expected then (wanted, true) else (latch, false)

abbrev pub lock_for_processing : ℤ → ℤ × Bool
lock_for_processing latch = exchange latch (pos 0) (negsuc 0)

abbrev pub unlock_for_stop : ℤ → ℤ × Bool
unlock_for_stop latch = exchange latch (negsuc 0) (pos 0)

abbrev pub prepare_for_stopping : ℤ → ℤ × Bool
prepare_for_stopping latch = exchange latch (pos 0) (pos 1)

abbrev pub doomed : ℤ → Bool
doomed latch = same_int latch (pos 1)

module _ {J : Type 0} where
  -- the constructor
  abbrev pub new_queue : ℕ → CommandQueue J
  new_queue max_len = record {
    max_queue_len = if ltb max_len 1 then 1 else max_len;
    jobs = [];
    hp_jobs = [];
    size_approx = 0;
  }

  abbrev pub size_approx_update : CommandQueue J → CommandQueue J
  size_approx_update q = record q { size_approx = length q.jobs + length q.hp_jobs }

  -- what `add_job` and `add_job_urgent` do under the mutex
  unfoldable pub push_job : Bool → J → CommandQueue J → CommandQueue J
  push_job true j q = size_approx_update (record q { hp_jobs = q.hp_jobs ++ j ∷ [] })
  push_job false j q = size_approx_update (record q { jobs = q.jobs ++ j ∷ [] })

  -- `add_job` and `add_job_urgent`: the loop that waits for room, then the job is put in
  unfoldable pub client_step : Bool → J → CommandQueue J → Client J → CommandQueue J × Client J
  client_step urgent j q outside =
      (q, (if leb q.max_queue_len q.size_approx then outside else admitted urgent j))
  client_step urgent j q (admitted u k) = (push_job u k q, outside)

  -- the two lists of `fetch_job`
  unfoldable pub take_from : List J → List J → CommandQueue J → Option J × CommandQueue J
  take_from (h ∷ hs) js q = (some h, size_approx_update (record q { hp_jobs = hs }))
  take_from [] (j ∷ js) q = (some j, size_approx_update (record q { jobs = js }))
  take_from [] [] q = (none, q)

  unfoldable pub take_job : CommandQueue J → Option J × CommandQueue J
  take_job q = take_from q.hp_jobs q.jobs q

  -- a job that was fetched is run; without one `fetch_job` goes round
  abbrev pub carry_on : Option J → WorkerPlace J
  carry_on (some j) = working j
  carry_on none = fetching

  -- One step of a worker's thread, with what `termination()` answers: the queue, the latch and the
  -- place behind it.
  unfoldable pub worker_step :
      Bool → CommandQueue J → ℤ → WorkerPlace J → CommandQueue J × ℤ × WorkerPlace J
  worker_step stop q latch top =
      (q, latch, (if stop then gone else if doomed latch then top else fetching))
  worker_step stop q latch fetching = if stop then (q, latch, top) else (
    q,
    (lock_for_processing latch).0,
    (if (lock_for_processing latch).1 then taking else top),
  )
  worker_step stop q latch taking = ((take_job q).1, latch, took (take_job q).0)
  worker_step stop q latch (took job) = (q, (unlock_for_stop latch).0, carry_on job)
  worker_step stop q latch (working j) = (q, latch, top)
  worker_step stop q latch gone = (q, latch, gone)

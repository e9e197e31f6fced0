-- ===== src/Jobs/Deferred.antt =====
-- support/command_queue.cpp: `deferred_command_queue`, jobs by the time at which they are due. The
-- times are `long double`, of which only the order and the test of the clock are used.
use test_assignment.Prelude.{
  ℕ, Bool, true, Option, none, some, [], ◌∷◌, ◌≡◌, refl, ltb, leb, length, arith, if◌then◌else◌,
}
use test_assignment.Prelude.Order.{Order}
use test_assignment.Map.{Map, insert, lookup}
use test_assignment.Map.Sorted.{IsSorted, IsAbove, insert-IsSorted}

module _ {T : Type 0} ⦃o : Order T⦄ {J : Type 0} where
  -- The second value under a key takes the place of the first.
  insert-insert : (t : T) (j k : J) (m : Map T J) → insert t j (insert t k m) ≡ insert t j m
  unfolding insert
  insert-insert t j k [] = ground (arith, o.self t)
  insert-insert t j k ((u, w) ∷ m) = ground (arith, o.self t, insert-insert t j k m)

-- `max_len_`, `jobs_` and `approx_size_`
pub record DeferredQueue (T J : Type 0) : Type 0 where
  pub max_len : ℕ
  pub jobs : Map T J
  pub approx_size : ℕ

-- `clamp(max_len, 1, 1000000)`
abbrev pub clamp : ℕ → ℕ → ℕ → ℕ
clamp v low high = if ltb v low then low else if ltb high v then high else v

module _ {T : Type 0} ⦃o : Order T⦄ {J : Type 0} where
  abbrev pub new_deferred : ℕ → DeferredQueue T J
  new_deferred max_len = record { max_len = clamp max_len 1 1000000; jobs = []; approx_size = 0 }

  -- `add_job_gmt_fire_time` and `add_job_timeout`, with the time at which the job is due: none
  -- where the queue is full and the call waits
  unfoldable pub add_job_at : T → J → DeferredQueue T J → Option (DeferredQueue T J)
  add_job_at fire j q =
      let jobs = insert fire j q.jobs in
      if leb q.max_len q.approx_size
      then none
      else some (record q { jobs = jobs; approx_size = length jobs })

  -- `fetch_job`, with whether a time is due: none where the thread waits
  unfoldable pub first_due :
      (T → Bool) → Map T J → DeferredQueue T J → Option (J × DeferredQueue T J)
  first_due due [] q = none
  first_due due ((t, j) ∷ rest) q =
      if due t then some (j, record q { jobs = rest; approx_size = length rest }) else none

  unfoldable pub fetch_due : (T → Bool) → DeferredQueue T J → Option (J × DeferredQueue T J)
  fetch_due due q = first_due due q.jobs q

  -- The keys ascend and the size is exact.
  pub record Inv (q : DeferredQueue T J) : Type 0 where
    pub sorted : IsSorted q.jobs
    pub exact : q.approx_size ≡ length q.jobs

  new_deferred-Inv : (max_len : ℕ) → Inv (new_deferred max_len)
  new_deferred-Inv max_len = record { sorted = tt; exact = refl }

  pub add-Inv :
      (fire : T) (j : J) (q q' : DeferredQueue T J) → Inv q → add_job_at fire j q ≡ some q' → Inv q'
  unfolding add_job_at
  add-Inv fire j q q' h e = record {
    sorted = ground (arith, insert-IsSorted fire j q.jobs h.sorted, e);
    exact = ground (arith, e);
  }

  first_out :
      (due : T → Bool) (m : Map T J) (q : DeferredQueue T J) (j : J) (q' : DeferredQueue T J)
      → IsSorted m
      → first_due due m q ≡ some (j, q')
      → (t : T) × (due t ≡ true) × (lookup t m ≡ some j) × IsAbove t q'.jobs × Inv q'
  unfolding first_due lookup
  first_out due [] q j q' s e = ground arith
  first_out due ((t, k) ∷ m) q j q' s e = (
    t,
    ground arith,
    ground (arith, o.self t),
    ground arith,
    record { sorted = ground arith; exact = ground arith },
  )

  -- What a thread fetches is a job whose time has come, and those that stay are due later.
  pub fetch_due-earliest :
      (due : T → Bool) (q : DeferredQueue T J) (j : J) (q' : DeferredQueue T J)
      → Inv q
      → fetch_due due q ≡ some (j, q')
      → (t : T) × (due t ≡ true) × (lookup t q.jobs ≡ some j) × IsAbove t q'.jobs × Inv q'
  unfolding fetch_due
  fetch_due-earliest due q j q' h e = first_out due q.jobs q j q' h.sorted e

  -- A job that is added for the time of one that waits takes its place: the first is never run.
  pub same_time-replaced :
      (fire : T) (j k : J) (q q' q'' : DeferredQueue T J)
      → add_job_at fire k q ≡ some q'
      → add_job_at fire j q' ≡ some q''
      → add_job_at fire j q ≡ some q''
  unfolding add_job_at
  same_time-replaced fire j k q q' q'' e e' = ground (arith, insert-insert fire j k q.jobs)

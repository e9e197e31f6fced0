-- ===== src/Jobs/Latch.antt =====
-- The latch of a worker of support/command_queue.hpp, between its thread and the arbiter.
use test_assignment.Prelude.{
  ℕ, Bool, none, some, List, [], ◌∷◌, ◌≡◌, refl, ◌==◌, Bool-cases, ==_iff, ◌⊎◌, inl, inr, arith,
}
use test_assignment.Prelude.Int.{ℤ, pos, negsuc}
use test_assignment.Jobs.{
  CommandQueue, WorkerPlace, top, fetching, taking, took, working, gone, worker_step,
  prepare_for_stopping,
}
use test_assignment.Jobs.Steps.{System, Event, client, worker, stop_worker, turn, Reach, here, next}

module _ {J : Type 0} where
  -- The latch is -1 exactly where the thread takes a job from the lists; else it is 0 or 1.
  abbrev pub IsLatched : ℤ → WorkerPlace J → Type 0
  IsLatched z taking = z ≡ negsuc 0
  IsLatched z (took o) = z ≡ negsuc 0
  IsLatched z p = (z ≡ pos 0) ⊎ (z ≡ pos 1)

  step-IsLatched :
      (stop : Bool) (q : CommandQueue J) (z : ℤ) (p : WorkerPlace J)
      → IsLatched z p
      → IsLatched (worker_step stop q z p).1 (worker_step stop q z p).2
  unfolding worker_step
  step-IsLatched stop q z top h = ground arith
  step-IsLatched stop q z fetching h = ground arith
  step-IsLatched stop q z taking h = h
  step-IsLatched stop q z (took none) h = ground arith
  step-IsLatched stop q z (took (some j)) h = ground arith
  step-IsLatched stop q z (working j) h = h
  step-IsLatched stop q z gone h = h

  stop-IsLatched :
      (z : ℤ) (p : WorkerPlace J) → IsLatched z p → IsLatched (prepare_for_stopping z).0 p
  stop-IsLatched z p h = ground arith

  -- What the arbiter has stopped stays stopped, and does not come to where it takes a job.
  abbrev pub IsStopped : ℤ → WorkerPlace J → Type 0
  IsStopped z taking = ⊥
  IsStopped z (took o) = ⊥
  IsStopped z p = z ≡ pos 1

  step-IsStopped :
      (stop : Bool) (q : CommandQueue J) (z : ℤ) (p : WorkerPlace J)
      → IsStopped z p
      → ((worker_step stop q z p).0 ≡ q)
        × IsStopped (worker_step stop q z p).1 (worker_step stop q z p).2
  unfolding worker_step
  step-IsStopped stop q z top h = ground arith
  step-IsStopped stop q z fetching h = ground arith
  step-IsStopped stop q z taking h = ground arith
  step-IsStopped stop q z (took o) h = ground arith
  step-IsStopped stop q z (working j) h = (refl, h)
  step-IsStopped stop q z gone h = (refl, h)

  stop-IsStopped :
      (z : ℤ) (p : WorkerPlace J) → IsStopped z p → IsStopped (prepare_for_stopping z).0 p
  stop-IsStopped z p h = ground arith

  -- a given order of steps
  unfoldable pub run : List (Event J) → System J → System J
  run [] s = s
  run (e ∷ order) s = run order (turn e s)

  turn-IsLatched :
      (e : Event J) (s : System J) (i : ℕ)
      → IsLatched (s.latches i) (s.places i)
      → IsLatched ((turn e s).latches i) ((turn e s).places i)
  unfolding turn
  turn-IsLatched (client k urgent j) s i h = h
  turn-IsLatched (worker k stop) s i h = elim (Bool-cases (k == i)) [
    | inl e ↦
        let same = (==_iff k i).0 e in
        rw e (rw same (step-IsLatched stop s.queue (s.latches i) (s.places i) h))
    | inr e ↦ rw e h
  ]
  turn-IsLatched (stop_worker k) s i h = elim (Bool-cases (k == i)) [
    | inl e ↦
        let same = (==_iff k i).0 e in rw e (rw same (stop-IsLatched (s.latches i) (s.places i) h))
    | inr e ↦ rw e h
  ]

  Reach-IsLatched :
      {clients workers max_len : ℕ} {s : System J} (i : ℕ)
      → Reach clients workers max_len s
      → IsLatched (s.latches i) (s.places i)
  Reach-IsLatched i here = inl refl
  Reach-IsLatched i (next {s = s} r e h) = turn-IsLatched e s i (Reach-IsLatched i r)

  turn-IsStopped :
      (e : Event J) (s : System J) (i : ℕ)
      → IsStopped (s.latches i) (s.places i)
      → IsStopped ((turn e s).latches i) ((turn e s).places i)
  unfolding turn
  turn-IsStopped (client k urgent j) s i h = h
  turn-IsStopped (worker k stop) s i h = elim (Bool-cases (k == i)) [
    | inl e ↦
        let same = (==_iff k i).0 e in
        rw e (rw same ((step-IsStopped stop s.queue (s.latches i) (s.places i) h).1))
    | inr e ↦ rw e h
  ]
  turn-IsStopped (stop_worker k) s i h = elim (Bool-cases (k == i)) [
    | inl e ↦
        let same = (==_iff k i).0 e in rw e (rw same (stop-IsStopped (s.latches i) (s.places i) h))
    | inr e ↦ rw e h
  ]

  run-IsStopped :
      (order : List (Event J)) (s : System J) (i : ℕ)
      → IsStopped (s.latches i) (s.places i)
      → IsStopped ((run order s).latches i) ((run order s).places i)
  unfolding run
  run-IsStopped [] s i h = h
  run-IsStopped (e ∷ order) s i h = run-IsStopped order (turn e s) i (turn-IsStopped e s i h)

  -- Once the arbiter has stopped a worker, its latch stays as it is, and no step of the worker's
  -- thread changes the lists of jobs, whatever the others do.
  pub stopped-takes_nothing :
      {clients workers max_len : ℕ} {s : System J} (i : ℕ) (order : List (Event J)) (stop : Bool)
      → Reach clients workers max_len s
      → s.latches i ≡ pos 1
      → ((run order s).latches i ≡ pos 1)
        × ((turn (worker i stop) (run order s)).queue ≡ (run order s).queue)
  unfolding turn
  stopped-takes_nothing {s = s} i order stop r e =
      let first = stopped (s.latches i) (s.places i) (Reach-IsLatched i r) e in
      let t = run order s in
      let later = run-IsStopped order s i first in
      (
        keeps (t.latches i) (t.places i) later,
        (step-IsStopped stop t.queue (t.latches i) (t.places i) later).0,
      )
    where
      stopped : (z : ℤ) (p : WorkerPlace J) → IsLatched z p → z ≡ pos 1 → IsStopped z p
      stopped z p h e = ground arith

      keeps : (z : ℤ) (p : WorkerPlace J) → IsStopped z p → z ≡ pos 1
      keeps z p h = ground arith

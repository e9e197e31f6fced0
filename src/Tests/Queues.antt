-- ===== src/Tests/Queues.antt =====
-- The theorems on the job queues, where two clients and one worker use a queue for one job.
use test_assignment.Prelude.{ℕ, ◌+◌, ◌<◌, true, false, some, [], ◌∷◌, ◌++◌, ◌≡◌, refl, ◌==◌, arith}
use test_assignment.Prelude.Order.{index_order}
use test_assignment.Prelude.Int.{pos}
use test_assignment.Map.{insert}
use test_assignment.Threads.Family.{total}
use test_assignment.Jobs.{client_step, worker_step, take_job, take_from, push_job}
use test_assignment.Jobs.Steps.{System, start, client, worker, stop_worker, turn, Reach, here, next}
use test_assignment.Jobs.Order.{waiting, fetched-in_order, count, in_hand, none-lost}
use test_assignment.Jobs.Bounds.{load, waits_push, load-bound}
use test_assignment.Jobs.Latch.{run, stopped-takes_nothing}
use test_assignment.Jobs.Deferred.{DeferredQueue, add_job_at, Inv, same_time-replaced}

-- two clients pass the test of the length, both put their jobs in, and the worker takes one
abbrev busy : System ℕ
busy = turn (worker 0 false) (
    turn (worker 0 false) (
      turn (worker 0 false) (
        turn (client 1 true 8)
          (turn (client 0 false 7) (turn (client 1 true 8) (turn (client 0 false 7) (start 1)))))))

busy-Reach : Reach 2 1 1 busy
busy-Reach =
    next
      (next
        (next
          (next
            (next
              (next (next here (client 0 false 7) (omega arith)) (client 1 true 8) (omega arith))
              (client 0 false 7) (omega arith))
            (client 1 true 8) (omega arith))
          (worker 0 false) (omega arith))
        (worker 0 false) (omega arith))
      (worker 0 false) (omega arith)

fetched-in_order_example : busy.added true ≡ busy.fetched true ++ waiting true busy.queue
fetched-in_order_example = fetched-in_order true busy-Reach

none-lost_example :
    count (λ j. j == 8) (busy.added true) + count (λ j. j == 8) (busy.added false)
    ≡ count (λ j. j == 8) busy.queue.hp_jobs
      + count (λ j. j == 8) busy.queue.jobs
      + total (in_hand (λ j. j == 8)) 1 busy.places
      + count (λ j. j == 8) busy.ran
none-lost_example = none-lost (λ j. j == 8) busy-Reach

load-bound_example :
    (busy.queue.size_approx ≡ load busy.queue)
    × (load busy.queue + total waits_push 2 busy.clients < 1 + 2)
load-bound_example = load-bound busy-Reach

-- the urgent job is out, and the other waits
busy_result : (busy.fetched true ≡ 8 ∷ []) × (busy.queue.jobs ≡ 7 ∷ [])
unfolding turn client_step worker_step take_job take_from push_job
busy_result = (refl, refl)

-- the arbiter stops the worker
abbrev stopped : System ℕ
stopped = turn (stop_worker 0) (turn (client 0 false 7) (turn (client 0 false 7) (start 1)))

stopped-Reach : Reach 2 1 1 stopped
stopped-Reach =
    next (next (next here (client 0 false 7) (omega arith)) (client 0 false 7) (omega arith))
      (stop_worker 0) (omega arith)

stopped-takes_nothing_example :
    ((run (worker 0 false ∷ worker 0 false ∷ []) stopped).latches 0 ≡ pos 1)
    × ((turn (worker 0 false) (run (worker 0 false ∷ worker 0 false ∷ []) stopped)).queue
        ≡ (run (worker 0 false ∷ worker 0 false ∷ []) stopped).queue)
unfolding turn
stopped-takes_nothing_example =
    stopped-takes_nothing 0 (worker 0 false ∷ worker 0 false ∷ []) false stopped-Reach refl

-- jobs at the times 3 and 5
abbrev deferred : DeferredQueue ℕ ℕ
deferred = record { max_len = 9; jobs = (3, 70) ∷ (5, 80) ∷ []; approx_size = 2 }

deferred-Inv : Inv deferred
deferred-Inv = record { sorted = ground arith; exact = refl }

abbrev later_left : DeferredQueue ℕ ℕ
later_left = record { max_len = 9; jobs = (5, 80) ∷ []; approx_size = 1 }

-- a job for the time 4, and the one that is added after it
abbrev no_jobs : DeferredQueue ℕ ℕ
no_jobs = record { max_len = 9; jobs = []; approx_size = 0 }

abbrev one_job : ℕ → DeferredQueue ℕ ℕ
one_job j = record { max_len = 9; jobs = (4, j) ∷ []; approx_size = 1 }

same_time-replaced_example : add_job_at 4 2 no_jobs ≡ some (one_job 2)
unfolding add_job_at insert
same_time-replaced_example = same_time-replaced 4 2 1 no_jobs (one_job 1) (one_job 2) refl refl

-- ===== src/Jobs/Bounds.antt =====
-- How long the lists of the `command_queue` of support/command_queue.hpp grow: a client tests the
-- length before it takes the mutex, and several can pass the test for the same place.
use test_assignment.Prelude.{
  ℕ, ◌+◌, ◌≤◌, ◌<◌, Bool, true, false, List, [], ◌∷◌, ◌≡◌, refl, ap, ltb, length, length-append,
  arith, if◌then◌else◌,
}
use test_assignment.Prelude.Int.{ℤ}
use test_assignment.Threads.Family.{update, total, total-split, total-bound, total-none}
use test_assignment.Jobs.{
  CommandQueue, WorkerPlace, top, fetching, taking, took, working, gone, Client, outside, admitted,
  push_job, client_step, worker_step, take_from, take_job,
}
use test_assignment.Jobs.Steps.{
  System, Event, client, worker, stop_worker, turn, Reach, here, next, InRange,
}

-- `std::max<std::size_t>(max_len, 1)`
abbrev longest : ℕ → ℕ
longest max_len = if ltb max_len 1 then 1 else max_len

module _ {J : Type 0} where
  -- the jobs that wait
  abbrev pub load : CommandQueue J → ℕ
  load q = length q.jobs + length q.hp_jobs

  abbrev pub waits_push : Client J → ℕ
  waits_push (admitted u j) = 1
  waits_push outside = 0

  record Fits (n max_len : ℕ) (q : CommandQueue J) (pushing : ℕ) : Type 0 where
    exact : q.size_approx ≡ load q
    limit : q.max_queue_len ≡ max_len
    room : load q + pushing + 1 ≤ max_len + n

  client-Fits :
      (n max_len : ℕ) (urgent : Bool) (j : J) (q : CommandQueue J) (c : Client J) (rest : ℕ)
      → rest + 1 ≤ n
      → Fits n max_len q (rest + waits_push c)
      → Fits n max_len (client_step urgent j q c).0 (rest + waits_push (client_step urgent j q c).1)
  unfolding client_step push_job
  client-Fits n max_len urgent j q outside rest h f = record {
    exact = f.exact;
    limit = f.limit;
    room = ground (arith, f.room, f.limit, f.exact);
  }
  client-Fits n max_len urgent j q (admitted true k) rest h f = record {
    exact = refl;
    limit = f.limit;
    room = omega (arith, f.room, length-append q.hp_jobs (k ∷ []));
  }
  client-Fits n max_len urgent j q (admitted false k) rest h f = record {
    exact = refl;
    limit = f.limit;
    room = omega (arith, f.room, length-append q.jobs (k ∷ []));
  }

  take-Fits :
      (n max_len : ℕ) (hp js : List J) (q : CommandQueue J) (pushing : ℕ)
      → q.hp_jobs ≡ hp
      → q.jobs ≡ js
      → Fits n max_len q pushing
      → Fits n max_len (take_from hp js q).1 pushing
  unfolding take_from
  take-Fits n max_len (h ∷ hs) js q pushing eh ej f = record {
    exact = refl;
    limit = f.limit;
    room = omega (arith, f.room, ap length eh);
  }
  take-Fits n max_len [] (x ∷ js) q pushing eh ej f = record {
    exact = refl;
    limit = f.limit;
    room = omega (arith, f.room, ap length ej);
  }
  take-Fits n max_len [] [] q pushing eh ej f = f

  worker-Fits :
      (n max_len : ℕ) (stop : Bool) (q : CommandQueue J) (z : ℤ) (p : WorkerPlace J) (pushing : ℕ)
      → Fits n max_len q pushing
      → Fits n max_len (worker_step stop q z p).0 pushing
  unfolding worker_step take_job
  worker-Fits n max_len stop q z top pushing f = f
  worker-Fits n max_len true q z fetching pushing f = f
  worker-Fits n max_len false q z fetching pushing f = f
  worker-Fits n max_len stop q z taking pushing f =
      take-Fits n max_len q.hp_jobs q.jobs q pushing refl refl f
  worker-Fits n max_len stop q z (took job) pushing f = f
  worker-Fits n max_len stop q z (working j) pushing f = f
  worker-Fits n max_len stop q z gone pushing f = f

  SystemFits : ℕ → ℕ → System J → Type 0
  SystemFits n max_len s = Fits n max_len s.queue (total waits_push n s.clients)

  small : (c : Client J) → waits_push c ≤ 1
  small c = ground arith

  turn-Fits :
      (clients workers max_len : ℕ) (e : Event J) (s : System J)
      → InRange clients workers e
      → SystemFits clients max_len s
      → SystemFits clients max_len (turn e s)
  unfolding SystemFits turn
  turn-Fits n workers max_len (client i urgent j) s h f =
      let (rest, before, after) = total-split waits_push n s.clients i h in
      let moved = client_step urgent j s.queue (s.clients i) in
      let one_more = total-bound waits_push small n (update s.clients i (admitted urgent j)) in
      rw (after moved.1) (
        client-Fits n max_len urgent j s.queue (s.clients i) rest
          (omega (arith, after (admitted urgent j), one_more)) (rw (← before) f))
  turn-Fits n workers max_len (worker i stop) s h f =
      worker-Fits n max_len stop s.queue (s.latches i) (s.places i) (total waits_push n s.clients) f
  turn-Fits n workers max_len (stop_worker i) s h f = f

  Reach-Fits :
      {n workers max_len : ℕ} {s : System J}
      → Reach n workers max_len s
      → SystemFits n (longest max_len) s
  unfolding SystemFits
  Reach-Fits {n} {max_len = m} here = record {
    exact = refl;
    limit = refl;
    room = ground (arith, total-none waits_push n (λ i. outside) (λ i. refl));
  }
  Reach-Fits {n} {workers = w} {max_len = m} (next {s = s} r e h) =
      turn-Fits n w (longest m) e s h (Reach-Fits r)

  -- With so many clients, the jobs that wait, together with those of the clients that have passed
  -- the test of the length, are fewer than the greatest length and the number of clients in sum,
  -- and `size_approx_` is the number of jobs that wait.
  pub load-bound :
      {clients workers max_len : ℕ} {s : System J}
      → Reach clients workers max_len s
      → (s.queue.size_approx ≡ load s.queue)
        × (load s.queue + total waits_push clients s.clients
            < (if ltb max_len 1 then 1 else max_len) + clients)
  unfolding SystemFits
  load-bound r = let f = Reach-Fits r in (f.exact, omega (arith, f.room))

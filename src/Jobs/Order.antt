-- ===== src/Jobs/Order.antt =====
-- The order in which the `command_queue` of support/command_queue.hpp gives its jobs out, and that
-- it loses none.
use test_assignment.Prelude.{
  ℕ, ◌+◌, Bool, true, false, Option, none, some, List, [], ◌∷◌, ◌++◌, ◌≡◌, refl, sym, ap,
  append_assoc, if◌then◌else◌, arith, ◌∙◌,
}
use test_assignment.Prelude.Int.{ℤ}
use test_assignment.Threads.Family.{total, total-split, total-none}
use test_assignment.Jobs.{
  CommandQueue, WorkerPlace, top, fetching, taking, took, working, gone, Client, outside, admitted,
  push_job, client_step, worker_step, take_from, take_job,
}
use test_assignment.Jobs.Steps.{
  System, start, Event, client, worker, stop_worker, turn, noted, note_added, note_job, non_empty,
  note_fetched, runs, Reach, here, next, InRange,
}

-- the list that a kind of job waits in
abbrev pub waiting : {J : Type 0} → Bool → CommandQueue J → List J
waiting true q = q.hp_jobs
waiting false q = q.jobs

module _ {J : Type 0} where
  -- What was put in is what was given out, followed by what waits, in each list.
  InOrder : (Bool → List J) → (Bool → List J) → CommandQueue J → Type 0
  InOrder added fetched q = (u : Bool) → added u ≡ fetched u ++ waiting u q

  client-InOrder :
      (urgent : Bool) (j : J) (q : CommandQueue J) (c : Client J) (added fetched : Bool → List J)
      → InOrder added fetched q
      → InOrder (note_added c added) fetched (client_step urgent j q c).0
  unfolding InOrder client_step push_job
  client-InOrder urgent j q outside added fetched h u = h u
  client-InOrder urgent j q (admitted true k) added fetched h true =
      ap (λ l. l ++ k ∷ []) (h true) ∙ append_assoc (fetched true) q.hp_jobs (k ∷ [])
  client-InOrder urgent j q (admitted true k) added fetched h false = h false
  client-InOrder urgent j q (admitted false k) added fetched h true = h true
  client-InOrder urgent j q (admitted false k) added fetched h false =
      ap (λ l. l ++ k ∷ []) (h false) ∙ append_assoc (fetched false) q.jobs (k ∷ [])

  take-InOrder :
      (hp js : List J) (q : CommandQueue J) (added fetched : Bool → List J)
      → q.hp_jobs ≡ hp
      → q.jobs ≡ js
      → InOrder added fetched q
      → InOrder added (note_job (take_from hp js q).0 (non_empty hp) fetched) (take_from hp js q).1
  unfolding InOrder take_from
  take-InOrder (x ∷ hs) js q added fetched eh ej h true =
      h true ∙ ap (λ l. fetched true ++ l) eh ∙ sym (append_assoc (fetched true) (x ∷ []) hs)
  take-InOrder (x ∷ hs) js q added fetched eh ej h false = h false
  take-InOrder [] (x ∷ js) q added fetched eh ej h true = h true
  take-InOrder [] (x ∷ js) q added fetched eh ej h false =
      h false ∙ ap (λ l. fetched false ++ l) ej ∙ sym (append_assoc (fetched false) (x ∷ []) js)
  take-InOrder [] [] q added fetched eh ej h u = h u

  worker-InOrder :
      (stop : Bool) (q : CommandQueue J) (z : ℤ) (p : WorkerPlace J) (added fetched : Bool → List J)
      → InOrder added fetched q
      → InOrder added (note_fetched p q fetched) (worker_step stop q z p).0
  unfolding worker_step take_job
  worker-InOrder stop q z top added fetched h = h
  worker-InOrder true q z fetching added fetched h = h
  worker-InOrder false q z fetching added fetched h = h
  worker-InOrder stop q z taking added fetched h =
      take-InOrder q.hp_jobs q.jobs q added fetched refl refl h
  worker-InOrder stop q z (took job) added fetched h = h
  worker-InOrder stop q z (working j) added fetched h = h
  worker-InOrder stop q z gone added fetched h = h

  turn-InOrder :
      (e : Event J) (s : System J)
      → InOrder s.added s.fetched s.queue
      → InOrder (turn e s).added (turn e s).fetched (turn e s).queue
  unfolding turn
  turn-InOrder (client i urgent j) s h =
      client-InOrder urgent j s.queue (s.clients i) s.added s.fetched h
  turn-InOrder (worker i stop) s h =
      worker-InOrder stop s.queue (s.latches i) (s.places i) s.added s.fetched h
  turn-InOrder (stop_worker i) s h = h

  start-InOrder : (m : ℕ) (u : Bool) → [] ≡ [] ++ waiting u (start {J = J} m).queue
  start-InOrder m true = refl
  start-InOrder m false = refl

  -- Whatever the clients, the workers and the arbiter do, and in whatever order, the jobs of each
  -- kind are given out in the order in which they were put in: those that were put in are those
  -- that were given out, followed by those that wait.
  pub fetched-in_order :
      {clients workers max_len : ℕ} {s : System J} (u : Bool)
      → Reach clients workers max_len s
      → s.added u ≡ s.fetched u ++ waiting u s.queue
  unfolding InOrder
  fetched-in_order {s = s} u r = by_reach r u
    where
      by_reach : {c w m : ℕ} {t : System J} → Reach c w m t → InOrder t.added t.fetched t.queue
      by_reach {m = m} here = start-InOrder m
      by_reach {m = m} (next {s = t} r' e h) = turn-InOrder e t (by_reach r')

  -- how many of the jobs pass a test
  unfoldable pub count : (J → Bool) → List J → ℕ
  count p [] = 0
  count p (j ∷ js) = (if p j then 1 else 0) + count p js

  count-append : (p : J → Bool) (l k : List J) → count p (l ++ k) ≡ count p l + count p k
  unfolding count
  count-append p [] k = omega arith
  count-append p (j ∷ l) k = omega (arith, count-append p l k)

  -- whether a worker has a job that it has not run yet and that passes the test
  abbrev pub in_hand : (J → Bool) → WorkerPlace J → ℕ
  in_hand p (took (some j)) = if p j then 1 else 0
  in_hand p (working j) = if p j then 1 else 0
  in_hand p w = 0

  module _ (p : J → Bool) where
    both : (Bool → List J) → ℕ
    both lists = count p (lists true) + count p (lists false)

    both-noted :
        (u : Bool) (j : J) (lists : Bool → List J)
        → both (noted u j lists) ≡ both lists + (if p j then 1 else 0)
    unfolding both count
    both-noted true j lists = omega (arith, count-append p (lists true) (j ∷ []))
    both-noted false j lists = omega (arith, count-append p (lists false) (j ∷ []))

    taken-hands :
        (o : Option J) (u : Bool) (fetched : Bool → List J)
        → both (note_job o u fetched) ≡ both fetched + in_hand p (took o)
    taken-hands none u fetched = omega arith
    taken-hands (some j) u fetched = both-noted u j fetched

    -- A step of a worker takes a job in hand where it is given out, and runs that job where it
    -- lets it go.
    worker-hands :
        (stop : Bool) (q : CommandQueue J) (z : ℤ) (w : WorkerPlace J) (fetched : Bool → List J)
        → both (note_fetched w q fetched) + in_hand p w
          ≡ both fetched + in_hand p (worker_step stop q z w).2 + count p (runs w)
    unfolding worker_step count
    worker-hands stop q z top fetched = ground arith
    worker-hands stop q z fetching fetched = ground arith
    worker-hands stop q z taking fetched =
        omega (arith, taken-hands (take_job q).0 (non_empty q.hp_jobs) fetched)
    worker-hands stop q z (took none) fetched = ground arith
    worker-hands stop q z (took (some j)) fetched = ground arith
    worker-hands stop q z (working j) fetched = ground arith
    worker-hands stop q z gone fetched = ground arith

    Counted : ℕ → System J → Type 0
    Counted n s = both s.fetched ≡ count p s.ran + total (in_hand p) n s.places

    turn-Counted :
        (clients workers : ℕ) (e : Event J) (s : System J)
        → InRange clients workers e
        → Counted workers s
        → Counted workers (turn e s)
    unfolding Counted turn
    turn-Counted clients workers (client i urgent j) s h c = c
    turn-Counted clients workers (worker i stop) s h c =
        let (rest, before, after) = total-split (in_hand p) workers s.places i h in
        let moved = worker_step stop s.queue (s.latches i) (s.places i) in
        omega (
          arith,
          after moved.2,
          worker-hands stop s.queue (s.latches i) (s.places i) s.fetched,
          count-append p s.ran (runs (s.places i)),
        )
    turn-Counted clients workers (stop_worker i) s h c = c

    start-Counted : (w m : ℕ) → Counted w (start m)
    unfolding Counted both count
    start-Counted w m = omega (arith, total-none (in_hand p) w (λ i. top) (λ i. refl))

    Reach-Counted : {c w m : ℕ} {s : System J} → Reach c w m s → Counted w s
    Reach-Counted {w = w} {m = m} here = start-Counted w m
    Reach-Counted {c} {w} (next {s = s} r e h) = turn-Counted c w e s h (Reach-Counted r)

  -- Whatever the clients, the workers and the arbiter do, and in whatever order, the jobs that were
  -- put in are, each as often, those that wait in either list, those that a worker has in hand and
  -- those that ran: of the jobs that pass a test, whatever the test, as many were put in as wait,
  -- are in hand and ran.
  pub none-lost :
      {clients workers max_len : ℕ} {s : System J} (p : J → Bool)
      → Reach clients workers max_len s
      → count p (s.added true) + count p (s.added false)
        ≡ count p s.queue.hp_jobs
          + count p s.queue.jobs
          + total (in_hand p) workers s.places
          + count p s.ran
  unfolding Counted both
  none-lost {s = s} p r =
      let urgent = ap (count p) (fetched-in_order true r) in
      let normal = ap (count p) (fetched-in_order false r) in
      omega (
        arith,
        urgent,
        normal,
        count-append p (s.fetched true) s.queue.hp_jobs,
        count-append p (s.fetched false) s.queue.jobs,
        Reach-Counted p r,
      )

-- ===== src/Jobs/Steps.antt =====
-- The steps of the clients, the workers and the arbiter of the `command_queue` of
-- support/command_queue.hpp, in any order, with the history that the theorems speak of.
use test_assignment.Prelude.{ℕ, ◌<◌, Bool, true, false, Option, none, some, List, [], ◌∷◌, ◌++◌}
use test_assignment.Prelude.Int.{ℤ, pos}
use test_assignment.Threads.Family.{update}
use test_assignment.Jobs.{
  CommandQueue, WorkerPlace, top, taking, working, Client, outside, admitted, new_queue,
  client_step, worker_step, take_job, prepare_for_stopping,
}

-- The queue, its clients and its workers. The last three are what has happened: the jobs that
-- were put into each list, those that were fetched from it, and those that ran.
pub record System (J : Type 0) : Type 0 where
  pub queue : CommandQueue J
  pub clients : ℕ → Client J
  pub latches : ℕ → ℤ
  pub places : ℕ → WorkerPlace J
  pub added : Bool → List J
  pub fetched : Bool → List J
  pub ran : List J

pub data Event (J : Type 0) : Type 0 where
  client : ℕ → Bool → J → Event J
  worker : ℕ → Bool → Event J
  -- the arbiter calls `prepare_for_stopping`
  stop_worker : ℕ → Event J

module _ {J : Type 0} where
  abbrev pub start : ℕ → System J
  start max_len = record {
    queue = new_queue max_len;
    clients = λ i. outside;
    latches = λ i. pos 0;
    places = λ i. top;
    added = λ u. [];
    fetched = λ u. [];
    ran = [];
  }

  -- a job put at the end of one of two lists
  abbrev pub noted : Bool → J → (Bool → List J) → Bool → List J
  noted true j lists true = lists true ++ j ∷ []
  noted true j lists false = lists false
  noted false j lists true = lists true
  noted false j lists false = lists false ++ j ∷ []

  abbrev pub note_added : Client J → (Bool → List J) → Bool → List J
  note_added outside lists = lists
  note_added (admitted u j) lists = noted u j lists

  -- `hp_jobs_` comes first
  abbrev pub note_job : Option J → Bool → (Bool → List J) → Bool → List J
  note_job none u lists = lists
  note_job (some j) u lists = noted u j lists

  abbrev pub non_empty : List J → Bool
  non_empty [] = false
  non_empty (j ∷ js) = true

  abbrev pub note_fetched : WorkerPlace J → CommandQueue J → (Bool → List J) → Bool → List J
  note_fetched taking q lists = note_job (take_job q).0 (non_empty q.hp_jobs) lists
  note_fetched p q lists = lists

  -- the job that a worker's next step runs
  abbrev pub runs : WorkerPlace J → List J
  runs (working j) = j ∷ []
  runs p = []

  unfoldable pub turn : Event J → System J → System J
  turn (client i urgent j) s =
      let moved = client_step urgent j s.queue (s.clients i) in
      record s {
        queue = moved.0;
        clients = update s.clients i moved.1;
        added = note_added (s.clients i) s.added;
      }
  turn (worker i stop) s =
      let moved = worker_step stop s.queue (s.latches i) (s.places i) in
      record s {
        queue = moved.0;
        latches = update s.latches i moved.1;
        places = update s.places i moved.2;
        fetched = note_fetched (s.places i) s.queue s.fetched;
        ran = s.ran ++ runs (s.places i);
      }
  turn (stop_worker i) s = record s {
    latches = update s.latches i (prepare_for_stopping (s.latches i)).0;
  }

  -- the clients and the workers that there are
  abbrev pub InRange : ℕ → ℕ → Event J → Type 0
  InRange clients workers (client i urgent j) = i < clients
  InRange clients workers (worker i stop) = i < workers
  InRange clients workers (stop_worker i) = i < workers

-- what so many clients and workers can come to
pub data Reach {J : Type 0} (clients workers max_len : ℕ) : System J → Type 0 where
  here : Reach clients workers max_len (start max_len)
  next :
      {s : System J}
      → Reach clients workers max_len s
      → (e : Event J) → InRange clients workers e
      → Reach clients workers max_len (turn e s)

-- ===== src/Threads/RwLock.antt =====
-- support/threading/rw_lock.hpp: `rw_lock`, one atomic access at a time. A thread is where it
-- stands in an operation of the lock; its client calls an operation only where it may: what takes
-- the lock without holding it, what gives it back or changes it while holding it that way.
use test_assignment.Prelude.{
  ℕ, zero, suc, ◌+◌, ◌-◌, ◌<◌, Bool, true, false, not, List, [], ◌∷◌, ltb, ◌==◌, if◌then◌else◌,
}
use test_assignment.Prelude.Int.{ℤ, pos, negsuc, same_int}
use test_assignment.Threads.Family.{update}

-- the atomic variables and `prefer_writers_`
pub record Lock : Type 0 where
  pub current : ℤ
  pub pending_upgraders : ℕ
  pub pending_readers : ℕ
  pub pending_writers : ℕ
  pub prefer_writers : Bool

-- the constructor, and `reset`
abbrev pub new_lock : Bool → Lock
new_lock prefer_writers = record {
  current = pos 0;
  pending_upgraders = 0;
  pending_readers = 0;
  pending_writers = 0;
  prefer_writers = prefer_writers;
}

-- How long an operation tries: `lock` for ever or until a time, `try_lock` once.
pub data Patience : Type 0 where
  forever timed once : Patience

-- Where a thread stands in an operation: the atomic access that it makes next.
pub data WriteStage : Type 0 where
  write_begin write_round write_check write_swap : Patience → WriteStage
  write_end : Bool → WriteStage

pub data ReadStage : Type 0 where
  read_begin read_round read_check read_load : Patience → ReadStage
  read_swap : Patience → ℕ → ReadStage
  read_end : Bool → ReadStage

pub data UnlockStage : Type 0 where
  read_unlock_load read_unlock_sub : UnlockStage
  write_unlock_load write_unlock_store : UnlockStage

pub data ChangeStage : Type 0 where
  downgrade_load downgrade_store : ChangeStage
  upgrade_load upgrade_add upgrade_swap upgrade_end : ChangeStage

-- Where a thread stands. The first four are outside the lock's operations; in `refused` one of them
-- has returned false to a client that held the lock.
pub data Place : Type 0 where
  idle reading writing refused : Place
  in_write : WriteStage → Place
  in_read : ReadStage → Place
  in_unlock : UnlockStage → Place
  in_change : ChangeStage → Place

-- What is not the lock's: what a client calls, and whether the time of a timed call is over.
pub data Choice : Type 0 where
  lock lock_until try_lock : Bool → Choice
  unlock upgrade downgrade : Choice
  go time_over : Choice

-- `lock(timeout, w)` and `try_lock(w)`
abbrev pub begin : Bool → Patience → Place
begin true p = in_write (write_begin p)
begin false p = in_read (read_begin p)

abbrev pub call_idle : Choice → Place
call_idle (lock w) = begin w forever
call_idle (lock_until w) = begin w timed
call_idle (try_lock w) = begin w once
call_idle c = idle

-- `unlock(false)` and `upgrade()`
abbrev pub call_reading : Choice → Place
call_reading unlock = in_unlock read_unlock_load
call_reading upgrade = in_change upgrade_load
call_reading c = reading

-- `unlock(true)` and `downgrade()`
abbrev pub call_writing : Choice → Place
call_writing unlock = in_unlock write_unlock_load
call_writing downgrade = in_change downgrade_load
call_writing c = writing

-- `while(frvr || now < later)`
abbrev pub out_of_time : Choice → Patience → Bool
out_of_time time_over timed = true
out_of_time c p = false

-- After an attempt that failed, `try_lock` returns and `lock` goes round.
abbrev pub again_write : Patience → Place
again_write once = in_write (write_end false)
again_write p = in_write (write_round p)

abbrev pub again_read : Patience → Place
again_read once = in_read (read_end false)
again_read p = in_read (read_round p)

-- `compare_exchange_strong`: where the variable holds what is expected it is replaced.
abbrev pub exchange : Lock → ℤ → ℤ → Place → Place → Lock × Place
exchange m expected wanted won lost =
    if same_int m.current expected then (record m { current = wanted }, won) else (m, lost)

abbrev pub is_positive : ℤ → Bool
is_positive (pos n) = not (n == 0)
is_positive (negsuc n) = false

abbrev pub minus_one : ℤ → ℤ
minus_one (pos zero) = negsuc 0
minus_one (pos (suc n)) = pos n
minus_one (negsuc n) = negsuc (suc n)

-- `lock_for_write`, `try_lock_for_write`
unfoldable pub write_step : Choice → Lock → WriteStage → Lock × Place
write_step c m (write_begin p) =
    (record m { pending_writers = m.pending_writers + 1 }, in_write (write_round p))
write_step c m (write_round p) =
    if out_of_time c p
    then (m, in_write (write_end false))
    else if m.pending_upgraders == 0
    then (m, in_write (if m.prefer_writers then write_swap p else write_check p))
    else (m, again_write p)
write_step c m (write_check p) =
    (m, (if m.pending_readers == 0 then in_write (write_swap p) else again_write p))
write_step c m (write_swap p) =
    exchange m (pos 0) (negsuc 0) (in_write (write_end true)) (again_write p)
write_step c m (write_end res) =
    (record m { pending_writers = m.pending_writers - 1 }, (if res then writing else idle))

-- `curr >= 0`
abbrev pub load_reader : Patience → ℤ → Place
load_reader p (pos curr) = in_read (read_swap p curr)
load_reader p (negsuc curr) = again_read p

-- `lock_for_read`, `try_lock_for_read`
unfoldable pub read_step : Choice → Lock → ReadStage → Lock × Place
read_step c m (read_begin p) =
    (record m { pending_readers = m.pending_readers + 1 }, in_read (read_round p))
read_step c m (read_round p) =
    if out_of_time c p
    then (m, in_read (read_end false))
    else if m.pending_upgraders == 0
    then (m, in_read (if m.prefer_writers then read_check p else read_load p))
    else (m, again_read p)
read_step c m (read_check p) =
    (m, (if m.pending_writers == 0 then in_read (read_load p) else again_read p))
read_step c m (read_load p) = (m, load_reader p m.current)
read_step c m (read_swap p curr) =
    exchange m (pos curr) (pos (curr + 1)) (in_read (read_end true)) (again_read p)
read_step c m (read_end res) =
    (record m { pending_readers = m.pending_readers - 1 }, (if res then reading else idle))

-- `read_unlock`, `write_unlock`
unfoldable pub unlock_step : Lock → UnlockStage → Lock × Place
unlock_step m read_unlock_load =
    (m, (if is_positive m.current then in_unlock read_unlock_sub else refused))
unlock_step m read_unlock_sub = (record m { current = minus_one m.current }, idle)
unlock_step m write_unlock_load =
    (m, (if same_int m.current (negsuc 0) then in_unlock write_unlock_store else refused))
unlock_step m write_unlock_store = (record m { current = pos 0 }, idle)

-- `downgrade`, `upgrade`
unfoldable pub change_step : Lock → ChangeStage → Lock × Place
change_step m downgrade_load =
    (m, (if same_int m.current (negsuc 0) then in_change downgrade_store else refused))
change_step m downgrade_store = (record m { current = pos 1 }, reading)
change_step m upgrade_load = (m, (if is_positive m.current then in_change upgrade_add else refused))
change_step m upgrade_add =
    (record m { pending_upgraders = m.pending_upgraders + 1 }, in_change upgrade_swap)
change_step m upgrade_swap =
    exchange m (pos 1) (negsuc 0) (in_change upgrade_end) (in_change upgrade_swap)
change_step m upgrade_end = (record m { pending_upgraders = m.pending_upgraders - 1 }, writing)

-- one step of a thread
unfoldable pub advance : Choice → Lock → Place → Lock × Place
advance c m idle = (m, call_idle c)
advance c m reading = (m, call_reading c)
advance c m writing = (m, call_writing c)
advance c m refused = (m, refused)
advance c m (in_write s) = write_step c m s
advance c m (in_read s) = read_step c m s
advance c m (in_unlock s) = unlock_step m s
advance c m (in_change s) = change_step m s

-- the lock and the threads
pub record System : Type 0 where
  pub shared : Lock
  pub place : ℕ → Place

abbrev pub start : Bool → System
start prefer_writers = record { shared = new_lock prefer_writers; place = λ i. idle }

unfoldable pub turn : ℕ → Choice → System → System
turn i c s =
    let moved = advance c s.shared (s.place i) in
    record { shared = moved.0; place = update s.place i moved.1 }

-- what `n` threads can come to, in any order of their steps
pub data Reach (n : ℕ) (prefer_writers : Bool) : System → Type 0 where
  here : Reach n prefer_writers (start prefer_writers)
  next :
      {s : System}
      → Reach n prefer_writers s
      → (i : ℕ) (c : Choice) → i < n
      → Reach n prefer_writers (turn i c s)

-- a given order of the threads, with their choices
unfoldable pub run : ℕ → List (ℕ × Choice) → System → System
run n [] s = s
run n ((i, c) ∷ order) s = run n order (if ltb i n then turn i c s else s)

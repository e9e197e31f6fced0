-- ===== src/Threads/Attempt.antt =====
-- What `try_lock` of the rw_lock of support/threading/rw_lock.hpp answers.
use test_assignment.Prelude.{
  ℕ, zero, suc, ◌+◌, ◌<◌, Bool, true, false, ◌&&◌, ◌||◌, not, ◌≡◌, refl, ap, ◌==◌, if◌then◌else◌,
  sym, arith, ==_iff, ◌∙◌,
}
use test_assignment.Prelude.Int.{ℤ, pos, negsuc}
use test_assignment.Threads.Family.{update-at, total, total-zero}
use test_assignment.Threads.RwLock.{
  Lock, Place, Choice, System, idle, reading, writing, refused, in_write, in_read, in_unlock,
  in_change, try_lock, go, write_step, read_step, advance, turn, Reach,
}
use test_assignment.Threads.Exclusion.{reads, writes, IsHeld, Reach-Inv}
use test_assignment.Threads.Waiting.{waits_write, waits_read, waits_upgrade, Reach-Waiting}

-- thread `i` alone makes so many steps
unfoldable pub alone : ℕ → ℕ → System → System
alone i zero s = s
alone i (suc k) s = alone i k (turn i go s)

-- the same for a thread by itself
solo : ℕ → Lock × Place → Lock × Place
solo zero x = x
solo (suc k) x = solo k (advance go x.0 x.1)

turn-own :
    (i : ℕ) (c : Choice) (s : System)
    → ((turn i c s).shared, (turn i c s).place i) ≡ advance c s.shared (s.place i)
unfolding turn
turn-own i c s =
    let moved = advance c s.shared (s.place i) in
    ap (λ p. (moved.0, p)) (update-at s.place i moved.1)

alone-solo :
    (i k : ℕ) (s : System)
    → ((alone i k s).shared, (alone i k s).place i) ≡ solo k (s.shared, s.place i)
unfolding alone solo
alone-solo i zero s = refl
alone-solo i (suc k) s = alone-solo i k (turn i go s) ∙ ap (solo k) (turn-own i go s)

-- whether a thread is in none of the lock's operations
abbrev pub is_outside : Place → Bool
is_outside idle = true
is_outside reading = true
is_outside writing = true
is_outside refused = true
is_outside p = false

-- whether so many readers and writers let another in, for writing or for reading
abbrev pub lets_in : Bool → ℕ → ℕ → Bool
lets_in w readers writers = writers == 0 && (not w || readers == 0)

-- a lock with this `current_` that no thread waits for
abbrev pub quiet_lock : ℤ → Bool → Lock
quiet_lock z b = record {
  current = z;
  pending_upgraders = 0;
  pending_readers = 0;
  pending_writers = 0;
  prefer_writers = b;
}

-- the place and the variable that `try_lock` leads to
abbrev decided : Bool → ℤ → Bool → ℕ → ℕ → Lock × Place
decided b z w readers writers = (
  quiet_lock (if lets_in w readers writers then (if w then negsuc 0 else pos (readers + 1)) else z)
      b,
  (if lets_in w readers writers then (if w then writing else reading) else idle),
)

suc_not_zero : (k : ℕ) → (suc k == 0) ≡ false
suc_not_zero k = ground arith

-- where no thread writes
solo-read :
    (b w : Bool) (k : ℕ)
    → solo 6 (advance (try_lock w) (quiet_lock (pos k) b) idle) ≡ decided b (pos k) w k 0
unfolding solo advance write_step read_step
solo-read true true zero = refl
solo-read true true (suc k) = rw (suc_not_zero k) refl
solo-read false true zero = refl
solo-read false true (suc k) = rw (suc_not_zero k) refl
solo-read true false k = rw ((==_iff k k).1 refl) refl
solo-read false false k = rw ((==_iff k k).1 refl) refl

-- where one does
solo-written :
    (b w : Bool)
    → solo 6 (advance (try_lock w) (quiet_lock (negsuc 0) b) idle) ≡ decided b (negsuc 0) w 0 1
unfolding solo advance write_step read_step
solo-written true true = refl
solo-written true false = refl
solo-written false true = refl
solo-written false false = refl

solo-decides :
    (b w : Bool) (z : ℤ) (readers writers : ℕ)
    → IsHeld z readers writers
    → solo 6 (advance (try_lock w) (quiet_lock z b) idle) ≡ decided b z w readers writers
solo-decides b w (pos k) readers writers (er, ew) =
    solo-read b w k
    ∙ ap (λ r. decided b (pos k) w r 0) er
    ∙ ap (λ v. decided b (pos k) w readers v) (sym ew)
solo-decides b w (negsuc k) readers writers (ek, er, ew) = rw (ek, er, ew) (solo-written b w)

as_quiet :
    (m : Lock)
    → m.pending_upgraders ≡ 0
    → m.pending_readers ≡ 0
    → m.pending_writers ≡ 0
    → m ≡ quiet_lock m.current m.prefer_writers
as_quiet m eu er ew = cc

-- A thread outside the operations waits in none of the counters.
outside-waits :
    (p : Place)
    → is_outside p ≡ true
    → (waits_write p ≡ 0) × (waits_read p ≡ 0) × (waits_upgrade p ≡ 0)
outside-waits idle h = (refl, refl, refl)
outside-waits reading h = (refl, refl, refl)
outside-waits writing h = (refl, refl, refl)
outside-waits refused h = (refl, refl, refl)
outside-waits (in_write s) h = ground arith
outside-waits (in_read s) h = ground arith
outside-waits (in_unlock s) h = ground arith
outside-waits (in_change s) h = ground arith

nobody-waits :
    {n : ℕ} {b : Bool} {s : System}
    → Reach n b s
    → ((j : ℕ) → j < n → is_outside (s.place j) ≡ true)
    → s.shared ≡ quiet_lock s.shared.current s.shared.prefer_writers
nobody-waits {n} {s = s} r outside =
    let w = Reach-Waiting r in
    as_quiet s.shared
      (w.upgraders
        ∙ total-zero waits_upgrade n s.place (λ j h. (outside-waits (s.place j) (outside j h)).2))
      (w.readers
        ∙ total-zero waits_read n s.place (λ j h. (outside-waits (s.place j) (outside j h)).1))
      (w.writers
        ∙ total-zero waits_write n s.place (λ j h. (outside-waits (s.place j) (outside j h)).0))

-- Where no thread is in an operation of the lock, whoever has it for reading or writing, a thread
-- without it that calls `try_lock` and whose six steps no other thread's come between has it, for
-- writing where no thread has the lock at all, and for reading where none has it for writing. Else
-- it goes without it, and `current_` is as it was. The counters of those that wait are 0 then,
-- whatever calls were made before.
pub try_lock-decides :
    {n : ℕ} {b : Bool} {s : System} (i : ℕ) (w : Bool)
    → Reach n b s
    → ((j : ℕ) → j < n → is_outside (s.place j) ≡ true)
    → s.place i ≡ idle
    → ((alone i 6 (turn i (try_lock w) s)).place i ≡ (
        if lets_in w (total reads n s.place) (total writes n s.place)
        then (if w then writing else reading)
        else idle))
      × ((alone i 6 (turn i (try_lock w) s)).shared
          ≡ quiet_lock
              (if lets_in w (total reads n s.place) (total writes n s.place)
                then (if w then negsuc 0 else pos (total reads n s.place + 1))
                else s.shared.current)
              s.shared.prefer_writers)
try_lock-decides {n} {s = s} i w r outside e =
    let both =
      alone-solo i 6 (turn i (try_lock w) s)
      ∙ ap (solo 6) (turn-own i (try_lock w) s)
      ∙ ap (λ p. solo 6 (advance (try_lock w) s.shared p)) e
      ∙ ap (λ m. solo 6 (advance (try_lock w) m idle)) (nobody-waits r outside)
      ∙ solo-decides s.shared.prefer_writers w s.shared.current (total reads n s.place)
          (total writes n s.place) (Reach-Inv r).held in
    (ap (λ x. x.1) both, ap (λ x. x.0) both)

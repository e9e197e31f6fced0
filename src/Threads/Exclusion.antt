-- ===== src/Threads/Exclusion.antt =====
-- What the rw_lock of support/threading/rw_lock.hpp keeps in every order of the threads' steps.
use test_assignment.Prelude.{
  ℕ, ◌+◌, ◌≤◌, ◌<◌, Bool, true, false, ◌≡◌, refl, ap, ◌==◌, sym, ◌⊎◌, ◌≢◌, inl, inr, arith,
}
use test_assignment.Prelude.Int.{ℤ, pos, negsuc}
use test_assignment.Threads.Family.{
  total, total-split, total-some, total-two, total-none, total-bound,
}
use test_assignment.Threads.RwLock.{
  Lock, WriteStage, ReadStage, UnlockStage, ChangeStage, Place, Choice, System, write_begin,
  write_round, write_check, write_swap, write_end, read_begin, read_round, read_check, read_load,
  read_swap, read_end, read_unlock_load, read_unlock_sub, write_unlock_load, write_unlock_store,
  downgrade_load, downgrade_store, upgrade_load, upgrade_add, upgrade_swap, upgrade_end, idle,
  reading, writing, refused, in_write, in_read, in_unlock, in_change, write_step, read_step,
  unlock_step, change_step, advance, turn, Reach, here, next,
}

-- how a thread counts among the holders of the lock
abbrev pub reads : Place → ℕ
reads reading = 1
reads (in_read (read_end true)) = 1
reads (in_unlock read_unlock_load) = 1
reads (in_unlock read_unlock_sub) = 1
reads (in_change upgrade_load) = 1
reads (in_change upgrade_add) = 1
reads (in_change upgrade_swap) = 1
reads p = 0

abbrev pub writes : Place → ℕ
writes writing = 1
writes (in_write (write_end true)) = 1
writes (in_unlock write_unlock_load) = 1
writes (in_unlock write_unlock_store) = 1
writes (in_change downgrade_load) = 1
writes (in_change downgrade_store) = 1
writes (in_change upgrade_end) = 1
writes p = 0

abbrev pub refusals : Place → ℕ
refusals refused = 1
refusals p = 0

-- `current_` for so many readers and writers
abbrev pub IsHeld : ℤ → ℕ → ℕ → Type 0
IsHeld (pos k) r w = (k ≡ r) × (w ≡ 0)
IsHeld (negsuc k) r w = (k ≡ 0) × (r ≡ 0) × (w ≡ 1)

-- A step of one thread keeps the count, whatever the others hold.
Kept : ℕ → ℕ → Lock × Place → Type 0
Kept r w moved =
    IsHeld moved.0.current (r + reads moved.1) (w + writes moved.1) × (refusals moved.1 ≡ 0)

write-Kept :
    (c : Choice) (m : Lock) (s : WriteStage) (r w : ℕ)
    → IsHeld m.current (r + reads (in_write s)) (w + writes (in_write s))
    → Kept r w (write_step c m s)
unfolding write_step Kept
write-Kept c m (write_begin p) r w h = ground arith
write-Kept c m (write_round p) r w h = ground arith
write-Kept c m (write_check p) r w h = ground arith
write-Kept c m (write_swap p) r w h = ground arith
write-Kept c m (write_end res) r w h = ground arith

read-Kept :
    (c : Choice) (m : Lock) (s : ReadStage) (r w : ℕ)
    → IsHeld m.current (r + reads (in_read s)) (w + writes (in_read s))
    → Kept r w (read_step c m s)
unfolding read_step Kept
read-Kept c m (read_begin p) r w h = ground arith
read-Kept c m (read_round p) r w h = ground arith
read-Kept c m (read_check p) r w h = ground arith
read-Kept c m (read_load p) r w h = ground arith
read-Kept c m (read_swap p curr) r w h = ground arith
read-Kept c m (read_end res) r w h = ground arith

unlock-Kept :
    (m : Lock) (s : UnlockStage) (r w : ℕ)
    → IsHeld m.current (r + reads (in_unlock s)) (w + writes (in_unlock s))
    → Kept r w (unlock_step m s)
unfolding unlock_step Kept
unlock-Kept m read_unlock_load r w h = ground arith
unlock-Kept m read_unlock_sub r w h = ground arith
unlock-Kept m write_unlock_load r w h = ground arith
unlock-Kept m write_unlock_store r w h = ground arith

change-Kept :
    (m : Lock) (s : ChangeStage) (r w : ℕ)
    → IsHeld m.current (r + reads (in_change s)) (w + writes (in_change s))
    → Kept r w (change_step m s)
unfolding change_step Kept
change-Kept m downgrade_load r w h = ground arith
change-Kept m downgrade_store r w h = ground arith
change-Kept m upgrade_load r w h = ground arith
change-Kept m upgrade_add r w h = ground arith
change-Kept m upgrade_swap r w h = ground arith
change-Kept m upgrade_end r w h = ground arith

advance-Kept :
    (c : Choice) (m : Lock) (p : Place) (r w : ℕ)
    → IsHeld m.current (r + reads p) (w + writes p)
    → refusals p ≡ 0
    → Kept r w (advance c m p)
unfolding advance
advance-Kept c m (in_write s) r w h k = write-Kept c m s r w h
advance-Kept c m (in_read s) r w h k = read-Kept c m s r w h
advance-Kept c m (in_unlock s) r w h k = unlock-Kept m s r w h
advance-Kept c m (in_change s) r w h k = change-Kept m s r w h
advance-Kept c m refused r w h k = unfold Kept in ground arith
advance-Kept c m idle r w h k = unfold Kept in ground arith
advance-Kept c m reading r w h k = unfold Kept in ground arith
advance-Kept c m writing r w h k = unfold Kept in ground arith

-- `current_` counts the holders, and no holder has been refused.
pub record Inv (n : ℕ) (s : System) : Type 0 where
  pub held : IsHeld s.shared.current (total reads n s.place) (total writes n s.place)
  pub unrefused : total refusals n s.place ≡ 0

turn-Inv : (n : ℕ) (s : System) (i : ℕ) (c : Choice) → i < n → Inv n s → Inv n (turn i c s)
unfolding turn Kept
turn-Inv n s i c h v =
    let (r, er, er') = total-split reads n s.place i h in
    let (w, ew, ew') = total-split writes n s.place i h in
    let (f, ef, ef') = total-split refusals n s.place i h in
    let moved = advance c s.shared (s.place i) in
    let (held, unrefused) =
      advance-Kept c s.shared (s.place i) r w (rw (← er, ← ew) v.held)
        (omega (arith, v.unrefused)) in
    record {
      held = rw (er' moved.1, ew' moved.1) held;
      unrefused = omega (arith, ef' moved.1, v.unrefused, unrefused);
    }

pub Reach-Inv : {n : ℕ} {b : Bool} {s : System} → Reach n b s → Inv n s
Reach-Inv {n} here = record {
  held = (
    sym (total-none reads n (λ i. idle) (λ i. refl)),
    total-none writes n (λ i. idle) (λ i. refl),
  );
  unrefused = total-none refusals n (λ i. idle) (λ i. refl);
}
Reach-Inv {n} (next {s = s} r i c h) = turn-Inv n s i c h (Reach-Inv r)

pub exclusive : (z : ℤ) (r w : ℕ) → IsHeld z r w → (w ≡ 0) ⊎ ((w ≡ 1) × (r ≡ 0))
exclusive (pos k) r w h = ground arith
exclusive (negsuc k) r w h = ground arith

-- Where a thread has the lock for writing, no other thread has it for writing or for reading, in
-- any order of the steps of any number of threads.
pub writer-alone :
    {n : ℕ} {b : Bool} {s : System} (i j : ℕ)
    → Reach n b s
    → i < n
    → j < n
    → (i == j) ≡ false
    → writes (s.place i) ≡ 1
    → (writes (s.place j) ≡ 0) × (reads (s.place j) ≡ 0)
writer-alone {n} {b} {s} i j r hi hj d w = ground (
  arith,
  exclusive s.shared.current (total reads n s.place) (total writes n s.place) (Reach-Inv r).held,
  total-some reads n s.place j hj,
  total-two writes n s.place i j hi hj d,
)

-- An operation that gives the lock back, upgrades it or downgrades it is never refused to the
-- thread that has the lock.
pub holder-unrefused :
    {n : ℕ} {b : Bool} {s : System} (i : ℕ) → Reach n b s → i < n → s.place i ≢ refused
holder-unrefused {n} {b} {s} i r h e =
    let none = total-some refusals n s.place i h in
    let one = ap refusals e in omega (arith, (Reach-Inv r).unrefused)

bounded : (z : ℤ) (r w : ℕ) → IsHeld z r w → ((k : ℕ) × (z ≡ pos k) × (k ≤ r)) ⊎ (z ≡ negsuc 0)
bounded (pos k) r w h = inl (k, refl, omega arith)
bounded (negsuc k) r w h = inr (ap negsuc h.0)

-- `current_` is -1 or at most the number of threads, so that the sum with 1 that a reader makes
-- does not overflow where there are fewer threads than an `int` counts.
pub current-bound :
    {n : ℕ} {b : Bool} {s : System}
    → Reach n b s
    → ((k : ℕ) × (s.shared.current ≡ pos k) × (k ≤ n)) ⊎ (s.shared.current ≡ negsuc 0)
current-bound {n} {b} {s} r =
    elim (bounded s.shared.current (total reads n s.place) (total writes n s.place)
      (Reach-Inv r).held) [
        | inl (k, e, h) ↦ inl (k, e, omega (arith, total-bound reads small n s.place))
        | inr e ↦ inr e
      ]
  where
    small : (p : Place) → reads p ≤ 1
    small p = ground arith

-- ===== src/Tests/Locks.antt =====
-- The theorems on the locks, where two threads use one.
use test_assignment.Prelude.{
  ℕ, zero, suc, ◌<◌, ◌+◌, ◌≤◌, true, false, List, ◌∷◌, ◌++◌, ◌≡◌, ◌≢◌, ◌⊎◌, refl, arith, replicate,
}
use test_assignment.Prelude.Int.{pos, negsuc}
use test_assignment.Threads.RwLock.{
  Choice, System, lock, try_lock, upgrade, go, upgrade_swap, reading, refused, in_change, start,
  turn, advance, write_step, read_step, change_step, Reach, here, run,
}
use test_assignment.Threads.Exclusion.{reads, writes, writer-alone, holder-unrefused, current-bound}
use test_assignment.Threads.Waiting.{run-Reach, Waiting, Reach-Waiting, upgrades-wait}
use test_assignment.Threads.Family.{total}
use test_assignment.Threads.Attempt.{is_outside, quiet_lock, alone, try_lock-decides}
use test_assignment.Threads.Spin.{
  SpinSystem, SpinReach, spin_start, spin_turn, spin-exclusive, holds, spin_refusals,
}
use test_assignment.Threads.Spin

abbrev steps : ℕ → ℕ → List (ℕ × Choice)
steps i k = replicate k (i, go)

-- thread 0 writes, and thread 1 waits to read
abbrev contended : System
contended = run 2 ((0, lock true) ∷ steps 0 4 ++ (1, lock false) ∷ steps 1 3) (start true)

contended-Reach : Reach 2 true contended
contended-Reach = run-Reach ((0, lock true) ∷ steps 0 4 ++ (1, lock false) ∷ steps 1 3) here

writer-alone_example : (writes (contended.place 1) ≡ 0) × (reads (contended.place 1) ≡ 0)
unfolding run turn advance write_step
writer-alone_example = writer-alone 0 1 contended-Reach (omega arith) (omega arith) refl refl

holder-unrefused_example : contended.place 0 ≢ refused
holder-unrefused_example = holder-unrefused 0 contended-Reach (omega arith)

current-bound_example :
    ((k : ℕ) × (contended.shared.current ≡ pos k) × (k ≤ 2)) ⊎ (contended.shared.current ≡ negsuc 0)
current-bound_example = current-bound contended-Reach

Reach-Waiting_example : Waiting 2 contended
Reach-Waiting_example = Reach-Waiting contended-Reach

-- both threads read, and both upgrade
abbrev upgrading : List (ℕ × Choice)
upgrading =
    (0, lock false) ∷ steps 0 5
    ++ (1, lock false) ∷ steps 1 5
    ++ (0, upgrade) ∷ steps 0 2
    ++ (1, upgrade) ∷ steps 1 2

abbrev both_upgrade : System
both_upgrade = run 2 upgrading (start false)

upgrades-wait_example :
    ((run 2 (steps 0 1 ++ steps 1 1) both_upgrade).place 0 ≡ in_change upgrade_swap)
    × ((run 2 (steps 0 1 ++ steps 1 1) both_upgrade).place 1 ≡ in_change upgrade_swap)
unfolding run turn advance read_step change_step
upgrades-wait_example =
    upgrades-wait {n = 2} {b = false} (steps 0 1 ++ steps 1 1) 0 1 (run-Reach upgrading here)
      (omega arith) (omega arith) refl refl refl

-- thread 0 reads, and thread 1 was refused for writing
abbrev reader_there : System
reader_there = run 2 ((0, lock false) ∷ steps 0 6 ++ (1, try_lock true) ∷ steps 1 6) (start true)

reader_there-Reach : Reach 2 true reader_there
reader_there-Reach = run-Reach ((0, lock false) ∷ steps 0 6 ++ (1, try_lock true) ∷ steps 1 6) here

reader_there-is_outside : (j : ℕ) → j < 2 → is_outside (reader_there.place j) ≡ true
unfolding run turn advance write_step read_step
reader_there-is_outside zero h = refl
reader_there-is_outside (suc zero) h = refl
reader_there-is_outside (suc (suc j)) h = absurd (omega arith)

try_lock-decides_example :
    ((alone 1 6 (turn 1 (try_lock false) reader_there)).place 1 ≡ reading)
    × ((alone 1 6 (turn 1 (try_lock false) reader_there)).shared ≡ quiet_lock (pos 2) true)
unfolding run turn advance write_step read_step total
try_lock-decides_example = try_lock-decides 1 false reader_there-Reach reader_there-is_outside refl

-- thread 0 has the spin lock, and thread 1 tries
abbrev spinning : SpinSystem
spinning =
    spin_turn 1 Spin.go
      (spin_turn 1 (Spin.lock true) (spin_turn 0 Spin.go (spin_turn 0 (Spin.lock true) spin_start)))

spinning-Reach : SpinReach 2 spinning
spinning-Reach =
    Spin.next
      (Spin.next
        (Spin.next (Spin.next Spin.here 0 (Spin.lock true) (omega arith)) 0 Spin.go (omega arith)) 1
        (Spin.lock true) (omega arith))
      1 Spin.go (omega arith)

spin-exclusive_example :
    (holds (spinning.place 0) + holds (spinning.place 1) ≤ 1)
    × (spin_refusals (spinning.place 0) ≡ 0)
spin-exclusive_example = spin-exclusive 0 1 spinning-Reach (omega arith) (omega arith) refl

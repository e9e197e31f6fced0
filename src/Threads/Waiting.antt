-- ===== src/Threads/Waiting.antt =====
-- What the waiting counters of the rw_lock of support/threading/rw_lock.hpp come to, and which
-- calls return.
use test_assignment.Prelude.{
  ℕ, ◌+◌, ◌≤◌, ◌<◌, Bool, false, List, [], ◌∷◌, ◌≡◌, refl, ap, ltb, ◌==◌, Bool-cases, sym, inl, inr,
  arith, ltb→lt, ==_iff, ◌∙◌,
}
use test_assignment.Prelude.Int.{ℤ, pos, negsuc, same_int}
use test_assignment.Threads.Family.{total, total-split, total-two, total-none}
use test_assignment.Threads.RwLock.{
  Lock, Place, Choice, System, write_begin, read_begin, upgrade_swap, upgrade_end, idle, reading,
  writing, refused, in_write, in_read, in_unlock, in_change, write_step, read_step, unlock_step,
  change_step, advance, turn, Reach, here, next, run,
}
use test_assignment.Threads.Exclusion.{reads, writes, IsHeld, Reach-Inv}

-- Orders of the threads' steps reach what is reachable.
pub run-Reach :
    {n : ℕ} {b : Bool} (order : List (ℕ × Choice)) {s : System}
    → Reach n b s
    → Reach n b (run n order s)
unfolding run
run-Reach [] r = r
run-Reach {n} {b} ((i, c) ∷ order) {s} r =
    run-Reach order
      (elim (Bool-cases (ltb i n)) [ inl e ↦ rw e (next r i c (ltb→lt i n e)) | inr e ↦ rw e r ])

-- how a thread counts in each of the counters of those that wait
abbrev pub waits_write : Place → ℕ
waits_write (in_write (write_begin p)) = 0
waits_write (in_write s) = 1
waits_write p = 0

abbrev pub waits_read : Place → ℕ
waits_read (in_read (read_begin p)) = 0
waits_read (in_read s) = 1
waits_read p = 0

abbrev pub waits_upgrade : Place → ℕ
waits_upgrade (in_change upgrade_swap) = 1
waits_upgrade (in_change upgrade_end) = 1
waits_upgrade p = 0

Counts : ℕ → ℕ → ℕ → Lock → Place → Type 0
Counts w r u m p =
    (m.pending_writers ≡ w + waits_write p)
    × (m.pending_readers ≡ r + waits_read p)
    × (m.pending_upgraders ≡ u + waits_upgrade p)

advance-Counts :
    (c : Choice) (m : Lock) (p : Place) (w r u : ℕ)
    → Counts w r u m p
    → Counts w r u (advance c m p).0 (advance c m p).1
unfolding advance write_step read_step unlock_step change_step Counts
advance-Counts c m idle w r u h = ground arith
advance-Counts c m reading w r u h = ground arith
advance-Counts c m writing w r u h = ground arith
advance-Counts c m refused w r u h = ground arith
advance-Counts c m (in_write s) w r u h = ground arith
advance-Counts c m (in_read s) w r u h = ground arith
advance-Counts c m (in_unlock s) w r u h = ground arith
advance-Counts c m (in_change s) w r u h = ground arith

pub record Waiting (n : ℕ) (s : System) : Type 0 where
  pub writers : s.shared.pending_writers ≡ total waits_write n s.place
  pub readers : s.shared.pending_readers ≡ total waits_read n s.place
  pub upgraders : s.shared.pending_upgraders ≡ total waits_upgrade n s.place

turn-Waiting :
    (n : ℕ) (s : System) (i : ℕ) (c : Choice) → i < n → Waiting n s → Waiting n (turn i c s)
unfolding turn Counts
turn-Waiting n s i c h v =
    let (w, ew, ew') = total-split waits_write n s.place i h in
    let (r, er, er') = total-split waits_read n s.place i h in
    let (u, eu, eu') = total-split waits_upgrade n s.place i h in
    let moved = advance c s.shared (s.place i) in
    let (kw, kr, ku) =
      advance-Counts c s.shared (s.place i) w r u
        (omega (arith, v.writers), omega (arith, v.readers), omega (arith, v.upgraders)) in
    record {
      writers = omega (arith, ew' moved.1);
      readers = omega (arith, er' moved.1);
      upgraders = omega (arith, eu' moved.1);
    }

-- Each counter counts the threads that are inside an operation of its kind, in any order of the
-- steps of any number of threads.
pub Reach-Waiting : {n : ℕ} {b : Bool} {s : System} → Reach n b s → Waiting n s
Reach-Waiting {n} here = record {
  writers = sym (total-none waits_write n (λ i. idle) (λ i. refl));
  readers = sym (total-none waits_read n (λ i. idle) (λ i. refl));
  upgraders = sym (total-none waits_upgrade n (λ i. idle) (λ i. refl));
}
Reach-Waiting {n} (next {s = s} r i c h) = turn-Waiting n s i c h (Reach-Waiting r)

two_readers : (z : ℤ) (r w : ℕ) → IsHeld z r w → 2 ≤ r → same_int z (pos 1) ≡ false
two_readers (pos k) r w h g = ground arith
two_readers (negsuc k) r w h g = refl

-- While another thread reads, the exchange of `upgrade` fails.
swap_fails :
    (c : Choice) (m : Lock)
    → same_int m.current (pos 1) ≡ false
    → (advance c m (in_change upgrade_swap)).1 ≡ in_change upgrade_swap
unfolding advance change_step
swap_fails c m e = rw e refl

turn-swaps :
    (s : System) (i k : ℕ) (c : Choice)
    → same_int s.shared.current (pos 1) ≡ false
    → s.place i ≡ in_change upgrade_swap
    → (turn k c s).place i ≡ in_change upgrade_swap
unfolding turn
turn-swaps s i k c e at_i = elim (Bool-cases (k == i)) [
  | inl same ↦
      let at_k = ap s.place ((==_iff k i).0 same) ∙ at_i in
      rw same (ap (λ p. (advance c s.shared p).1) at_k ∙ swap_fails c s.shared e)
  | inr other ↦ rw other at_i
]

-- Where two threads that both read the lock have called `upgrade` and wait to exchange, neither
-- ever goes on, whatever the threads do from then on.
pub upgrades-wait :
    {n : ℕ} {b : Bool} (order : List (ℕ × Choice)) {s : System} (i j : ℕ)
    → Reach n b s
    → i < n
    → j < n
    → (i == j) ≡ false
    → s.place i ≡ in_change upgrade_swap
    → s.place j ≡ in_change upgrade_swap
    → ((run n order s).place i ≡ in_change upgrade_swap)
      × ((run n order s).place j ≡ in_change upgrade_swap)
unfolding run
upgrades-wait [] i j r hi hj d ei ej = (ei, ej)
upgrades-wait {n} {b} ((k, c) ∷ order) {s} i j r hi hj d ei ej = elim (Bool-cases (ltb k n)) [
  | inl e ↦
      let both = total-two reads n s.place i j hi hj d in
      let two =
        two_readers s.shared.current (total reads n s.place) (total writes n s.place)
          (Reach-Inv r).held (omega (arith, ap reads ei, ap reads ej)) in
      rw (e, run)
        (upgrades-wait order i j (next r k c (ltb→lt k n e)) hi hj d (turn-swaps s i k c two ei)
          (turn-swaps s j k c two ej))
  | inr e ↦ rw (e, run) (upgrades-wait order i j r hi hj d ei ej)
]

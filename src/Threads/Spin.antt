-- ===== src/Threads/Spin.antt =====
-- support/threading/spin_lock.hpp: `spin_lock`, a single atomic flag, one compare-exchange at a
-- time. The client gives the lock back only where it holds it.
use test_assignment.Prelude.{ℕ, ◌+◌, ◌≤◌, ◌<◌, Bool, true, false, ◌≡◌, refl, ◌==◌, sym, arith}
use test_assignment.Threads.Family.{update, total, total-split, total-some, total-two, total-none}

-- `trying` stands in the loop of `lock`, with whether the call waits for ever; `refused` behind an
-- `unlock` that has returned false to the holder.
pub data SpinPlace : Type 0 where
  free holding leaving refused : SpinPlace
  trying : Bool → SpinPlace
  trying_once : SpinPlace

pub data SpinChoice : Type 0 where
  lock : Bool → SpinChoice
  try_lock unlock go time_over : SpinChoice

-- `lock`, after an exchange that failed
abbrev pub wait_again : SpinChoice → Bool → SpinPlace
wait_again time_over false = free
wait_again c forever = trying forever

-- one step of a thread, with the flag `latch_`
unfoldable pub spin_step : SpinChoice → Bool → SpinPlace → Bool × SpinPlace
spin_step (lock forever) latch free = (latch, trying forever)
spin_step try_lock latch free = (latch, trying_once)
spin_step c latch free = (latch, free)
spin_step unlock latch holding = (latch, leaving)
spin_step c latch holding = (latch, holding)
spin_step c false (trying forever) = (true, holding)
spin_step c true (trying forever) = (true, wait_again c forever)
spin_step c false trying_once = (true, holding)
spin_step c true trying_once = (true, free)
spin_step c true leaving = (false, free)
spin_step c false leaving = (false, refused)
spin_step c latch refused = (latch, refused)

pub record SpinSystem : Type 0 where
  pub latch : Bool
  pub place : ℕ → SpinPlace

unfoldable pub spin_turn : ℕ → SpinChoice → SpinSystem → SpinSystem
spin_turn i c s =
    let moved = spin_step c s.latch (s.place i) in
    record { latch = moved.0; place = update s.place i moved.1 }

abbrev pub spin_start : SpinSystem
spin_start = record { latch = false; place = λ i. free }

pub data SpinReach (n : ℕ) : SpinSystem → Type 0 where
  here : SpinReach n spin_start
  next :
      {s : SpinSystem}
      → SpinReach n s
      → (i : ℕ) (c : SpinChoice) → i < n
      → SpinReach n (spin_turn i c s)

-- whether a thread has the lock
abbrev pub holds : SpinPlace → ℕ
holds holding = 1
holds leaving = 1
holds p = 0

abbrev pub spin_refusals : SpinPlace → ℕ
spin_refusals refused = 1
spin_refusals p = 0

abbrev latch_count : Bool → ℕ
latch_count true = 1
latch_count false = 0

step_kept :
    (c : SpinChoice) (latch : Bool) (p : SpinPlace) (rest : ℕ)
    → latch_count latch ≡ rest + holds p
    → spin_refusals p ≡ 0
    → (latch_count (spin_step c latch p).0 ≡ rest + holds (spin_step c latch p).1)
      × (spin_refusals (spin_step c latch p).1 ≡ 0)
unfolding spin_step
step_kept c latch p rest h k = ground arith

record SpinInv (n : ℕ) (s : SpinSystem) : Type 0 where
  held : latch_count s.latch ≡ total holds n s.place
  unrefused : total spin_refusals n s.place ≡ 0

turn-SpinInv :
    (n : ℕ) (s : SpinSystem) (i : ℕ) (c : SpinChoice)
    → i < n
    → SpinInv n s
    → SpinInv n (spin_turn i c s)
unfolding spin_turn
turn-SpinInv n s i c h v =
    let (r, er, er') = total-split holds n s.place i h in
    let (f, ef, ef') = total-split spin_refusals n s.place i h in
    let moved = spin_step c s.latch (s.place i) in
    let (held, unrefused) =
      step_kept c s.latch (s.place i) r (omega (arith, v.held)) (omega (arith, v.unrefused)) in
    record {
      held = omega (arith, er' moved.1, held);
      unrefused = omega (arith, ef' moved.1, v.unrefused, unrefused);
    }

Reach-SpinInv : {n : ℕ} {s : SpinSystem} → SpinReach n s → SpinInv n s
Reach-SpinInv {n} here = record {
  held = sym (total-none holds n (λ i. free) (λ i. refl));
  unrefused = total-none spin_refusals n (λ i. free) (λ i. refl);
}
Reach-SpinInv {n} (next {s = s} r i c h) = turn-SpinInv n s i c h (Reach-SpinInv r)

at_most_one : (latch : Bool) → latch_count latch ≤ 1
at_most_one latch = ground arith

-- In any order of the steps of any number of threads, no two threads have the spin lock at once,
-- and none that has it is refused when it gives it back.
pub spin-exclusive :
    {n : ℕ} {s : SpinSystem} (i j : ℕ)
    → SpinReach n s
    → i < n
    → j < n
    → (i == j) ≡ false
    → (holds (s.place i) + holds (s.place j) ≤ 1) × (spin_refusals (s.place i) ≡ 0)
spin-exclusive {n} {s} i j r hi hj d =
    let v = Reach-SpinInv r in
    (
      omega (arith, v.held, at_most_one s.latch, total-two holds n s.place i j hi hj d),
      omega (arith, v.unrefused, total-some spin_refusals n s.place i hi),
    )

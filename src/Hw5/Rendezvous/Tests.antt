-- ===== src/Hw5/Rendezvous/Tests.antt =====
-- The theorems on the meeting of two threads.
use cse_344_system_programmi.Base.{ℕ, ◌<◌, ◌≡◌, ◌≢◌, refl, true, false, arith}
use cse_344_system_programmi.Hw5.Rendezvous.{
  multiplying, reached, advanced, Threads, init, at, Step, multiply, Reach, start, next,
}
use cse_344_system_programmi.Hw5.Rendezvous.Meeting.{Reach-meets, early_transform}

abbrev one_reached : Threads
one_reached = record init { pc = at (λ i. multiplying) 0 reached }

one_reached-Reach : Reach 2 false one_reached
one_reached-Reach = next start (multiply 0 (omega arith) refl)

Reach-meets_example :
    ((i j : ℕ) → i < 2 → j < 2 → one_reached.pc i ≡ advanced → one_reached.pc j ≢ multiplying)
    × ((i : ℕ) → i < 2 → one_reached.pc i ≢ advanced → (t : Threads) × Step 2 one_reached t)
Reach-meets_example = Reach-meets one_reached-Reach

early_transform_example :
    (s : Threads) × Reach 2 true s × (s.pc 0 ≡ advanced) × (s.pc 1 ≡ multiplying)
early_transform_example = early_transform 2 (omega arith)

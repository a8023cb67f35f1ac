-- ===== src/Final/Pool/Tests.antt =====
-- The theorems of the thread pool where one request was accepted by two idle workers.
use cse_344_system_programmi.Base.{ℕ, ◌<◌, ◌≡◌, refl, true, [], ◌∷◌, arith}
use cse_344_system_programmi.Final.Pool.{
  waiting, System, init, accept, enqueue_busy, Reach, start, other,
}
use cse_344_system_programmi.Final.Pool.Progress.{
  InOrder, IsAwake, Reach-InOrder, no_request_stranded,
}
use cse_344_system_programmi.Final.Pool.Shutdown.{Works, shutdown_can_hang}

abbrev one_queued : System
one_queued = record init { queue = 7 ∷ []; accepted = 7 ∷ [] }

one_queued-Reach : Reach 2 one_queued
one_queued-Reach =
    other (other start (accept 7 refl refl refl)) (enqueue_busy 7 refl refl (λ i lt e. cc))

Reach-InOrder_example : InOrder one_queued
Reach-InOrder_example = Reach-InOrder one_queued-Reach

no_request_stranded_example : (i : ℕ) × (i < 2) × IsAwake (one_queued.pc i)
no_request_stranded_example = no_request_stranded (omega arith) one_queued-Reach refl (λ e. cc)

shutdown_can_hang_example :
    (s : System) × Reach 4 s × (s.joining ≡ true) × ((t : System) → Works 4 s t → t.pc 0 ≡ waiting)
shutdown_can_hang_example = shutdown_can_hang 4 7 (omega arith)

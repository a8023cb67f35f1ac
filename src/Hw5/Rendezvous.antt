-- ===== src/Hw5/Rendezvous.antt =====
-- Hw5/src/main.c: where the threads of `thread_start` meet between the product and the transform.
-- The section under `mutex_task_1` is one step, up to the wait on `cond_task_1`. The signal is left
-- out.
pub mod Meeting
mod Tests
use cse_344_system_programmi.Base.{
  ℕ, zero, suc, ◌+◌, ◌<◌, ◌≤◌, ◌≡◌, Bool, true, false, ◌==◌, if◌then◌else◌,
}

pub data Pc : Type 0 where
  multiplying : Pc  -- in `multiply_matrix`
  reached : Pc  -- before it locks the mutex
  waiting : Pc  -- in `pthread_cond_wait`
  advanced : Pc  -- in the transform, which reads all of `matrix_C`, or behind it

pub record Threads : Type 0 where
  pub task_1_done : ℕ
  pub pc : ℕ → Pc

abbrev pub init : Threads
init = record { task_1_done = 0; pc = λ i. multiplying }

abbrev pub at : (ℕ → Pc) → ℕ → Pc → ℕ → Pc
at f i p j = if j == i then p else f j

-- `pthread_cond_broadcast`
abbrev pub release : Pc → Pc
release waiting = advanced
release p = p

pub data Step (m : ℕ) (s : Threads) : Threads → Type 0 where
  multiply : (i : ℕ) → i < m → s.pc i ≡ multiplying → Step m s (record s { pc = at s.pc i reached })
  arrive :
      (i : ℕ)
      → i < m
      → s.pc i ≡ reached
      → s.task_1_done + 1 < m
      → Step m s (record { task_1_done = s.task_1_done + 1; pc = at s.pc i waiting })
  arrive_last :
      (i : ℕ)
      → i < m
      → s.pc i ≡ reached
      → m ≤ s.task_1_done + 1
      → Step m s
          (record { task_1_done = s.task_1_done + 1; pc = at (λ j. release (s.pc j)) i advanced })

-- The states of `m` threads; a wait may end without a broadcast only if `spurious` is true.
pub data Reach (m : ℕ) (spurious : Bool) : Threads → Type 0 where
  start : Reach m spurious init
  next : {s t : Threads} → Reach m spurious s → Step m s t → Reach m spurious t
  wake :
      {s : Threads} (i : ℕ)
      → Reach m spurious s
      → spurious ≡ true
      → s.pc i ≡ waiting
      → Reach m spurious (record s { pc = at s.pc i advanced })

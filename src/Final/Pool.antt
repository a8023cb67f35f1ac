-- ===== src/Final/Pool.antt =====
-- Final/src/server.c: the main loop, the worker threads and the shutdown, interleaved. A stretch
-- of code under `request_mutex` is one step, up to the wait on `request_cond`, which releases the
-- mutex. The queue is the list of the descriptors in it (Queue.antt shows that it is first in,
-- first out). `main` empties the queue at shutdown without the mutex; here that is one step as well.
-- `accepted`, `taken` and `drained` are records of the past that no code reads.
pub mod Progress
pub mod Shutdown
mod Tests
use cse_344_system_programmi.Base.{
  ℕ, ◌<◌, ◌≡◌, ◌≢◌, Bool, true, false, Option, none, some, List, [], ◌∷◌, ◌++◌, ◌==◌, if◌then◌else◌,
}

-- Where a worker stands in `thread_main`.
pub data Pc : Type 0 where
  top : Pc  -- before it locks the mutex
  waiting : Pc  -- in `pthread_cond_wait`
  woken : Pc  -- signalled, not yet holding the mutex again
  took : Option ℕ → Pc  -- after it has unlocked, with what it took
  handling : ℕ → Pc  -- in `handle_request`
  finished : Pc

pub record System : Type 0 where
  pub queue : List ℕ
  pub sigint_flag : Bool
  pub accepting : Option ℕ  -- `main` is past its look at the flag, with this descriptor
  pub joining : Bool  -- `main` has emptied the queue and joins the workers
  pub pc : ℕ → Pc
  pub accepted : List ℕ
  pub taken : List ℕ
  pub drained : List ℕ

abbrev pub init : System
init = record {
  queue = [];
  sigint_flag = false;
  accepting = none;
  joining = false;
  pc = λ _. top;
  accepted = [];
  taken = [];
  drained = [];
}

abbrev pub at : (ℕ → Pc) → ℕ → Pc → ℕ → Pc
at f i p j = if j == i then p else f j

abbrev pub wake : Pc → Pc
wake waiting = woken
wake p = p

-- `dequeue`: what a worker gets, and what is left.
abbrev pub take_first : System → ℕ → List ℕ → System
take_first s i [] = record s { pc = at s.pc i (took none) }
take_first s i (fd ∷ rest) = record s {
  queue = rest;
  pc = at s.pc i (took (some fd));
  taken = s.taken ++ fd ∷ [];
}

-- A step of worker `i`.
pub data Work (n : ℕ) (s : System) : System → Type 0 where
  begin_some :
      (i fd : ℕ) (rest : List ℕ)
      → i < n
      → s.pc i ≡ top
      → s.queue ≡ fd ∷ rest
      → Work n s (take_first s i (fd ∷ rest))
  begin_wait :
      (i : ℕ) → i < n → s.pc i ≡ top → s.queue ≡ [] → Work n s (record s { pc = at s.pc i waiting })
  resume : (i : ℕ) (q : List ℕ) → i < n → s.pc i ≡ woken → s.queue ≡ q → Work n s (take_first s i q)
  stop :
      (i : ℕ) (r : Option ℕ)
      → i < n
      → s.pc i ≡ took r
      → s.sigint_flag ≡ true
      → Work n s (record s { pc = at s.pc i finished })
  nothing :
      (i : ℕ)
      → i < n
      → s.pc i ≡ took none
      → s.sigint_flag ≡ false
      → Work n s (record s { pc = at s.pc i top })
  handle :
      (i fd : ℕ)
      → i < n
      → s.pc i ≡ took (some fd)
      → s.sigint_flag ≡ false
      → Work n s (record s { pc = at s.pc i (handling fd) })
  handled : (i fd : ℕ) → i < n → s.pc i ≡ handling fd → Work n s (record s { pc = at s.pc i top })

-- A step of the main thread, of the signal handler, or a wait that ends without a signal. The
-- signal of `pthread_cond_signal` wakes one waiting worker, or none if no worker waits.
pub data Other (n : ℕ) (s : System) : System → Type 0 where
  accept :
      (fd : ℕ)
      → s.joining ≡ false
      → s.accepting ≡ none
      → s.sigint_flag ≡ false
      → Other n s (record s { accepting = some fd })
  enqueue_wake :
      (fd i : ℕ)
      → s.joining ≡ false
      → s.accepting ≡ some fd
      → i < n
      → s.pc i ≡ waiting
      → Other n s (record s {
        accepting = none;
        queue = s.queue ++ fd ∷ [];
        accepted = s.accepted ++ fd ∷ [];
        pc = at s.pc i woken;
      })
  enqueue_busy :
      (fd : ℕ)
      → s.joining ≡ false
      → s.accepting ≡ some fd
      → ((i : ℕ) → i < n → s.pc i ≢ waiting)
      → Other n s (record s {
        accepting = none;
        queue = s.queue ++ fd ∷ [];
        accepted = s.accepted ++ fd ∷ [];
      })
  sigint : Other n s (record s { sigint_flag = true; pc = λ i. wake (s.pc i) })
  shutdown :
      s.joining ≡ false
      → s.accepting ≡ none
      → s.sigint_flag ≡ true
      → Other n s (record s { queue = []; joining = true; drained = s.queue })
  spurious : (i : ℕ) → i < n → s.pc i ≡ waiting → Other n s (record s { pc = at s.pc i woken })

pub data Reach (n : ℕ) : System → Type 0 where
  start : Reach n init
  work : {s t : System} → Reach n s → Work n s t → Reach n t
  other : {s t : System} → Reach n s → Other n s t → Reach n t

-- ===== src/Midterm/Backup.antt =====
-- Midterm/src/backup_server.c: server Z. Its parent reads the forwarded requests from a pipe and hands
-- them over one at a time through shared memory, with the semaphores `sem_read` and `sem_cont`. Left
-- out: the log, the times, the delay, errors of system calls, and SIGINT but for what it logs.
pub mod Handshake
pub mod Answers
pub mod Samples
pub mod Correctness
pub mod Progress
mod Tests
use cse_344_system_programmi.Base.{
  ℕ, zero, suc, ◌+◌, ◌<◌, ◌≡◌, Bool, true, false, Option, some, List, [], ◌∷◌, ◌++◌,
}
use cse_344_system_programmi.Base.Totals.{at}
use cse_344_system_programmi.Midterm.Matrix.{Rows, is_invertable}
use cse_344_system_programmi.Midterm.Server.{Request, Response, Answer, int_of}

pub data ParentPc : Type 0 where
  reading : ParentPc
  holding : Request → ParentPc  -- before memcpy
  copied : ParentPc  -- before sem_post(sem_read)
  waiting : ParentPc  -- in sem_wait(sem_cont)

-- Where a worker stands in `in_child`.
pub data ChildPc : Type 0 where
  idle : ChildPc  -- in sem_wait(sem_read)
  entered : ChildPc  -- before it copies the request
  loaded : Request → ChildPc  -- before sem_post(sem_cont)
  released : Request → ChildPc  -- before sem_post(working_child)
  busy : Request → ChildPc  -- before it judges the matrix
  counted : Request → Bool → ChildPc  -- before the post to `z_inverted` or `z_not_inverted`
  judged : Request → Bool → ChildPc  -- before it answers the client
  answered : ChildPc  -- before sem_wait(working_child)

pub record Backup : Type 0 where
  pub incoming : List Request  -- what the pipe will still give
  pub parent : ParentPc
  pub shared : Request  -- what `addr` points to
  pub sem_read : ℕ
  pub sem_cont : ℕ
  pub child : ℕ → ChildPc
  pub working_child : ℕ
  pub number_of_inverted : ℕ  -- the posts of this server
  pub number_of_not_inverted : ℕ
  pub z_inverted : ℕ
  pub z_not_inverted : ℕ
  pub answers : List Answer

-- `junk` is what the shared memory holds at first.
abbrev pub init : (junk : Request) → List Request → Backup
init junk requests = record {
  incoming = requests;
  parent = reading;
  shared = junk;
  sem_read = 0;
  sem_cont = 0;
  child = λ i. idle;
  working_child = 0;
  number_of_inverted = 0;
  number_of_not_inverted = 0;
  z_inverted = 0;
  z_not_inverted = 0;
  answers = [];
}

abbrev pub go : ℕ → ChildPc → Backup → Backup
go i p s = record s { child = at s.child i p }

pub post_result : Bool → Backup → Backup
post_result true s = record s { number_of_inverted = s.number_of_inverted + 1 }
post_result false s = record s { number_of_not_inverted = s.number_of_not_inverted + 1 }

pub post_z : Bool → Backup → Backup
post_z true s = record s { z_inverted = s.z_inverted + 1 }
post_z false s = record s { z_not_inverted = s.z_not_inverted + 1 }

pub respond : ℕ → Request → Bool → Backup → Backup
respond i req b s = record s {
  answers =
      s.answers
      ++ record {
        client_id = req.client_id;
        response = record { result = int_of b; worker_number = i + 1 };
      }
        ∷ [];
}

-- The numbers that `handle_sig` logs.
pub record Report : Type 0 where
  pub handled : ℕ
  pub invertible : ℕ
  pub not_invertible : ℕ

pub on_int : Backup → Report
on_int s = record {
  handled = s.z_inverted + s.z_not_inverted;
  invertible = s.z_inverted;
  not_invertible = s.z_not_inverted;
}

-- The loop of `serverZ`.
pub data ParentStep (s : Backup) : Backup → Type 0 where
  read_pipe :
      (req : Request) (later : List Request)
      → s.parent ≡ reading
      → s.incoming ≡ req ∷ later
      → ParentStep s (record s { incoming = later; parent = holding req })
  copy :
      (req : Request)
      → s.parent ≡ holding req
      → ParentStep s (record s { shared = req; parent = copied })
  post_read :
      s.parent ≡ copied → ParentStep s (record s { sem_read = s.sem_read + 1; parent = waiting })
  wait_cont :
      (k : ℕ)
      → s.parent ≡ waiting
      → s.sem_cont ≡ suc k
      → ParentStep s (record s { sem_cont = k; parent = reading })

-- A step of worker `i` in `in_child`.
pub data ChildStep (junk : Rows) (s : Backup) (i : ℕ) : Backup → Type 0 where
  wait_read :
      (k : ℕ)
      → s.child i ≡ idle
      → s.sem_read ≡ suc k
      → ChildStep junk s i (go i entered (record s { sem_read = k }))
  load : s.child i ≡ entered → ChildStep junk s i (go i (loaded s.shared) s)
  post_cont :
      (req : Request)
      → s.child i ≡ loaded req
      → ChildStep junk s i (go i (released req) (record s { sem_cont = s.sem_cont + 1 }))
  post_working :
      (req : Request)
      → s.child i ≡ released req
      → ChildStep junk s i (go i (busy req) (record s { working_child = s.working_child + 1 }))
  judge :
      (req : Request) (b : Bool)
      → s.child i ≡ busy req
      → is_invertable junk req.matrix ≡ some b
      → ChildStep junk s i (go i (counted req b) (post_result b s))
  count :
      (req : Request) (b : Bool)
      → s.child i ≡ counted req b
      → ChildStep junk s i (go i (judged req b) (post_z b s))
  answer :
      (req : Request) (b : Bool)
      → s.child i ≡ judged req b
      → ChildStep junk s i (go i answered (respond i req b s))
  wait_working :
      (k : ℕ)
      → s.child i ≡ answered
      → s.working_child ≡ suc k
      → ChildStep junk s i (go i idle (record s { working_child = k }))

pub data Step (junk : Rows) (pool_size : ℕ) (s : Backup) : Backup → Type 0 where
  by_parent : {t : Backup} → ParentStep s t → Step junk pool_size s t
  by_child : {t : Backup} (i : ℕ) → i < pool_size → ChildStep junk s i t → Step junk pool_size s t

pub data Reach (junk : Rows) (pool_size : ℕ) (memory : Request) (requests : List Request)
    : Backup → Type 0 where
  start : Reach junk pool_size memory requests (init memory requests)
  next :
      {s t : Backup}
      → Reach junk pool_size memory requests s
      → Step junk pool_size s t
      → Reach junk pool_size memory requests t

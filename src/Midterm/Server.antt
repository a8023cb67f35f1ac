-- ===== src/Midterm/Server.antt =====
-- Midterm/src/server.c: server Y. Its parent hands each request to a pipe that the workers read, or,
-- while as many workers as the pool has are at work, to server Z. Parent and workers are processes:
-- their steps interleave, and a signal is delivered in a step of its own. Matrices are judged by
-- matrix_math.h. Left out: the log, the times, the delay, errors of system calls, and the memory that
-- fork copies.
pub mod Reading
pub mod Signals
pub mod Conservation
pub mod Answers
pub mod Samples
mod Tests
use cse_344_system_programmi.Base.{
  ℕ, zero, suc, ◌+◌, ◌*◌, ◌<◌, ◌≤◌, ◌≡◌, Bool, true, false, Option, none, some, List, [], ◌∷◌, ◌++◌,
  if◌then◌else◌,
}
use cse_344_system_programmi.Base.Totals.{at}
use cse_344_system_programmi.Base.Int.{ℤ, pos, ◌+ℤ◌, ◌-ℤ◌, ltb_ℤ}
pub use cse_344_system_programmi.Midterm.Reading.{Request}
use cse_344_system_programmi.Midterm.Reading.{ReadResult, Received, read_request, reads_whole}
use cse_344_system_programmi.Midterm.Matrix.{Rows, is_invertable}

-- `response` of structs.h, less the time.
pub record Response : Type 0 where
  pub result : ℤ
  pub worker_number : ℕ

-- A response in the fifo of a client.
pub record Answer : Type 0 where
  pub client_id : ℕ
  pub response : Response

abbrev pub int_of : Bool → ℤ
int_of true = pos 1
int_of false = pos 0

-- Where a worker stands in `in_child`.
pub data WorkerPc : Type 0 where
  idle : WorkerPc  -- before it reads from the pipe
  taken : Request → WorkerPc  -- before it sends SIGUSR1
  counted : Request → WorkerPc  -- before sem_post(working_child)
  busy : Request → WorkerPc  -- before it judges the matrix
  judged : Request → Bool → WorkerPc  -- before it answers the client
  answered : WorkerPc  -- before sem_wait(working_child)
  through : WorkerPc  -- before it sends SIGUSR2

pub record Server : Type 0 where
  pub incoming : List Request  -- what clients will still send
  pub req : Request  -- what the parent has read last
  pub total_byte : ℕ  -- never set
  pub handled : List Request  -- all that the parent has handed on
  pub working : ℤ
  pub usr1 : Bool  -- a SIGUSR1 is pending for the parent
  pub usr2 : Bool
  pub merged1 : ℕ  -- SIGUSR1 sent while one was pending: the kernel keeps one
  pub merged2 : ℕ
  pub pipe : List Request  -- parent2child_p
  pub servers_pipe : List Request  -- all that was written to server Z
  pub backup_server_run : Bool
  pub forwarded_requests : ℕ
  pub worker : ℕ → WorkerPc
  pub working_child : ℕ
  pub posts_of_z : ℕ  -- the posts of server Z to the two semaphores below, which it opens by name
  pub number_of_inverted : ℕ
  pub number_of_not_inverted : ℕ
  pub answers : List Answer

-- `memory` and `bytes` are what `req` and `total_byte` hold before anything is read: neither is set.
abbrev pub init : (memory : Request) → (bytes : ℕ) → List Request → Server
init memory bytes requests = record {
  incoming = requests;
  req = memory;
  total_byte = bytes;
  handled = [];
  working = pos 0;
  usr1 = false;
  usr2 = false;
  merged1 = 0;
  merged2 = 0;
  pipe = [];
  servers_pipe = [];
  backup_server_run = false;
  forwarded_requests = 0;
  worker = λ i. idle;
  working_child = 0;
  posts_of_z = 0;
  number_of_inverted = 0;
  number_of_not_inverted = 0;
  answers = [];
}

-- What the parent does with what the reading loop has left in `req`.
pub dispatch : (pool_size : ℕ) → Request → Server → Server
dispatch pool_size req s =
    if ltb_ℤ s.working (pos pool_size)
    then record s { handled = s.handled ++ req ∷ []; pipe = s.pipe ++ req ∷ [] }
    else record s {
      handled = s.handled ++ req ∷ [];
      forwarded_requests = s.forwarded_requests + 1;
      backup_server_run = true;
      servers_pipe = s.servers_pipe ++ req ∷ [];
    }

-- `handle_sig`
pub on_usr1 : Server → Server
on_usr1 s = record s { usr1 = false; working = s.working +ℤ pos 1 }

pub on_usr2 : Server → Server
on_usr2 s = record s { usr2 = false; working = s.working -ℤ pos 1 }

-- The numbers that the SIGINT case of `handle_sig` logs: handled, invertible, not, forwarded.
pub record Report : Type 0 where
  pub handled : ℕ
  pub invertible : ℕ
  pub not_invertible : ℕ
  pub forwarded : ℕ

pub on_int : Server → Report
on_int s = record {
  handled = s.number_of_inverted + s.number_of_not_inverted;
  invertible = s.number_of_inverted;
  not_invertible = s.number_of_not_inverted;
  forwarded = s.forwarded_requests;
}

-- kill(getppid(), SIGUSR1)
pub send_usr1 : Server → Server
send_usr1 s = record s { usr1 = true; merged1 = s.merged1 + (if s.usr1 then 1 else 0) }

pub send_usr2 : Server → Server
send_usr2 s = record s { usr2 = true; merged2 = s.merged2 + (if s.usr2 then 1 else 0) }

abbrev pub go : ℕ → WorkerPc → Server → Server
go i p s = record s { worker = at s.worker i p }

pub post_result : Bool → Server → Server
post_result true s = record s { number_of_inverted = s.number_of_inverted + 1 }
post_result false s = record s { number_of_not_inverted = s.number_of_not_inverted + 1 }

-- The same by server Z, which opens the semaphores under the same names.
pub post_of_z : Bool → Server → Server
unfolding post_result
post_of_z b s = record (post_result b s) { posts_of_z = s.posts_of_z + 1 }

-- The response of worker `i`, whose id is i + 1.
pub respond : ℕ → Request → Bool → Server → Server
respond i req b s = record s {
  answers =
      s.answers
      ++ record {
        client_id = req.client_id;
        response = record { result = int_of b; worker_number = i + 1 };
      }
        ∷ [];
}

module _ (junk : Rows) (pool_size : ℕ) where
  -- A round of the parent's loop, where requests are read whole, or a signal.
  pub data ParentStep (s : Server) : Server → Type 0 where
    accept :
        (calls : List ReadResult) (rs later : List Request) (got : Received)
        → reads_whole calls ≡ some rs
        → s.incoming ≡ rs ++ later
        → read_request calls s.total_byte s.req ≡ some got
        → got.later ≡ []
        → ParentStep s (
            dispatch pool_size got.req
              (record s { incoming = later; req = got.req; total_byte = got.total_byte }))
    usr1_signal : s.usr1 ≡ true → ParentStep s (on_usr1 s)
    usr2_signal : s.usr2 ≡ true → ParentStep s (on_usr2 s)

  -- A step of worker `i` in `in_child`.
  pub data WorkerStep (s : Server) (i : ℕ) : Server → Type 0 where
    take_request :
        (req : Request) (later : List Request)
        → s.worker i ≡ idle
        → s.pipe ≡ req ∷ later
        → WorkerStep s i (go i (taken req) (record s { pipe = later }))
    begin :
        (req : Request) → s.worker i ≡ taken req → WorkerStep s i (go i (counted req) (send_usr1 s))
    post_working :
        (req : Request)
        → s.worker i ≡ counted req
        → WorkerStep s i (go i (busy req) (record s { working_child = s.working_child + 1 }))
    judge :
        (req : Request) (b : Bool)
        → s.worker i ≡ busy req
        → is_invertable junk req.matrix ≡ some b
        → WorkerStep s i (go i (judged req b) (post_result b s))
    answer :
        (req : Request) (b : Bool)
        → s.worker i ≡ judged req b
        → WorkerStep s i (go i answered (respond i req b s))
    wait_working :
        (k : ℕ)
        → s.worker i ≡ answered
        → s.working_child ≡ suc k
        → WorkerStep s i (go i through (record s { working_child = k }))
    end : s.worker i ≡ through → WorkerStep s i (go i idle (send_usr2 s))

  pub data Reach (memory : Request) (bytes : ℕ) (requests : List Request) : Server → Type 0 where
    start : Reach memory bytes requests (init memory bytes requests)
    parent :
        {s t : Server}
        → Reach memory bytes requests s
        → ParentStep s t
        → Reach memory bytes requests t
    child :
        {s t : Server} (i : ℕ)
        → Reach memory bytes requests s
        → i < pool_size
        → WorkerStep s i t
        → Reach memory bytes requests t
    backup :
        {s : Server} (b : Bool)
        → Reach memory bytes requests s
        → s.backup_server_run ≡ true
        → Reach memory bytes requests (post_of_z b s)

-- ===== src/Midterm/Server/Samples.antt =====
-- A run of Midterm/src/server.c with one worker: the first request is answered, the second is
-- forwarded.
use cse_344_system_programmi.Base.{ℕ, ◌+◌, ◌<◌, ◌≡◌, refl, true, false, List, [], ◌∷◌, some, arith}
use cse_344_system_programmi.Base.Totals.{at}
use cse_344_system_programmi.Base.Int.{pos, ◌+ℤ◌, ◌*ℤ◌}
use cse_344_system_programmi.Base.Machine.{wrap}
use cse_344_system_programmi.Midterm.Reading.{request_size, whole, end_of_file, read_request}
use cse_344_system_programmi.Midterm.Matrix.{Rows, is_invertable}
use cse_344_system_programmi.Midterm.Matrix.Determinant.{det}
use cse_344_system_programmi.Midterm.Matrix.Answer.{is_invertable-det}
use cse_344_system_programmi.Midterm.Server.{
  Request, Answer, idle, taken, counted, busy, judged, answered, Server, dispatch, on_usr1,
  send_usr1, post_result, respond, accept, usr1_signal, take_request, begin, post_working, judge,
  answer, Reach, start, parent, child,
}

abbrev pub nothing : Rows
nothing i j = pos 0

-- A matrix of one entry.
abbrev pub request_of : (value client : ℕ) → Request
request_of value client = record {
  matrix = record { array = λ k. pos value; size = 1 };
  client_id = client;
}

abbrev pub first : Request
first = request_of 2 71

abbrev pub second : Request
second = request_of 0 72

-- What `req` holds before anything is read.
abbrev pub unread : Request
unread = request_of 1 0

abbrev pub both_requests : List Request
both_requests = first ∷ second ∷ []

abbrev pub first_answer : Answer
first_answer = record { client_id = 71; response = record { result = pos 1; worker_number = 1 } }

abbrev pub after_both : Server
after_both = record {
  incoming = [];
  req = second;
  total_byte = request_size + request_size;
  handled = first ∷ second ∷ [];
  working = pos 1;
  usr1 = false;
  usr2 = false;
  merged1 = 0;
  merged2 = 0;
  pipe = [];
  servers_pipe = second ∷ [];
  backup_server_run = true;
  forwarded_requests = 1;
  worker =
      at
        (at (at (at (at (λ i. idle) 0 (taken first)) 0 (counted first)) 0 (busy first)) 0
          (judged first true))
        0 answered;
  working_child = 1;
  posts_of_z = 0;
  number_of_inverted = 1;
  number_of_not_inverted = 0;
  answers = first_answer ∷ [];
}

pub first_invertible : is_invertable nothing first.matrix ≡ some true
unfolding det wrap ◌+ℤ◌ ◌*ℤ◌
first_invertible = is_invertable-det nothing first.matrix (omega arith)

pub second_singular : is_invertable nothing second.matrix ≡ some false
unfolding det wrap ◌+ℤ◌ ◌*ℤ◌
second_singular = is_invertable-det nothing second.matrix (omega arith)

pub one_worker : 0 < 1
one_worker = omega arith

pub run : Reach nothing 1 unread 0 both_requests after_both
unfolding read_request dispatch on_usr1 send_usr1 post_result respond ◌+ℤ◌
run =
    let accepted =
      parent start (accept (whole first ∷ []) (first ∷ []) (second ∷ []) _ refl refl refl refl) in
    let begun =
      child 0 (child 0 accepted one_worker (take_request first [] refl refl)) one_worker
        (begin first refl) in
    let signalled = parent begun (usr1_signal refl) in
    let forwarded =
      parent signalled
        (accept (whole second ∷ end_of_file ∷ []) (second ∷ []) [] _ refl refl refl refl) in
    let working = child 0 forwarded one_worker (post_working first refl) in
    let done = child 0 working one_worker (judge first true refl first_invertible) in
    child 0 done one_worker (answer first true refl)

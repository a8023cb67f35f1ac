-- ===== src/Midterm/Backup/Samples.antt =====
-- A run of Midterm/src/backup_server.c with one worker, which answers the request that server.c
-- forwards.
use cse_344_system_programmi.Base.{refl, false, [], ◌∷◌}
use cse_344_system_programmi.Base.Totals.{at}
use cse_344_system_programmi.Base.Int.{pos}
use cse_344_system_programmi.Midterm.Server.{Answer}
use cse_344_system_programmi.Midterm.Server.Samples.{
  nothing, first, second, second_singular, one_worker,
}
use cse_344_system_programmi.Midterm.Backup.{
  idle, entered, loaded, released, busy, counted, judged, answered, reading, Backup, post_result,
  post_z, respond, read_pipe, copy, post_read, wait_cont, wait_read, load, post_cont, post_working,
  judge, count, answer, by_parent, by_child, Reach, start, next,
}

abbrev pub second_answer : Answer
second_answer = record { client_id = 72; response = record { result = pos 0; worker_number = 1 } }

abbrev pub after_second : Backup
after_second = record {
  incoming = [];
  parent = reading;
  shared = second;
  sem_read = 0;
  sem_cont = 0;
  child =
      at
        (at
          (at
            (at (at (at (at (λ i. idle) 0 entered) 0 (loaded second)) 0 (released second)) 0
              (busy second))
            0 (counted second false))
          0 (judged second false))
        0 answered;
  working_child = 1;
  number_of_inverted = 0;
  number_of_not_inverted = 1;
  z_inverted = 0;
  z_not_inverted = 1;
  answers = second_answer ∷ [];
}

-- `first` stands for what the shared memory holds at first.
pub run : Reach nothing 1 first (second ∷ []) after_second
unfolding post_result post_z respond
run =
    let offered =
      next
        (next (next start (by_parent (read_pipe second [] refl refl)))
          (by_parent (copy second refl)))
        (by_parent (post_read refl)) in
    let taken =
      next (next offered (by_child 0 one_worker (wait_read 0 refl refl)))
        (by_child 0 one_worker (load refl)) in
    let free = next taken (by_child 0 one_worker (post_cont second refl)) in
    let back = next free (by_parent (wait_cont 0 refl refl)) in
    let working = next back (by_child 0 one_worker (post_working second refl)) in
    let done =
      next (next working (by_child 0 one_worker (judge second false refl second_singular)))
        (by_child 0 one_worker (count second false refl)) in
    next done (by_child 0 one_worker (answer second false refl))

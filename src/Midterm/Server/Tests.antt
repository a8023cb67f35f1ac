-- ===== src/Midterm/Server/Tests.antt =====
-- The theorems on Midterm/src/server.c at a run with one worker, and a SIGUSR1 that is lost.
use cse_344_system_programmi.Base.{
  List, ◌-◌, ◌+◌, ◌*◌, ◌<◌, ◌≡◌, ◌↔◌, refl, true, some, [], ◌∷◌, ◌++◌, map, length, arith,
}
use cse_344_system_programmi.Base.Totals.{total}
use cse_344_system_programmi.Base.Int.{pos, ◌+ℤ◌}
use cse_344_system_programmi.Midterm.Server.{on_int, send_usr1, init}
use cse_344_system_programmi.Midterm.Reading.{
  ReadResult, part, interrupted, whole, end_of_file, read_request, request_size,
}
use cse_344_system_programmi.Midterm.Server.Reading.{read_request-last}
use cse_344_system_programmi.Midterm.Server.Signals.{
  bit, at_work, unanswered, Reach-working, Reach-on_int,
}
use cse_344_system_programmi.Midterm.Server.Samples.{
  unread, first, second, both_requests, after_both, run,
}

Reach-working_example :
    after_both.working +ℤ pos (bit after_both.usr1 + after_both.merged1)
    ≡ pos
        (total 1 (λ i. at_work (after_both.worker i)) + (bit after_both.usr2 + after_both.merged2))
Reach-working_example = Reach-working run

Reach-on_int_example :
    ((on_int after_both).handled
      ≡ length after_both.answers
        + total 1 (λ i. unanswered (after_both.worker i))
        + after_both.posts_of_z)
    × ((on_int after_both).handled
        ≡ (on_int after_both).invertible + (on_int after_both).not_invertible)
    × ((on_int after_both).forwarded ≡ length after_both.servers_pipe)
    × ((after_both.backup_server_run ≡ true) ↔ (0 < length after_both.servers_pipe))
Reach-on_int_example = Reach-on_int run

-- Two workers that begin before the parent runs count once.
lost_signal : (send_usr1 (send_usr1 (init unread 0 both_requests))).merged1 ≡ 1
unfolding send_usr1
lost_signal = refl

-- The first request is read whole after an interruption, the second in two parts.
abbrev two_deliveries : List ReadResult
two_deliveries =
    interrupted ∷ whole first ∷ part 4096 first ∷ part (request_size - 4096) second ∷ []

read_request-last_example :
    read_request (map whole (second ∷ []) ++ end_of_file ∷ []) (request_size * 2) first
    ≡ some (record { req = second; total_byte = request_size * 2 + request_size * 1; later = [] })
read_request-last_example =
    read_request-last first (second ∷ []) [] (request_size * 2) (omega arith) (omega arith)

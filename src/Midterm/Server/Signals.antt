-- ===== src/Midterm/Server/Signals.antt =====
-- What the counters of Midterm/src/server.c count: `working`, which the signals of the workers move,
-- the semaphores, and the forwarded requests.
use cse_344_system_programmi.Base.{
  ℕ, zero, suc, ◌+◌, ◌<◌, ◌≡◌, ◌↔◌, refl, ap, Bool, true, false, List, [], ◌∷◌, length,
  length-append, if◌then◌else◌, arith, Bool-cases, inl, inr,
}
use cse_344_system_programmi.Base.Totals.{at, total, total-at}
use cse_344_system_programmi.Base.Int.{
  ℤ, pos, ◌+ℤ◌, ltb_ℤ, int_laws, +ℤ_parts, eq_of_parts, pos_part, neg_part,
}
use cse_344_system_programmi.Midterm.Matrix.{Rows}
use cse_344_system_programmi.Midterm.Server.{
  Request, WorkerPc, idle, taken, counted, busy, judged, answered, through, Server, init, dispatch,
  on_usr1, on_usr2, on_int, send_usr1, send_usr2, post_result, respond, ParentStep, accept,
  usr1_signal, usr2_signal, WorkerStep, take_request, begin, post_working, judge, answer,
  wait_working, end, Reach, start, parent, child, backup, post_of_z,
}

abbrev pub bit : Bool → ℕ
bit true = 1
bit false = 0

-- Between its two signals.
abbrev pub at_work : WorkerPc → ℕ
at_work idle = 0
at_work (taken r) = 0
at_work (counted r) = 1
at_work (busy r) = 1
at_work (judged r b) = 1
at_work answered = 1
at_work through = 1

-- Between its post to `working_child` and its wait.
abbrev pub in_child : WorkerPc → ℕ
in_child idle = 0
in_child (taken r) = 0
in_child (counted r) = 0
in_child (busy r) = 1
in_child (judged r b) = 1
in_child answered = 1
in_child through = 0

-- With a result that the client has not got.
abbrev pub unanswered : WorkerPc → ℕ
unanswered idle = 0
unanswered (taken r) = 0
unanswered (counted r) = 0
unanswered (busy r) = 0
unanswered (judged r b) = 1
unanswered answered = 0
unanswered through = 0

pub record Tally (pool_size : ℕ) (s : Server) : Type 0 where
  pub started :
      pos_part s.working + (bit s.usr1 + s.merged1)
      ≡ neg_part s.working
        + (total pool_size (λ i. at_work (s.worker i)) + (bit s.usr2 + s.merged2))
  pub inside : s.working_child ≡ total pool_size (λ i. in_child (s.worker i))
  pub results :
      s.number_of_inverted + s.number_of_not_inverted
      ≡ length s.answers + total pool_size (λ i. unanswered (s.worker i)) + s.posts_of_z
  pub forwarded : s.forwarded_requests ≡ length s.servers_pipe
  pub running : (s.backup_server_run ≡ true) ↔ (0 < s.forwarded_requests)

total-zero : (n : ℕ) → total n (λ i. 0) ≡ 0
total-zero zero = refl
total-zero (suc n) = omega (arith, total-zero n)

init-Tally :
    (pool_size : ℕ) (memory : Request) (bytes : ℕ) (requests : List Request)
    → Tally pool_size (init memory bytes requests)
init-Tally pool_size memory bytes requests = record {
  started = omega (arith, total-zero pool_size);
  inside = omega (arith, total-zero pool_size);
  results = omega (arith, total-zero pool_size);
  forwarded = refl;
  running = (λ e. cc, λ lt. absurd (omega arith));
}

dispatch-Tally :
    (pool_size : ℕ) (req : Request) (s : Server)
    → Tally pool_size s
    → Tally pool_size (dispatch pool_size req s)
unfolding dispatch
dispatch-Tally pool_size req s h = elim (Bool-cases (ltb_ℤ s.working (pos pool_size))) [
  | inl room ↦ rw room (record {
    started = h.started;
    inside = h.inside;
    results = h.results;
    forwarded = h.forwarded;
    running = h.running;
  })
  | inr full ↦ rw full (record {
    started = h.started;
    inside = h.inside;
    results = h.results;
    forwarded = omega (arith, h.forwarded, length-append s.servers_pipe (req ∷ []));
    running = (λ e. omega arith, λ lt. refl);
  })
]

ParentStep-Tally :
    (junk : Rows) (pool_size : ℕ) (s : Server) {t : Server}
    → ParentStep junk pool_size s t
    → Tally pool_size s
    → Tally pool_size t
unfolding on_usr1 on_usr2
ParentStep-Tally junk pool_size s (accept calls rs later got whole e f last) h =
    dispatch-Tally pool_size got.req _ (record {
      started = h.started;
      inside = h.inside;
      results = h.results;
      forwarded = h.forwarded;
      running = h.running;
    })
ParentStep-Tally junk pool_size s (usr1_signal e) h = record {
  started = let bits : bit s.usr1 ≡ 1 = ap bit e in omega (int_laws, h.started, bits);
  inside = h.inside;
  results = h.results;
  forwarded = h.forwarded;
  running = h.running;
}
ParentStep-Tally junk pool_size s (usr2_signal e) h = record {
  started = let bits : bit s.usr2 ≡ 1 = ap bit e in omega (int_laws, h.started, bits);
  inside = h.inside;
  results = h.results;
  forwarded = h.forwarded;
  running = h.running;
}

abbrev counters : Server → ℤ × ℕ × List Request × Bool × ℕ
counters s = (s.working, s.forwarded_requests, s.servers_pipe, s.backup_server_run, s.posts_of_z)

-- What a step of a worker from `p` to `q` may do to the rest of the server.
record Moved (p q : WorkerPc) (s u : Server) : Type 0 where
  same : counters u ≡ counters s
  signals :
      bit u.usr1 + u.merged1 + at_work p + (bit s.usr2 + s.merged2)
      ≡ bit s.usr1 + s.merged1 + at_work q + (bit u.usr2 + u.merged2)
  posts : u.working_child + in_child p ≡ s.working_child + in_child q
  results :
      u.number_of_inverted + u.number_of_not_inverted + (length s.answers + unanswered p)
      ≡ s.number_of_inverted + s.number_of_not_inverted + (length u.answers + unanswered q)

move-Tally :
    (pool_size i : ℕ) (p q : WorkerPc) (s u : Server)
    → i < pool_size
    → s.worker i ≡ p
    → Moved p q s u
    → Tally pool_size s
    → Tally pool_size (record u { worker = at s.worker i q })
move-Tally pool_size i p q s u lt e m h =
    let work = total-at pool_size i at_work s.worker q lt in
    let posted = total-at pool_size i in_child s.worker q lt in
    let waiting = total-at pool_size i unanswered s.worker q lt in
    let was : at_work (s.worker i) ≡ at_work p = ap at_work e in
    let was_in : in_child (s.worker i) ≡ in_child p = ap in_child e in
    let was_open : unanswered (s.worker i) ≡ unanswered p = ap unanswered e in
    let same_pos : pos_part u.working ≡ pos_part s.working = ap (λ c. pos_part c.0) m.same in
    let same_neg : neg_part u.working ≡ neg_part s.working = ap (λ c. neg_part c.0) m.same in
    let count : u.forwarded_requests ≡ s.forwarded_requests = ap (λ c. c.1) m.same in
    let run : u.backup_server_run ≡ s.backup_server_run = ap (λ c. c.3) m.same in
    let sent : length u.servers_pipe ≡ length s.servers_pipe = ap (λ c. length c.2) m.same in
    let by_z : u.posts_of_z ≡ s.posts_of_z = ap (λ c. c.4) m.same in
    record {
      started = omega (arith, h.started, m.signals, work, was, same_pos, same_neg);
      inside = omega (arith, h.inside, m.posts, posted, was_in);
      results = omega (arith, h.results, m.results, waiting, was_open, by_z);
      forwarded = omega (arith, h.forwarded, count, sent);
      running = rw (run, count) h.running;
    }

send-bits : (b : Bool) (n : ℕ) → 1 + (n + (if b then 1 else 0)) ≡ bit b + n + 1
send-bits true n = omega arith
send-bits false n = omega arith

respond-length :
    (i : ℕ) (r : Request) (b : Bool) (s : Server)
    → length (respond i r b s).answers ≡ length s.answers + 1
unfolding respond
respond-length i r b s = length-append s.answers _

WorkerStep-Tally :
    (junk : Rows) (pool_size i : ℕ) (s : Server) {t : Server}
    → i < pool_size
    → WorkerStep junk pool_size s i t
    → Tally pool_size s
    → Tally pool_size t
unfolding send_usr1 send_usr2 post_result respond
WorkerStep-Tally junk pool_size i s lt (take_request req later e f) h =
    move-Tally pool_size i idle (taken req) s (record s { pipe = later }) lt e
      (record { same = refl; signals = omega arith; posts = omega arith; results = omega arith }) h
WorkerStep-Tally junk pool_size i s lt (begin req e) h =
    move-Tally pool_size i (taken req) (counted req) s (send_usr1 s) lt e
      (record {
        same = refl;
        signals = omega (arith, send-bits s.usr1 s.merged1);
        posts = omega arith;
        results = omega arith;
      })
      h
WorkerStep-Tally junk pool_size i s lt (post_working req e) h =
    move-Tally pool_size i (counted req) (busy req) s
      (record s { working_child = s.working_child + 1 }) lt e
      (record { same = refl; signals = omega arith; posts = omega arith; results = omega arith }) h
WorkerStep-Tally junk pool_size i s lt (judge req true e f) h =
    move-Tally pool_size i (busy req) (judged req true) s (post_result true s) lt e
      (record { same = refl; signals = omega arith; posts = omega arith; results = omega arith }) h
WorkerStep-Tally junk pool_size i s lt (judge req false e f) h =
    move-Tally pool_size i (busy req) (judged req false) s (post_result false s) lt e
      (record { same = refl; signals = omega arith; posts = omega arith; results = omega arith }) h
WorkerStep-Tally junk pool_size i s lt (answer req b e) h =
    move-Tally pool_size i (judged req b) answered s (respond i req b s) lt e
      (record {
        same = refl;
        signals = omega arith;
        posts = omega arith;
        results = omega (arith, respond-length i req b s);
      })
      h
WorkerStep-Tally junk pool_size i s lt (wait_working k e f) h =
    move-Tally pool_size i answered through s (record s { working_child = k }) lt e
      (record {
        same = refl;
        signals = omega arith;
        posts = omega (arith, f);
        results = omega arith;
      })
      h
WorkerStep-Tally junk pool_size i s lt (end e) h =
    move-Tally pool_size i through idle s (send_usr2 s) lt e
      (record {
        same = refl;
        signals = omega (arith, send-bits s.usr2 s.merged2);
        posts = omega arith;
        results = omega arith;
      })
      h

post_of_z-Tally :
    (pool_size : ℕ) (b : Bool) (s : Server) → Tally pool_size s → Tally pool_size (post_of_z b s)
unfolding post_of_z post_result
post_of_z-Tally pool_size true s h = record {
  started = h.started;
  inside = h.inside;
  results = omega (arith, h.results);
  forwarded = h.forwarded;
  running = h.running;
}
post_of_z-Tally pool_size false s h = record {
  started = h.started;
  inside = h.inside;
  results = omega (arith, h.results);
  forwarded = h.forwarded;
  running = h.running;
}

pub Reach-Tally :
    {junk : Rows} {pool_size : ℕ} {memory : Request} {bytes : ℕ} {requests : List Request}
    {s : Server}
    → Reach junk pool_size memory bytes requests s
    → Tally pool_size s
Reach-Tally {pool_size = pool_size} {memory = memory} {bytes = bytes} {requests = requests} start =
    init-Tally pool_size memory bytes requests
Reach-Tally {junk} {pool_size} (parent {s = s} r st) =
    ParentStep-Tally junk pool_size s st (Reach-Tally r)
Reach-Tally {junk} {pool_size} (child {s = s} i r lt st) =
    WorkerStep-Tally junk pool_size i s lt st (Reach-Tally r)
Reach-Tally {pool_size = pool_size} (backup {s = s} b r on) =
    post_of_z-Tally pool_size b s (Reach-Tally r)

-- `working` is the number of workers between their two signals, and differs from it by the signals
-- that are pending and by those that were merged with a pending one.
pub Reach-working :
    {junk : Rows} {pool_size : ℕ} {memory : Request} {bytes : ℕ} {requests : List Request}
    {s : Server}
    → Reach junk pool_size memory bytes requests s
    → s.working +ℤ pos (bit s.usr1 + s.merged1)
      ≡ pos (total pool_size (λ i. at_work (s.worker i)) + (bit s.usr2 + s.merged2))
Reach-working {s = s} r =
    let h = (Reach-Tally r).started in
    eq_of_parts _ _ (omega (arith, h, +ℤ_parts s.working (pos (bit s.usr1 + s.merged1))))

-- What SIGINT logs: as handled, the requests that are answered or about to be, and the posts of server Z;
-- as forwarded, those that were written to server Z, which runs exactly if there were some.
pub Reach-on_int :
    {junk : Rows} {pool_size : ℕ} {memory : Request} {bytes : ℕ} {requests : List Request}
    {s : Server}
    → Reach junk pool_size memory bytes requests s
    → ((on_int s).handled
        ≡ length s.answers + total pool_size (λ i. unanswered (s.worker i)) + s.posts_of_z)
      × ((on_int s).handled ≡ (on_int s).invertible + (on_int s).not_invertible)
      × ((on_int s).forwarded ≡ length s.servers_pipe)
      × ((s.backup_server_run ≡ true) ↔ (0 < length s.servers_pipe))
unfolding on_int
Reach-on_int {s = s} r =
    let h = Reach-Tally r in (h.results, refl, h.forwarded, rw h.forwarded at h.running)

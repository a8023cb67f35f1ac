-- ===== src/Midterm/Server/Answers.antt =====
-- What the workers of Midterm/src/server.c answer.
use cse_344_system_programmi.Base.{
  ℕ, ◌+◌, ◌<◌, ◌≡◌, refl, Bool, List, [], ◌∷◌, All, All-append, arith, Bool-cases, inl, inr, true,
  false, not, some, none, Option, ap, ◌++◌, ◌%◌, ◌^◌, ◌≤◌, ◌==◌,
}
use mathlib.Core.Path.{subst}
use cse_344_system_programmi.Base.Totals.{at}
use cse_344_system_programmi.Base.Int.{pos, ltb_ℤ, eqb_ℤ}
use cse_344_system_programmi.Base.Machine.{wrap}
use cse_344_system_programmi.Midterm.Reading.{
  ReadResult, part, end_of_file, interrupted, request_size, Received, read_request, reads_whole,
}
use cse_344_system_programmi.Midterm.Matrix.{Rows, Matrix, is_invertable}
use cse_344_system_programmi.Midterm.Matrix.Determinant.{det}
use cse_344_system_programmi.Midterm.Matrix.Answer.{rows_of, is_invertable-det}
use cse_344_system_programmi.Midterm.Server.{
  Request, Answer, WorkerPc, idle, taken, counted, busy, judged, answered, through, Server, int_of,
  dispatch, on_usr1, on_usr2, send_usr1, send_usr2, post_result, respond, ParentStep, accept,
  usr1_signal, usr2_signal, WorkerStep, take_request, begin, post_working, judge, answer,
  wait_working, end, Reach, start, parent, child, backup, post_of_z,
}

module _ (junk : Rows) (pool_size : ℕ) (Sent : Request → Type 0) where
  -- The answer to a request of the kind `Sent`, by a worker of the pool.
  abbrev pub Correct : Answer → Type 0
  Correct a =
      (r : Request) × Sent r
      × (b : Bool) × (a.client_id ≡ r.client_id)
      × (is_invertable junk r.matrix ≡ some b)
      × (a.response.result ≡ int_of b)
      × (0 < a.response.worker_number)
      × (a.response.worker_number ≤ pool_size)

  abbrev Holds : WorkerPc → Type 0
  Holds idle = Unit
  Holds (taken r) = Sent r
  Holds (counted r) = Sent r
  Holds (busy r) = Sent r
  Holds (judged r b) = Sent r × (is_invertable junk r.matrix ≡ some b)
  Holds answered = Unit
  Holds through = Unit

  record Honest (s : Server) : Type 0 where
    waiting : All Sent s.incoming
    read : Sent s.req
    piped : All Sent s.pipe
    forwarded : All Sent s.servers_pipe
    workers : (i : ℕ) → i < pool_size → Holds (s.worker i)
    answers : All Correct s.answers

  All-front : (xs ys : List Request) → All Sent (xs ++ ys) → All Sent xs × All Sent ys
  All-front [] ys h = (tt, h)
  All-front (x ∷ xs) ys h = let rest = All-front xs ys h.1 in ((h.0, rest.0), rest.1)

  reads_whole-cons :
      (n : ℕ) (r : Request) (calls : List ReadResult) (rs : List Request)
      → reads_whole (part n r ∷ calls) ≡ some rs
      → (more : List Request) × (reads_whole calls ≡ some more) × (rs ≡ r ∷ more)
  reads_whole-cons n r calls rs e = elim (Bool-cases (n == request_size)) [
    | inl same ↦ by_rest (reads_whole calls) refl (rw same at e)
    | inr other ↦ let e' = rw other at e in absurd (none-ne_some e')
  ]
    where
      none-ne_some : {xs : List Request} → none ≡ some xs → ⊥
      none-ne_some e = cc

      by_rest :
          (more : Option (List Request))
          → reads_whole calls ≡ more
          → (elim more [ none ↦ none | some xs ↦ some (r ∷ xs) ]) ≡ some rs
          → (more' : List Request) × (reads_whole calls ≡ some more') × (rs ≡ r ∷ more')
      by_rest none f g = absurd (none-ne_some g)
      by_rest (some xs) f g = (xs, f, cc)

  -- What a round leaves in `req` was there before, or it is a request that the round reads.
  read_request-Sent :
      (calls : List ReadResult) (rs : List Request) (total : ℕ) (req : Request) (got : Received)
      → reads_whole calls ≡ some rs
      → read_request calls total req ≡ some got
      → All Sent rs
      → Sent req
      → Sent got.req
  unfolding read_request
  read_request-Sent [] rs total req got e f sent h = absurd (none-ne_some f)
    where
      none-ne_some : none ≡ some got → ⊥
      none-ne_some e = cc
  read_request-Sent (interrupted ∷ calls) rs total req got e f sent h =
      read_request-Sent calls rs total req got e f sent h
  read_request-Sent (end_of_file ∷ calls) rs total req got e f sent h =
      let same : req ≡ got.req = ap (λ o. elim o [ none ↦ req | some g ↦ g.req ]) f in
      subst Sent same h
  read_request-Sent (part n r ∷ calls) rs total req got e f sent h =
      let parts = reads_whole-cons n r calls rs e in
      let sent' : All Sent (r ∷ parts.0) = subst (All Sent) parts.2 sent in
      elim (Bool-cases ((total + n) % 2 ^ 32 == request_size)) [
        | inl full ↦
            let f' = rw full at f in
            let same : r ≡ got.req = ap (λ o. elim o [ none ↦ r | some g ↦ g.req ]) f' in
            subst Sent same sent'.0
        | inr short ↦
            let f' = rw short at f in
            read_request-Sent calls parts.0 ((total + n) % 2 ^ 32) r got parts.1 f' sent'.1 sent'.0
      ]

  at-Holds :
      (f : ℕ → WorkerPc) (i : ℕ) (q : WorkerPc)
      → ((j : ℕ) → j < pool_size → Holds (f j))
      → Holds q
      → (j : ℕ) → j < pool_size
      → Holds (at f i q j)
  at-Holds f i q h hq j lt = elim (Bool-cases (j == i)) [
    | inl same ↦ rw same hq
    | inr other ↦ rw other (h j lt)
  ]

  dispatch-Honest :
      (req : Request) (s : Server) → Sent req → Honest s → Honest (dispatch pool_size req s)
  unfolding dispatch
  dispatch-Honest req s g h = elim (Bool-cases (ltb_ℤ s.working (pos pool_size))) [
    | inl room ↦ rw room (record {
      waiting = h.waiting;
      read = h.read;
      piped = All-append Sent s.pipe (req ∷ []) h.piped (g, tt);
      forwarded = h.forwarded;
      workers = h.workers;
      answers = h.answers;
    })
    | inr full ↦ rw full (record {
      waiting = h.waiting;
      read = h.read;
      piped = h.piped;
      forwarded = All-append Sent s.servers_pipe (req ∷ []) h.forwarded (g, tt);
      workers = h.workers;
      answers = h.answers;
    })
  ]

  ParentStep-Honest :
      (s : Server) {t : Server} → ParentStep junk pool_size s t → Honest s → Honest t
  unfolding on_usr1 on_usr2
  ParentStep-Honest s (accept calls rs later got whole e f last) h =
      let sent : All Sent (rs ++ later) = subst (All Sent) e h.waiting in
      let read : Sent got.req =
        read_request-Sent calls rs s.total_byte s.req got whole f (All-front rs later sent).0
          h.read in
      dispatch-Honest got.req
        (record s { incoming = later; req = got.req; total_byte = got.total_byte }) read
        (record {
          waiting = (All-front rs later sent).1;
          read = read;
          piped = h.piped;
          forwarded = h.forwarded;
          workers = h.workers;
          answers = h.answers;
        })
  ParentStep-Honest s (usr1_signal e) h = record {
    waiting = h.waiting;
    read = h.read;
    piped = h.piped;
    forwarded = h.forwarded;
    workers = h.workers;
    answers = h.answers;
  }
  ParentStep-Honest s (usr2_signal e) h = record {
    waiting = h.waiting;
    read = h.read;
    piped = h.piped;
    forwarded = h.forwarded;
    workers = h.workers;
    answers = h.answers;
  }

  -- A worker moves to `q`; the pipe and the answers may change.
  move-Honest :
      (s u : Server) (i : ℕ) (q : WorkerPc)
      → u.incoming ≡ s.incoming
      → u.req ≡ s.req
      → u.servers_pipe ≡ s.servers_pipe
      → All Sent u.pipe
      → All Correct u.answers
      → Holds q
      → Honest s
      → Honest (record u { worker = at s.worker i q })
  move-Honest s u i q same same_req same' hp ha hq h = record {
    waiting = rw same h.waiting;
    read = rw same_req h.read;
    piped = hp;
    forwarded = rw same' h.forwarded;
    workers = at-Holds s.worker i q h.workers hq;
    answers = ha;
  }

  WorkerStep-Honest :
      (s : Server) (i : ℕ) {t : Server}
      → i < pool_size
      → WorkerStep junk pool_size s i t
      → Honest s
      → Honest t
  unfolding send_usr1 send_usr2 post_result respond
  WorkerStep-Honest s i lt (take_request req later e f) h =
      let sent : All Sent (req ∷ later) = subst (All Sent) f h.piped in
      move-Honest s (record s { pipe = later }) i (taken req) refl refl refl sent.1 h.answers sent.0
        h
  WorkerStep-Honest s i lt (begin req e) h =
      move-Honest s (send_usr1 s) i (counted req) refl refl refl h.piped h.answers
        (subst Holds e (h.workers i lt)) h
  WorkerStep-Honest s i lt (post_working req e) h =
      move-Honest s (record s { working_child = s.working_child + 1 }) i (busy req) refl refl refl
        h.piped h.answers (subst Holds e (h.workers i lt)) h
  WorkerStep-Honest s i lt (judge req true e f) h =
      move-Honest s (post_result true s) i (judged req true) refl refl refl h.piped h.answers
        (subst Holds e (h.workers i lt), f) h
  WorkerStep-Honest s i lt (judge req false e f) h =
      move-Honest s (post_result false s) i (judged req false) refl refl refl h.piped h.answers
        (subst Holds e (h.workers i lt), f) h
  WorkerStep-Honest s i lt (answer req b e) h =
      let held : Holds (judged req b) = subst Holds e (h.workers i lt) in
      move-Honest s (respond i req b s) i answered refl refl refl h.piped
        (All-append Correct s.answers _ h.answers
          ((req, held.0, b, refl, held.1, refl, omega arith, omega arith), tt))
        tt h
  WorkerStep-Honest s i lt (wait_working k e f) h =
      move-Honest s (record s { working_child = k }) i through refl refl refl h.piped h.answers tt h
  WorkerStep-Honest s i lt (end e) h =
      move-Honest s (send_usr2 s) i idle refl refl refl h.piped h.answers tt h

  Reach-Honest :
      {memory : Request} {bytes : ℕ} {requests : List Request} {s : Server}
      → Sent memory
      → All Sent requests
      → Reach junk pool_size memory bytes requests s
      → Honest s
  unfolding post_of_z post_result
  Reach-Honest held sent start = record {
    waiting = sent;
    read = held;
    piped = tt;
    forwarded = tt;
    workers = λ i lt. tt;
    answers = tt;
  }
  Reach-Honest held sent (parent {s = s} r st) = ParentStep-Honest s st (Reach-Honest held sent r)
  Reach-Honest held sent (child {s = s} i r lt st) =
      WorkerStep-Honest s i lt st (Reach-Honest held sent r)
  Reach-Honest held sent (backup {s = s} true r on) =
      let h = Reach-Honest held sent r in
      record {
        waiting = h.waiting;
        read = h.read;
        piped = h.piped;
        forwarded = h.forwarded;
        workers = h.workers;
        answers = h.answers;
      }
  Reach-Honest held sent (backup {s = s} false r on) =
      let h = Reach-Honest held sent r in
      record {
        waiting = h.waiting;
        read = h.read;
        piped = h.piped;
        forwarded = h.forwarded;
        workers = h.workers;
        answers = h.answers;
      }

-- Every answer is to a client's request or to what `req` held before one was read, by a worker of the
-- pool, and says what the matrix test says of that matrix; so is what is forwarded.
pub Reach-Correct :
    (junk : Rows) (pool_size : ℕ) (Sent : Request → Type 0) {memory : Request} {bytes : ℕ}
    {requests : List Request} {s : Server}
    → Sent memory
    → All Sent requests
    → Reach junk pool_size memory bytes requests s
    → All (Correct junk pool_size Sent) s.answers × All Sent s.servers_pipe
Reach-Correct junk pool_size Sent held sent r =
    let h = Reach-Honest junk pool_size Sent held sent r in (h.answers, h.forwarded)

pub determined :
    (junk : Rows) (m : Matrix) (b : Bool)
    → 0 < m.size
    → is_invertable junk m ≡ some b
    → b ≡ not (eqb_ℤ (wrap (det m.size (rows_of m))) (pos 0))
determined junk m b lt e = ground (arith, is_invertable-det junk m lt)

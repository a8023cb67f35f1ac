-- ===== src/Midterm/Server/Conservation.antt =====
-- Midterm/src/server.c answers nothing that its parent hands on twice, and loses none of it.
use cse_344_system_programmi.Base.{
  ℕ, zero, suc, ◌+◌, ◌<◌, ◌≡◌, refl, ap, List, [], ◌∷◌, ◌++◌, arith, Bool-cases, inl, inr, true,
  false,
}
use cse_344_system_programmi.Base.Totals.{at, total, total-at}
use cse_344_system_programmi.Base.Int.{pos, ltb_ℤ}
use cse_344_system_programmi.Midterm.Matrix.{Rows}
use cse_344_system_programmi.Midterm.Server.{
  Request, Answer, WorkerPc, idle, taken, counted, busy, judged, answered, through, Server,
  dispatch, on_usr1, on_usr2, send_usr1, send_usr2, post_result, respond, ParentStep, accept,
  usr1_signal, usr2_signal, WorkerStep, take_request, begin, post_working, judge, answer,
  wait_working, end, Reach, start, parent, child, backup, post_of_z,
}

-- The weight of requests and answers, for a weight of each client.
module _ (w : ℕ → ℕ) where
  abbrev pub requests_weight : List Request → ℕ
  requests_weight [] = 0
  requests_weight (r ∷ rs) = w r.client_id + requests_weight rs

  abbrev pub answers_weight : List Answer → ℕ
  answers_weight [] = 0
  answers_weight (a ∷ answers) = w a.client_id + answers_weight answers

  abbrev pub held : WorkerPc → ℕ
  held idle = 0
  held (taken r) = w r.client_id
  held (counted r) = w r.client_id
  held (busy r) = w r.client_id
  held (judged r b) = w r.client_id
  held answered = 0
  held through = 0

  pub requests_weight-append :
      (xs ys : List Request) → requests_weight (xs ++ ys) ≡ requests_weight xs + requests_weight ys
  requests_weight-append [] ys = omega arith
  requests_weight-append (x ∷ xs) ys = omega (arith, requests_weight-append xs ys)

  pub answers_weight-append :
      (xs ys : List Answer) → answers_weight (xs ++ ys) ≡ answers_weight xs + answers_weight ys
  answers_weight-append [] ys = omega arith
  answers_weight-append (x ∷ xs) ys = omega (arith, answers_weight-append xs ys)

  -- The weight outside the workers.
  abbrev outside : Server → ℕ
  outside s = requests_weight s.pipe + requests_weight s.servers_pipe + answers_weight s.answers

  abbrev pub weight : ℕ → Server → ℕ
  weight pool_size s = outside s + total pool_size (λ i. held (s.worker i))

  total-zero : (n : ℕ) → total n (λ i. 0) ≡ 0
  total-zero zero = refl
  total-zero (suc n) = omega (arith, total-zero n)

  -- What is handed on weighs as much as what is under way and answered.
  abbrev Kept : ℕ → Server → Type 0
  Kept pool_size s = weight pool_size s ≡ requests_weight s.handled

  dispatch-Kept :
      (pool_size : ℕ) (req : Request) (s : Server)
      → Kept pool_size s
      → Kept pool_size (dispatch pool_size req s)
  unfolding dispatch
  dispatch-Kept pool_size req s h =
      let more = requests_weight-append s.handled (req ∷ []) in
      elim (Bool-cases (ltb_ℤ s.working (pos pool_size))) [
        | inl room ↦ rw room (omega (arith, h, more, requests_weight-append s.pipe (req ∷ [])))
        | inr full ↦
            rw full (omega (arith, h, more, requests_weight-append s.servers_pipe (req ∷ [])))
      ]

  ParentStep-Kept :
      (junk : Rows) (pool_size : ℕ) (s : Server) {t : Server}
      → ParentStep junk pool_size s t
      → Kept pool_size s
      → Kept pool_size t
  unfolding on_usr1 on_usr2
  ParentStep-Kept junk pool_size s (accept calls rs later got whole e f last) h =
      dispatch-Kept pool_size got.req _ h
  ParentStep-Kept junk pool_size s (usr1_signal e) h = h
  ParentStep-Kept junk pool_size s (usr2_signal e) h = h

  -- Worker `i` goes from `p` to `q`, and what it no longer holds is outside in `u`.
  move-Kept :
      (pool_size i : ℕ) (p q : WorkerPc) (s u : Server)
      → i < pool_size
      → s.worker i ≡ p
      → u.handled ≡ s.handled
      → outside u + held q ≡ outside s + held p
      → Kept pool_size s
      → Kept pool_size (record u { worker = at s.worker i q })
  move-Kept pool_size i p q s u lt e list same h =
      let moved = total-at pool_size i held s.worker q lt in
      let was : held (s.worker i) ≡ held p = ap held e in
      let as_much = ap requests_weight list in omega (arith, h, same, moved, was, as_much)

  WorkerStep-Kept :
      (junk : Rows) (pool_size i : ℕ) (s : Server) {t : Server}
      → i < pool_size
      → WorkerStep junk pool_size s i t
      → Kept pool_size s
      → Kept pool_size t
  unfolding send_usr1 send_usr2 post_result respond
  WorkerStep-Kept junk pool_size i s lt (take_request req later e f) h =
      move-Kept pool_size i idle (taken req) s (record s { pipe = later }) lt e refl
        (omega (arith, ap requests_weight f)) h
  WorkerStep-Kept junk pool_size i s lt (begin req e) h =
      move-Kept pool_size i (taken req) (counted req) s s lt e refl refl h
  WorkerStep-Kept junk pool_size i s lt (post_working req e) h =
      move-Kept pool_size i (counted req) (busy req) s s lt e refl refl h
  WorkerStep-Kept junk pool_size i s lt (judge req true e f) h =
      move-Kept pool_size i (busy req) (judged req true) s s lt e refl refl h
  WorkerStep-Kept junk pool_size i s lt (judge req false e f) h =
      move-Kept pool_size i (busy req) (judged req false) s s lt e refl refl h
  WorkerStep-Kept junk pool_size i s lt (answer req b e) h =
      move-Kept pool_size i (judged req b) answered s (respond i req b s) lt e refl
        (omega (arith, answers_weight-append s.answers _)) h
  WorkerStep-Kept junk pool_size i s lt (wait_working k e f) h =
      move-Kept pool_size i answered through s s lt e refl refl h
  WorkerStep-Kept junk pool_size i s lt (end e) h =
      move-Kept pool_size i through idle s s lt e refl refl h

-- For any weight of the clients: what is in the pipe of the pool, with a worker, written to server Z or
-- answered weighs as much as all that the parent has handed on.
pub Reach-weight :
    (w : ℕ → ℕ) {junk : Rows} {pool_size : ℕ} {memory : Request} {bytes : ℕ}
    {requests : List Request} {s : Server}
    → Reach junk pool_size memory bytes requests s
    → weight w pool_size s ≡ requests_weight w s.handled
unfolding post_of_z post_result
Reach-weight w {pool_size = pool_size} start = omega (arith, total-zero w pool_size)
Reach-weight w {junk} {pool_size} (parent {s = s} r st) =
    ParentStep-Kept w junk pool_size s st (Reach-weight w r)
Reach-weight w {junk} {pool_size} (child {s = s} i r lt st) =
    WorkerStep-Kept w junk pool_size i s lt st (Reach-weight w r)
Reach-weight w (backup true r on) = Reach-weight w r
Reach-weight w (backup false r on) = Reach-weight w r

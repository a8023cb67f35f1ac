-- ===== src/Midterm/Backup/Answers.antt =====
-- Midterm/src/backup_server.c loses no request in its shared memory, and answers none twice.
use cse_344_system_programmi.Base.{ℕ, ◌+◌, ◌*◌, ◌<◌, ◌≡◌, refl, ap, ◌∙◌, true, false, List, arith}
use mathlib.Core.Path.{ap₂}
use cse_344_system_programmi.Base.Totals.{at, total-at}
use cse_344_system_programmi.Midterm.Matrix.{Rows}
use cse_344_system_programmi.Midterm.Server.{Request}
use cse_344_system_programmi.Midterm.Server.Conservation.{
  requests_weight, answers_weight, answers_weight-append,
}
use cse_344_system_programmi.Midterm.Backup.{
  ParentPc, reading, holding, copied, waiting, ChildPc, idle, entered, loaded, released, busy,
  counted, judged, answered, Backup, init, go, post_result, post_z, respond, ParentStep, read_pipe,
  copy, post_read, wait_cont, ChildStep, wait_read, load, post_cont, post_working, judge, count,
  answer, wait_working, by_parent, by_child, Reach, start, next,
}
use cse_344_system_programmi.Midterm.Backup.Handshake.{
  sum, offers, unread, about_to_load, Handshake, Handshake-unread, Reach-Handshake, total-zero,
}

module _ (w : ℕ → ℕ) (pool_size : ℕ) where
  abbrev pub parent_held : ParentPc → ℕ
  parent_held reading = 0
  parent_held (holding r) = w r.client_id
  parent_held copied = 0
  parent_held waiting = 0

  abbrev pub child_held : ChildPc → ℕ
  child_held idle = 0
  child_held entered = 0
  child_held (loaded r) = w r.client_id
  child_held (released r) = w r.client_id
  child_held (busy r) = w r.client_id
  child_held (counted r b) = w r.client_id
  child_held (judged r b) = w r.client_id
  child_held answered = 0

  -- The weight of all requests: the one in the shared memory counts until a worker copies it.
  abbrev pub weight : Backup → ℕ
  weight s =
      requests_weight w s.incoming
      + parent_held s.parent
      + unread pool_size s * w s.shared.client_id
      + sum pool_size child_held s
      + answers_weight w s.answers

  ParentStep-weight :
      (s : Backup) {t : Backup} → ParentStep s t → Handshake pool_size s → weight t ≡ weight s
  ParentStep-weight s (read_pipe req later e f) h = rw (f, e) (omega arith)
  ParentStep-weight s (copy req e) h =
      let empty : unread pool_size s ≡ 0 = Handshake-unread pool_size s req e h in
      let now_full : unread pool_size (record s { shared = req; parent = copied }) ≡ 1 =
        omega (arith, empty) in
      let before : unread pool_size s * w s.shared.client_id ≡ 0 =
        ap (λ u. u * w s.shared.client_id) empty ∙ omega arith in
      let after : unread pool_size (record s { shared = req; parent = copied }) * w req.client_id
          ≡ w req.client_id =
        ap (λ u. u * w req.client_id) now_full ∙ omega arith in
      omega (arith, before, after, ap parent_held e)
  ParentStep-weight s (post_read e) h = rw e (omega arith)
  ParentStep-weight s (wait_cont k e f) h = rw e (omega arith)

  abbrev ahead : Backup → List Request × ParentPc × Request
  ahead s = (s.incoming, s.parent, s.shared)

  -- Worker `i` goes from `p` to `q`; only `sem_read`, the answers and what does not weigh change.
  move-weight :
      (i : ℕ) (p q : ChildPc) (s u : Backup)
      → i < pool_size
      → s.child i ≡ p
      → ahead u ≡ ahead s
      → u.sem_read + about_to_load q ≡ s.sem_read + about_to_load p
      → answers_weight w u.answers + child_held q ≡ answers_weight w s.answers + child_held p
      → weight (record u { child = at s.child i q }) ≡ weight s
  move-weight i p q s u lt e same sems balance =
      let to_load = total-at pool_size i about_to_load s.child q lt in
      let held = total-at pool_size i child_held s.child q lt in
      let was : about_to_load (s.child i) ≡ about_to_load p = ap about_to_load e in
      let was_held : child_held (s.child i) ≡ child_held p = ap child_held e in
      let offer : offers u.parent ≡ offers s.parent = ap (λ a. offers a.1) same in
      let slot : unread pool_size (record u { child = at s.child i q }) ≡ unread pool_size s =
        omega (arith, to_load, was, sems, offer) in
      let product : unread pool_size (record u { child = at s.child i q }) * w u.shared.client_id
          ≡ unread pool_size s * w s.shared.client_id =
        ap₂ ◌*◌ slot (ap (λ a. w a.2.client_id) same) in
      let coming : requests_weight w u.incoming ≡ requests_weight w s.incoming =
        ap (λ a. requests_weight w a.0) same in
      let parents : parent_held u.parent ≡ parent_held s.parent = ap (λ a. parent_held a.1) same in
      omega (arith, held, was_held, product, coming, parents, balance)

  load-weight :
      (i : ℕ) (s : Backup)
      → i < pool_size
      → s.child i ≡ entered
      → weight (go i (loaded s.shared) s) ≡ weight s
  load-weight i s lt e =
      let c = w s.shared.client_id in
      let to_load = total-at pool_size i about_to_load s.child (loaded s.shared) lt in
      let held = total-at pool_size i child_held s.child (loaded s.shared) lt in
      let was : about_to_load (s.child i) ≡ 1 = ap about_to_load e in
      let was_held : child_held (s.child i) ≡ 0 = ap child_held e in
      let slot : unread pool_size s ≡ unread pool_size (go i (loaded s.shared) s) + 1 =
        omega (arith, to_load, was) in
      let product : unread pool_size s * w s.shared.client_id
          ≡ unread pool_size (go i (loaded s.shared) s) * w s.shared.client_id
            + w s.shared.client_id =
        ap (λ u. u * w s.shared.client_id) slot ∙ omega arith in
      omega (arith, held, was_held, product)

  ChildStep-weight :
      (junk : Rows) (i : ℕ) (s : Backup) {t : Backup}
      → i < pool_size
      → ChildStep junk s i t
      → weight t ≡ weight s
  unfolding post_result post_z respond
  ChildStep-weight junk i s lt (wait_read k e f) =
      move-weight i idle entered s (record s { sem_read = k }) lt e refl (omega (arith, f)) refl
  ChildStep-weight junk i s lt (load e) = load-weight i s lt e
  ChildStep-weight junk i s lt (post_cont req e) =
      move-weight i (loaded req) (released req) s (record s { sem_cont = s.sem_cont + 1 }) lt e refl
        refl refl
  ChildStep-weight junk i s lt (post_working req e) =
      move-weight i (released req) (busy req) s (record s { working_child = s.working_child + 1 })
        lt e refl refl refl
  ChildStep-weight junk i s lt (judge req true e f) =
      move-weight i (busy req) (counted req true) s (post_result true s) lt e refl refl refl
  ChildStep-weight junk i s lt (judge req false e f) =
      move-weight i (busy req) (counted req false) s (post_result false s) lt e refl refl refl
  ChildStep-weight junk i s lt (count req true e) =
      move-weight i (counted req true) (judged req true) s (post_z true s) lt e refl refl refl
  ChildStep-weight junk i s lt (count req false e) =
      move-weight i (counted req false) (judged req false) s (post_z false s) lt e refl refl refl
  ChildStep-weight junk i s lt (answer req b e) =
      move-weight i (judged req b) answered s (respond i req b s) lt e refl refl
        (omega (arith, answers_weight-append w s.answers _))
  ChildStep-weight junk i s lt (wait_working k e f) =
      move-weight i answered idle s (record s { working_child = k }) lt e refl refl refl

  init-weight :
      (memory : Request) (requests : List Request)
      → weight (init memory requests) ≡ requests_weight w requests
  init-weight memory requests =
      let product : unread pool_size (init memory requests) * w memory.client_id ≡ 0 =
        ap (λ u. (0 + 0 + u) * w memory.client_id) (total-zero pool_size pool_size) ∙ omega arith in
      omega (arith, product, total-zero pool_size pool_size)

-- For any weight of the clients, the requests still in the pipe, with the parent, in the shared memory
-- and not yet copied, with a worker or answered weigh as much as all that came through the pipe.
pub Reach-backup_weight :
    (w : ℕ → ℕ) {junk : Rows} {pool_size : ℕ} {memory : Request} {requests : List Request}
    {s : Backup}
    → Reach junk pool_size memory requests s
    → weight w pool_size s ≡ requests_weight w requests
Reach-backup_weight w {pool_size = pool_size} {memory = memory} {requests = requests} start =
    init-weight w pool_size memory requests
Reach-backup_weight w {pool_size = pool_size} (next {s = s} r (by_parent st)) =
    ParentStep-weight w pool_size s st (Reach-Handshake pool_size r) ∙ Reach-backup_weight w r
Reach-backup_weight w {junk} {pool_size} (next {s = s} r (by_child i lt st)) =
    ChildStep-weight w pool_size junk i s lt st ∙ Reach-backup_weight w r

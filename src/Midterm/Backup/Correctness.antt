-- ===== src/Midterm/Backup/Correctness.antt =====
-- What the workers of Midterm/src/backup_server.c answer.
use cse_344_system_programmi.Base.{
  ℕ, ◌+◌, ◌<◌, ◌≤◌, ◌≡◌, refl, ap, true, false, List, ◌∷◌, some, All, All-append, arith, inl, inr,
  Bool-cases, ◌==◌,
}
use mathlib.Core.Path.{subst}
use cse_344_system_programmi.Base.Totals.{at, total-at, total-member}
use cse_344_system_programmi.Midterm.Matrix.{Rows, is_invertable}
use cse_344_system_programmi.Midterm.Server.{Request}
use cse_344_system_programmi.Midterm.Server.Answers.{Correct}
use cse_344_system_programmi.Midterm.Backup.{
  ParentPc, reading, holding, copied, waiting, ChildPc, idle, entered, loaded, released, busy,
  counted, judged, answered, Backup, post_result, post_z, respond, ParentStep, read_pipe, copy,
  post_read, wait_cont, ChildStep, wait_read, load, post_cont, post_working, judge, count, answer,
  wait_working, by_parent, by_child, Reach, start, next,
}
use cse_344_system_programmi.Midterm.Backup.Handshake.{offers, unread, about_to_load, total-zero}

module _ (junk : Rows) (pool_size : ℕ) (Sent : Request → Type 0) where
  abbrev ParentHolds : ParentPc → Type 0
  ParentHolds reading = Unit
  ParentHolds (holding r) = Sent r
  ParentHolds copied = Unit
  ParentHolds waiting = Unit

  abbrev pub Holds : ChildPc → Type 0
  Holds idle = Unit
  Holds entered = Unit
  Holds (loaded r) = Sent r
  Holds (released r) = Sent r
  Holds (busy r) = Sent r
  Holds (counted r b) = Sent r × (is_invertable junk r.matrix ≡ some b)
  Holds (judged r b) = Sent r × (is_invertable junk r.matrix ≡ some b)
  Holds answered = Unit

  pub record Honest (s : Backup) : Type 0 where
    pub coming : All Sent s.incoming
    pub parent : ParentHolds s.parent
    pub memory : 0 < unread pool_size s → Sent s.shared
    pub workers : (i : ℕ) → i < pool_size → Holds (s.child i)
    pub answers : All (Correct junk pool_size Sent) s.answers

  ParentStep-Honest : (s : Backup) {t : Backup} → ParentStep s t → Honest s → Honest t
  ParentStep-Honest s (read_pipe req later e f) h =
      let sent : All Sent (req ∷ later) = subst (All Sent) f h.coming in
      record {
        coming = sent.1;
        parent = sent.0;
        memory = λ lt. h.memory (omega (arith, lt, ap offers e));
        workers = h.workers;
        answers = h.answers;
      }
  ParentStep-Honest s (copy req e) h = record {
    coming = h.coming;
    parent = tt;
    memory = λ lt. subst ParentHolds e h.parent;
    workers = h.workers;
    answers = h.answers;
  }
  ParentStep-Honest s (post_read e) h = record {
    coming = h.coming;
    parent = tt;
    memory = λ lt. h.memory (omega (arith, lt, ap offers e));
    workers = h.workers;
    answers = h.answers;
  }
  ParentStep-Honest s (wait_cont k e f) h = record {
    coming = h.coming;
    parent = tt;
    memory = λ lt. h.memory (omega (arith, lt, ap offers e));
    workers = h.workers;
    answers = h.answers;
  }

  abbrev kept : Backup → List Request × ParentPc × Request
  kept s = (s.incoming, s.parent, s.shared)

  move-Honest :
      (i : ℕ) (p q : ChildPc) (s u : Backup)
      → i < pool_size
      → s.child i ≡ p
      → kept u ≡ kept s
      → u.sem_read + about_to_load q ≤ s.sem_read + about_to_load p
      → All (Correct junk pool_size Sent) u.answers
      → Holds q
      → Honest s
      → Honest (record u { child = at s.child i q })
  move-Honest i p q s u lt e same sems ha hq h =
      let to_load = total-at pool_size i about_to_load s.child q lt in
      let was : about_to_load (s.child i) ≡ about_to_load p = ap about_to_load e in
      let offer : offers u.parent ≡ offers s.parent = ap (λ a. offers a.1) same in
      let coming : u.incoming ≡ s.incoming = ap (λ a. a.0) same in
      let parents : u.parent ≡ s.parent = ap (λ a. a.1) same in
      let memories : u.shared ≡ s.shared = ap (λ a. a.2) same in
      record {
        coming = rw coming h.coming;
        parent = rw parents h.parent;
        memory = λ some_unread.
            rw memories (h.memory (omega (arith, some_unread, to_load, was, offer, sems)));
        workers = at_worker;
        answers = ha;
      }
    where
      at_worker : (j : ℕ) → j < pool_size → Holds (at s.child i q j)
      at_worker j lj = elim (Bool-cases (j == i)) [
        | inl here ↦ rw here hq
        | inr other ↦ rw other (h.workers j lj)
      ]

  ChildStep-Honest :
      (i : ℕ) (s : Backup) {t : Backup} → i < pool_size → ChildStep junk s i t → Honest s → Honest t
  unfolding post_result post_z respond
  ChildStep-Honest i s lt (wait_read k e f) h =
      move-Honest i idle entered s (record s { sem_read = k }) lt e refl (omega (arith, f))
        h.answers tt h
  ChildStep-Honest i s lt (load e) h =
      let one : about_to_load (s.child i) ≡ 1 = ap about_to_load e in
      let counts = total-member pool_size (λ j. about_to_load (s.child j)) i lt in
      move-Honest i entered (loaded s.shared) s s lt e refl (omega arith) h.answers
        (h.memory (omega (arith, one, counts))) h
  ChildStep-Honest i s lt (post_cont req e) h =
      move-Honest i (loaded req) (released req) s (record s { sem_cont = s.sem_cont + 1 }) lt e refl
        (omega arith) h.answers (subst Holds e (h.workers i lt)) h
  ChildStep-Honest i s lt (post_working req e) h =
      move-Honest i (released req) (busy req) s (record s { working_child = s.working_child + 1 })
        lt e refl (omega arith) h.answers (subst Holds e (h.workers i lt)) h
  ChildStep-Honest i s lt (judge req true e f) h =
      move-Honest i (busy req) (counted req true) s (post_result true s) lt e refl (omega arith)
        h.answers (subst Holds e (h.workers i lt), f) h
  ChildStep-Honest i s lt (judge req false e f) h =
      move-Honest i (busy req) (counted req false) s (post_result false s) lt e refl (omega arith)
        h.answers (subst Holds e (h.workers i lt), f) h
  ChildStep-Honest i s lt (count req true e) h =
      move-Honest i (counted req true) (judged req true) s (post_z true s) lt e refl (omega arith)
        h.answers (subst Holds e (h.workers i lt)) h
  ChildStep-Honest i s lt (count req false e) h =
      move-Honest i (counted req false) (judged req false) s (post_z false s) lt e refl
        (omega arith) h.answers (subst Holds e (h.workers i lt)) h
  ChildStep-Honest i s lt (answer req b e) h =
      let held : Holds (judged req b) = subst Holds e (h.workers i lt) in
      move-Honest i (judged req b) answered s (respond i req b s) lt e refl (omega arith)
        (All-append (Correct junk pool_size Sent) s.answers _ h.answers
          ((req, held.0, b, refl, held.1, refl, omega arith, omega arith), tt))
        tt h
  ChildStep-Honest i s lt (wait_working k e f) h =
      move-Honest i answered idle s (record s { working_child = k }) lt e refl (omega arith)
        h.answers tt h

  pub Reach-Honest :
      {memory : Request} {requests : List Request} {s : Backup}
      → All Sent requests
      → Reach junk pool_size memory requests s
      → Honest s
  Reach-Honest sent start = record {
    coming = sent;
    parent = tt;
    memory = λ lt. absurd (omega (arith, lt, total-zero pool_size pool_size));
    workers = λ i lt. tt;
    answers = tt;
  }
  Reach-Honest sent (next {s = s} r (by_parent st)) = ParentStep-Honest s st (Reach-Honest sent r)
  Reach-Honest sent (next {s = s} r (by_child i lt st)) =
      ChildStep-Honest i s lt st (Reach-Honest sent r)

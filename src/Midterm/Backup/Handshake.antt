-- ===== src/Midterm/Backup/Handshake.antt =====
-- The shared memory of Midterm/src/backup_server.c holds one request at a time, and none is lost in it.
use cse_344_system_programmi.Base.{
  ℕ, zero, suc, ◌+◌, ◌<◌, ◌≤◌, ◌≡◌, refl, ap, Bool, true, false, List, length, length-append, arith,
}
use cse_344_system_programmi.Base.Totals.{at, total, total-at, total_mono}
use cse_344_system_programmi.Midterm.Matrix.{Rows}
use cse_344_system_programmi.Midterm.Server.{Request}
use cse_344_system_programmi.Midterm.Backup.{
  ParentPc, reading, holding, copied, waiting, ChildPc, idle, entered, loaded, released, busy,
  counted, judged, answered, Backup, init, post_result, post_z, respond, ParentStep, read_pipe,
  copy, post_read, wait_cont, ChildStep, wait_read, load, post_cont, post_working, judge, count,
  answer, wait_working, by_parent, by_child, Reach, start, next,
}

-- The parent may write to the shared memory, or is about to let a worker in.
abbrev pub owns : ParentPc → ℕ
owns reading = 1
owns (holding r) = 1
owns copied = 1
owns waiting = 0

abbrev pub offers : ParentPc → ℕ
offers reading = 0
offers (holding r) = 0
offers copied = 1
offers waiting = 0

-- A worker that the semaphore let in, before it lets the parent go on.
abbrev pub inside : ChildPc → ℕ
inside idle = 0
inside entered = 1
inside (loaded r) = 1
inside (released r) = 0
inside (busy r) = 0
inside (counted r b) = 0
inside (judged r b) = 0
inside answered = 0

abbrev pub about_to_load : ChildPc → ℕ
about_to_load idle = 0
about_to_load entered = 1
about_to_load (loaded r) = 0
about_to_load (released r) = 0
about_to_load (busy r) = 0
about_to_load (counted r b) = 0
about_to_load (judged r b) = 0
about_to_load answered = 0

abbrev pub in_child : ChildPc → ℕ
in_child idle = 0
in_child entered = 0
in_child (loaded r) = 0
in_child (released r) = 0
in_child (busy r) = 1
in_child (counted r b) = 1
in_child (judged r b) = 1
in_child answered = 1

-- With a result that is counted and not answered.
abbrev pub unanswered : ChildPc → ℕ
unanswered idle = 0
unanswered entered = 0
unanswered (loaded r) = 0
unanswered (released r) = 0
unanswered (busy r) = 0
unanswered (counted r b) = 0
unanswered (judged r b) = 1
unanswered answered = 0

module _ (pool_size : ℕ) where
  abbrev pub sum : (ChildPc → ℕ) → Backup → ℕ
  sum h s = total pool_size (λ i. h (s.child i))

  -- Requests in the shared memory that no worker has copied.
  abbrev pub unread : Backup → ℕ
  unread s = offers s.parent + s.sem_read + sum about_to_load s

  pub record Handshake (s : Backup) : Type 0 where
    pub one : owns s.parent + s.sem_read + sum inside s + s.sem_cont ≡ 1
    pub posts : s.working_child ≡ sum in_child s
    pub results : s.z_inverted + s.z_not_inverted ≡ length s.answers + sum unanswered s

  about_to_load-le : (p : ChildPc) → about_to_load p ≤ inside p
  about_to_load-le idle = omega arith
  about_to_load-le entered = omega arith
  about_to_load-le (loaded r) = omega arith
  about_to_load-le (released r) = omega arith
  about_to_load-le (busy r) = omega arith
  about_to_load-le (counted r b) = omega arith
  about_to_load-le (judged r b) = omega arith
  about_to_load-le answered = omega arith

  pub total-zero : (n : ℕ) → total n (λ i. 0) ≡ 0
  total-zero zero = refl
  total-zero (suc n) = omega (arith, total-zero n)

  init-Handshake : (junk : Request) (requests : List Request) → Handshake (init junk requests)
  init-Handshake junk requests = record {
    one = omega (arith, total-zero pool_size);
    posts = omega (arith, total-zero pool_size);
    results = omega (arith, total-zero pool_size);
  }

  ParentStep-Handshake : (s : Backup) {t : Backup} → ParentStep s t → Handshake s → Handshake t
  ParentStep-Handshake s (read_pipe req later e f) h = record {
    one = omega (arith, h.one, ap owns e);
    posts = h.posts;
    results = h.results;
  }
  ParentStep-Handshake s (copy req e) h = record {
    one = omega (arith, h.one, ap owns e);
    posts = h.posts;
    results = h.results;
  }
  ParentStep-Handshake s (post_read e) h = record {
    one = omega (arith, h.one, ap owns e);
    posts = h.posts;
    results = h.results;
  }
  ParentStep-Handshake s (wait_cont k e f) h = record {
    one = omega (arith, h.one, ap owns e, f);
    posts = h.posts;
    results = h.results;
  }

  -- What a step of a worker from `p` to `q` may do to the rest of the server.
  record Moved (p q : ChildPc) (s u : Backup) : Type 0 where
    same : u.parent ≡ s.parent
    sems : u.sem_read + u.sem_cont + inside q ≡ s.sem_read + s.sem_cont + inside p
    posts : u.working_child + in_child p ≡ s.working_child + in_child q
    results :
        u.z_inverted + u.z_not_inverted + (length s.answers + unanswered p)
        ≡ s.z_inverted + s.z_not_inverted + (length u.answers + unanswered q)

  move-Handshake :
      (i : ℕ) (p q : ChildPc) (s u : Backup)
      → i < pool_size
      → s.child i ≡ p
      → Moved p q s u
      → Handshake s
      → Handshake (record u { child = at s.child i q })
  move-Handshake i p q s u lt e m h =
      let in_slot = total-at pool_size i inside s.child q lt in
      let posted = total-at pool_size i in_child s.child q lt in
      let open_results = total-at pool_size i unanswered s.child q lt in
      let was : inside (s.child i) ≡ inside p = ap inside e in
      let was_in : in_child (s.child i) ≡ in_child p = ap in_child e in
      let was_open : unanswered (s.child i) ≡ unanswered p = ap unanswered e in
      let same : owns u.parent ≡ owns s.parent = ap owns m.same in
      record {
        one = omega (arith, h.one, m.sems, in_slot, was, same);
        posts = omega (arith, h.posts, m.posts, posted, was_in);
        results = omega (arith, h.results, m.results, open_results, was_open);
      }

  respond-length :
      (i : ℕ) (r : Request) (b : Bool) (s : Backup)
      → length (respond i r b s).answers ≡ length s.answers + 1
  unfolding respond
  respond-length i r b s = length-append s.answers _

  ChildStep-Handshake :
      (junk : Rows) (i : ℕ) (s : Backup) {t : Backup}
      → i < pool_size
      → ChildStep junk s i t
      → Handshake s
      → Handshake t
  unfolding post_result post_z respond
  ChildStep-Handshake junk i s lt (wait_read k e f) h =
      move-Handshake i idle entered s (record s { sem_read = k }) lt e
        (record {
          same = refl;
          sems = omega (arith, f);
          posts = omega arith;
          results = omega arith;
        })
        h
  ChildStep-Handshake junk i s lt (load e) h =
      move-Handshake i entered (loaded s.shared) s s lt e
        (record { same = refl; sems = omega arith; posts = omega arith; results = omega arith }) h
  ChildStep-Handshake junk i s lt (post_cont req e) h =
      move-Handshake i (loaded req) (released req) s (record s { sem_cont = s.sem_cont + 1 }) lt e
        (record { same = refl; sems = omega arith; posts = omega arith; results = omega arith }) h
  ChildStep-Handshake junk i s lt (post_working req e) h =
      move-Handshake i (released req) (busy req) s
        (record s { working_child = s.working_child + 1 }) lt e
        (record { same = refl; sems = omega arith; posts = omega arith; results = omega arith }) h
  ChildStep-Handshake junk i s lt (judge req true e f) h =
      move-Handshake i (busy req) (counted req true) s (post_result true s) lt e
        (record { same = refl; sems = omega arith; posts = omega arith; results = omega arith }) h
  ChildStep-Handshake junk i s lt (judge req false e f) h =
      move-Handshake i (busy req) (counted req false) s (post_result false s) lt e
        (record { same = refl; sems = omega arith; posts = omega arith; results = omega arith }) h
  ChildStep-Handshake junk i s lt (count req true e) h =
      move-Handshake i (counted req true) (judged req true) s (post_z true s) lt e
        (record { same = refl; sems = omega arith; posts = omega arith; results = omega arith }) h
  ChildStep-Handshake junk i s lt (count req false e) h =
      move-Handshake i (counted req false) (judged req false) s (post_z false s) lt e
        (record { same = refl; sems = omega arith; posts = omega arith; results = omega arith }) h
  ChildStep-Handshake junk i s lt (answer req b e) h =
      move-Handshake i (judged req b) answered s (respond i req b s) lt e
        (record {
          same = refl;
          sems = omega arith;
          posts = omega arith;
          results = omega (arith, respond-length i req b s);
        })
        h
  ChildStep-Handshake junk i s lt (wait_working k e f) h =
      move-Handshake i answered idle s (record s { working_child = k }) lt e
        (record {
          same = refl;
          sems = omega arith;
          posts = omega (arith, f);
          results = omega arith;
        })
        h

  pub Reach-Handshake :
      {junk : Rows} {memory : Request} {requests : List Request} {s : Backup}
      → Reach junk pool_size memory requests s
      → Handshake s
  Reach-Handshake {memory = memory} {requests = requests} start = init-Handshake memory requests
  Reach-Handshake (next {s = s} r (by_parent st)) = ParentStep-Handshake s st (Reach-Handshake r)
  Reach-Handshake {junk} (next {s = s} r (by_child i lt st)) =
      ChildStep-Handshake junk i s lt st (Reach-Handshake r)

  -- While the parent may write, no request in the shared memory waits for a worker.
  pub Handshake-unread :
      (s : Backup) (req : Request) → s.parent ≡ holding req → Handshake s → unread s ≡ 0
  Handshake-unread s req e h =
      let le =
        total_mono pool_size (λ i. about_to_load (s.child i)) (λ i. inside (s.child i))
          (λ i. about_to_load-le (s.child i)) in
      omega (arith, h.one, le, ap owns e, ap offers e)

-- ===== src/Final/Pool/Shutdown.antt =====
-- A worker that begins to wait after SIGINT is never woken: `thread_main` does not look at
-- `sigint_flag` before it waits, and the broadcast is over. `main` then joins it for ever.
use cse_344_system_programmi.Base.{ℕ, ◌<◌, ◌≡◌, refl, true, none, some, [], ◌∷◌, arith}
use cse_344_system_programmi.Final.Pool.{
  top, waiting, took, handling, System, at, wake, Work, begin_some, begin_wait, resume, stop,
  nothing, handle, handled, accept, enqueue_busy, sigint, shutdown, Reach, start, work, other,
}

-- What the workers do by themselves.
pub data Works (n : ℕ) (s : System) : System → Type 0 where
  rest : Works n s s
  more : {t u : System} → Works n s t → Work n t u → Works n s u

-- No worker wakes another.
Work-waiting : {n : ℕ} {s t : System} (i : ℕ) → Work n s t → s.pc i ≡ waiting → t.pc i ≡ waiting
Work-waiting i (begin_some j fd r lt p q) w = ground arith
Work-waiting i (begin_wait j lt p q) w = ground arith
Work-waiting i (resume j [] lt p q) w = ground arith
Work-waiting i (resume j (fd ∷ r) lt p q) w = ground arith
Work-waiting i (stop j r lt p f) w = ground arith
Work-waiting i (nothing j lt p f) w = ground arith
Work-waiting i (handle j fd lt p f) w = ground arith
Work-waiting i (handled j fd lt p) w = ground arith

pub Works-waiting :
    {n : ℕ} {s t : System} (i : ℕ) → s.pc i ≡ waiting → Works n s t → t.pc i ≡ waiting
Works-waiting i w rest = w
Works-waiting i w (more ws x) = Work-waiting i x (Works-waiting i w ws)

-- Worker 0 has handled a request while SIGINT arrived and `main` shut down, and waits again.
abbrev pub hung : ℕ → System
hung fd = record {
  queue = [];
  sigint_flag = true;
  accepting = none;
  joining = true;
  pc =
      at (at (λ i. wake (at (at (λ _. top) 0 (took (some fd))) 0 (handling fd) i)) 0 top) 0 waiting;
  accepted = fd ∷ [];
  taken = fd ∷ [];
  drained = [];
}

hung-Reach : (n fd : ℕ) → 0 < n → Reach n (hung fd)
hung-Reach n fd pos =
    work
      (work
        (other
          (other
            (work
              (work
                (other (other start (accept fd refl refl refl))
                  (enqueue_busy fd refl refl (λ i lt e. cc)))
                (begin_some 0 fd [] pos refl refl))
              (handle 0 fd pos refl refl))
            sigint)
          (shutdown refl refl refl))
        (handled 0 fd pos refl))
      (begin_wait 0 pos refl refl)

-- With any number of workers, the server can reach a state in which `main` joins the workers, and
-- worker 0 waits however the workers go on: without another signal it never finishes.
pub shutdown_can_hang :
    (n fd : ℕ)
    → 0 < n
    → (s : System) × Reach n s
      × (s.joining ≡ true)
      × ((t : System) → Works n s t → t.pc 0 ≡ waiting)
shutdown_can_hang n fd pos = (hung fd, hung-Reach n fd pos, refl, λ t ws. Works-waiting 0 refl ws)

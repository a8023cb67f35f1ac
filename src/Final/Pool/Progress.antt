-- ===== src/Final/Pool/Progress.antt =====
-- No request is lost, duplicated or overtaken in the queue, and none is left there while all
-- workers sleep.
use mathlib.Core.List.{append_assoc, append-nil}
use cse_344_system_programmi.Base.{
  ℕ, ◌<◌, ◌≡◌, ◌≢◌, ◌∙◌, refl, sym, ap, inl, inr, true, false, none, List, [], ◌∷◌, ◌++◌, arith,
  Bool-cases,
}
use cse_344_system_programmi.Final.Pool.{
  Pc, waiting, finished, System, take_first, Work, begin_some, begin_wait, resume, stop, nothing,
  handle, handled, Other, accept, enqueue_wake, enqueue_busy, sigint, shutdown, spurious, Reach,
  start, work, other,
}

cons-ne-nil : {x : ℕ} {xs : List ℕ} → x ∷ xs ≢ []
cons-ne-nil e = cc

-- The requests that were accepted are, in order, those that a worker took, those that the
-- shutdown dropped, and those that are still queued. The shutdown comes last.
pub record InOrder (s : System) : Type 0 where
  pub order : s.accepted ≡ s.taken ++ (s.drained ++ s.queue)
  pub early : s.joining ≡ false → s.drained ≡ []
  pub late : s.joining ≡ true → (s.queue ≡ []) × (s.sigint_flag ≡ true)

take_some-InOrder :
    (s : System) (i fd : ℕ) (rest : List ℕ)
    → s.queue ≡ fd ∷ rest
    → InOrder s
    → InOrder (take_first s i (fd ∷ rest))
take_some-InOrder s i fd rest q h = elim (Bool-cases s.joining) [
  | inl joins ↦ absurd (cons-ne-nil (sym q ∙ (h.late joins).0))
  | inr before ↦ record {
    order = h.order ∙ (rw (h.early before, q) (sym (append_assoc s.taken (fd ∷ []) rest)));
    early = h.early;
    late = λ joins. cc;
  }
]

Work-InOrder : {n : ℕ} {s t : System} → Work n s t → InOrder s → InOrder t
Work-InOrder {s = s} (begin_some i fd rest lt at_top q) h = take_some-InOrder s i fd rest q h
Work-InOrder (begin_wait i lt at_top q) h = record {
  order = h.order;
  early = h.early;
  late = h.late;
}
Work-InOrder (resume i [] lt p q) h = record { order = h.order; early = h.early; late = h.late }
Work-InOrder {s = s} (resume i (fd ∷ rest) lt p q) h = take_some-InOrder s i fd rest q h
Work-InOrder (stop i r lt p f) h = record { order = h.order; early = h.early; late = h.late }
Work-InOrder (nothing i lt p f) h = record { order = h.order; early = h.early; late = h.late }
Work-InOrder (handle i fd lt p f) h = record { order = h.order; early = h.early; late = h.late }
Work-InOrder (handled i fd lt p) h = record { order = h.order; early = h.early; late = h.late }

accept-InOrder :
    (s : System) (fd : ℕ) (pc : ℕ → Pc)
    → s.joining ≡ false
    → InOrder s
    → InOrder (record s {
      accepting = none;
      queue = s.queue ++ fd ∷ [];
      accepted = s.accepted ++ fd ∷ [];
      pc = pc;
    })
accept-InOrder s fd pc before h = record {
  order =
      ap (λ l. l ++ fd ∷ []) h.order
      ∙ (append_assoc s.taken (s.drained ++ s.queue) (fd ∷ [])
          ∙ ap (λ l. s.taken ++ l) (append_assoc s.drained s.queue (fd ∷ [])));
  early = h.early;
  late = λ joins. cc;
}

Other-InOrder : {n : ℕ} {s t : System} → Other n s t → InOrder s → InOrder t
Other-InOrder (accept fd before idle f) h = record {
  order = h.order;
  early = h.early;
  late = h.late;
}
Other-InOrder {s = s} (enqueue_wake fd i before f lt w) h = accept-InOrder s fd _ before h
Other-InOrder {s = s} (enqueue_busy fd before f busy) h = accept-InOrder s fd s.pc before h
Other-InOrder sigint h = record {
  order = h.order;
  early = h.early;
  late = λ joins. ((h.late joins).0, refl);
}
Other-InOrder {s = s} (shutdown before idle f) h = record {
  order = h.order ∙ (rw (h.early before) (ap (λ l. s.taken ++ l) (sym (append-nil s.queue))));
  early = λ e. cc;
  late = λ _. (refl, f);
}
Other-InOrder (spurious i lt w) h = record { order = h.order; early = h.early; late = h.late }

-- In every state that the server can reach, the accepted requests are, in the order in which they
-- came, those that workers took, those that the shutdown dropped and those that are queued; none
-- is dropped before the shutdown, and the shutdown begins only after SIGINT.
pub Reach-InOrder : {n : ℕ} {s : System} → Reach n s → InOrder s
Reach-InOrder start = record { order = refl; early = λ _. refl; late = λ e. cc }
Reach-InOrder (work r w) = Work-InOrder w (Reach-InOrder r)
Reach-InOrder (other r o) = Other-InOrder o (Reach-InOrder r)

-- A worker that will look at the queue before it waits again.
abbrev pub IsAwake : Pc → Type 0
IsAwake p = (p ≢ waiting) × (p ≢ finished)

-- Before SIGINT no worker has finished, and a queued request has a worker that is awake.
pub record Lively (n : ℕ) (s : System) : Type 0 where
  pub running : s.sigint_flag ≡ false → (i : ℕ) → s.pc i ≢ finished
  pub served : s.sigint_flag ≡ false → s.queue ≢ [] → (i : ℕ) × (i < n) × IsAwake (s.pc i)

Work-Lively : {n : ℕ} {s t : System} → Work n s t → Lively n s → Lively n t
Work-Lively (begin_some i fd rest lt p q) h = record {
  running = λ f j. ground (arith, h.running f j);
  served = λ f ne. (i, lt, (ground arith, ground arith));
}
Work-Lively (begin_wait i lt p q) h = record {
  running = λ f j. ground (arith, h.running f j);
  served = λ f ne. absurd (ne q);
}
Work-Lively (resume i [] lt p q) h = record {
  running = λ f j. ground (arith, h.running f j);
  served = λ f ne. absurd (ne q);
}
Work-Lively (resume i (fd ∷ rest) lt p q) h = record {
  running = λ f j. ground (arith, h.running f j);
  served = λ f ne. (i, lt, (ground arith, ground arith));
}
Work-Lively (stop i r lt p g) h = record { running = λ f j. cc; served = λ f ne. cc }
Work-Lively (nothing i lt p g) h = record {
  running = λ f j. ground (arith, h.running f j);
  served = λ f ne. (i, lt, (ground arith, ground arith));
}
Work-Lively (handle i fd lt p g) h = record {
  running = λ f j. ground (arith, h.running f j);
  served = λ f ne. (i, lt, (ground arith, ground arith));
}
Work-Lively (handled i fd lt p) h = record {
  running = λ f j. ground (arith, h.running f j);
  served = λ f ne. (i, lt, (ground arith, ground arith));
}

Other-Lively : {n : ℕ} {s t : System} → 0 < n → Other n s t → Lively n s → Lively n t
Other-Lively pos (accept fd before idle f) h = record { running = h.running; served = h.served }
Other-Lively pos (enqueue_wake fd i before f lt w) h = record {
  running = λ f j. ground (arith, h.running f j);
  served = λ f ne. (i, lt, (ground arith, ground arith));
}
Other-Lively pos (enqueue_busy fd before f busy) h = record {
  running = h.running;
  served = λ f ne. (0, pos, (busy 0 pos, h.running f 0));
}
Other-Lively pos sigint h = record { running = λ f j. cc; served = λ f ne. cc }
Other-Lively pos (shutdown before idle g) h = record {
  running = h.running;
  served = λ f ne. absurd (ne refl);
}
Other-Lively pos (spurious i lt w) h = record {
  running = λ f j. ground (arith, h.running f j);
  served = λ f ne. (i, lt, (ground arith, ground arith));
}

-- With at least one worker, in every state that the server can reach before SIGINT: while a
-- request is queued, some worker is neither waiting nor finished.
pub no_request_stranded :
    {n : ℕ} {s : System}
    → 0 < n
    → Reach n s
    → s.sigint_flag ≡ false
    → s.queue ≢ []
    → (i : ℕ) × (i < n) × IsAwake (s.pc i)
no_request_stranded {n} pos r = (lively r).served
  where
    lively : {s : System} → Reach n s → Lively n s
    lively start = record { running = λ f j e. ground arith; served = λ f ne. absurd (ne refl) }
    lively (work r w) = Work-Lively w (lively r)
    lively (other r o) = Other-Lively pos o (lively r)

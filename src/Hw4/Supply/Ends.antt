-- ===== src/Hw4/Supply/Ends.antt =====
-- The runs of Hw4/src/main.c without the race lose nothing and come to their end.
use cse_344_system_programmi.Base.{
  ℕ, zero, suc, ◌+◌, ◌-◌, ◌*◌, ◌<◌, ◌≤◌, ◌≡◌, ◌≢◌, ◌⊎◌, inl, inr, ◌∙◌, refl, sym, ap, some, List,
  [], ◌∷◌, All, length, arith,
}
use cse_344_system_programmi.Base.Totals.{at, total, total-at}
use cse_344_system_programmi.Base.Int.{ℤ}
use cse_344_system_programmi.Hw4.Supply.{
  kind_of, SupplierPc, reading, first_set, first_call, first_semop, second_set, second_call,
  second_semop, left, exited, ConsumerPc, waiting, half_set, both_set, in_semop, Shop, minus_two,
  init, SupplierStep, ConsumerStep, Step, by_supplier, by_consumer, read_char, read_newline,
  read_end, read_unknown, set_first, call_first, post_first, set_second, call_second, post_second,
  consumer_set, consumer_set_other, consumer_call, consume,
}
use cse_344_system_programmi.Hw4.Supply.Clean.{
  IsClean, CleanSteps, none_yet, one_more, semop-one, semop-take, semop-posts, semop-takes,
}
use cse_344_system_programmi.Hw4.Supply.Counting.{
  amount, Balanced, kind_of-cases, rounds_of, steps_of, hand, total-positive,
}

-- A character of the file: '1' or '2'.
abbrev pub IsKind : ℕ → Type 0
IsKind c = (k : ℕ) × (kind_of c ≡ some k)

-- The supplier has left only when the file is read, and the process goes on.
abbrev pub Resting : SupplierPc → List ℕ → Type 0
Resting left cs = cs ≡ []
Resting exited cs = ⊥
Resting reading cs = Unit
Resting (first_set k) cs = Unit
Resting (first_call k) cs = Unit
Resting (first_semop k op) cs = Unit
Resting (second_set k) cs = Unit
Resting (second_call k) cs = Unit
Resting (second_semop k op) cs = Unit

record Running (c_num n : ℕ) (file : List ℕ) (s : Shop) : Type 0 where
  ones : Balanced file s 0
  twos : Balanced file s 1
  rounds : s.consumed + total c_num (λ j. rounds_of (s.consumer j)) ≡ c_num * n
  rests : Resting s.supplier s.file
  chars : All IsKind s.file

abbrev steps_left : ℕ → Shop → ℕ
steps_left c_num s =
    7 * length s.file + hand s.supplier + total c_num (λ j. steps_of (s.consumer j))

-- What a step keeps, and by how much it comes nearer to the end.
abbrev Kept : (c_num n : ℕ) (file : List ℕ) (s t : Shop) → Type 0
Kept c_num n file s t = Running c_num n file t × (steps_left c_num s ≡ suc (steps_left c_num t))

SupplierStep-Kept :
    (c_num n : ℕ) (file : List ℕ) (s : Shop) {t : Shop}
    → SupplierStep s t
    → IsClean s
    → Running c_num n file s
    → Kept c_num n file s t
unfolding kind_of
SupplierStep-Kept c_num n file s (read_char c k rest p f e) clean h =
    let b0 = rw (p, f) at h.ones in
    let b1 = rw (p, f) at h.twos in
    let chars = rw f at h.chars in
    let kind = kind_of-cases c k e in
    (
      record {
        ones = ground (arith, b0, kind);
        twos = ground (arith, b1, kind);
        rounds = h.rounds;
        rests = tt;
        chars = chars.1;
      },
      rw (p, f) (omega arith),
    )
SupplierStep-Kept c_num n file s (read_newline rest p f) clean h =
    let chars = rw f at h.chars in absurd (ground (arith, chars.0.1))
SupplierStep-Kept c_num n file s (read_end p f) clean h =
    let b0 = rw p at h.ones in
    let b1 = rw p at h.twos in
    (
      record { ones = b0; twos = b1; rounds = h.rounds; rests = f; chars = h.chars },
      rw p (omega arith),
    )
SupplierStep-Kept c_num n file s (read_unknown c rest p f ne e) clean h =
    let chars = rw f at h.chars in absurd (ground (arith, chars.0.1, e))
SupplierStep-Kept c_num n file s (set_first k p) clean h =
    let b0 = rw p at h.ones in
    let b1 = rw p at h.twos in
    (
      record { ones = b0; twos = b1; rounds = h.rounds; rests = tt; chars = h.chars },
      rw p (omega arith),
    )
SupplierStep-Kept c_num n file s (call_first k p) clean h =
    let b0 = rw p at h.ones in
    let b1 = rw p at h.twos in
    (
      record { ones = b0; twos = b1; rounds = h.rounds; rests = tt; chars = h.chars },
      rw p (omega arith),
    )
SupplierStep-Kept c_num n file s (post_first k v op p e) clean h =
    let b0 = rw p at h.ones in
    let b1 = rw p at h.twos in
    let up = semop-one op (s.sem k) v (clean.first k op p) e in
    (
      record {
        ones = rw up (ground (arith, b0));
        twos = rw up (ground (arith, b1));
        rounds = h.rounds;
        rests = tt;
        chars = h.chars;
      },
      rw p (omega arith),
    )
SupplierStep-Kept c_num n file s (set_second k p) clean h =
    let b0 = rw p at h.ones in
    let b1 = rw p at h.twos in
    (
      record { ones = b0; twos = b1; rounds = h.rounds; rests = tt; chars = h.chars },
      rw p (omega arith),
    )
SupplierStep-Kept c_num n file s (call_second k p) clean h =
    let b0 = rw p at h.ones in
    let b1 = rw p at h.twos in
    (
      record { ones = b0; twos = b1; rounds = h.rounds; rests = tt; chars = h.chars },
      rw p (omega arith),
    )
SupplierStep-Kept c_num n file s (post_second k v op p e) clean h =
    let b0 = rw p at h.ones in
    let b1 = rw p at h.twos in
    let up = semop-one op (s.sem k) v (clean.second k op p) e in
    (
      record {
        ones = rw up (ground (arith, b0));
        twos = rw up (ground (arith, b1));
        rounds = h.rounds;
        rests = tt;
        chars = h.chars;
      },
      rw p (omega arith),
    )

-- A consumer goes from `p` to `q` on its own.
consumer-Kept :
    (c_num n : ℕ) (file : List ℕ) (s : Shop) (ops : ℕ → ℤ) (j : ℕ) (p q : ConsumerPc)
    → j < c_num
    → s.consumer j ≡ p
    → rounds_of q ≡ rounds_of p
    → steps_of p ≡ suc (steps_of q)
    → Running c_num n file s
    → Kept c_num n file s (record s { sem_op = ops; consumer = at s.consumer j q })
consumer-Kept c_num n file s ops j p q lt e same less h =
    let rounds = total-at c_num j rounds_of s.consumer q lt in
    let steps = total-at c_num j steps_of s.consumer q lt in
    let was : rounds_of (s.consumer j) ≡ rounds_of p = ap rounds_of e in
    let was' : steps_of (s.consumer j) ≡ steps_of p = ap steps_of e in
    (
      record {
        ones = h.ones;
        twos = h.twos;
        rounds = omega (arith, h.rounds, rounds, was, same);
        rests = h.rests;
        chars = h.chars;
      },
      omega (arith, steps, was', less),
    )

ConsumerStep-Kept :
    (c_num n : ℕ) (file : List ℕ) (s : Shop) {t : Shop}
    → ConsumerStep c_num s t
    → IsClean s
    → Running c_num n file s
    → Kept c_num n file s t
ConsumerStep-Kept c_num n file s (consumer_set j r on lt p) clean h =
    consumer-Kept c_num n file s (at s.sem_op 0 minus_two) j (waiting (suc r)) (half_set r) lt p
      refl (omega arith) h
ConsumerStep-Kept c_num n file s (consumer_set_other j r on lt p) clean h =
    consumer-Kept c_num n file s (at s.sem_op 1 minus_two) j (half_set r) (both_set r) lt p refl
      (omega arith) h
ConsumerStep-Kept c_num n file s (consumer_call j r on lt p) clean h =
    consumer-Kept c_num n file s s.sem_op j (both_set r) (in_semop r (s.sem_op 0) (s.sem_op 1)) lt p
      refl (omega arith) h
ConsumerStep-Kept c_num n file s (consume j r v w op other on lt p e f) clean h =
    let own = clean.consumers j r op other p in
    let down = semop-take op (s.sem 0) v own.0 e in
    let down' = semop-take other (s.sem 1) w own.1 f in
    let rounds = total-at c_num j rounds_of s.consumer (waiting r) lt in
    let steps = total-at c_num j steps_of s.consumer (waiting r) lt in
    let was : rounds_of (s.consumer j) ≡ suc r = ap rounds_of p in
    let was' : steps_of (s.consumer j) ≡ 4 * r + 1 = ap steps_of p in
    (
      record {
        ones = omega (arith, h.ones, down);
        twos = omega (arith, h.twos, down');
        rounds = omega (arith, h.rounds, rounds, was);
        rests = h.rests;
        chars = h.chars;
      },
      omega (arith, steps, was'),
    )

init-rounds : (c_num n : ℕ) → total c_num (λ j. n) ≡ c_num * n
init-rounds zero n = omega arith
init-rounds (suc c_num) n = let ih = init-rounds c_num n in grind (arith, ih)

init-Running : (c_num n : ℕ) (file : List ℕ) → All IsKind file → Running c_num n file (init file n)
init-Running c_num n file chars = record {
  ones = omega arith;
  twos = omega arith;
  rounds = omega (arith, init-rounds c_num n);
  rests = tt;
  chars = chars;
}

init-IsClean : (file : List ℕ) (n : ℕ) → IsClean (init file n)
init-IsClean file n = record {
  first = λ k op e. cc;
  second = λ k op e. cc;
  consumers = λ j r op other e. cc;
}

Step-Kept :
    (c_num n : ℕ) (file : List ℕ) (s : Shop) {t : Shop}
    → Step c_num s t
    → IsClean s
    → Running c_num n file s
    → Kept c_num n file s t
Step-Kept c_num n file s (by_supplier st) clean h = SupplierStep-Kept c_num n file s st clean h
Step-Kept c_num n file s (by_consumer st) clean h = ConsumerStep-Kept c_num n file s st clean h

CleanSteps-Running :
    (c_num n : ℕ) (file : List ℕ) {m : ℕ} {t : Shop}
    → All IsKind file
    → CleanSteps c_num (init file n) m t
    → Running c_num n file t
      × IsClean t
      × (7 * length file + 1 + c_num * (4 * n) ≡ m + steps_left c_num t)
CleanSteps-Running c_num n file chars none_yet =
    (init-Running c_num n file chars, init-IsClean file n, omega (arith, init-rounds c_num (4 * n)))
CleanSteps-Running c_num n file chars (one_more {t = s} r st clean) =
    let p = CleanSteps-Running c_num n file chars r in
    let q = Step-Kept c_num n file s st p.1 p.0 in (q.0, clean, omega (arith, p.2, q.1))

-- In a run without the race, of a file of '1' and '2', however the threads interleave, of each kind: what
-- the semaphore holds, twice the rounds that were consumed, the posts that are due and twice what is
-- unread are together twice what the file holds.
pub CleanSteps-Balanced :
    (c_num n : ℕ) (file : List ℕ) {m : ℕ} {t : Shop}
    → All IsKind file
    → CleanSteps c_num (init file n) m t
    → Balanced file t 0 × Balanced file t 1
CleanSteps-Balanced c_num n file chars r =
    let h = (CleanSteps-Running c_num n file chars r).0 in (h.ones, h.twos)

-- What a run leads to: another step, or the end.
abbrev pub GoesOn : ℕ → ℕ → Shop → Type 0
GoesOn c_num n t = ((u : Shop) × Step c_num t u) ⊎ ((t.consumed ≡ c_num * n) × (t.supplier ≡ left))

supplier_reads :
    (c_num : ℕ) (s : Shop) (cs : List ℕ)
    → s.supplier ≡ reading
    → s.file ≡ cs
    → All IsKind cs
    → (u : Shop) × Step c_num s u
supplier_reads c_num s [] p f chars = (_, by_supplier (read_end p f))
supplier_reads c_num s (c ∷ cs) p f chars =
    (_, by_supplier (read_char c chars.0.0 cs p f chars.0.1))

left-ne_exited : left ≢ exited
left-ne_exited e = cc

-- A consumer with a round left has a step, if both semaphores hold enough.
consumer_steps :
    (c_num j : ℕ) (s : Shop) (pc : ConsumerPc)
    → IsClean s
    → s.supplier ≡ left
    → 2 ≤ s.sem 0
    → 2 ≤ s.sem 1
    → j < c_num
    → s.consumer j ≡ pc
    → 0 < rounds_of pc
    → (u : Shop) × Step c_num s u
consumer_steps c_num j s (waiting zero) clean p h0 h1 lt e some_left = absurd (omega arith)
consumer_steps c_num j s (waiting (suc r)) clean p h0 h1 lt e some_left =
    (_, by_consumer (consumer_set j r (λ x. left-ne_exited (sym p ∙ x)) lt e))
consumer_steps c_num j s (half_set r) clean p h0 h1 lt e some_left =
    (_, by_consumer (consumer_set_other j r (λ x. left-ne_exited (sym p ∙ x)) lt e))
consumer_steps c_num j s (both_set r) clean p h0 h1 lt e some_left =
    (_, by_consumer (consumer_call j r (λ x. left-ne_exited (sym p ∙ x)) lt e))
consumer_steps c_num j s (in_semop r op other) clean p h0 h1 lt e some_left =
    let own = clean.consumers j r op other e in
    (
      _,
      by_consumer (
          consume j r (s.sem 0 - 2) (s.sem 1 - 2) op other (λ x. left-ne_exited (sym p ∙ x)) lt e
            (semop-takes op (s.sem 0) own.0 h0) (semop-takes other (s.sem 1) own.1 h1)),
    )

Running-GoesOn :
    (c_num n : ℕ) (file : List ℕ) (s : Shop) (pc : SupplierPc)
    → Running c_num n file s
    → IsClean s
    → c_num * n ≤ amount 0 file
    → c_num * n ≤ amount 1 file
    → s.supplier ≡ pc
    → Resting pc s.file
    → GoesOn c_num n s
Running-GoesOn c_num n file s reading h clean ones twos p rests =
    inl (supplier_reads c_num s s.file p refl h.chars)
Running-GoesOn c_num n file s (first_set k) h clean ones twos p rests =
    inl (_, by_supplier (set_first k p))
Running-GoesOn c_num n file s (first_call k) h clean ones twos p rests =
    inl (_, by_supplier (call_first k p))
Running-GoesOn c_num n file s (first_semop k op) h clean ones twos p rests = inl (
  _,
  by_supplier (post_first k (s.sem k + 1) op p (semop-posts op (s.sem k) (clean.first k op p))),
)
Running-GoesOn c_num n file s (second_set k) h clean ones twos p rests =
    inl (_, by_supplier (set_second k p))
Running-GoesOn c_num n file s (second_call k) h clean ones twos p rests =
    inl (_, by_supplier (call_second k p))
Running-GoesOn c_num n file s (second_semop k op) h clean ones twos p rests = inl (
  _,
  by_supplier (post_second k (s.sem k + 1) op p (semop-posts op (s.sem k) (clean.second k op p))),
)
Running-GoesOn c_num n file s exited h clean ones twos p rests = absurd rests
Running-GoesOn c_num n file s left h clean ones twos p rests =
    by_rounds (total c_num (λ j. rounds_of (s.consumer j))) refl
  where
    by_rounds : (r : ℕ) → total c_num (λ j. rounds_of (s.consumer j)) ≡ r → GoesOn c_num n s
    by_rounds zero e = inr (omega (arith, h.rounds), p)
    by_rounds (suc r) e =
        let j = total-positive c_num (λ j. rounds_of (s.consumer j)) (omega arith) in
        let b0 = rw (p, rests) at h.ones in
        let b1 = rw (p, rests) at h.twos in
        inl (
          consumer_steps c_num j.0 s (s.consumer j.0) clean p (omega (arith, b0, h.rounds))
            (omega (arith, b1, h.rounds)) j.1 refl j.2)

-- In a run without the race, of a file of '1' and '2' that holds at least as many of each as the
-- consumers have rounds, however the threads interleave: there are at most seven steps for each character,
-- one for the end of the file and four for each round, and in every state either some thread has a step
-- or all rounds are consumed and the supplier has left.
pub CleanSteps-GoesOn :
    (c_num n : ℕ) (file : List ℕ) {m : ℕ} {t : Shop}
    → All IsKind file
    → c_num * n ≤ amount 0 file
    → c_num * n ≤ amount 1 file
    → CleanSteps c_num (init file n) m t
    → (m ≤ 7 * length file + 1 + c_num * (4 * n)) × GoesOn c_num n t
CleanSteps-GoesOn c_num n file {t = t} chars ones twos r =
    let p = CleanSteps-Running c_num n file chars r in
    (omega (arith, p.2), Running-GoesOn c_num n file t t.supplier p.0 p.1 ones twos refl p.0.rests)

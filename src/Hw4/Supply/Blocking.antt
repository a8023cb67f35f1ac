-- ===== src/Hw4/Supply/Blocking.antt =====
-- The race on `sembuf` in Hw4/src/main.c: a consumer's store between the supplier's store and its
-- `semop` turns the delivery into a wait.
use cse_344_system_programmi.Base.{
  ℕ, suc, ◌<◌, ◌≡◌, ◌≢◌, ◌∙◌, refl, sym, ap, some, List, ◌∷◌, arith, Bool-cases, inl, inr, ◌==◌,
}
use cse_344_system_programmi.Base.Totals.{at}
use cse_344_system_programmi.Base.Int.{ℤ, pos, negsuc}
use cse_344_system_programmi.Hw4.Supply.{
  kind_of, reading, first_set, first_call, first_semop, second_set, second_call, second_semop,
  exited, ConsumerPc, waiting, half_set, both_set, in_semop, Shop, minus_two, semop, init,
  SupplierStep, ConsumerStep, Step, by_supplier, by_consumer, read_char, read_newline, read_end,
  read_unknown, set_first, call_first, post_first, set_second, call_second, post_second,
  consumer_set, consumer_set_other, consumer_call, consume, Steps, still, more,
}

-- The supplier waits in a `semop` that takes two.
pub record Blocked (s : Shop) : Type 0 where
  pub supplier : s.supplier ≡ first_semop 0 minus_two
  pub empty : s.sem 0 ≡ 0
  pub unfed : s.consumed ≡ 0
  pub takes : s.sem_op 0 ≡ minus_two
  pub callers : (j r : ℕ) (op other : ℤ) → s.consumer j ≡ in_semop r op other → op ≡ minus_two

semop-minus_two : (op : ℤ) (n m : ℕ) → op ≡ minus_two → n ≡ 0 → semop op n ≢ some m
unfolding semop
semop-minus_two (pos k) n m e z h = pos-ne_negsuc e
  where
    pos-ne_negsuc : {a b : ℕ} → pos a ≢ negsuc b
    pos-ne_negsuc e = cc
semop-minus_two (negsuc k) n m e z h = ground arith

-- A consumer moves to `q`, which is in no call, or in one that takes two.
callers-at :
    (f : ℕ → ConsumerPc) (i : ℕ) (q : ConsumerPc)
    → ((j r : ℕ) (op other : ℤ) → f j ≡ in_semop r op other → op ≡ minus_two)
    → ((r : ℕ) (op other : ℤ) → q ≡ in_semop r op other → op ≡ minus_two)
    → (j r : ℕ) (op other : ℤ) → at f i q j ≡ in_semop r op other
    → op ≡ minus_two
callers-at f i q h hq j r op other e = elim (Bool-cases (j == i)) [
  | inl same ↦ let e' = rw same at e in hq r op other e'
  | inr apart ↦ let e' = rw apart at e in h j r op other e'
]

SupplierStep-Blocked : {s t : Shop} → SupplierStep s t → Blocked s → Blocked t
SupplierStep-Blocked (read_char c k rest p f e) h = absurd (off (sym h.supplier ∙ p))
  where
    off : first_semop 0 minus_two ≢ reading
    off e = cc
SupplierStep-Blocked (read_newline rest p f) h = absurd (off (sym h.supplier ∙ p))
  where
    off : first_semop 0 minus_two ≢ reading
    off e = cc
SupplierStep-Blocked (read_end p f) h = absurd (off (sym h.supplier ∙ p))
  where
    off : first_semop 0 minus_two ≢ reading
    off e = cc
SupplierStep-Blocked (read_unknown c rest p f ne e) h = absurd (off (sym h.supplier ∙ p))
  where
    off : first_semop 0 minus_two ≢ reading
    off e = cc
SupplierStep-Blocked (set_first k p) h = absurd (off (sym h.supplier ∙ p))
  where
    off : first_semop 0 minus_two ≢ first_set k
    off e = cc
SupplierStep-Blocked (call_first k p) h = absurd (off (sym h.supplier ∙ p))
  where
    off : first_semop 0 minus_two ≢ first_call k
    off e = cc
SupplierStep-Blocked {s = s} (post_first k v op p e) h =
    let same = sym p ∙ h.supplier in
    absurd (semop-minus_two op (s.sem k) v (operation same) (ap s.sem (place same) ∙ h.empty) e)
  where
    operation : first_semop k op ≡ first_semop 0 minus_two → op ≡ minus_two
    operation e = cc

    place : first_semop k op ≡ first_semop 0 minus_two → k ≡ 0
    place e = cc
SupplierStep-Blocked (set_second k p) h = absurd (off (sym h.supplier ∙ p))
  where
    off : first_semop 0 minus_two ≢ second_set k
    off e = cc
SupplierStep-Blocked (call_second k p) h = absurd (off (sym h.supplier ∙ p))
  where
    off : first_semop 0 minus_two ≢ second_call k
    off e = cc
SupplierStep-Blocked (post_second k v op p e) h = absurd (off (sym h.supplier ∙ p))
  where
    off : first_semop 0 minus_two ≢ second_semop k op
    off e = cc

ConsumerStep-Blocked : {c_num : ℕ} {s t : Shop} → ConsumerStep c_num s t → Blocked s → Blocked t
ConsumerStep-Blocked {s = s} (consumer_set j r on lt p) h = record {
  supplier = h.supplier;
  empty = h.empty;
  unfed = h.unfed;
  takes = refl;
  callers = callers-at s.consumer j (half_set r) h.callers (λ r' op other e. cc);
}
ConsumerStep-Blocked {s = s} (consumer_set_other j r on lt p) h = record {
  supplier = h.supplier;
  empty = h.empty;
  unfed = h.unfed;
  takes = h.takes;
  callers = callers-at s.consumer j (both_set r) h.callers (λ r' op other e. cc);
}
ConsumerStep-Blocked {s = s} (consumer_call j r on lt p) h = record {
  supplier = h.supplier;
  empty = h.empty;
  unfed = h.unfed;
  takes = h.takes;
  callers =
      callers-at s.consumer j (in_semop r (s.sem_op 0) (s.sem_op 1)) h.callers
        (λ r' op other e. (let same : s.sem_op 0 ≡ op = cc in sym same) ∙ h.takes);
}
ConsumerStep-Blocked {s = s} (consume j r v w op other on lt p e f) h =
    absurd (semop-minus_two op (s.sem 0) v (h.callers j r op other p) h.empty e)

Step-Blocked : {c_num : ℕ} {s t : Shop} → Step c_num s t → Blocked s → Blocked t
Step-Blocked (by_supplier st) h = SupplierStep-Blocked st h
Step-Blocked (by_consumer st) h = ConsumerStep-Blocked st h

one-kind : kind_of b'1' ≡ some 0
unfolding kind_of
one-kind = refl

pub Steps-Blocked : {c_num : ℕ} {s t : Shop} → Steps c_num s t → Blocked s → Blocked t
Steps-Blocked still h = h
Steps-Blocked (more r st) h = Step-Blocked st (Steps-Blocked r h)

call-ne_exited : first_call 0 ≢ exited
call-ne_exited e = cc

-- The supplier stored 1, consumer 0 stored -2 over it, and the supplier called `semop`.
abbrev raced : List ℕ → ℕ → Shop
raced file n = record (init file (suc n)) {
  sem_op = at (at (λ k. pos 0) 0 (pos 1)) 0 minus_two;
  supplier = first_semop 0 minus_two;
  consumer = at (λ j. waiting (suc n)) 0 (half_set n);
}

raced-Blocked : (file : List ℕ) (n : ℕ) → Blocked (raced file n)
raced-Blocked file n = record {
  supplier = refl;
  empty = refl;
  unfed = refl;
  takes = refl;
  callers =
      callers-at (λ j. waiting (suc n)) 0 (half_set n) (λ j r op other e. cc) (λ r op other e. cc);
}

-- With a file that begins with '1', at least one consumer and at least one iteration, the threads
-- can reach a state after which, whatever they do, the supplier waits in its first `semop`, which
-- takes two, and nothing is ever consumed.
pub supplier_can_block :
    (c_num n : ℕ) (file : List ℕ)
    → 0 < c_num
    → (s : Shop) × Steps c_num (init (b'1' ∷ file) (suc n)) s
      × ((t : Shop) → Steps c_num s t → (t.supplier ≡ first_semop 0 minus_two) × (t.consumed ≡ 0))
supplier_can_block c_num n file some_consumer = (
  raced file n,
  more
      (more
        (more (more still (by_supplier (read_char b'1' 0 file refl refl one-kind)))
          (by_supplier (set_first 0 refl)))
        (by_consumer (consumer_set 0 n call-ne_exited some_consumer refl)))
      (by_supplier (call_first 0 refl)),
  λ t r. let h = Steps-Blocked r (raced-Blocked file n) in (h.supplier, h.unfed),
)

-- ===== src/Hw4/Supply.antt =====
-- Hw4/src/main.c: `supplier` and `consumer`, interleaved. The array `sembuf` is shared by all threads,
-- so each store to it, each call of `semop`, which copies the operations, and each end of a call, which
-- performs them, is a step of its own. `semop` on a limit of the system, the
-- signal, and the prints are left out.
pub mod Blocking
pub mod Clean
pub mod Counting
pub mod Ends
mod Tests
use cse_344_system_programmi.Base.{
  ℕ, zero, suc, ◌+◌, ◌-◌, ◌<◌, ◌≡◌, Option, none, some, List, [], ◌∷◌, leb, ◌==◌, if◌then◌else◌,
  ◌≢◌,
}
use cse_344_system_programmi.Base.Totals.{at}
use cse_344_system_programmi.Base.Int.{ℤ, pos, negsuc}

-- The semaphore that a character is delivered to.
pub kind_of : ℕ → Option ℕ
kind_of c = if c == b'1' then some 0 else if c == b'2' then some 1 else none

-- Where the supplier stands.
pub data SupplierPc : Type 0 where
  reading : SupplierPc
  first_set second_set : ℕ → SupplierPc  -- before the store, for a semaphore
  first_call second_call : ℕ → SupplierPc  -- before `semop`
  first_semop second_semop : ℕ → ℤ → SupplierPc  -- in `semop`, with the operation that it copied
  left : SupplierPc
  exited : SupplierPc  -- with the whole process

-- Where a consumer stands, with the iterations that it has left.
pub data ConsumerPc : Type 0 where
  waiting : ℕ → ConsumerPc
  half_set : ℕ → ConsumerPc  -- after the store to `sembuf[0]`
  both_set : ℕ → ConsumerPc
  in_semop : ℕ → ℤ → ℤ → ConsumerPc  -- with the operations that it copied

pub record Shop : Type 0 where
  pub file : List ℕ
  pub sem_op : ℕ → ℤ  -- of `sembuf`
  pub sem : ℕ → ℕ
  pub supplier : SupplierPc
  pub consumer : ℕ → ConsumerPc
  pub consumed : ℕ

abbrev pub minus_two : ℤ
minus_two = negsuc 1

-- `semop` on one semaphore: its new value, or none while the call blocks.
pub semop : ℤ → ℕ → Option ℕ
semop (pos zero) v = if v == 0 then some 0 else none
semop (pos (suc n)) v = some (v + suc n)
semop (negsuc n) v = if leb (suc n) v then some (v - suc n) else none

-- A step of the supplier.
pub data SupplierStep (s : Shop) : Shop → Type 0 where
  read_char :
      (c k : ℕ) (rest : List ℕ)
      → s.supplier ≡ reading
      → s.file ≡ c ∷ rest
      → kind_of c ≡ some k
      → SupplierStep s (record s { file = rest; supplier = first_set k })
  read_newline :
      (rest : List ℕ)
      → s.supplier ≡ reading
      → s.file ≡ 10 ∷ rest
      → SupplierStep s (record s { file = rest; supplier = left })
  read_end : s.supplier ≡ reading → s.file ≡ [] → SupplierStep s (record s { supplier = left })
  read_unknown :
      (c : ℕ) (rest : List ℕ)
      → s.supplier ≡ reading
      → s.file ≡ c ∷ rest
      → c ≢ 10
      → kind_of c ≡ none
      → SupplierStep s (record s { file = rest; supplier = exited })
  set_first :
      (k : ℕ)
      → s.supplier ≡ first_set k
      → SupplierStep s (record s { sem_op = at s.sem_op k (pos 1); supplier = first_call k })
  call_first :
      (k : ℕ)
      → s.supplier ≡ first_call k
      → SupplierStep s (record s { supplier = first_semop k (s.sem_op k) })
  post_first :
      (k v : ℕ) (op : ℤ)
      → s.supplier ≡ first_semop k op
      → semop op (s.sem k) ≡ some v
      → SupplierStep s (record s { sem = at s.sem k v; supplier = second_set k })
  set_second :
      (k : ℕ)
      → s.supplier ≡ second_set k
      → SupplierStep s (record s { sem_op = at s.sem_op k (pos 1); supplier = second_call k })
  call_second :
      (k : ℕ)
      → s.supplier ≡ second_call k
      → SupplierStep s (record s { supplier = second_semop k (s.sem_op k) })
  post_second :
      (k v : ℕ) (op : ℤ)
      → s.supplier ≡ second_semop k op
      → semop op (s.sem k) ≡ some v
      → SupplierStep s (record s { sem = at s.sem k v; supplier = reading })

-- A step of a consumer; there are `c_num` of them.
pub data ConsumerStep (c_num : ℕ) (s : Shop) : Shop → Type 0 where
  consumer_set :
      (j r : ℕ)
      → s.supplier ≢ exited
      → j < c_num
      → s.consumer j ≡ waiting (suc r)
      → ConsumerStep c_num s
          (record s { sem_op = at s.sem_op 0 minus_two; consumer = at s.consumer j (half_set r) })
  consumer_set_other :
      (j r : ℕ)
      → s.supplier ≢ exited
      → j < c_num
      → s.consumer j ≡ half_set r
      → ConsumerStep c_num s
          (record s { sem_op = at s.sem_op 1 minus_two; consumer = at s.consumer j (both_set r) })
  consumer_call :
      (j r : ℕ)
      → s.supplier ≢ exited
      → j < c_num
      → s.consumer j ≡ both_set r
      → ConsumerStep c_num s
          (record s { consumer = at s.consumer j (in_semop r (s.sem_op 0) (s.sem_op 1)) })
  consume :
      (j r v w : ℕ) (op other : ℤ)
      → s.supplier ≢ exited
      → j < c_num
      → s.consumer j ≡ in_semop r op other
      → semop op (s.sem 0) ≡ some v
      → semop other (s.sem 1) ≡ some w
      → ConsumerStep c_num s (record s {
        sem = at (at s.sem 0 v) 1 w;
        consumer = at s.consumer j (waiting r);
        consumed = s.consumed + 1;
      })

pub data Step (c_num : ℕ) (s : Shop) : Shop → Type 0 where
  by_supplier : {t : Shop} → SupplierStep s t → Step c_num s t
  by_consumer : {t : Shop} → ConsumerStep c_num s t → Step c_num s t

-- The start of `main`, with `n` iterations for each consumer.
abbrev pub init : List ℕ → ℕ → Shop
init file n = record {
  file = file;
  sem_op = λ k. pos 0;
  sem = λ k. 0;
  supplier = reading;
  consumer = λ j. waiting n;
  consumed = 0;
}

pub data Steps (c_num : ℕ) (s : Shop) : Shop → Type 0 where
  still : Steps c_num s s
  more : {t u : Shop} → Steps c_num s t → Step c_num t u → Steps c_num s u

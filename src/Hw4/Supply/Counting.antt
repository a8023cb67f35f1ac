-- ===== src/Hw4/Supply/Counting.antt =====
-- What is delivered and consumed in the runs of Hw4/src/main.c.
use cse_344_system_programmi.Base.{
  ℕ, zero, suc, ◌+◌, ◌*◌, ◌<◌, ◌≡◌, ◌⊎◌, inl, inr, Bool-cases, ltb, ltb→lt, some, List, [], ◌∷◌,
  ◌==◌, if◌then◌else◌, arith,
}
use cse_344_system_programmi.Base.Totals.{total}
use cse_344_system_programmi.Hw4.Supply.{
  kind_of, SupplierPc, reading, first_set, first_call, first_semop, second_set, second_call,
  second_semop, left, exited, ConsumerPc, waiting, half_set, both_set, in_semop, Shop,
}

-- How many characters for semaphore `k` there are: '1' for 0, '2' for 1.
abbrev pub amount : ℕ → List ℕ → ℕ
amount k [] = 0
amount k (c ∷ cs) = (if c == 49 + k then 1 else 0) + amount k cs

-- The posts that are due for the character that the supplier has read.
abbrev pub due : SupplierPc → ℕ → ℕ
due (first_set i) k = if i == k then 2 else 0
due (first_call i) k = if i == k then 2 else 0
due (first_semop i op) k = if i == k then 2 else 0
due (second_set i) k = if i == k then 1 else 0
due (second_call i) k = if i == k then 1 else 0
due (second_semop i op) k = if i == k then 1 else 0
due reading k = 0
due left k = 0
due exited k = 0

-- For semaphore `k`: what it holds, what was consumed, and what is still to come.
abbrev pub Balanced : List ℕ → Shop → ℕ → Type 0
Balanced file s k =
    s.sem k + 2 * s.consumed + due s.supplier k + 2 * amount k s.file ≡ 2 * amount k file

pub kind_of-cases : (c k : ℕ) → kind_of c ≡ some k → ((k ≡ 0) × (c ≡ 49)) ⊎ ((k ≡ 1) × (c ≡ 50))
unfolding kind_of
kind_of-cases c k e = ground arith

-- The rounds that a consumer has left, and its steps.
abbrev pub rounds_of : ConsumerPc → ℕ
rounds_of (waiting r) = r
rounds_of (half_set r) = suc r
rounds_of (both_set r) = suc r
rounds_of (in_semop r op other) = suc r

abbrev pub steps_of : ConsumerPc → ℕ
steps_of (waiting r) = 4 * r
steps_of (half_set r) = 4 * r + 3
steps_of (both_set r) = 4 * r + 2
steps_of (in_semop r op other) = 4 * r + 1

-- The steps that are left to the supplier for what it has in hand.
abbrev pub hand : SupplierPc → ℕ
hand reading = 1
hand (first_set k) = 7
hand (first_call k) = 6
hand (first_semop k op) = 5
hand (second_set k) = 4
hand (second_call k) = 3
hand (second_semop k op) = 2
hand left = 0
hand exited = 0

-- A sum that is not 0 has a summand that is not.
pub total-positive : (n : ℕ) (f : ℕ → ℕ) → 0 < total n f → (j : ℕ) × (j < n) × (0 < f j)
total-positive zero f h = absurd (omega arith)
total-positive (suc n) f h = elim (Bool-cases (ltb 0 (f n))) [
  | inl here ↦ (n, omega arith, ltb→lt 0 (f n) here)
  | inr empty ↦
      let p = total-positive n f (ground (arith, empty, h)) in (p.0, omega (arith, p.1), p.2)
]

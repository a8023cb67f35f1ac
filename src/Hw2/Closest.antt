-- ===== src/Hw2/Closest.antt =====
-- Hw2/src/main.c: the search for the two matrices that are closest, with the Matrix of vector.h. What
-- the code computes in `double` is a parameter. The two indices that `main` passes are not initialised.
pub mod First
mod Tests
use cse_344_system_programmi.Base.{
  ℕ, zero, suc, ◌+◌, ◌-◌, Bool, Option, none, some, if◌then◌else◌, ◌==◌,
}

-- `double`, with the first `min`, 9999999999999.999.
pub record Double (D : Type 0) : Type 0 where
  pub add : D → D → D
  pub sub : D → D → D
  pub pow : D → ℕ → D
  pub sqrt : D → D
  pub fabs : D → D
  pub lt : D → D → Bool
  pub zero_d : D
  pub first_min : D

pub record Matrix (D : Type 0) : Type 0 where
  pub matrix : ℕ → ℕ → D

abbrev pub vector_size : ℕ
vector_size = 3

-- The variables of the search: `none` is an index that nothing has been written to.
pub record Closest (D : Type 0) : Type 0 where
  pub min : D
  pub index1 : Option ℕ
  pub index2 : Option ℕ

module _ {D : Type 0} ⦃d : Double D⦄ where
  -- The loop over `j`, by the rounds left.
  pub sum_row : Matrix D → (i : ℕ) (rounds j : ℕ) (sum : D) → D
  sum_row m i zero j sum = sum
  sum_row m i (suc rounds) j sum = sum_row m i rounds (j + 1) (d.add sum (d.pow (m.matrix i j) 2))

  -- The loop over `i`.
  pub sum_rows : Matrix D → (rounds i : ℕ) (sum : D) → D
  sum_rows m zero i sum = sum
  sum_rows m (suc rounds) i sum = sum_rows m rounds (i + 1) (sum_row m i vector_size 0 sum)

  pub calculate_frobenius : Matrix D → D
  calculate_frobenius m = d.sqrt (sum_rows m vector_size 0 d.zero_d)

  abbrev pub distance : (matrix : ℕ → Matrix D) → (i j : ℕ) → D
  distance matrix i j =
      d.fabs (d.sub (calculate_frobenius (matrix i)) (calculate_frobenius (matrix j)))

  -- The body of the loops.
  pub compare_matrices : (matrix : ℕ → Matrix D) → (i j : ℕ) → Closest D → Closest D
  compare_matrices matrix i j s =
      if i == j
      then s
      else if d.lt (distance matrix i j) s.min
      then record { min = distance matrix i j; index1 = some i; index2 = some j }
      else s

  pub compare_row : (matrix : ℕ → Matrix D) → (i : ℕ) (rounds j : ℕ) → Closest D → Closest D
  compare_row matrix i zero j s = s
  compare_row matrix i (suc rounds) j s =
      compare_row matrix i rounds (j + 1) (compare_matrices matrix i j s)

  pub compare_rows : (matrix : ℕ → Matrix D) (size : ℕ) → (rounds i : ℕ) → Closest D → Closest D
  compare_rows matrix size zero i s = s
  compare_rows matrix size (suc rounds) i s =
      compare_rows matrix size rounds (i + 1) (compare_row matrix i (size - i) i s)

  abbrev pub nothing_found : Closest D
  nothing_found = record { min = d.first_min; index1 = none; index2 = none }

  pub closest_matrices : (matrix : ℕ → Matrix D) (size : ℕ) → Closest D
  closest_matrices matrix size = compare_rows matrix size size 0 nothing_found

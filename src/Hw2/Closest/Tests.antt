-- ===== src/Hw2/Closest/Tests.antt =====
-- The search of Hw2 among three matrices, over numbers in place of `double`.
use cse_344_system_programmi.Base.{ℕ, zero, suc, ◌+◌, ◌-◌, ◌*◌, ◌≡◌, refl, ltb, arith, some, none}
use cse_344_system_programmi.Hw2.Closest.{
  Double, Matrix, closest_matrices, calculate_frobenius, compare_rows, compare_row,
  compare_matrices, sum_rows, sum_row,
}
use cse_344_system_programmi.Hw2.Closest.First.{IsOrder, IsClosest, closest_matrices-IsClosest}

-- The root is left out: the norms are squared.
instance numbers : Double ℕ
numbers = record {
  add = λ a b. a + b;
  sub = λ a b. (a - b) + (b - a);
  pow = λ a n. a * a;
  sqrt = λ a. a;
  fabs = λ a. a;
  lt = ltb;
  zero_d = 0;
  first_min = 1000;
}

numbers-IsOrder : IsOrder numbers
unfolding numbers
numbers-IsOrder = record {
  irrefl = λ x. ground arith;
  trans = λ x y z lt lt'. ground (arith, lt, lt');
}

abbrev filled_with : ℕ → Matrix ℕ
filled_with v = record { matrix = λ i j. v }

abbrev three_matrices : ℕ → Matrix ℕ
three_matrices zero = filled_with 1
three_matrices (suc zero) = filled_with 5
three_matrices (suc (suc i)) = filled_with 6

closest_run :
    closest_matrices three_matrices 3 ≡ record { min = 99; index1 = some 1; index2 = some 2 }
unfolding closest_matrices compare_rows compare_row compare_matrices numbers calculate_frobenius
    sum_rows sum_row
closest_run = refl

-- With one matrix nothing is written to the indices.
one_matrix_run :
    closest_matrices three_matrices 1 ≡ record { min = 1000; index1 = none; index2 = none }
unfolding closest_matrices compare_rows compare_row compare_matrices numbers
one_matrix_run = refl

closest_matrices-IsClosest_example :
    IsClosest three_matrices 3 3 3 (closest_matrices three_matrices 3)
closest_matrices-IsClosest_example = closest_matrices-IsClosest numbers-IsOrder three_matrices 3

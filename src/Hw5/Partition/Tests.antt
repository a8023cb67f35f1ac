-- ===== src/Hw5/Partition/Tests.antt =====
-- Divisions of the rows that Hw5/src/main.c makes.
use cse_344_system_programmi.Base.{◌*◌, ◌^◌, ◌≡◌, refl, arith}
use cse_344_system_programmi.Hw5.Partition.{row_bound, reciprocal, round_double, round_div, digits}
use cse_344_system_programmi.Hw5.Partition.PowerOfTwo.{row_bound-exact}

row_bound-exact_example : row_bound 4 (2 ^ 3) 5 ≡ 5 * 2 ^ 1
row_bound-exact_example = row_bound-exact 4 3 5 (omega arith) (omega arith)

-- Six threads share sixteen rows unevenly.
six_threads : row_bound 4 6 1 ≡ 2
unfolding row_bound reciprocal round_double round_div digits
six_threads = refl

-- With 98 threads the last of four rows is in no thread's range: 98 * (4 / 98) is below 4.
last_row_lost : row_bound 2 98 98 ≡ 3
unfolding row_bound reciprocal round_double round_div digits
last_row_lost = refl

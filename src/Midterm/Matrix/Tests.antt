-- ===== src/Midterm/Matrix/Tests.antt =====
-- Runs of the matrix test.
use cse_344_system_programmi.Base.{ℕ, ◌+◌, ◌≡◌, refl, some, List, [], ◌∷◌, get_or}
use cse_344_system_programmi.Base.Int.{ℤ, pos, negsuc, ◌+ℤ◌, ◌-ℤ◌, ◌*ℤ◌}
use cse_344_system_programmi.Base.Machine.{wrap}
use cse_344_system_programmi.Midterm.Matrix.{
  Rows, find_co_factor, copy_entry, copy_cols, copy_rows, expand, get_determinant,
}
use cse_344_system_programmi.Midterm.Matrix.Determinant.{det, get_determinant-det}

abbrev junk : Rows
junk r c = pos 99

abbrev of_list : List ℤ → ℕ → ℤ
of_list xs i = get_or xs i (pos 0)

-- 1 2, 3 4
abbrev full : Rows
full r c = of_list (pos 1 ∷ pos 2 ∷ pos 3 ∷ pos 4 ∷ []) (r + r + c)

determinant_run : get_determinant junk 2 full ≡ some (negsuc 1)
unfolding get_determinant expand find_co_factor copy_rows copy_cols copy_entry wrap ◌+ℤ◌ ◌-ℤ◌ ◌*ℤ◌
determinant_run = refl

get_determinant-det_example : get_determinant junk 2 full ≡ some (wrap (det 2 full))
get_determinant-det_example = get_determinant-det junk full 1

-- 65536 0, 0 65536: the determinant is 2 ^ 32, and what is returned is 0.
abbrev large : Rows
large r c = of_list (pos 65536 ∷ pos 0 ∷ pos 0 ∷ pos 65536 ∷ []) (r + r + c)

overflow_run : get_determinant junk 2 large ≡ some (pos 0)
unfolding get_determinant expand find_co_factor copy_rows copy_cols copy_entry wrap ◌+ℤ◌ ◌-ℤ◌ ◌*ℤ◌
overflow_run = refl

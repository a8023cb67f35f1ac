-- ===== src/Midterm/Matrix/Answer.antt =====
-- What the matrix test of Midterm/src/matrix_math.h answers.
use cse_344_system_programmi.Base.{
  suc, ◌+◌, ◌-◌, ◌*◌, ◌<◌, ◌≡◌, not, none, some, if◌then◌else◌, ltb, arith,
}
use cse_344_system_programmi.Base.Int.{pos, eqb_ℤ}
use cse_344_system_programmi.Base.Machine.{wrap}
use cse_344_system_programmi.Midterm.Matrix.{
  Rows, Matrix, temp_rows, is_matrix_invertible, is_matrix_invert, is_invertable,
}
use cse_344_system_programmi.Midterm.Matrix.Determinant.{det, get_determinant-det}

-- The matrix that the array stands for, row by row.
abbrev pub rows_of : Matrix → Rows
rows_of m i j = m.array (i * m.size + j)

-- For a matrix of one to twenty rows the answer is whether the determinant is not 0
-- modulo 2 ^ 32; on a larger one the test writes behind the rows that it has room for.
pub is_invertable-det :
    (junk : Rows) (m : Matrix)
    → 0 < m.size
    → is_invertable junk m ≡ (
        if ltb temp_rows m.size
        then none
        else some (not (eqb_ℤ (wrap (det m.size (rows_of m))) (pos 0))))
unfolding is_invertable is_matrix_invert is_matrix_invertible
is_invertable-det junk m h =
    let e : suc (m.size - 1) ≡ m.size = omega arith in
    let d = get_determinant-det junk (rows_of m) (m.size - 1) in
    let d' = rw e at d in ground (arith, d')

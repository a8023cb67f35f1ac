-- ===== src/Midterm/Matrix.antt =====
-- Midterm/src/matrix_math.h: the determinant by cofactors, in `int` of 32 bits: each operation
-- is wrapped where its result leaves the range. An array of rows is a function of row and column; what fresh memory holds is the
-- parameter `junk`. `none` is a write behind the twenty rows that `temp` has room for.
pub mod Minor
pub mod Determinant
pub mod Answer
mod Tests
use cse_344_system_programmi.Base.{
  ℕ, zero, suc, ◌+◌, ◌-◌, ◌*◌, Bool, true, false, not, ◌&&◌, Option, none, some, if◌then◌else◌, ltb,
  ◌==◌,
}
use cse_344_system_programmi.Base.Machine.{wrap}
use cse_344_system_programmi.Base.Int.{ℤ, pos, ◌+ℤ◌, ◌-ℤ◌, ◌*ℤ◌, eqb_ℤ}

abbrev pub Rows : Type 0
Rows = ℕ → ℕ → ℤ

-- `mat2[i][j] = v`
abbrev pub store : Rows → ℕ → ℕ → ℤ → Rows
store m i j v r c = if r == i && c == j then v else m r c

-- The variables of `findCoFactor` that change.
pub record Cursor : Type 0 where
  pub i : ℕ
  pub j : ℕ
  pub mat2 : Rows

-- The body of the two loops, for one `row` and `col`.
pub copy_entry : (mat : Rows) (p q n row col : ℕ) → Cursor → Cursor
copy_entry mat p q n row col s =
    if not (row == p) && not (col == q)
    then (if s.j + 1 == n - 1
        then record { i = s.i + 1; j = 0; mat2 = store s.mat2 s.i s.j (mat row col) }
        else record { i = s.i; j = s.j + 1; mat2 = store s.mat2 s.i s.j (mat row col) })
    else s

-- for (col = 0; col < n; col++), by the rounds left.
pub copy_cols : (mat : Rows) (p q n row : ℕ) → (rounds col : ℕ) → Cursor → Cursor
copy_cols mat p q n row zero col s = s
copy_cols mat p q n row (suc rounds) col s =
    copy_cols mat p q n row rounds (col + 1) (copy_entry mat p q n row col s)

-- for (row = 0; row < n; row++)
pub copy_rows : (mat : Rows) (p q n : ℕ) → (rounds row : ℕ) → Cursor → Cursor
copy_rows mat p q n zero row s = s
copy_rows mat p q n (suc rounds) row s =
    copy_rows mat p q n rounds (row + 1) (copy_cols mat p q n row n 0 s)

pub find_co_factor : (mat mat2 : Rows) (p q n : ℕ) → Rows
find_co_factor mat mat2 p q n =
    (copy_rows mat p q n n 0 (record { i = 0; j = 0; mat2 = mat2 })).mat2

abbrev pub temp_rows : ℕ
temp_rows = 20

-- for (f = 0; f < n; f++): `sub` is `getDeterminant` for n - 1.
pub expand :
    (sub : Rows → Option ℤ) (mat : Rows) (n : ℕ)
    → (rounds f : ℕ) (determinant sign : ℤ) (temp : Rows) → Option ℤ
expand sub mat n zero f determinant sign temp = some determinant
expand sub mat n (suc rounds) f determinant sign temp =
    let temp' = find_co_factor mat temp 0 f n in
    elim (sub temp') [
      | none ↦ none
      | some d ↦
          expand sub mat n rounds (f + 1) (wrap (determinant +ℤ wrap (wrap (sign *ℤ mat 0 f) *ℤ d)))
            (wrap (pos 0 -ℤ sign)) temp'
    ]

-- The entry that is returned for one row is an `int` already.
pub get_determinant : (junk : Rows) → ℕ → Rows → Option ℤ
get_determinant junk zero mat = some (pos 0)
get_determinant junk (suc zero) mat = some (wrap (mat 0 0))
get_determinant junk (suc (suc k)) mat =
    let sum =
      expand (get_determinant junk (suc k)) mat (suc (suc k)) (suc (suc k)) 0 (pos 0) (pos 1)
        junk in
    if ltb temp_rows (suc (suc k)) then none else sum

-- 1 and 0 are `true` and `false`. The rows are freed afterwards.
pub is_matrix_invertible : (junk : Rows) → Rows → ℕ → Option Bool
is_matrix_invertible junk mat n = elim (get_determinant junk n mat) [
  | none ↦ none
  | some d ↦ some (not (eqb_ℤ d (pos 0)))
]

-- The array is copied row by row.
pub is_matrix_invert : (junk : Rows) → (ℕ → ℤ) → ℕ → Option Bool
is_matrix_invert junk arr size = is_matrix_invertible junk (λ i j. arr (i * size + j)) size

-- `struct Matrix` of structs.h; the array has 4096 entries.
pub record Matrix : Type 0 where
  pub array : ℕ → ℤ
  pub size : ℕ

pub is_invertable : (junk : Rows) → Matrix → Option Bool
is_invertable junk matrix = is_matrix_invert junk matrix.array matrix.size

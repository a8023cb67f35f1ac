-- ===== src/Hw2/Results/Tests.antt =====
-- The results of Hw2: two rows, where the second number is shorter than the first.
use cse_344_system_programmi.Base.{ℕ, ◌≡◌, refl, List, [], ◌∷◌, some, length, All, arith}
use cse_344_system_programmi.Base.Text.{Str, codes}
use cse_344_system_programmi.Hw2.Results.{Reader, read_matrices}
use cse_344_system_programmi.Hw2.Results.Numbers.{IsNumber, IsRow, held_after, file_of}
use cse_344_system_programmi.Hw2.Results.Rows.{RowsPut, read_matrices-numbers}

abbrev long : Str
long = codes "12.345678"

abbrev short : Str
short = codes "1.500000"

abbrev rows : List (List Str)
rows = (long ∷ short ∷ []) ∷ (short ∷ []) ∷ []

long-IsNumber : IsNumber long
long-IsNumber = record { fits = omega arith; digits = ground arith }

short-IsNumber : IsNumber short
short-IsNumber = record { fits = omega arith; digits = ground arith }

rows-IsRow : All IsRow rows
rows-IsRow = (
  record { nine = omega arith; numbers = (long-IsNumber, (short-IsNumber, tt)) },
  (record { nine = omega arith; numbers = (short-IsNumber, tt) }, tt),
)

-- The last digit of the longer number is read as one more digit of the shorter one.
short_run : held_after [] (long ∷ short ∷ []) ≡ codes "1.5000008"
short_run = refl

abbrev no_matrices : ℕ → ℕ → ℕ → Str
no_matrices m i j = []

read_matrices-numbers_example :
    (t : Reader Str) × (read_matrices (λ s. s) 2 (file_of rows) no_matrices ≡ some t)
    × (t.m_index ≡ length rows)
    × RowsPut (λ s. s) [] rows 0 no_matrices t.matrix
read_matrices-numbers_example =
    read_matrices-numbers (λ s. s) 2 rows no_matrices rows-IsRow (omega arith)

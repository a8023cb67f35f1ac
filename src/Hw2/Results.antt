-- ===== src/Hw2/Results.antt =====
-- The file of results of Hw2/src: `write_file` of child.c writes a line, `read_matrices` of main.c
-- reads the lines. `sscanf` is a parameter. `none` is an access outside an array, or a string in
-- `num` that does not end. Interrupted and failing system calls are left out.
pub mod Numbers
pub mod Rows
mod Tests
use cse_344_system_programmi.Base.{
  ℕ, zero, suc, ◌+◌, ◌/◌, ◌%◌, ◌&&◌, Option, none, some, List, [], ◌∷◌, ◌++◌, set, replicate, ltb,
  if◌then◌else◌, ◌==◌,
}
use cse_344_system_programmi.Base.Text.{Str}

abbrev pub num_str_length : ℕ
num_str_length = 20

-- What a child writes, for the strings of `stringMatrix`.
pub write_file : (string_matrix : List Str) → Str
write_file [] = b'\n' ∷ []
write_file (s ∷ rest) = s ++ b',' ∷ write_file rest

-- The bytes of the string in an array; `none` without a NUL.
pub string_in : List ℕ → Option Str
string_in [] = none
string_in (c ∷ bytes) =
    let more = string_in bytes in
    if c == 0 then some [] else elim more [ none ↦ none | some s ↦ some (c ∷ s) ]

-- The variables of `read_matrices`, with the bytes of `num` and the matrices.
pub record Reader (D : Type 0) : Type 0 where
  pub num : List ℕ
  pub index : ℕ
  pub m_index : ℕ
  pub mat_loc : ℕ
  pub matrix : ℕ → ℕ → ℕ → D

module _ {D : Type 0} where
  abbrev pub put : (ℕ → ℕ → ℕ → D) → (m i j : ℕ) → D → ℕ → ℕ → ℕ → D
  put matrix m i j v m' i' j' = if m' == m && (i' == i && j' == j) then v else matrix m' i' j'

module _ {D : Type 0} (sscanf : Str → D) (size : ℕ) where
  -- if (ch == ',')
  pub store_number : Reader D → Option (Reader D)
  store_number s = elim (string_in s.num) [
    | none ↦ none
    | some text ↦
        if ltb s.m_index size && ltb s.mat_loc 9
        then some (record s {
          matrix = put s.matrix s.m_index (s.mat_loc / 3) (s.mat_loc % 3) (sscanf text);
          index = 0;
          mat_loc = s.mat_loc + 1;
        })
        else none
  ]

  -- The body of the loop.
  pub read_char : (ch : ℕ) → Reader D → Option (Reader D)
  read_char ch s =
      if ch == b'\n'
      then some (record s { mat_loc = 0; m_index = s.m_index + 1 })
      else if ch == b','
      then store_number s
      else if ltb s.index num_str_length
      then some (record s { num = set s.num s.index ch; index = s.index + 1 })
      else none

  -- for ( ; ; ), by the bytes of the file.
  pub read_chars : (file : Str) → Reader D → Option (Reader D)
  read_chars [] s = some s
  read_chars (ch ∷ file) s = elim (read_char ch s) [ none ↦ none | some t ↦ read_chars file t ]

  -- `size` matrices, which hold `matrix` before.
  pub read_matrices : (file : Str) → (matrix : ℕ → ℕ → ℕ → D) → Option (Reader D)
  read_matrices file matrix = read_chars file (record {
    num = replicate num_str_length 0;
    index = 0;
    m_index = 0;
    mat_loc = 0;
    matrix = matrix;
  })

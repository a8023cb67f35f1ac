-- ===== src/Hw1/File/Tests.antt =====
-- A file of one line and a part without a newline, of Hw1/src/lib.c.
use cse_344_system_programmi.Base.{
  ℕ, replicate, ◌<◌, ◌≤◌, ◌≡◌, refl, some, List, [], ◌∷◌, ◌++◌, arith,
}
use cse_344_system_programmi.Base.Text.{Str, codes}
use cse_344_system_programmi.Hw1.Replace.{ReplaceWord}
use cse_344_system_programmi.Hw1.Replace.Samples.{an_to_the, run, alnum_a, alnum_n}
use cse_344_system_programmi.Hw1.File.{apply_rules, read_from_file}
use cse_344_system_programmi.Hw1.File.Lines.{IsLine, text_of, results_of, read_from_file-lines}

abbrev rules : List ReplaceWord
rules = an_to_the ∷ []

abbrev line : Str × Str
line = (codes "an Ant", codes "the thet\n")

-- What the array holds at first: a NUL stands behind the line.
abbrev stack : List ℕ
stack = replicate 9 0

first_line : apply_rules 9 3 rules (codes "an Ant\n") [] ≡ some (codes "the thet\n")
unfolding apply_rules
first_line = rw (apply_rules, run) refl

line-IsLine : IsLine 9 3 rules stack line
line-IsLine = record {
  no_break =
      (omega arith, (omega arith, (omega arith, (omega arith, (omega arith, (omega arith, tt))))));
  fits = omega arith;
  becomes = first_line;
}

-- The line "bye" has no newline: it is lost, with "t" and the newline before it.
read_from_file-lines_example :
    (codes "bye" ≡ []
      → read_from_file 2 9 3 stack (text_of (line ∷ []) ++ codes "bye") rules
        ≡ some (results_of (line ∷ [])))
    × (0 < 3
        → 2 ≤ 9
        → read_from_file 2 9 3 stack (text_of (line ∷ []) ++ codes "bye") rules
          ≡ some (codes "the the"))
read_from_file-lines_example =
    read_from_file-lines 8 3 rules stack line [] (codes "bye") ((alnum_a, (alnum_n, tt)), tt)
      line-IsLine tt (omega arith, (omega arith, (omega arith, tt))) (omega arith)

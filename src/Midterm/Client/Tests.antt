-- ===== src/Midterm/Client/Tests.antt =====
-- A file of Midterm/src/client.c.
use cse_344_system_programmi.Base.{
  ℕ, ◌+◌, ◌≡◌, inl, inr, refl, some, List, [], ◌∷◌, ◌++◌, get_elem?, arith,
}
use cse_344_system_programmi.Base.Text.{Str, value_from, codes}
use cse_344_system_programmi.Base.Int.{pos}
use cse_344_system_programmi.Base.Machine.{wrap}
use cse_344_system_programmi.Midterm.Client.{Reader, init, read_bytes}
use cse_344_system_programmi.Midterm.Client.Reading.{spell, newlines, read_bytes-spell}

-- 12,3 over 0,45
abbrev words : List (ℕ × Str)
words = (44, codes "3") ∷ (10, codes "0") ∷ (44, codes "45") ∷ []

read_bytes-spell_example :
    (t : Reader) × (read_bytes (codes "12" ++ spell words) init ≡ some t)
    × (t.line_num ≡ newlines words + 1)
    × (t.buffer_i 0 ≡ wrap (pos (value_from 0 (codes "12"))))
    × ((k : ℕ) (p : ℕ × Str)
        → get_elem? words k ≡ some p
        → t.buffer_i (k + 1) ≡ wrap (pos (value_from 0 p.1)))
read_bytes-spell_example =
    read_bytes-spell (codes "12") words
      ((omega arith, omega arith), ((omega arith, omega arith), tt))
      (
        (inl refl, ((omega arith, omega arith), tt)),
        (
          (inr refl, ((omega arith, omega arith), tt)),
          ((inl refl, ((omega arith, omega arith), ((omega arith, omega arith), tt))), tt),
        ),
      )
      (omega arith)

-- ===== src/Hw1/File.antt =====
-- Hw1/src/lib.c: `read_from_file`, which applies the rules to each line of a file. Left out: the lock, and
-- errors of system calls. A file has no NUL. The fuel goes to `replace`. `none` is an access outside of an
-- array, or a `replace` without end.
pub mod Lines
mod Tests
use cse_344_system_programmi.Base.{
  ℕ, zero, suc, ◌+◌, ◌-◌, Option, none, some, List, [], ◌∷◌, ◌++◌, length, take, drop,
  if◌then◌else◌, ltb, leb, ◌==◌,
}
use cse_344_system_programmi.Base.Text.{Str, c_str}
use cse_344_system_programmi.Hw1.Replace.{ReplaceWord, replace}

abbrev pub file_byte_size : ℕ
file_byte_size = 4096

abbrev pub buf_size : ℕ
buf_size = 256

abbrev pub line_size : ℕ
line_size = 2048

-- The text with `add` behind it. The text may grow to `file_byte_size` bytes with its NUL: the test for
-- more memory comes after a byte is written behind it.
pub add_pointer : (return_text add : Str) → Option Str
add_pointer return_text add =
    if ltb (length (return_text ++ add)) file_byte_size then some (return_text ++ add) else none

-- The loop over the rules; strcpy(line, res) behind each has room for `line_size` bytes.
pub apply_rules : (fuel word_fuel : ℕ) → List ReplaceWord → (line res : Str) → Option Str
apply_rules fuel word_fuel [] line res = some res
apply_rules fuel word_fuel (rule ∷ rules) line res =
    elim (replace fuel word_fuel line rule file_byte_size) [
      | none ↦ none
      | some out ↦
          let more = apply_rules fuel word_fuel rules out out in
          if ltb (length out) line_size then more else none
    ]

-- The bytes of the buffer to its first newline, if it has one.
pub line_of : Str → Option Str
line_of [] = none
line_of (c ∷ s) =
    let more = line_of s in
    if c == b'\n' then some (c ∷ []) else elim more [ none ↦ none | some line ↦ some (c ∷ line) ]

-- Behind the loop, where `line` is not empty: it is cleared before the rules are applied to it, and the
-- last two bytes of the text are cleared.
pub last_line : (fuel word_fuel : ℕ) → List ReplaceWord → (return_text : Str) → Option Str
last_line fuel word_fuel rules return_text = elim (apply_rules fuel word_fuel rules [] []) [
  | none ↦ none
  | some res ↦ elim (add_pointer return_text res) [
    | none ↦ none
    | some text ↦ if ltb (length text) 2 then none else some (take (length text - 2) text)
  ]
]

-- for( ; ; ), by rounds: `file` is what is behind the last line that was read, and `old` what the array
-- `line` holds, which is cleared behind a line (`[]`) but not initialised before the first: what stands
-- behind the newline up to a NUL belongs to the line. A buffer without a newline ends the loop.
pub read_lines :
    (rounds fuel word_fuel : ℕ)
    → List ReplaceWord
    → (old : List ℕ) (file return_text : Str) → Option Str
read_lines zero fuel word_fuel rules old file return_text = none
read_lines (suc rounds) fuel word_fuel rules old file return_text =
    if length file == 0
    then (if length (c_str old) == 0
        then some return_text
        else last_line fuel word_fuel rules return_text)
    else elim (line_of (take buf_size file)) [
      | none ↦ last_line fuel word_fuel rules return_text
      | some line ↦
          elim (apply_rules fuel word_fuel rules (line ++ c_str (drop (length line) old)) []) [
            | none ↦ none
            | some res ↦ elim (add_pointer return_text res) [
              | none ↦ none
              | some text ↦ read_lines rounds fuel word_fuel rules [] (drop (length line) file) text
            ]
          ]
    ]

-- `stack` is what `line` holds at first.
pub read_from_file :
    (rounds fuel word_fuel : ℕ) → (stack : List ℕ) (file : Str) → List ReplaceWord → Option Str
read_from_file rounds fuel word_fuel stack file rules =
    read_lines rounds fuel word_fuel rules stack file []

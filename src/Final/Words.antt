-- ===== src/Final/Words.antt =====
-- Final/src/lib.c, `split_str`, and Final/src/structs.c, `get_date`: the words of a line and the
-- date of a word. `none` is a write behind an array.
pub mod Splitting
pub mod Calendar
mod Tests
use cse_344_system_programmi.Base.{
  ℕ, zero, suc, ◌+◌, ◌<◌, Bool, true, false, ◌&&◌, Option, none, some, List, [], ◌∷◌, ◌++◌, length,
  set, get_or, replicate, ltb, ◌==◌, if◌then◌else◌,
}
use cse_344_system_programmi.Base.Text.{Str, atoi}
use cse_344_system_programmi.Final.Structs.{Date, word_length}

abbrev pub word_number : ℕ
word_number = 5

-- `result`, where each of the words is filled with NULs, `j` and `*split_count`. The index `k` is
-- the length of the word that is being filled.
pub record Split : Type 0 where
  pub result : List Str
  pub j : ℕ
  pub split_count : ℕ

-- `result[j][k] = '\0'; j++; k = 0; (*split_count)++;`
pub close_word : Split → Option Split
close_word w =
    if ltb w.j word_number && ltb (length (get_or w.result w.j [])) word_length
    then some (record w { j = w.j + 1; split_count = w.split_count + 1 })
    else none

-- `result[j][k] = str[i]; k++;`
pub put_byte : Split → ℕ → Option Split
put_byte w c =
    if ltb w.j word_number && ltb (length (get_or w.result w.j [])) word_length
    then some (record w { result = set w.result w.j (get_or w.result w.j [] ++ c ∷ []) })
    else none

abbrev with_mode : Bool → Option Split → Option (Bool × Split)
with_mode skipping none = none
with_mode skipping (some w) = some (skipping, w)

-- One byte of the loop over `str`; `skipping` is the inner loop.
pub split_step : ℕ → Bool → ℕ → Split → Option (Bool × Split)
unfolding close_word put_byte
split_step delim skipping c w =
    if c == delim
    then (if skipping then some (true, w) else with_mode true (close_word w))
    else with_mode false (put_byte w c)

pub split_loop : ℕ → Bool → Str → Split → Option Split
unfolding split_step
split_loop delim skipping [] w = some w
split_loop delim skipping (c ∷ s) w = elim (split_step delim skipping c w) [
  | none ↦ none
  | some (skipping', w') ↦ split_loop delim skipping' s w'
]

-- The words of `str` and the new `*split_count`.
pub split_str : Str → ℕ → ℕ → Option (List Str × ℕ)
unfolding split_loop
split_str str delim split_count =
    elim (split_loop delim false str
      (record { result = replicate word_number []; j = 0; split_count = split_count })) [
        | none ↦ none
        | some w ↦ some (w.result, w.split_count)
      ]

-- The bytes at fixed places. Behind the string the array is taken to hold NULs.
pub get_date : Str → Date
get_date str =
    let day : Str = get_or str 0 0 ∷ get_or str 1 0 ∷ [] in
    let month : Str = get_or str 3 0 ∷ get_or str 4 0 ∷ [] in
    let year : Str = get_or str 6 0 ∷ get_or str 7 0 ∷ get_or str 8 0 ∷ get_or str 9 0 ∷ [] in
    record { day = atoi day; month = atoi month; year = atoi year }

-- ===== src/Hw1/Rules.antt =====
-- Hw1/src/string_manipulation.c and structs.c: the rules of the command line, `/old/new/flags` with `;`
-- between them. Words are allocated without room for a NUL: one that fills its memory is read on into what
-- stands behind it, up to the next NUL. `none` is an access through NULL or past an array of words.
pub mod Parsing
pub mod Spelling
mod Tests
use cse_344_system_programmi.Base.{
  ℕ, zero, suc, ◌+◌, ◌-◌, Bool, true, false, ◌&&◌, ◌||◌, not, Option, none, some, List, [], ◌∷◌,
  ◌++◌, length, take, drop, get_or, get_elem?, if◌then◌else◌, ltb, leb, ◌==◌,
}
use cse_344_system_programmi.Base.Text.{Str}
use cse_344_system_programmi.Hw1.Replace.{ReplaceWord}

pub number_of_characters : Str → ℕ → ℕ
number_of_characters [] c = 0
number_of_characters (x ∷ str) c =
    let more = number_of_characters str c in if x == c then more + 1 else more

-- while (str[i] != '\0'): the words, of which `word` is the one that is being written.
pub words_of : (parser : ℕ) → Str → (word : Str) → List Str
words_of parser [] word = word ∷ []
words_of parser (x ∷ str) word =
    let new_word = words_of parser str [] in
    let same_word = words_of parser str (word ++ x ∷ []) in
    if x == parser then word ∷ new_word else same_word

-- The string in `room` bytes of which the rest is 0: a word that fills them goes on with what is behind.
pub string_of : (room : ℕ) (word behind : Str) → Str
string_of room word behind = if ltb (length word) room then word else word ++ behind

abbrev pub strings_of : (room : ℕ) (behind : Str) → List Str → List Str
strings_of room behind [] = []
strings_of room behind (w ∷ ws) = string_of room w behind ∷ strings_of room behind ws

-- The words before the NULL. The array has `count` places, of which the last becomes NULL.
pub parse_string : (behind : Str) → Str → (parser : ℕ) → Option (List Str)
parse_string behind str parser =
    let count = number_of_characters str parser + (if parser == b';' then 2 else 0) in
    if (count == 0) || ltb count (length (words_of parser str []))
    then none
    else some (strings_of (length str) behind (take (count - 1) (words_of parser str [])))

-- The scan begins at the second byte; the array has a place for each slash and one for the NULL.
pub parse_slash : Str → Option (List Str)
parse_slash [] = none
parse_slash (x ∷ str) = some (take (number_of_characters (x ∷ str) b'/') (words_of b'/' str []))

-- `oldWord`: `parse[0]` less the marks of the start and of the end of a line.
pub without_marks : Str → Str
without_marks [] = []
without_marks (c ∷ s) =
    let more = without_marks s in if not (c == b'^') && not (c == b'$') then c ∷ more else more

-- What stands behind the two words of a rule, when they are read.
pub record Behind : Type 0 where
  pub old : Str
  pub new : Str

pub create_replace_word : Behind → Str → Option ReplaceWord
create_replace_word behind sentence = elim (parse_slash sentence) [
  | some (p0 ∷ (p1 ∷ (p2 ∷ ps))) ↦
      if length p0 == 0
      then none
      else some (record {
        old_word = string_of (length p0) (without_marks p0) behind.old;
        new_word = string_of (length p1) p1 behind.new;
        case_sensetive = get_or p2 0 0 == b'i';
        is_line_start = get_or p0 0 0 == b'^';
        is_end_of_line = get_or p0 (length p0 - 1) 0 == b'$';
      })
  | _ ↦ none
]

abbrev pub max_key_value_pair_size : ℕ
max_key_value_pair_size = 20

-- while (parsed[count] != NULL)
pub create_all : (heap : ℕ → Behind) → (count : ℕ) → List Str → Option (List ReplaceWord)
create_all heap count [] = some []
create_all heap count (sentence ∷ parsed) = elim (create_replace_word (heap count) sentence) [
  | none ↦ none
  | some rule ↦ elim (create_all heap (count + 1) parsed) [
    | none ↦ none
    | some rules ↦ some (rule ∷ rules)
  ]
]

-- `size` is the length of the array, which the code does not look at; `behind` stands behind the one
-- sentence there may be that fills its memory, `heap` behind the words of each rule.
pub get_key_value_pairs :
    (behind : Str) (heap : ℕ → Behind) (size : ℕ) → Str → Option (List ReplaceWord)
get_key_value_pairs behind heap size str = elim (parse_string behind str b';') [
  | none ↦ none
  | some parsed ↦ if ltb size (length parsed) then none else create_all heap 0 parsed
]

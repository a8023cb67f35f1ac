-- ===== src/Hw1/Replace.antt =====
-- Hw1/src/string_manipulation.c: `replace`, which applies a rule to a line. A C string is its bytes
-- before the NUL; behind the NUL of the line and of the words of the rule stand NULs. `none` is a
-- read in front of a word, a write behind `res`, or a loop without end.
pub mod Plain
pub mod Inner
pub mod Rounds
pub mod Scan
pub mod Samples
mod Tests
use cse_344_system_programmi.Base.{
  ℕ, zero, suc, ◌+◌, ◌-◌, Bool, true, false, ◌&&◌, ◌||◌, not, Option, none, some, List, [], ◌∷◌,
  ◌++◌, length, drop, get_or, if◌then◌else◌, ltb, leb, ◌==◌,
}
use cse_344_system_programmi.Base.Text.{Str}

pub record ReplaceWord : Type 0 where
  pub old_word : Str
  pub new_word : Str
  pub case_sensetive : Bool
  pub is_line_start : Bool
  pub is_end_of_line : Bool

pub is_alnum : ℕ → Bool
is_alnum c =
    ((leb b'a' c && leb c b'z') || (leb b'A' c && leb c b'Z')) || (leb b'0' c && leb c b'9')

-- `while (str[i++] != ']')`: what is left behind the bracket; without one it reads on.
pub skip_bracket : Str → Option Str
skip_bracket [] = none
skip_bracket (c ∷ s) = let more = skip_bracket s in if c == b']' then some s else more

-- for (i = 0; i < strlen(str); ++i), by fuel: the byte behind a bracket is looked at in the same round.
pub count_letters : (fuel : ℕ) → Str → Option ℕ
count_letters zero s = some 0
count_letters (suc fuel) [] = some 0
count_letters (suc fuel) (c ∷ s) =
    let after = count_letters fuel s in
    if c == b'['
    then elim (skip_bracket (c ∷ s)) [
      | none ↦ none
      | some rest ↦ elim (count_letters fuel (drop 1 rest)) [
        | none ↦ none
        | some n ↦ some (n + 1 + (if is_alnum (get_or rest 0 0) then 1 else 0))
      ]
    ]
    else elim after [ none ↦ none | some n ↦ some (n + (if is_alnum c then 1 else 0)) ]

pub my_strlen : Str → Option ℕ
my_strlen str = count_letters (length str) str

abbrev pub make_lower : ℕ → ℕ
make_lower c = if leb b'A' c && leb c b'Z' then c + 32 else c

abbrev pub eq_case : (ch1 ch2 : ℕ) → (case_sensetive : Bool) → Bool
eq_case ch1 ch2 case_sensetive =
    if case_sensetive then ch1 == ch2 else make_lower ch1 == make_lower ch2

-- The variables of the inner loop.
pub record Cursor : Type 0 where
  pub old_w_cursor : ℕ
  pub match : ℕ
  pub keep : Bool
  pub repeat : ℕ
  pub in_tfd : ℕ
  pub last_in : ℕ

-- while (oldWord[in_cursor] != ']'), from the bracket on: whether `ch` is between, and the index of ']'.
pub find_in_bracket : (cs : Bool) (ch : ℕ) → Str → (in_cursor : ℕ) → Option (Bool × ℕ)
find_in_bracket cs ch [] in_cursor = none
find_in_bracket cs ch (c ∷ s) in_cursor =
    let more = find_in_bracket cs ch s (in_cursor + 1) in
    if c == b']'
    then some (false, in_cursor)
    else elim more [ none ↦ none | some m ↦ some (eq_case ch c cs || m.0, m.1) ]

-- while (eq_case(repeatCharacter, text[in_tfd])): how many bytes in front of `text` it passes.
pub count_repeats : (cs : Bool) (ch : ℕ) → Str → ℕ
count_repeats cs ch [] = 0
count_repeats cs ch (c ∷ text) =
    let more = count_repeats cs ch text in if eq_case ch c cs then more + 1 else 0

-- case '['
pub at_bracket : ReplaceWord → (text : Str) → Cursor → Option Cursor
at_bracket rw text s =
    elim (find_in_bracket rw.case_sensetive (get_or text s.in_tfd 0)
      (drop s.old_w_cursor rw.old_word) s.old_w_cursor) [
        | none ↦ none
        | some found ↦ some (
            if found.0
            then record s {
              old_w_cursor =
                  s.old_w_cursor + found.1 + (if get_or rw.old_word 0 0 == b'[' then 1 else 0);
              match = s.match + 1;
              last_in = get_or text s.in_tfd 0;
              in_tfd = s.in_tfd + 1;
            }
            else record s { keep = false; in_tfd = s.in_tfd + 1 })
      ]

-- case '*'
pub at_star : ReplaceWord → (text : Str) → Cursor → Option Cursor
at_star rw text s =
    if s.old_w_cursor == 0
    then none
    else (let behind = get_or rw.old_word (s.old_w_cursor - 1) 0 in
        let ch = if behind == b']' then s.last_in else behind in
        let double = get_or rw.old_word (s.old_w_cursor + 1) 0 == b'*' in
        let n = count_repeats rw.case_sensetive ch (drop s.in_tfd text) in
        some (record s {
          match = s.match + (if double then 1 else 0);
          old_w_cursor = s.old_w_cursor + (if double then 1 else 0) + 1;
          repeat = s.repeat + n;
          in_tfd = s.in_tfd + n;
        }))

-- The other cases.
pub at_byte : ReplaceWord → (text : Str) → Cursor → Cursor
at_byte rw text s =
    if eq_case (get_or rw.old_word s.old_w_cursor 0) (get_or text s.in_tfd 0) rw.case_sensetive
    then record s { old_w_cursor = s.old_w_cursor + 1; match = s.match + 1; in_tfd = s.in_tfd + 1 }
    else record s { keep = false; in_tfd = s.in_tfd + 1 }

-- The switch, with the `in_tfd++` behind it: the cases '^' and '*' step back once before it.
pub compare_byte : ReplaceWord → (text : Str) → Cursor → Option Cursor
compare_byte rw text s =
    let c = get_or rw.old_word s.old_w_cursor 0 in
    if c == b'^'
    then some s
    else if c == b'['
    then at_bracket rw text s
    else if c == b'*'
    then at_star rw text s
    else some (at_byte rw text s)

-- while (match < old_w_len && keep), by fuel.
pub match_word : (fuel : ℕ) → ReplaceWord → (old_w_len : ℕ) (text : Str) → Cursor → Option Cursor
match_word zero rw old_w_len text s = none
match_word (suc fuel) rw old_w_len text s =
    if ltb s.match old_w_len && s.keep
    then elim (compare_byte rw text s) [
      | none ↦ none
      | some t ↦ match_word fuel rw old_w_len text t
    ]
    else some s

abbrev pub cursor_at : (tfd last_in : ℕ) → Cursor
cursor_at tfd last_in = record {
  old_w_cursor = 0;
  match = 0;
  keep = true;
  repeat = 0;
  in_tfd = tfd;
  last_in = last_in;
}

-- What a round does when the inner loop ends in `s`: it returns, or goes on with `tfd` and `res`.
pub data Round : Type 0 where
  returns : Str → Round
  continues : (tfd : ℕ) (res : Str) → Round

pub end_round : ReplaceWord → (old_w_len : ℕ) (text : Str) (tfd : ℕ) (res : Str) → Cursor → Round
end_round rw old_w_len text tfd res s =
    if not (s.match == old_w_len) && rw.is_line_start
    then returns text
    else if s.match == old_w_len && rw.is_line_start
    then returns (rw.new_word ++ drop s.in_tfd text)
    else if s.match == old_w_len
        && (not rw.is_end_of_line || (get_or text (tfd + s.match + s.repeat) 0 == b'\n'))
    then continues (tfd + s.match + s.repeat) (res ++ rw.new_word)
    else continues (tfd + 1) (res ++ get_or text tfd 0 ∷ [])

-- while (text[tfd] != '\0'), by fuel; `word_fuel` is for the inner loop.
pub scan :
    (fuel word_fuel : ℕ)
    → ReplaceWord
    → (old_w_len : ℕ) (text : Str) (tfd last_in : ℕ) (res : Str) → Option Str
scan zero word_fuel rw old_w_len text tfd last_in res = none
scan (suc fuel) word_fuel rw old_w_len text tfd last_in res =
    if leb (length text) tfd
    then some res
    else elim (match_word word_fuel rw old_w_len text (cursor_at tfd last_in)) [
      | none ↦ none
      | some s ↦ elim (end_round rw old_w_len text tfd res s) [
        | returns out ↦ some out
        | continues tfd' res' ↦ scan fuel word_fuel rw old_w_len text tfd' s.last_in res'
      ]
    ]

-- The string in `res`, which has room for `size` bytes with the NUL.
pub replace : (fuel word_fuel : ℕ) → (text : Str) → ReplaceWord → (size : ℕ) → Option Str
replace fuel word_fuel text rw size = elim (my_strlen rw.old_word) [
  | none ↦ none
  | some old_w_len ↦ elim (scan fuel word_fuel rw old_w_len text 0 0 []) [
    | none ↦ none
    | some res ↦ if ltb (length res) size then some res else none
  ]
]

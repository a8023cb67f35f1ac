-- ===== src/Hw1/File/Lines.antt =====
-- What `read_from_file` of Hw1/src/lib.c returns for a file of lines.
use mathlib.Core.List.{append_assoc, append-nil}
use cse_344_system_programmi.Base.{
  ℕ, zero, suc, ◌+◌, ◌-◌, ◌<◌, ◌≤◌, ◌≡◌, ◌≢◌, refl, sym, ap, ◌∙◌, true, false, none, some, List, [],
  ◌∷◌, ◌++◌, length, length-append, take, drop, All, ltb, ◌==◌, arith,
}
use cse_344_system_programmi.Base.Text.{Str, c_str}
use cse_344_system_programmi.Hw1.Replace.{ReplaceWord, replace}
use cse_344_system_programmi.Hw1.Replace.Plain.{IsAlnum}
use cse_344_system_programmi.Hw1.Replace.Rounds.{scan-end}
use cse_344_system_programmi.Hw1.Replace.Scan.{replace-scan, my_strlen-alnum}
use cse_344_system_programmi.Hw1.File.{
  file_byte_size, buf_size, add_pointer, apply_rules, line_of, last_line, read_lines,
  read_from_file,
}

-- The line of the bytes `body`.
abbrev pub line_from : Str → Str
line_from body = body ++ 10 ∷ []

-- The lines of the bodies, and what the rules make of them.
abbrev pub text_of : List (Str × Str) → Str
text_of [] = []
text_of (l ∷ ls) = line_from l.0 ++ text_of ls

abbrev pub results_of : List (Str × Str) → Str
results_of [] = []
results_of (l ∷ ls) = l.1 ++ results_of ls

-- What stands behind the line of `body` in the array that holds `old`.
abbrev pub behind : (body : Str) (old : List ℕ) → Str
behind body old = c_str (drop (length (line_from body)) old)

-- A line that the buffer has room for, and what the rules make of it and of what stands behind it.
pub record IsLine (fuel word_fuel : ℕ) (rules : List ReplaceWord) (old : List ℕ) (l : Str × Str)
    : Type 0 where
  pub no_break : All (λ c. c ≢ 10) l.0
  pub fits : length l.0 < buf_size
  pub becomes : apply_rules fuel word_fuel rules (line_from l.0 ++ behind l.0 old) [] ≡ some l.1

line_of-take :
    (n : ℕ) (body more : Str)
    → All (λ c. c ≢ 10) body
    → length body < n
    → line_of (take n (line_from body ++ more)) ≡ some (line_from body)
unfolding line_of
line_of-take zero body more h lt = absurd (omega arith)
line_of-take (suc n) [] more h lt = refl
line_of-take (suc n) (c ∷ body) more h lt =
    let other : (c == 10) ≡ false = ground (arith, h.0) in
    let rest = line_of-take n body more h.1 (omega arith) in rw (other, rest) refl

line_of-none : (n : ℕ) (tail : Str) → All (λ c. c ≢ 10) tail → line_of (take n tail) ≡ none
unfolding line_of
line_of-none zero tail h = refl
line_of-none (suc n) [] h = refl
line_of-none (suc n) (c ∷ tail) h =
    let other : (c == 10) ≡ false = ground (arith, h.0) in
    let rest = line_of-none n tail h.1 in rw (other, rest) refl

drop-front : (xs ys : Str) → drop (length xs) (xs ++ ys) ≡ ys
drop-front [] ys = refl
drop-front (x ∷ xs) ys = drop-front xs ys

read_lines-round :
    (rounds fuel word_fuel : ℕ) (rules : List ReplaceWord) (old : List ℕ) (body out more text : Str)
    → IsLine fuel word_fuel rules old (body, out)
    → length (text ++ out) < file_byte_size
    → read_lines (suc rounds) fuel word_fuel rules old (line_from body ++ more) text
      ≡ read_lines rounds fuel word_fuel rules [] more (text ++ out)
unfolding read_lines add_pointer
read_lines-round rounds fuel word_fuel rules old body out more text h lt =
    let some_bytes : (length (line_from body ++ more) == 0) ≡ false =
      (let l = length-append (line_from body) more in
        let l' = length-append body (10 ∷ []) in ground (arith, l, l')) in
    let found = line_of-take buf_size body more h.no_break h.fits in
    let room : ltb (length (text ++ out)) 4096 ≡ true = ground arith in
    rw (read_lines, some_bytes, found)
      (rw (h.becomes) (rw (room, drop-front (line_from body) more) refl))

read_lines-all :
    (rounds fuel word_fuel : ℕ) (rules : List ReplaceWord) (ls : List (Str × Str)) (tail text : Str)
    → All (IsLine fuel word_fuel rules []) ls
    → length (text ++ results_of ls) < file_byte_size
    → read_lines (length ls + rounds) fuel word_fuel rules [] (text_of ls ++ tail) text
      ≡ read_lines rounds fuel word_fuel rules [] tail (text ++ results_of ls)
read_lines-all rounds fuel word_fuel rules [] tail text h lt =
    let none_left : 0 + rounds ≡ rounds = omega arith in
    rw none_left (ap (read_lines rounds fuel word_fuel rules [] tail) (sym (append-nil text)))
read_lines-all rounds fuel word_fuel rules (l ∷ ls) tail text h lt =
    let more : suc (length ls) + rounds ≡ suc (length ls + rounds) = omega arith in
    let assoc = append_assoc text l.1 (results_of ls) in
    let whole = ap length assoc in
    let front = length-append (text ++ l.1) (results_of ls) in
    rw (more, append_assoc (line_from l.0) (text_of ls) tail)
      (read_lines-round (length ls + rounds) fuel word_fuel rules [] l.0 l.1 (text_of ls ++ tail)
          text h.0 (omega (arith, front, whole))
        ∙ read_lines-all rounds fuel word_fuel rules ls tail (text ++ l.1) h.1
            (omega (arith, whole))
        ∙ ap (read_lines rounds fuel word_fuel rules [] tail) assoc)

read_lines-end :
    (rounds fuel word_fuel : ℕ) (rules : List ReplaceWord) (text : Str)
    → read_lines (suc rounds) fuel word_fuel rules [] [] text ≡ some text
unfolding read_lines
read_lines-end rounds fuel word_fuel rules text = refl

-- The rules leave the empty line empty.
replace-empty :
    (fuel word_fuel size : ℕ) (rule : ReplaceWord)
    → All IsAlnum rule.old_word
    → 0 < size
    → replace (suc fuel) word_fuel [] rule size ≡ some []
replace-empty fuel word_fuel size rule h lt =
    let room : ltb 0 size ≡ true = ground arith in
    replace-scan (suc fuel) word_fuel size (length rule.old_word) rule [] []
      (my_strlen-alnum rule.old_word h)
      (scan-end fuel word_fuel (length rule.old_word) rule [] 0 0 [] (omega arith))
    ∙ rw room refl

apply_rules-empty :
    (fuel word_fuel : ℕ) (rules : List ReplaceWord)
    → All (λ r. All IsAlnum r.old_word) rules
    → apply_rules (suc fuel) word_fuel rules [] [] ≡ some []
unfolding apply_rules
apply_rules-empty fuel word_fuel [] h = refl
apply_rules-empty fuel word_fuel (rule ∷ rules) h =
    let empty = replace-empty fuel word_fuel 4096 rule h.0 (omega arith) in
    rw (apply_rules, empty) (apply_rules-empty fuel word_fuel rules h.1)

read_lines-tail :
    (rounds fuel word_fuel : ℕ) (rules : List ReplaceWord) (tail text : Str)
    → All (λ r. All IsAlnum r.old_word) rules
    → 0 < length tail
    → All (λ c. c ≢ 10) tail
    → length text < file_byte_size
    → 2 ≤ length text
    → read_lines (suc rounds) (suc fuel) word_fuel rules [] tail text
      ≡ some (take (length text - 2) text)
unfolding read_lines last_line add_pointer
read_lines-tail rounds fuel word_fuel rules tail text hr some_bytes h lt two =
    let left_over : (length tail == 0) ≡ false = ground arith in
    let no_line = line_of-none buf_size tail h in
    let empty = apply_rules-empty fuel word_fuel rules hr in
    let room : ltb (length text) 4096 ≡ true = ground arith in
    let enough : ltb (length text) 2 ≡ false = ground arith in
    rw (read_lines, left_over, no_line)
      (rw (last_line, empty) (rw (append-nil text, room) (rw enough refl)))

-- Of one or more lines of at most 256 bytes with their newlines, whose replacements fit the text: if the
-- file ends with the last of them, the text is what the rules make of each, in order, where the first is
-- taken with what the uninitialised array holds behind it. If something without a newline follows, and the
-- text has two bytes, it is left out, and the text loses its last two bytes. The old words of the rules
-- have letters and digits only. One round more than there are lines is enough.
pub read_from_file-lines :
    (fuel word_fuel : ℕ) (rules : List ReplaceWord) (stack : List ℕ) (l : Str × Str)
    (ls : List (Str × Str)) (tail : Str)
    → All (λ r. All IsAlnum r.old_word) rules
    → IsLine (suc fuel) word_fuel rules stack l
    → All (IsLine (suc fuel) word_fuel rules []) ls
    → All (λ c. c ≢ 10) tail
    → length (results_of (l ∷ ls)) < file_byte_size
    → (tail ≡ []
        → read_from_file (length ls + 2) (suc fuel) word_fuel stack (text_of (l ∷ ls) ++ tail) rules
          ≡ some (results_of (l ∷ ls)))
      × (0 < length tail
          → 2 ≤ length (results_of (l ∷ ls))
          → read_from_file
              (length ls + 2)
              (suc fuel)
              word_fuel
              stack
              (text_of (l ∷ ls) ++ tail)
              rules
            ≡ some (take (length (results_of (l ∷ ls)) - 2) (results_of (l ∷ ls))))
unfolding read_from_file
read_from_file-lines fuel word_fuel rules stack l ls tail hr h0 hl ht lt = (
  λ e.
      lines_read
      ∙ ap (λ t. read_lines 1 (suc fuel) word_fuel rules [] t (results_of (l ∷ ls))) e
      ∙ read_lines-end 0 (suc fuel) word_fuel rules (results_of (l ∷ ls)),
  λ some_bytes two.
      lines_read
      ∙ read_lines-tail 0 fuel word_fuel rules tail (results_of (l ∷ ls)) hr some_bytes ht lt two,
)
  where
    lines_read :
        read_lines (length ls + 2) (suc fuel) word_fuel rules stack (text_of (l ∷ ls) ++ tail) []
        ≡ read_lines 1 (suc fuel) word_fuel rules [] tail (results_of (l ∷ ls))
    lines_read =
        ap (λ n. read_lines n (suc fuel) word_fuel rules stack (text_of (l ∷ ls) ++ tail) [])
          (omega arith)
        ∙ ap (λ t. read_lines (suc (length ls + 1)) (suc fuel) word_fuel rules stack t [])
            (append_assoc (line_from l.0) (text_of ls) tail)
        ∙ read_lines-round (length ls + 1) (suc fuel) word_fuel rules stack l.0 l.1
            (text_of ls ++ tail) [] h0 (omega (arith, length-append l.1 (results_of ls), lt))
        ∙ read_lines-all 1 (suc fuel) word_fuel rules ls tail l.1 hl lt

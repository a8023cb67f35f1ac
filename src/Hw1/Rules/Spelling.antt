-- ===== src/Hw1/Rules/Spelling.antt =====
-- The rules of Hw1/src are read back from their spelling.
use mathlib.Core.List.{append_assoc, append-nil}
use cse_344_system_programmi.Base.{
  ℕ, suc, ◌+◌, ◌-◌, ◌<◌, ◌≡◌, ◌≢◌, refl, sym, ap, ◌∙◌, Bool, true, false, ◌&&◌, ◌||◌, not, some,
  List, [], ◌∷◌, ◌++◌, length, length-append, take, take-length, length-map, map, get_or,
  get_or-middle, All, All-append, All-imp, ltb, ◌==◌, if◌then◌else◌, arith,
}
use cse_344_system_programmi.Base.Text.{Str}
use cse_344_system_programmi.Hw1.Replace.{ReplaceWord}
use cse_344_system_programmi.Hw1.Rules.{
  number_of_characters, words_of, string_of, strings_of, Behind, parse_string, without_marks,
  create_replace_word, create_all, get_key_value_pairs,
}
use cse_344_system_programmi.Hw1.Rules.Parsing.{
  Lacks, number_of_characters-Lacks, words_of-last, words_of-next, number_of_characters-next,
  parse_slash-spell,
}

-- What an old word may not have.
abbrev pub IsOld : ℕ → Type 0
IsOld c = (c ≢ 94) × (c ≢ 36) × (c ≢ 47) × (c ≢ 59)

abbrev pub mark : Bool → ℕ → Str
mark true c = c ∷ []
mark false c = []

-- The old word with the marks of the start and of the end of a line.
abbrev pub marked : ReplaceWord → Str
marked rule = mark rule.is_line_start 94 ++ (rule.old_word ++ mark rule.is_end_of_line 36)

-- /old/new/flags
abbrev pub spell_rule : ReplaceWord → Str
spell_rule rule = 47 ∷ (marked rule ++ 47 ∷ (rule.new_word ++ 47 ∷ mark rule.case_sensetive 105))

pub record IsRule (rule : ReplaceWord) : Type 0 where
  pub some_word : 0 < length rule.old_word
  pub old_plain : All IsOld rule.old_word
  pub new_plain : All (λ c. (c ≢ 47) × (c ≢ 59)) rule.new_word

without_marks-old :
    (w behind : Str) → All IsOld w → without_marks (w ++ behind) ≡ w ++ without_marks behind
unfolding without_marks
without_marks-old [] behind h = refl
without_marks-old (c ∷ w) behind h =
    let keeps : (not (c == 94) && not (c == 36)) ≡ true = ground (arith, h.0) in
    rw keeps (ap (λ l. c ∷ l) (without_marks-old w behind h.1))

mark-Lacks : (b : Bool) (c d : ℕ) → c ≢ d → Lacks d (mark b c)
mark-Lacks true c d ne = (ne, tt)
mark-Lacks false c d ne = tt

mark_first :
    (start end : Bool) (old : Str)
    → All IsOld old
    → 0 < length old
    → (get_or (mark start 94 ++ (old ++ mark end 36)) 0 0 == 94) ≡ start
mark_first true end old h lt = refl
mark_first false end [] h lt = absurd (omega arith)
mark_first false end (c ∷ old) h lt = ground (arith, h.0)

last_byte : (w : Str) (c : ℕ) → get_or (w ++ c ∷ []) (length (w ++ c ∷ []) - 1) 0 ≡ c
last_byte w c =
    let place : length (w ++ c ∷ []) - 1 ≡ length w = omega (arith, length-append w (c ∷ [])) in
    rw place (get_or-middle w c [] 0)

last_old :
    (x : Str) (c : ℕ) (old : Str)
    → All IsOld (c ∷ old)
    → (get_or (x ++ (c ∷ old)) (length (x ++ (c ∷ old)) - 1) 0 == 36) ≡ false
last_old x c [] h = let e = last_byte x c in ground (arith, e, h.0)
last_old x c (d ∷ old) h =
    rw⁻¹ (append_assoc x (c ∷ []) (d ∷ old)) (last_old (x ++ c ∷ []) d old h.1)

mark_last :
    (start end : Bool) (old : Str)
    → All IsOld old
    → 0 < length old
    → (get_or
          (mark start 94 ++ (old ++ mark end 36))
          (length (mark start 94 ++ (old ++ mark end 36)) - 1)
          0
        == 36)
      ≡ end
mark_last start true old h lt =
    let e = last_byte (mark start 94 ++ old) 36 in
    let e' = rw (append_assoc (mark start 94) old (36 ∷ [])) at e in ap (λ c. c == 36) e'
mark_last start false [] h lt = absurd (omega arith)
mark_last start false (c ∷ old) h lt = rw (append-nil (c ∷ old)) (last_old (mark start 94) c old h)

without_marks-mark :
    (old : Str) (end : Bool) → All IsOld old → without_marks (old ++ mark end 36) ≡ old
unfolding without_marks
without_marks-mark old true h = without_marks-old old (36 ∷ []) h ∙ append-nil old
without_marks-mark old false h = without_marks-old old [] h ∙ append-nil old

without_marks-marked :
    (rule : ReplaceWord) → All IsOld rule.old_word → without_marks (marked rule) ≡ rule.old_word
unfolding without_marks
without_marks-marked rule h = first rule.is_line_start
  where
    first :
        (b : Bool)
        → without_marks (mark b 94 ++ (rule.old_word ++ mark rule.is_end_of_line 36))
          ≡ rule.old_word
    first true = without_marks-mark rule.old_word rule.is_end_of_line h
    first false = without_marks-mark rule.old_word rule.is_end_of_line h

marked-Lacks :
    (rule : ReplaceWord) (c : ℕ)
    → 94 ≢ c
    → 36 ≢ c
    → All (λ x. x ≢ c) rule.old_word
    → Lacks c (marked rule)
marked-Lacks rule c start end h =
    All-append (λ x. x ≢ c) (mark rule.is_line_start 94) _
      (mark-Lacks rule.is_line_start 94 c start)
      (All-append (λ x. x ≢ c) rule.old_word _ h (mark-Lacks rule.is_end_of_line 36 c end))

flag_read : (b : Bool) → (get_or (mark b 105) 0 0 == 105) ≡ b
flag_read true = refl
flag_read false = refl

-- The rule as it is read: the new word goes on behind its memory, and so does an old word without marks.
abbrev pub read_on : Behind → ReplaceWord → ReplaceWord
read_on behind rule = record rule {
  old_word =
      rule.old_word ++ (if rule.is_line_start || rule.is_end_of_line then [] else behind.old);
  new_word = rule.new_word ++ behind.new;
}

string_of-full : (word behind : Str) → string_of (length word) word behind ≡ word ++ behind
unfolding string_of
string_of-full word behind =
    let full : ltb (length word) (length word) ≡ false = ground arith in rw full refl

string_of-room :
    (room : ℕ) (word behind : Str) → length word < room → string_of room word behind ≡ word
unfolding string_of
string_of-room room word behind lt =
    let fits : ltb (length word) room ≡ true = ground arith in rw fits refl

-- An old word fills its memory exactly if it has no marks.
string_of-marked :
    (start end : Bool) (old behind : Str)
    → string_of (length (mark start 94 ++ (old ++ mark end 36))) old behind
      ≡ old ++ (if start || end then [] else behind)
string_of-marked true end old behind =
    let l = length-append old (mark end 36) in
    string_of-room (suc (length (old ++ mark end 36))) old behind (omega (arith, l))
    ∙ sym (append-nil old)
string_of-marked false true old behind =
    let l = length-append old (36 ∷ []) in
    string_of-room (length (old ++ 36 ∷ [])) old behind (omega (arith, l)) ∙ sym (append-nil old)
string_of-marked false false old behind = rw (append-nil old) (string_of-full old behind)

-- The rule that is read from its spelling.
create_replace_word-spell :
    (behind : Behind) (rule : ReplaceWord)
    → IsRule rule
    → create_replace_word behind (spell_rule rule) ≡ some (read_on behind rule)
unfolding create_replace_word
create_replace_word-spell behind rule h =
    let old_slash = All-imp IsOld (λ x. x ≢ 47) rule.old_word (λ c g. g.2) h.old_plain in
    let new_slash = All-imp _ (λ x. x ≢ 47) rule.new_word (λ c g. g.0) h.new_plain in
    let parsed =
      parse_slash-spell (marked rule) rule.new_word (mark rule.case_sensetive 105)
        (marked-Lacks rule 47 (omega arith) (omega arith) old_slash) new_slash
        (mark-Lacks rule.case_sensetive 105 47 (omega arith)) in
    let size : (length (marked rule) == 0) ≡ false =
      (let l =
          length-append (mark rule.is_line_start 94)
            (rule.old_word ++ mark rule.is_end_of_line 36) in
        let l' = length-append rule.old_word (mark rule.is_end_of_line 36) in
        let some_bytes : 0 < length (marked rule) = omega (arith, h.some_word, l, l') in
        ground arith) in
    rw (create_replace_word, parsed)
      (rw
        (
          size,
          without_marks-marked rule h.old_plain,
          string_of-full rule.new_word behind.new,
          string_of-marked rule.is_line_start rule.is_end_of_line rule.old_word behind.old,
          flag_read rule.case_sensetive,
          mark_first rule.is_line_start rule.is_end_of_line rule.old_word h.old_plain h.some_word,
          mark_last rule.is_line_start rule.is_end_of_line rule.old_word h.old_plain h.some_word,
        )
        refl)

-- The rules behind the first, each after a semicolon.
abbrev pub spell_more : List ReplaceWord → Str
spell_more [] = []
spell_more (rule ∷ rules) = 59 ∷ (spell_rule rule ++ spell_more rules)

spell_rule-Lacks : (rule : ReplaceWord) → IsRule rule → Lacks 59 (spell_rule rule)
spell_rule-Lacks rule h =
    let old = All-imp IsOld (λ x. x ≢ 59) rule.old_word (λ c g. g.3) h.old_plain in
    let new = All-imp _ (λ x. x ≢ 59) rule.new_word (λ c g. g.1) h.new_plain in
    (
      omega arith,
      All-append (λ x. x ≢ 59) (marked rule) _
          (marked-Lacks rule 59 (omega arith) (omega arith) old)
          (
            omega arith,
            All-append (λ x. x ≢ 59) rule.new_word _ new
                (omega arith, mark-Lacks rule.case_sensetive 105 59 (omega arith)),
          ),
    )

words_of-rules :
    (rule : ReplaceWord) (rules : List ReplaceWord)
    → All IsRule (rule ∷ rules)
    → (words_of 59 (spell_rule rule ++ spell_more rules) [] ≡ map spell_rule (rule ∷ rules))
      × (number_of_characters (spell_rule rule ++ spell_more rules) 59 ≡ length rules)
words_of-rules rule [] h =
    let free = spell_rule-Lacks rule h.0 in
    rw (append-nil (spell_rule rule)) (
      words_of-last 59 (spell_rule rule) [] free,
      number_of_characters-Lacks (spell_rule rule) 59 free,
    )
words_of-rules rule (next ∷ rules) h =
    let free = spell_rule-Lacks rule h.0 in
    let ih = words_of-rules next rules h.1 in
    (
      words_of-next 59 (spell_rule rule) [] (spell_rule next ++ spell_more rules) free
          ∙ ap (λ l. spell_rule rule ∷ l) ih.0,
      omega (
        arith,
        number_of_characters-next 59 (spell_rule rule) (spell_rule next ++ spell_more rules) free,
        ih.1,
      ),
    )

-- The rules as they are read, from the one at `count` on.
abbrev pub read_all : (heap : ℕ → Behind) → (count : ℕ) → List ReplaceWord → List ReplaceWord
read_all heap count [] = []
read_all heap count (rule ∷ rules) = read_on (heap count) rule ∷ read_all heap (count + 1) rules

create_all-spell :
    (heap : ℕ → Behind) (count : ℕ) (rules : List ReplaceWord)
    → All IsRule rules
    → create_all heap count (map spell_rule rules) ≡ some (read_all heap count rules)
unfolding create_all
create_all-spell heap count [] h = refl
create_all-spell heap count (rule ∷ rules) h =
    let one = create_replace_word-spell (heap count) rule h.0 in
    let more = create_all-spell heap (count + 1) rules h.1 in rw (create_all, one) (rw more refl)

-- Each of several sentences leaves room in its memory.
strings_of-room :
    (room : ℕ) (behind : Str) (ws : List Str)
    → All (λ w. length w < room) ws
    → strings_of room behind ws ≡ ws
strings_of-room room behind [] h = refl
strings_of-room room behind (w ∷ ws) h =
    rw (string_of-room room w behind h.0, strings_of-room room behind ws h.1) refl

sentences-fit :
    (room : ℕ) (rules : List ReplaceWord)
    → length (spell_more rules) < room
    → All (λ w. length w < room) (map spell_rule rules)
sentences-fit room [] lt = tt
sentences-fit room (rule ∷ rules) lt =
    let l = length-append (spell_rule rule) (spell_more rules) in
    (omega (arith, lt, l), sentences-fit room rules (omega (arith, lt, l)))

parse_string-rules :
    (behind : Str) (rule next : ReplaceWord) (rules : List ReplaceWord)
    → All IsRule (rule ∷ next ∷ rules)
    → parse_string behind (spell_rule rule ++ spell_more (next ∷ rules)) 59
      ≡ some (map spell_rule (rule ∷ next ∷ rules))
unfolding parse_string
parse_string-rules behind rule next others h =
    let rules : List ReplaceWord = next ∷ others in
    let str : Str = spell_rule rule ++ spell_more rules in
    let w = words_of-rules rule rules h in
    let count : number_of_characters str 59 + 2 ≡ length rules + 2 = omega (arith, w.1) in
    let words : length (map spell_rule (rule ∷ rules)) ≡ suc (length rules) =
      length-map (rule ∷ rules) spell_rule in
    let fits : ((length rules + 2 == 0)
          || ltb (length rules + 2) (length (map spell_rule (rule ∷ rules))))
        ≡ false =
      ground (arith, words) in
    let all : take (length rules + 2 - 1) (map spell_rule (rule ∷ rules))
        ≡ map spell_rule (rule ∷ rules) =
      (let places : length rules + 2 - 1 ≡ length (map spell_rule (rule ∷ rules)) =
          omega (arith, words) in
        rw places (take-length (map spell_rule (rule ∷ rules)))) in
    let l = length-append (spell_rule rule) (spell_more rules) in
    let room : strings_of (length str) behind (map spell_rule (rule ∷ rules))
        ≡ map spell_rule (rule ∷ rules) =
      strings_of-room (length str) behind (map spell_rule (rule ∷ rules))
        (omega (arith, l), sentences-fit (length str) rules (omega (arith, l))) in
    rw (parse_string, w.0, w.1) (rw (fits, all) (rw room refl))

-- From two rules or more, at most as many as the array has room for, each of an old word of at least one
-- byte and no ^, $, / or ;, a new word without / and ;, and the marks of the start and end of a line
-- and of the case: what is read from their spelling are the rules, in order, but each new word, and each
-- old word without marks, goes on with what stands behind its memory.
pub get_key_value_pairs-spell :
    (behind : Str) (heap : ℕ → Behind) (size : ℕ) (rule next : ReplaceWord)
    (rules : List ReplaceWord)
    → All IsRule (rule ∷ next ∷ rules)
    → suc (length rules) < size
    → get_key_value_pairs behind heap size (spell_rule rule ++ spell_more (next ∷ rules))
      ≡ some (read_all heap 0 (rule ∷ next ∷ rules))
unfolding get_key_value_pairs
get_key_value_pairs-spell behind heap size rule next rules h lt =
    let parsed = parse_string-rules behind rule next rules h in
    let words : length (map spell_rule (rule ∷ next ∷ rules)) ≡ suc (suc (length rules)) =
      length-map (rule ∷ next ∷ rules) spell_rule in
    let fits : ltb size (length (map spell_rule (rule ∷ next ∷ rules))) ≡ false =
      ground (arith, words) in
    rw (get_key_value_pairs, parsed) (rw (fits) (create_all-spell heap 0 (rule ∷ next ∷ rules) h))

-- ===== src/Hw1/Replace/Plain.antt =====
-- What `replace` of Hw1/src/string_manipulation.c does with a rule whose old word has letters and digits
-- only: what the line becomes.
use cse_344_system_programmi.Base.{
  ℕ, zero, suc, ◌≡◌, refl, ap, Bool, true, false, ◌||◌, not, Option, none, some, [], ◌∷◌, ◌++◌,
  length, drop, get_or, All, if◌then◌else◌, ◌==◌, arith,
}
use cse_344_system_programmi.Base.Text.{Str}
use cse_344_system_programmi.Hw1.Replace.{
  ReplaceWord, is_alnum, count_letters, eq_case, Cursor, at_byte, compare_byte,
}

-- The text behind `old` if it begins with it.
abbrev pub strip : (cs : Bool) (old text : Str) → Option Str
strip cs [] text = some text
strip cs (o ∷ old) [] = none
strip cs (o ∷ old) (c ∷ text) =
    let behind = strip cs old text in if eq_case o c cs then behind else none

abbrev pub unless_inner : ReplaceWord → Option Str → Option Str
unless_inner rule none = none
unless_inner rule (some behind) =
    if not rule.is_end_of_line || (get_or behind 0 0 == 10) then some behind else none

-- Where the rule applies: its word stands here, before the end of the line if it asks for that.
abbrev pub applies : ReplaceWord → Str → Option Str
applies rule text = unless_inner rule (strip rule.case_sensetive rule.old_word text)

-- `out` is `text` with the new word in place of each old word, from left to right.
pub data Rewritten (rule : ReplaceWord) : (text out : Str) → Type 0 where
  finished : Rewritten rule [] []
  replaced :
      {text behind out : Str}
      → applies rule text ≡ some behind
      → Rewritten rule behind out
      → Rewritten rule text (rule.new_word ++ out)
  stays :
      {c : ℕ} {text out : Str}
      → applies rule (c ∷ text) ≡ none
      → Rewritten rule text out
      → Rewritten rule (c ∷ text) (c ∷ out)

abbrev pub IsAlnum : ℕ → Type 0
IsAlnum c = is_alnum c ≡ true

pub alnum-ne : (c : ℕ) → IsAlnum c → ((c == 94) ≡ false) × ((c == 91) ≡ false) × ((c == 42) ≡ false)
unfolding is_alnum
alnum-ne c h = (ground (arith, h), ground (arith, h), ground (arith, h))

pub count_letters-alnum : (w : Str) → All IsAlnum w → count_letters (length w) w ≡ some (length w)
unfolding count_letters
count_letters-alnum [] h = refl
count_letters-alnum (c ∷ w) h =
    let other : (c == 91) ≡ false = (alnum-ne c h.0).1 in
    rw (other, count_letters-alnum w h.1, h.0) (ap some (omega arith))

pub get_or-drop : (xs : Str) (k d : ℕ) → get_or xs k d ≡ get_or (drop k xs) 0 d
get_or-drop [] zero d = refl
get_or-drop [] (suc k) d = refl
get_or-drop (x ∷ xs) zero d = refl
get_or-drop (x ∷ xs) (suc k) d = get_or-drop xs k d

pub compare_byte-plain :
    (rule : ReplaceWord) (text : Str) (s : Cursor)
    → IsAlnum (get_or rule.old_word s.old_w_cursor 0)
    → compare_byte rule text s ≡ some (at_byte rule text s)
unfolding compare_byte
compare_byte-plain rule text s h =
    let ne = alnum-ne (get_or rule.old_word s.old_w_cursor 0) h in
    rw (compare_byte, ne.0, ne.1, ne.2) refl

pub eq_case-nul : (c : ℕ) (cs : Bool) → IsAlnum c → eq_case c 0 cs ≡ false
unfolding is_alnum
eq_case-nul c true h = ground (arith, h)
eq_case-nul c false h = ground (arith, h)

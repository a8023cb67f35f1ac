-- ===== src/Hw1/Replace/Samples.antt =====
-- A rule of Hw1/src, a line, and what becomes of it.
use cse_344_system_programmi.Base.{◌≡◌, refl, true, false, some}
use cse_344_system_programmi.Base.Text.{Str, codes}
use cse_344_system_programmi.Hw1.Replace.{
  ReplaceWord, replace, my_strlen, count_letters, is_alnum, at_byte, compare_byte, match_word,
  end_round, scan,
}

abbrev pub rule_of : (old new : Str) → ReplaceWord
rule_of old new = record {
  old_word = old;
  new_word = new;
  case_sensetive = false;
  is_line_start = false;
  is_end_of_line = false;
}

abbrev pub an_to_the : ReplaceWord
an_to_the = rule_of (codes "an") (codes "the")

pub run : replace 9 3 (codes "an Ant\n") an_to_the 4096 ≡ some (codes "the thet\n")
unfolding replace my_strlen count_letters is_alnum at_byte compare_byte match_word end_round scan
run = refl

pub alnum_a : is_alnum 97 ≡ true
unfolding is_alnum
alnum_a = refl

pub alnum_n : is_alnum 110 ≡ true
unfolding is_alnum
alnum_n = refl

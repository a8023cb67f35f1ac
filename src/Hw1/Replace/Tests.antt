-- ===== src/Hw1/Replace/Tests.antt =====
-- Runs of `replace` of Hw1/src/string_manipulation.c.
use cse_344_system_programmi.Base.{◌≡◌, refl, some, none, length, ltb, if◌then◌else◌, arith}
use cse_344_system_programmi.Base.Text.{Str, codes}
use cse_344_system_programmi.Hw1.Replace.{
  replace, my_strlen, count_letters, skip_bracket, is_alnum, find_in_bracket, count_repeats,
  at_bracket, at_star, at_byte, compare_byte, match_word, end_round, scan,
}
use cse_344_system_programmi.Hw1.Replace.Samples.{rule_of, an_to_the, alnum_a, alnum_n}
use cse_344_system_programmi.Hw1.Replace.Plain.{Rewritten}
use cse_344_system_programmi.Hw1.Replace.Scan.{replace-Rewritten}

replace-Rewritten_example :
    (out : Str) × (replace 9 3 (codes "an Ant\n") an_to_the 4096
      ≡ (if ltb (length out) 4096 then some out else none))
    × Rewritten an_to_the (codes "an Ant\n") out
    × ((b : Str) → Rewritten an_to_the (codes "an Ant\n") b → b ≡ out)
replace-Rewritten_example =
    replace-Rewritten 9 3 4096 an_to_the (codes "an Ant\n") (alnum_a, (alnum_n, tt)) (omega arith)
      refl (omega arith) (omega arith)

-- A bracket and a star at the front of the word.
bracket_and_star :
    replace 9 9 (codes "xcccey") (rule_of (codes "[bc]*e") (codes "-")) 4096 ≡ some (codes "x-y")
unfolding replace my_strlen count_letters skip_bracket is_alnum find_in_bracket count_repeats
    at_bracket at_star at_byte compare_byte match_word end_round scan
bracket_and_star = refl

-- Behind two letters the cursor goes past the bracket: "abce" is not replaced.
late_bracket :
    replace 9 9 (codes "abce") (rule_of (codes "ab[cd]e") (codes "-")) 4096 ≡ some (codes "abce")
unfolding replace my_strlen count_letters skip_bracket is_alnum find_in_bracket count_repeats
    at_bracket at_star at_byte compare_byte match_word end_round scan
late_bracket = refl

-- A word without letters and digits is found everywhere, and the scan does not get on.
no_letters : replace 100 9 (codes "a-b") (rule_of (codes "-") (codes "+")) 4096 ≡ none
unfolding replace my_strlen count_letters skip_bracket is_alnum find_in_bracket count_repeats
    at_bracket at_star at_byte compare_byte match_word end_round scan
no_letters = refl

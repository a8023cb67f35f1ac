-- ===== src/Hw1/Rules/Tests.antt =====
-- Two rules of a command line of Hw1/src.
use cse_344_system_programmi.Base.{ℕ, ◌≡◌, refl, true, false, some, [], ◌∷◌, ◌++◌, arith}
use cse_344_system_programmi.Base.Text.{codes}
use cse_344_system_programmi.Hw1.Replace.{ReplaceWord}
use cse_344_system_programmi.Hw1.Rules.{Behind, max_key_value_pair_size, get_key_value_pairs}
use cse_344_system_programmi.Hw1.Rules.Spelling.{
  IsRule, spell_rule, spell_more, get_key_value_pairs-spell,
}

-- /^ab/x y/i
abbrev at_start : ReplaceWord
at_start = record {
  old_word = codes "ab";
  new_word = codes "x y";
  case_sensetive = true;
  is_line_start = true;
  is_end_of_line = false;
}

-- /c$//
abbrev at_end : ReplaceWord
at_end = record {
  old_word = codes "c";
  new_word = [];
  case_sensetive = false;
  is_line_start = false;
  is_end_of_line = true;
}

at_start-IsRule : IsRule at_start
at_start-IsRule = record {
  some_word = omega arith;
  old_plain = (
    (omega arith, omega arith, omega arith, omega arith),
    ((omega arith, omega arith, omega arith, omega arith), tt),
  );
  new_plain =
      ((omega arith, omega arith), ((omega arith, omega arith), ((omega arith, omega arith), tt)));
}

at_end-IsRule : IsRule at_end
at_end-IsRule = record {
  some_word = omega arith;
  old_plain = ((omega arith, omega arith, omega arith, omega arith), tt);
  new_plain = tt;
}

spelled : spell_rule at_start ++ spell_more (at_end ∷ []) ≡ codes "/^ab/x y/i;/c$//"
spelled = refl

-- Nothing but a "z" behind each word.
abbrev heap : ℕ → Behind
heap i = record { old = codes "z"; new = codes "z" }

get_key_value_pairs-spell_example :
    get_key_value_pairs
      (codes "z")
      heap
      max_key_value_pair_size
      (spell_rule at_start ++ spell_more (at_end ∷ []))
    ≡ some
        (record at_start { new_word = codes "x yz" } ∷ record at_end { new_word = codes "z" } ∷ [])
get_key_value_pairs-spell_example =
    get_key_value_pairs-spell (codes "z") heap max_key_value_pair_size at_start at_end []
      (at_start-IsRule, (at_end-IsRule, tt)) (omega arith)

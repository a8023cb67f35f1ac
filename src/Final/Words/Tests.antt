-- ===== src/Final/Words/Tests.antt =====
-- The theorems on words and dates at concrete lines.
use cse_344_system_programmi.Base.{ℕ, ◌≡◌, refl, true, some, [], ◌∷◌, length, ltb, arith}
use cse_344_system_programmi.Base.Text.{Str, codes}
use cse_344_system_programmi.Final.Structs.{word_length}
use cse_344_system_programmi.Final.Words.{split_str}
use cse_344_system_programmi.Final.Words.Splitting.{
  IsWord, is_free, IsWord-of_is_free, split_str-spell,
}

abbrev word :
    (c : ℕ) (w : Str)
    → is_free 32 (c ∷ w) ≡ true
    → ltb (length (c ∷ w)) word_length ≡ true
    → IsWord 32 (c ∷ w)
word c w h fits = IsWord-of_is_free 32 c w h fits

split_str-spell_example :
    split_str (codes "17 villa   ADANA") 32 0
    ≡ some (codes "17" ∷ codes "villa" ∷ codes "ADANA" ∷ [] ∷ [] ∷ [], 2)
split_str-spell_example =
    split_str-spell 32 (codes "17") ((0, codes "villa") ∷ (2, codes "ADANA") ∷ []) 0
      (word b'1' (codes "7") refl refl)
      (word b'v' (codes "illa") refl refl, (word b'A' (codes "DANA") refl refl, tt)) (omega arith)

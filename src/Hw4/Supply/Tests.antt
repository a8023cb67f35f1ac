-- ===== src/Hw4/Supply/Tests.antt =====
-- The theorems on the supplier and the consumers at small files.
use cse_344_system_programmi.Base.{ℕ, ◌+◌, ◌*◌, ◌≤◌, ◌≡◌, refl, List, [], ◌∷◌, All, length, arith}
use cse_344_system_programmi.Hw4.Supply.{
  kind_of, first_set, first_semop, minus_two, Shop, init, Steps, Step, by_supplier, read_char,
}
use cse_344_system_programmi.Hw4.Supply.Blocking.{supplier_can_block}
use cse_344_system_programmi.Hw4.Supply.Clean.{IsClean, CleanSteps, none_yet, one_more}
use cse_344_system_programmi.Hw4.Supply.Counting.{Balanced}
use cse_344_system_programmi.Hw4.Supply.Ends.{
  IsKind, CleanSteps-Balanced, GoesOn, CleanSteps-GoesOn,
}

abbrev file : List ℕ
file = b'1' ∷ b'2' ∷ []

file-All : All IsKind file
unfolding kind_of
file-All = ((0, refl), ((1, refl), tt))

supplier_can_block_example :
    (s : Shop) × Steps 2 (init file 1) s
    × ((t : Shop) → Steps 2 s t → (t.supplier ≡ first_semop 0 minus_two) × (t.consumed ≡ 0))
supplier_can_block_example = supplier_can_block 2 0 (b'2' ∷ []) (omega arith)

abbrev one_read : Shop
one_read = record (init file 1) { file = b'2' ∷ []; supplier = first_set 0 }

reads : Step 1 (init file 1) one_read
unfolding kind_of
reads = by_supplier (read_char b'1' 0 (b'2' ∷ []) refl refl refl)

one_read-IsClean : IsClean one_read
one_read-IsClean = record {
  first = λ k op e. cc;
  second = λ k op e. cc;
  consumers = λ j r op other e. cc;
}

one_step : CleanSteps 1 (init file 1) 1 one_read
one_step = one_more none_yet reads one_read-IsClean

CleanSteps-Balanced_example : Balanced file one_read 0 × Balanced file one_read 1
CleanSteps-Balanced_example = CleanSteps-Balanced 1 1 file file-All one_step

CleanSteps-GoesOn_example : (1 ≤ 7 * length file + 1 + 1 * (4 * 1)) × GoesOn 1 1 one_read
CleanSteps-GoesOn_example = CleanSteps-GoesOn 1 1 file file-All (omega arith) (omega arith) one_step

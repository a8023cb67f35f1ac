-- ===== src/Final/Search/Tests.antt =====
-- Two cities, queries over them, and the theorems of the search there.
use cse_344_system_programmi.Base.{◌≡◌, refl, [], ◌∷◌, take}
use cse_344_system_programmi.Base.Counting.{Counts}
use cse_344_system_programmi.Base.Text.{codes, strcmp}
use cse_344_system_programmi.Final.Search.{all_cities, in_between_date, calculate_transaction}
use cse_344_system_programmi.Final.Search.Samples.{van, bolu, query}
use cse_344_system_programmi.Final.Search.Counts.{Asked, entries, calculate_transaction-Counts}

all_run : calculate_transaction (van ∷ bolu ∷ []) 2 (query all_cities) ≡ 4
unfolding calculate_transaction in_between_date strcmp
all_run = refl

one_run : calculate_transaction (van ∷ bolu ∷ []) 2 (query (codes "BOLU")) ≡ 2
unfolding calculate_transaction in_between_date strcmp
one_run = refl

calculate_transaction-Counts_example :
    Counts
      (Asked (query all_cities))
      (entries (take 2 (van ∷ bolu ∷ [])))
      (calculate_transaction (van ∷ bolu ∷ []) 2 (query all_cities))
calculate_transaction-Counts_example =
    calculate_transaction-Counts (query all_cities) (van ∷ bolu ∷ []) 2

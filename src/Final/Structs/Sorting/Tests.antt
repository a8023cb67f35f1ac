-- ===== src/Final/Structs/Sorting/Tests.antt =====
-- A run of the sort, and its theorem at three names.
use mathlib.Core.List.{Perm}
use cse_344_system_programmi.Base.{◌≡◌, refl, List, [], ◌∷◌, ◌++◌, take}
use cse_344_system_programmi.Base.Text.{Str, codes, strcmp}
use cse_344_system_programmi.Final.Structs.Sorting.{sort_folders}
use cse_344_system_programmi.Final.Structs.Sorting.Laws.{IsSorted, sort_folders-IsSorted}

abbrev names : List Str
names = codes "VAN" ∷ codes "ADANA" ∷ codes "MUS" ∷ codes "BOLU" ∷ []

sort_folders_run :
    sort_folders names 3 ≡ codes "ADANA" ∷ codes "MUS" ∷ codes "VAN" ∷ codes "BOLU" ∷ []
unfolding sort_folders strcmp
sort_folders_run = refl

sort_folders-IsSorted_example :
    (sorted : List Str) × (sort_folders names 3 ≡ sorted ++ codes "BOLU" ∷ [])
    × IsSorted sorted
    × Perm sorted (take 3 names)
sort_folders-IsSorted_example = sort_folders-IsSorted names 3

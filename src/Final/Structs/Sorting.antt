-- ===== src/Final/Structs/Sorting.antt =====
-- Final/src/structs.c, `swap_file` and `sort_folders`: the exchange sort of the folder names. The
-- body for one `i` works on the entries from `i` on, the first of which is `directory[i]`.
pub mod Laws
mod Tests
use cse_344_system_programmi.Base.{ℕ, zero, suc, List, [], ◌∷◌, ◌++◌, take, drop, if◌then◌else◌}
use cse_344_system_programmi.Base.Text.{Str, str_gt}

-- The two names change places.
pub swap_file : Str × Str → Str × Str
swap_file (file_1, file_2) = (file_2, file_1)

-- for (j = i + 1; …; j++): `directory[i]` is compared with `directory[j]`, and the two are
-- exchanged when it comes later. The result is `directory[i]` and the entries after it.
pub inner_loop : Str → List Str → Str × List Str
unfolding swap_file
inner_loop x [] = (x, [])
inner_loop x (y ∷ ys) =
    let p : Str × Str = if str_gt x y then swap_file (x, y) else (x, y) in
    let r = inner_loop p.0 ys in (r.0, p.1 ∷ r.1)

-- for (i = 0; …; i++), by the rounds that are left.
pub outer_loop : ℕ → List Str → List Str
unfolding inner_loop
outer_loop zero xs = xs
outer_loop (suc n) [] = []
outer_loop (suc n) (x ∷ xs) = let r = inner_loop x xs in r.0 ∷ outer_loop n r.1

-- Only the first `num_folders` entries are looked at.
pub sort_folders : List Str → ℕ → List Str
unfolding outer_loop
sort_folders directory num_folders =
    outer_loop num_folders (take num_folders directory) ++ drop num_folders directory

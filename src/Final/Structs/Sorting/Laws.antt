-- ===== src/Final/Structs/Sorting/Laws.antt =====
-- The exchange sort orders the names and only moves them.
use mathlib.Core.List.{Perm}
use mathlib.Core.List.Perm
use cse_344_system_programmi.Base.{
  ℕ, zero, suc, ◌≤◌, ◌≡◌, refl, ap, List, [], ◌∷◌, ◌++◌, take, drop, length, length-take, All,
  arith, Bool-cases, inl, inr, false,
}
use cse_344_system_programmi.Base.Text.{Str, str_gt, StrLe, StrLe-refl, StrLe-trans, StrLe-of_gt}
use cse_344_system_programmi.Final.Structs.Sorting.{swap_file, inner_loop, outer_loop, sort_folders}

-- Every name comes no later than all names behind it.
abbrev pub IsSorted : List Str → Type 0
IsSorted [] = Unit {0}
IsSorted (x ∷ xs) = All (StrLe x) xs × IsSorted xs

StrLe-of_not_gt : (s t : Str) → str_gt s t ≡ false → StrLe s t
StrLe-of_not_gt s t h = ground arith

-- After the inner loop the first name is the smallest, and the names are the same.
record Passed (x : Str) (xs : List Str) (r : Str × List Str) : Type 0 where
  least : All (StrLe r.0) r.1
  below : StrLe r.0 x
  moved : Perm (r.0 ∷ r.1) (x ∷ xs)
  as_long : length r.1 ≡ length xs

inner_swap :
    (x y : Str) (ys : List Str) {r : Str × List Str}
    → StrLe y x
    → Passed y ys r
    → Passed x (y ∷ ys) (r.0, x ∷ r.1)
inner_swap x y ys {r} le p = record {
  least = (StrLe-trans r.0 y x p.below le, p.least);
  below = StrLe-trans r.0 y x p.below le;
  moved = Perm.trans (Perm.swap x r.0 r.1) (Perm.cons x p.moved);
  as_long = ap suc p.as_long;
}

inner_keep :
    (x y : Str) (ys : List Str) {r : Str × List Str}
    → StrLe x y
    → Passed x ys r
    → Passed x (y ∷ ys) (r.0, y ∷ r.1)
inner_keep x y ys {r} le p = record {
  least = (StrLe-trans r.0 x y p.below le, p.least);
  below = p.below;
  moved = Perm.trans (Perm.swap y r.0 r.1) (Perm.trans (Perm.cons y p.moved) (Perm.swap x y ys));
  as_long = ap suc p.as_long;
}

inner_loop-Passed : (x : Str) (xs : List Str) → Passed x xs (inner_loop x xs)
unfolding inner_loop swap_file
inner_loop-Passed x [] = record {
  least = tt;
  below = StrLe-refl x;
  moved = Perm.refl (x ∷ []);
  as_long = refl;
}
inner_loop-Passed x (y ∷ ys) = elim (Bool-cases (str_gt x y)) [
  | inl swap ↦ rw swap (inner_swap x y ys (StrLe-of_gt x y swap) (inner_loop-Passed y ys))
  | inr keep ↦ rw keep (inner_keep x y ys (StrLe-of_not_gt x y keep) (inner_loop-Passed x ys))
]

-- What holds of all names holds of all names afterwards.
inner_loop-All :
    (P : Str → Type 0) (x : Str) (xs : List Str)
    → P x
    → All P xs
    → P (inner_loop x xs).0 × All P (inner_loop x xs).1
unfolding inner_loop swap_file
inner_loop-All P x [] p h = (p, tt)
inner_loop-All P x (y ∷ ys) p h = elim (Bool-cases (str_gt x y)) [
  | inl swap ↦ rw swap (let (a, b) = inner_loop-All P y ys h.0 h.1 in (a, (p, b)))
  | inr keep ↦ rw keep (let (a, b) = inner_loop-All P x ys p h.1 in (a, (h.0, b)))
]

outer_loop-All : (P : Str → Type 0) (n : ℕ) (xs : List Str) → All P xs → All P (outer_loop n xs)
unfolding outer_loop
outer_loop-All P zero xs h = h
outer_loop-All P (suc n) [] h = h
outer_loop-All P (suc n) (x ∷ xs) h =
    let (a, b) = inner_loop-All P x xs h.0 h.1 in (a, outer_loop-All P n _ b)

outer_loop-IsSorted : (n : ℕ) (xs : List Str) → length xs ≤ n → IsSorted (outer_loop n xs)
unfolding outer_loop
outer_loop-IsSorted zero [] le = tt
outer_loop-IsSorted zero (x ∷ xs) le = elim le [ ]
outer_loop-IsSorted (suc n) [] le = tt
outer_loop-IsSorted (suc n) (x ∷ xs) le =
    let p = inner_loop-Passed x xs in
    (
      outer_loop-All (StrLe (inner_loop x xs).0) n _ p.least,
      outer_loop-IsSorted n (inner_loop x xs).1 (omega (arith, p.as_long)),
    )

outer_loop-perm : (n : ℕ) (xs : List Str) → Perm (outer_loop n xs) xs
unfolding outer_loop
outer_loop-perm zero xs = Perm.refl xs
outer_loop-perm (suc n) [] = Perm.refl []
outer_loop-perm (suc n) (x ∷ xs) =
    let p = inner_loop-Passed x xs in
    Perm.trans (Perm.cons (inner_loop x xs).0 (outer_loop-perm n (inner_loop x xs).1)) p.moved

-- `sort_folders` puts the first `num_folders` names in the order of `strcmp`, by moving names among
-- them only; the names behind them stay where they are.
pub sort_folders-IsSorted :
    (directory : List Str) (num_folders : ℕ)
    → (sorted : List Str) × (sort_folders directory num_folders
        ≡ sorted ++ drop num_folders directory)
      × IsSorted sorted
      × Perm sorted (take num_folders directory)
unfolding sort_folders
sort_folders-IsSorted directory n = (
  outer_loop n (take n directory),
  refl,
  outer_loop-IsSorted n (take n directory) (omega (arith, length-take n directory)),
  outer_loop-perm n (take n directory),
)

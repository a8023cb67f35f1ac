-- ===== src/Final/Servant/Folders/Boundaries.antt =====
-- The folders that a servant is responsible for, for `set_folder_boundaries` of Final/src/servant.c.
use mathlib.Core.List.{append_assoc}
use cse_344_system_programmi.Base.{
  ℕ, zero, suc, ◌+◌, ◌-◌, ◌≤◌, ◌<◌, ◌≡◌, ◌∙◌, refl, ap, ◌&&◌, none, some, List, [], ◌∷◌, ◌++◌,
  length, length-next, get_or-middle, set-next, get_elem?-drop, drop-next, set, take, drop,
  get_elem?, get_or, leb, arith, if◌then◌else◌, Bool-cases, inl, inr, length-drop,
}
use cse_344_system_programmi.Base.Text.{Str}
use cse_344_system_programmi.Final.Servant.Folders.{Folder, boundaries_loop, set_folder_boundaries}

-- Folders with new names, as far as there are names.
abbrev pub named : List Str → List Folder → List Folder
named [] fs = fs
named (x ∷ xs) [] = []
named (x ∷ xs) (f ∷ fs) = record f { name = x } ∷ named xs fs

boundaries_loop-cons :
    (directory : List Str) (lower rounds i : ℕ) (resp : List Folder) (name : Str)
    → get_elem? directory (i + lower - 1) ≡ some name
    → boundaries_loop directory lower (suc rounds) i resp
      ≡ boundaries_loop directory lower rounds (i + 1) (
          set resp i
            (record (get_or resp i (record { name = []; sub_names = [] })) { name = name }))
unfolding boundaries_loop
boundaries_loop-cons directory lower rounds i resp name e = rw (boundaries_loop, e) refl

store_name :
    (done : List Folder) (f : Folder) (rest : List Folder) (name : Str)
    → set
        (done ++ f ∷ rest)
        (length done)
        (record (get_or (done ++ f ∷ rest) (length done) (record { name = []; sub_names = [] })) {
          name = name;
        })
      ≡ (done ++ record f { name = name } ∷ []) ++ rest
store_name done f rest name =
    rw (get_or-middle done f rest (record { name = []; sub_names = [] }))
      (set-next done (record f { name = name }) f rest)

boundaries_loop-named :
    (directory : List Str) (lower rounds : ℕ) (done rest : List Folder) (names : List Str)
    → 0 < lower
    → drop (length done + lower - 1) directory ≡ names
    → rounds ≤ length names
    → rounds ≤ length rest
    → boundaries_loop directory lower rounds (length done) (done ++ rest)
      ≡ some (done ++ named (take rounds names) rest)
unfolding boundaries_loop
boundaries_loop-named directory lower zero done rest names pos from enough room = refl
boundaries_loop-named directory lower (suc rounds) done rest [] pos from enough room =
    absurd (omega arith)
boundaries_loop-named directory lower (suc rounds) done [] (x ∷ names) pos from enough room =
    absurd (omega arith)
boundaries_loop-named directory lower (suc rounds) done (f ∷ rest) (x ∷ names) pos from enough
      room =
    boundaries_loop-cons directory lower rounds (length done) (done ++ f ∷ rest) x
      (get_elem?-drop (length done + lower - 1) directory x names from)
    ∙ (ap (λ r. boundaries_loop directory lower rounds (length done + 1) r)
          (store_name done f rest x)
        ∙ (ap (λ i. boundaries_loop directory lower rounds i (done' ++ rest))
              (length-next done (record f { name = x }))
            ∙ (boundaries_loop-named directory lower rounds done' rest names pos from' (omega arith)
                  (omega arith)
                ∙ ap some (
                    append_assoc done (record f { name = x } ∷ [])
                      (named (take rounds names) rest)))))
  where
    done' : List Folder
    done' = done ++ record f { name = x } ∷ []

    next_place : suc (length done + lower - 1) ≡ length done' + lower - 1
    next_place = omega (arith, length-next done (record f { name = x }))

    from' : drop (length done' + lower - 1) directory ≡ names
    from' = rw next_place at (drop-next (length done + lower - 1) directory x names from)

-- With an upper bound of at most the number of names and enough room for the folders: with bounds
-- from 1 and in order, the folders are named by the names from the lower to the upper one, in order,
-- and their number is returned; with other bounds the array is indexed before its start or has no
-- room.
set_folder_boundaries-named :
    (directory : List Str) (resp_dir : List Folder) (lower upper : ℕ)
    → upper ≤ length directory
    → upper - lower + 1 ≤ length resp_dir
    → set_folder_boundaries directory resp_dir lower upper ≡ (
        if leb 1 lower && leb lower upper
        then some (
          named (take (upper - lower + 1) (drop (lower - 1) directory)) resp_dir,
          upper - lower + 1,
        )
        else none)
unfolding set_folder_boundaries
set_folder_boundaries-named directory resp_dir lower upper fits room =
    elim (Bool-cases (leb 1 lower && leb lower upper)) [
      | inl ordered ↦ rw (ordered, loop (ground arith) (ground arith)) refl
      | inr unordered ↦ rw unordered refl
    ]
  where
    place : 0 + lower - 1 ≡ lower - 1
    place = omega arith

    loop :
        1 ≤ lower
        → lower ≤ upper
        → boundaries_loop directory lower (upper - lower + 1) 0 resp_dir
          ≡ some (named (take (upper - lower + 1) (drop (lower - 1) directory)) resp_dir)
    loop low high =
        boundaries_loop-named directory lower (upper - lower + 1) [] resp_dir
          (drop (lower - 1) directory) low (ap (λ k. drop k directory) place)
          (omega (arith, length-drop (lower - 1) directory)) room

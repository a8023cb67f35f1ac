-- ===== src/Final/Servant/Folders/Listing.antt =====
-- The listing of a directory and the choice of the servant's folders, for Final/src/servant.c.
use mathlib.Core.List.{append_assoc}
use cse_344_system_programmi.Base.{
  ℕ, ◌+◌, ◌≤◌, ◌≡◌, ◌∙◌, refl, sym, ap, true, false, not, ◌&&◌, Option, some, List, [], ◌∷◌, ◌++◌,
  length, length-append, set-next, drop, ltb, ◌==◌, arith, if◌then◌else◌, Bool-cases, inl, inr,
}
use cse_344_system_programmi.Base.Text.{Str}
use cse_344_system_programmi.Final.Servant.Folders.{
  Entry, is_dot, list_step, list_loop, list_data_folders,
}

-- The names that the caller asks for, in the order of the directory.
abbrev pub listed : ℕ → List Entry → List Str
listed kind [] = []
listed kind ((name, type) ∷ entries) =
    let rest = listed kind entries in
    if type == kind && not (is_dot name) then name ∷ rest else rest

abbrev listing : List Str → ℕ → List Str × ℕ
listing d i = (d, i)

list_loop-cons :
    (kind : ℕ) (e : Entry) (entries : List Entry) (d d' : List Str) (i i' : ℕ)
    → list_step kind e d i ≡ some (d', i')
    → list_loop kind (e ∷ entries) d i ≡ list_loop kind entries d' i'
unfolding list_loop
list_loop-cons kind e entries d d' i i' h = rw (list_loop, h) refl

same_listing :
    {d d' : List Str} {i i' : ℕ} → d ≡ d' → i ≡ i' → some (listing d i) ≡ some (listing d' i')
same_listing d i = rw (d, i) refl

-- `listed`, as a relation.
data Selected (kind : ℕ) : List Entry → List Str → Type 0 where
  ended : Selected kind [] []
  taken :
      {name : Str} {type : ℕ} {entries : List Entry} {names : List Str}
      → (type == kind && not (is_dot name)) ≡ true
      → Selected kind entries names
      → Selected kind ((name, type) ∷ entries) (name ∷ names)
  skipped :
      {name : Str} {type : ℕ} {entries : List Entry} {names : List Str}
      → (type == kind && not (is_dot name)) ≡ false
      → Selected kind entries names
      → Selected kind ((name, type) ∷ entries) names

listed-Selected : (kind : ℕ) (entries : List Entry) → Selected kind entries (listed kind entries)
listed-Selected kind [] = ended
listed-Selected kind ((name, type) ∷ entries) =
    elim (Bool-cases (type == kind && not (is_dot name))) [
      | inl wants ↦ rw wants (taken wants (listed-Selected kind entries))
      | inr avoids ↦ rw avoids (skipped avoids (listed-Selected kind entries))
    ]

list_step-taken :
    (kind type : ℕ) (name : Str) (done : List Str) (o : Str) (rest : List Str)
    → (type == kind && not (is_dot name)) ≡ true
    → list_step kind (name, type) (done ++ o ∷ rest) (length done)
      ≡ some ((done ++ name ∷ []) ++ rest, length done + 1)
unfolding list_step
list_step-taken kind type name done o rest wants =
    let room : ltb (length done) (length (done ++ o ∷ rest)) ≡ true =
      ground (arith, length-append done (o ∷ rest)) in
    rw (wants, room, set-next done name o rest) refl

list_step-skipped :
    (kind type : ℕ) (name : Str) (d : List Str) (i : ℕ)
    → (type == kind && not (is_dot name)) ≡ false
    → list_step kind (name, type) d i ≡ some (d, i)
unfolding list_step
list_step-skipped kind type name d i avoids = rw avoids refl

list_loop-Selected :
    (kind : ℕ) (entries : List Entry) (names done rest : List Str)
    → Selected kind entries names
    → length names ≤ length rest
    → list_loop kind entries (done ++ rest) (length done)
      ≡ some (done ++ (names ++ drop (length names) rest), length done + length names)
unfolding list_loop
list_loop-Selected kind _ _ done rest ended room = same_listing refl (omega arith)
list_loop-Selected kind _ _ done [] (taken wants h) room = absurd (omega arith)
list_loop-Selected kind _ _ done (o ∷ rest)
      (taken {name = name} {type = type} {entries = entries} {names = names} wants h) room =
    list_loop-cons kind (name, type) entries (done ++ o ∷ rest) ((done ++ name ∷ []) ++ rest)
      (length done) (length done + 1) (list_step-taken kind type name done o rest wants)
    ∙ (ap (λ i. list_loop kind entries ((done ++ name ∷ []) ++ rest) i) next_index
        ∙ (list_loop-Selected kind entries names (done ++ name ∷ []) rest h (omega arith)
            ∙ same_listing (append_assoc done (name ∷ []) (names ++ drop (length names) rest))
                (omega (arith, next_index))))
  where
    next_index : length done + 1 ≡ length (done ++ name ∷ [])
    next_index = sym (length-append done (name ∷ []))
list_loop-Selected kind _ _ done rest
      (skipped {name = name} {type = type} {entries = entries} {names = names} avoids h) room =
    list_loop-cons kind (name, type) entries (done ++ rest) (done ++ rest) (length done)
      (length done) (list_step-skipped kind type name (done ++ rest) (length done) avoids)
    ∙ list_loop-Selected kind entries names done rest h room

-- On a directory that can be opened, with at most as many names of the kind that is asked for as the
-- array has entries, these names are stored from the start of the array in the order of the
-- directory, "." and ".." left out, the entries behind them stay, and their number is returned.
pub list_data_folders-listed :
    (opendir : Str → Option (List Entry)) (path : Str) (entries : List Entry) (directory : List Str)
    (kind : ℕ)
    → opendir path ≡ some entries
    → length (listed kind entries) ≤ length directory
    → list_data_folders opendir path directory kind
      ≡ some (
        listed kind entries ++ drop (length (listed kind entries)) directory,
        length (listed kind entries),
      )
unfolding list_data_folders
list_data_folders-listed opendir path entries directory kind opens room =
    let loop =
      list_loop-Selected kind entries (listed kind entries) [] directory
        (listed-Selected kind entries) room
      ∙ same_listing refl (omega arith) in
    rw (list_data_folders, opens) loop

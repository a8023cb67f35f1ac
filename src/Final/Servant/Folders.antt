-- ===== src/Final/Servant/Folders.antt =====
-- Final/src/servant.c: which folders a servant is responsible for, and the loading of their files.
-- The file system is two parameters: the entries of a directory and the bytes of a file, by path.
-- Of the kinds of an entry, 4 is DT_DIR and 8 is DT_REG. `none` is a call of `exit`, or a write or a
-- read behind an array.
pub mod Listing
pub mod Boundaries
pub mod Loading
mod Tests
use cse_344_system_programmi.Base.{
  ℕ, zero, suc, ◌+◌, ◌-◌, ◌<◌, Bool, true, false, not, ◌&&◌, ◌||◌, Option, none, some, List, [],
  ◌∷◌, ◌++◌, length, get_elem?, get_or, set, ltb, leb, ◌==◌, if◌then◌else◌,
}
use cse_344_system_programmi.Base.Int.{ℤ, pos, negsuc}
use cse_344_system_programmi.Base.Text.{Str, codes, atoi, str_eq}
use cse_344_system_programmi.Final.Structs.{Date, TransactionArg, DateFile, City, city_name_size}
use cse_344_system_programmi.Final.Structs.Sorting.{sort_folders}
use cse_344_system_programmi.Final.Words.{get_date}
use cse_344_system_programmi.Final.Servant.{DataSet}
use cse_344_system_programmi.Final.Servant.Files.{read_data_file}

-- `str + i + 1`, where `i` is the place of the first '-' or else the length.
pub after_dash : Str → Option Str
after_dash [] = none
after_dash (c ∷ str) = if c == b'-' then some str else after_dash str

pub get_border : Str → Option (ℤ × ℤ)
unfolding after_dash
get_border str = elim (after_dash str) [ none ↦ none | some rest ↦ some (atoi str, atoi rest) ]

-- A directory entry: `d_name` and `d_type`.
abbrev pub Entry : Type 0
Entry = Str × ℕ

abbrev pub is_dot : Str → Bool
is_dot name = str_eq name (codes ".") || str_eq name (codes "..")

-- One turn of the loop of `list_data_folders`.
pub list_step : ℕ → Entry → List Str → ℕ → Option (List Str × ℕ)
list_step kind (name, type) directory index =
    if type == kind && not (is_dot name)
    then (if ltb index (length directory) then some (set directory index name, index + 1) else none)
    else some (directory, index)

-- The loop, over what `readdir` returns.
pub list_loop : ℕ → List Entry → List Str → ℕ → Option (List Str × ℕ)
unfolding list_step
list_loop kind [] directory index = some (directory, index)
list_loop kind (e ∷ entries) directory index = elim (list_step kind e directory index) [
  | none ↦ none
  | some (directory', index') ↦ list_loop kind entries directory' index'
]

module _ (opendir : Str → Option (List Entry)) where
  pub list_data_folders : Str → List Str → ℕ → Option (List Str × ℕ)
  unfolding list_loop
  list_data_folders path directory kind = elim (opendir path) [
    | none ↦ none
    | some entries ↦ list_loop kind entries directory 0
  ]

-- `struct folder`
pub record Folder : Type 0 where
  pub name : Str
  pub sub_names : List Str

-- for(i = 0; i < *upper_bound - *lower_bound + 1; i++), by the rounds left.
pub boundaries_loop : List Str → ℕ → ℕ → ℕ → List Folder → Option (List Folder)
boundaries_loop directory lower_bound zero i resp_dir = some resp_dir
boundaries_loop directory lower_bound (suc rounds) i resp_dir =
    elim (get_elem? directory (i + lower_bound - 1)) [
      | none ↦ none
      | some name ↦ boundaries_loop directory lower_bound rounds (i + 1) (
          set resp_dir i
            (record (get_or resp_dir i (record { name = []; sub_names = [] })) { name = name }))
    ]

-- The bounds are at least 1 and in order: else the code indexes before the array.
pub set_folder_boundaries : List Str → List Folder → ℕ → ℕ → Option (List Folder × ℕ)
unfolding boundaries_loop
set_folder_boundaries directory resp_dir lower_bound upper_bound =
    if leb 1 lower_bound && leb lower_bound upper_bound
    then elim (boundaries_loop directory lower_bound (upper_bound - lower_bound + 1) 0 resp_dir) [
      | none ↦ none
      | some resp_dir' ↦ some (resp_dir', upper_bound - lower_bound + 1)
    ]
    else none

-- `strcpy(resp_dir[i].sub_names[j], sub_folders[j])` for the first `n` of them.
pub copy_names : ℕ → List Str → List Str → Option (List Str)
copy_names zero sub_folders sub_names = some sub_names
copy_names (suc n) [] sub_names = none
copy_names (suc n) (x ∷ sub_folders) [] = none
copy_names (suc n) (x ∷ sub_folders) (y ∷ sub_names) = elim (copy_names n sub_folders sub_names) [
  | none ↦ none
  | some rest ↦ some (x ∷ rest)
]

abbrev pub slash : Str
slash = codes "/"

module _ (opendir : Str → Option (List Entry)) (directory_path : Str) where
  -- The folders from the `i`th with their files' names, and the number of files of the last one.
  pub get_sub_folders :
      List Folder → (sub_folders : List Str) → (num_data : ℕ) → Option (List Folder × ℕ)
  unfolding list_data_folders copy_names
  get_sub_folders [] sub_folders num_data = some ([], num_data)
  get_sub_folders (f ∷ resp_dir) sub_folders num_data =
      elim (list_data_folders opendir (directory_path ++ slash ++ f.name) sub_folders 8) [
        | none ↦ none
        | some (sub_folders', counter) ↦ elim (copy_names counter sub_folders' f.sub_names) [
          | none ↦ none
          | some names ↦ elim (get_sub_folders resp_dir sub_folders' counter) [
            | none ↦ none
            | some (rest, num_data') ↦ some (record f { sub_names = names } ∷ rest, num_data')
          ]
        ]
      ]

-- `behind` is what the array of a file's name holds behind the NUL of the name.
module _ (open_file : Str → Option (List ℕ)) (directory_path : Str) (behind : Str → List ℕ) where
  abbrev pub path_of : Folder → Str → Str
  path_of f sub = directory_path ++ slash ++ f.name ++ slash ++ sub

  abbrev pub with_file :
      Folder → ℕ → ℕ → City → Str → Option (List TransactionArg × ℕ) → Option City
  with_file f number j c sub none = none
  with_file f number j c sub (some (transactions, count)) =
      if ltb (length f.name) city_name_size
      then some (record {
        city_name = f.name;
        date_file = set c.date_file j (record {
          date = get_date (sub ++ 0 ∷ behind sub);
          transaction = transactions;
          transaction_count = count;
        });
        date_file_count = number;
      })
      else none

  abbrev pub read_into : DateFile → Option (List ℕ) → Option (List TransactionArg × ℕ)
  read_into df none = none
  read_into df (some file) = read_data_file file df.transaction

  -- One file of one folder; `number` is `number_of_transactions_file`.
  pub date_step : Folder → ℕ → ℕ → City → Option City
  date_step f number j c = elim (get_elem? f.sub_names j) [
    | none ↦ none
    | some sub ↦ elim (get_elem? c.date_file j) [
      | none ↦ none
      | some df ↦ with_file f number j c sub (read_into df (open_file (path_of f sub)))
    ]
  ]

  pub date_loop : Folder → ℕ → (rounds j : ℕ) → City → Option City
  unfolding date_step
  date_loop f number zero j c = some c
  date_loop f number (suc rounds) j c = elim (date_step f number j c) [
    | none ↦ none
    | some c' ↦ date_loop f number rounds (j + 1) c'
  ]

  -- The loop over the folders, along the array of cities.
  pub get_data_from_dataset : List Folder → ℕ → List City → Option (List City)
  unfolding date_loop
  get_data_from_dataset [] number cities = some cities
  get_data_from_dataset (f ∷ resp_dir) number [] = none
  get_data_from_dataset (f ∷ resp_dir) number (c ∷ cities) = elim (date_loop f number number 0 c) [
    | none ↦ none
    | some c' ↦ elim (get_data_from_dataset resp_dir number cities) [
      | none ↦ none
      | some rest ↦ some (c' ∷ rest)
    ]
  ]

module _ (opendir : Str → Option (List Entry)) (open_file : Str → Option (List ℕ))
    (directory_path : Str) (behind : Str → List ℕ) where
  -- `main`, up to the servant's registration.
  pub load :
      (main_directory sub_folders : List Str) (resp_dir : List Folder) (cities : List City)
      → ℕ
      → ℕ
      → Option DataSet
  unfolding list_data_folders set_folder_boundaries get_sub_folders get_data_from_dataset
  load main_directory sub_folders resp_dir cities lower_bound upper_bound =
      elim (list_data_folders opendir directory_path main_directory 4) [
        | none ↦ none
        | some (directory, counter) ↦
            elim (set_folder_boundaries (sort_folders directory counter) resp_dir lower_bound
              upper_bound) [
                | none ↦ none
                | some (resp, number) ↦
                    elim (get_sub_folders opendir directory_path resp sub_folders 0) [
                      | none ↦ none
                      | some (resp', num_data) ↦
                          elim (get_data_from_dataset open_file directory_path behind resp' num_data
                            cities) [
                              | none ↦ none
                              | some cities' ↦ some (record {
                                cities = cities';
                                responsible_directories_counter = number;
                              })
                            ]
                    ]
              ]
      ]

-- ===== src/Final/Servant/Folders/Loading.antt =====
-- The loading of the data set, for `get_data_from_dataset` of Final/src/servant.c.
use mathlib.Core.List.{append_assoc}
use cse_344_system_programmi.Base.{
  ℕ, suc, ◌+◌, ◌≤◌, ◌<◌, ◌≡◌, ◌≢◌, ◌∙◌, refl, sym, ap, true, Option, some, List, [], ◌∷◌, ◌++◌, map,
  length, length-next, get_elem?-middle, set-next, get_elem?-drop, drop-next, All, drop, get_elem?,
  ltb, arith,
}
use cse_344_system_programmi.Base.Text.{Str}
use cse_344_system_programmi.Final.Structs.{TransactionArg, DateFile, City, city_name_size}
use cse_344_system_programmi.Base.Int.{pos}
use cse_344_system_programmi.Final.Words.Calendar.{print_date, get_date-print_date}
use cse_344_system_programmi.Final.Servant.Files.Reading.{
  IsLine, text_of, transactions_of, read_data_file-lines,
}
use cse_344_system_programmi.Final.Servant.Folders.{
  Folder, path_of, date_step, date_loop, get_data_from_dataset,
}

-- The day that a file is named by: "dd-mm-yyyy".
pub record Day : Type 0 where
  pub day : ℕ
  pub month : ℕ
  pub year : ℕ
  pub day_short : day < 100
  pub month_short : month < 100
  pub year_short : year < 10000

abbrev pub name_of : Day → Str
name_of d = print_date d.day d.month d.year b'-' b'-' []

-- A file: its day, and its lines with what they stand for.
abbrev pub File : Type 0
File = Day × List (Str × TransactionArg)

abbrev pub loaded_file : DateFile → File → DateFile
loaded_file old (d, ls) = record {
  date = record { day = pos d.day; month = pos d.month; year = pos d.year };
  transaction = transactions_of ls ++ drop (length ls) old.transaction;
  transaction_count = length ls;
}

-- The first entries hold the files, the others stay.
abbrev pub loaded_files : List File → List DateFile → List DateFile
loaded_files [] olds = olds
loaded_files (x ∷ files) [] = []
loaded_files (x ∷ files) (old ∷ olds) = loaded_file old x ∷ loaded_files files olds

module _ (open_file : Str → Option (List ℕ)) (directory_path : Str) (behind : Str → List ℕ) where
  -- The file of a folder is in the file system, its lines parse, and it fits the entry.
  pub record IsFile (f : Folder) (x : File) (old : DateFile) : Type 0 where
    pub opens :
        open_file (path_of open_file directory_path behind f (name_of x.0)) ≡ some (text_of x.1)
    pub lines : All (λ l. IsLine l.0 l.1) x.1
    pub fits : length x.1 ≤ length old.transaction

  abbrev pub AreFiles : Folder → List File → List DateFile → Type 0
  AreFiles f [] olds = Unit
  AreFiles f (x ∷ files) [] = ⊥
  AreFiles f (x ∷ files) (old ∷ olds) = IsFile f x old × AreFiles f files olds

  abbrev city_of : Folder → ℕ → List DateFile → City
  city_of f number files = record {
    city_name = f.name;
    date_file = files;
    date_file_count = number;
  }

  date_step-file :
      (f : Folder) (number : ℕ) (c : City) (done : List DateFile) (old : DateFile)
      (olds : List DateFile) (x : File)
      → c.date_file ≡ done ++ old ∷ olds
      → get_elem? f.sub_names (length done) ≡ some (name_of x.0)
      → IsFile f x old
      → length f.name < city_name_size
      → date_step open_file directory_path behind f number (length done) c
        ≡ some (city_of f number ((done ++ loaded_file old x ∷ []) ++ olds))
  unfolding date_step
  date_step-file f number c done old olds x at_c sub h short =
      let here : get_elem? c.date_file (length done) ≡ some old =
        ap (λ l. get_elem? l (length done)) at_c ∙ get_elem?-middle done old olds in
      let room : ltb (length f.name) city_name_size ≡ true = ground arith in
      let contents = read_data_file-lines x.1 old.transaction h.lines h.fits in
      let date =
        get_date-print_date x.0.day x.0.month x.0.year 45 45 (0 ∷ behind (name_of x.0))
          x.0.day_short x.0.month_short x.0.year_short in
      rw (date_step, sub, here, h.opens, contents, room, date)
        (rw at_c (ap (λ l. some (city_of f number l)) (set-next done (loaded_file old x) old olds)))

  date_loop-cons :
      (f : Folder) (number rounds j : ℕ) (c c' : City)
      → date_step open_file directory_path behind f number j c ≡ some c'
      → date_loop open_file directory_path behind f number (suc rounds) j c
        ≡ date_loop open_file directory_path behind f number rounds (j + 1) c'
  unfolding date_loop
  date_loop-cons f number rounds j c c' e = rw (date_loop, e) refl

  -- From place `length done` on, the folder's names begin with those of the files.
  abbrev Names : Folder → ℕ → List File → Type 0
  Names f k files = (junk : List Str) × (drop k f.sub_names ≡ map (λ x. name_of x.0) files ++ junk)

  date_loop-files :
      (f : Folder) (number : ℕ) (files : List File) (done olds : List DateFile) (c : City)
      → c.date_file ≡ done ++ olds
      → (files ≡ [] → c ≡ city_of f number (done ++ olds))
      → Names f (length done) files
      → AreFiles f files olds
      → length f.name < city_name_size
      → date_loop open_file directory_path behind f number (length files) (length done) c
        ≡ some (city_of f number (done ++ loaded_files files olds))
  unfolding date_loop
  date_loop-files f number [] done olds c at_c begun ns h short = ap some (begun refl)
  date_loop-files f number (x ∷ files) done [] c at_c begun ns h short = absurd h
  date_loop-files f number (x ∷ files) done (old ∷ olds) c at_c begun ns h short =
      date_loop-cons f number (length files) (length done) c (city_of f number (done' ++ olds)) (
        date_step-file f number c done old olds x at_c
          (get_elem?-drop (length done) f.sub_names (name_of x.0)
            (map (λ x. name_of x.0) files ++ ns.0) ns.1)
          h.0 short)
      ∙ (ap
            (λ j.
              date_loop open_file directory_path behind f number (length files) j
                (city_of f number (done' ++ olds)))
            next_place
          ∙ (date_loop-files f number files done' olds (city_of f number (done' ++ olds)) refl
                (λ e. refl)
                (
                  ns.0,
                  rw next_place' at (
                      drop-next (length done) f.sub_names (name_of x.0)
                        (map (λ x. name_of x.0) files ++ ns.0) ns.1),
                )
                h.1 short
              ∙ ap (λ l. some (city_of f number l))
                  (append_assoc done (loaded_file old x ∷ []) (loaded_files files olds))))
    where
      done' : List DateFile
      done' = done ++ loaded_file old x ∷ []

      next_place : length done + 1 ≡ length done'
      next_place = length-next done (loaded_file old x)

      next_place' : suc (length done) ≡ length done'
      next_place' = omega (arith, next_place)

  -- A folder with its files, and the city that holds them afterwards.
  abbrev pub loaded_city : ℕ → Folder × List File → City → City
  loaded_city number (f, files) c = city_of f number (loaded_files files c.date_file)

  abbrev pub loaded_cities : ℕ → List (Folder × List File) → List City → List City
  loaded_cities number [] cities = cities
  loaded_cities number (p ∷ folders) [] = []
  loaded_cities number (p ∷ folders) (c ∷ cities) =
      loaded_city number p c ∷ loaded_cities number folders cities

  -- Each folder has `number` files, at least one, all of which are in the file system and fit.
  pub record IsFolder (number : ℕ) (p : Folder × List File) (c : City) : Type 0 where
    pub some_files : 0 < length p.1
    pub number_files : length p.1 ≡ number
    pub names : Names p.0 0 p.1
    pub files : AreFiles p.0 p.1 c.date_file
    pub short : length p.0.name < city_name_size

  abbrev pub AreFolders : ℕ → List (Folder × List File) → List City → Type 0
  AreFolders number [] cities = Unit
  AreFolders number (p ∷ folders) [] = ⊥
  AreFolders number (p ∷ folders) (c ∷ cities) =
      IsFolder number p c × AreFolders number folders cities

  date_loop-folder :
      (number : ℕ) (p : Folder × List File) (c : City)
      → IsFolder number p c
      → date_loop open_file directory_path behind p.0 number number 0 c
        ≡ some (loaded_city number p c)
  date_loop-folder number (f, files) c h =
      ap (λ n. date_loop open_file directory_path behind f number n 0 c) (sym h.number_files)
      ∙ date_loop-files f number files [] c.date_file c refl
          (λ e. absurd (none_of files h.some_files e)) h.names h.files h.short
    where
      none_of : (files : List File) → 0 < length files → files ≢ []
      none_of [] lt e = omega arith
      none_of (x ∷ files) lt e = cc

  -- If each folder has the same number of files, at least one, and these parse and fit, then each
  -- folder becomes a city of its name, with one entry for each file: the day that its name says, the
  -- transactions that its lines say, in order, and their number. The other entries stay.
  pub get_data_from_dataset-loaded :
      (number : ℕ) (folders : List (Folder × List File)) (cities : List City)
      → AreFolders number folders cities
      → get_data_from_dataset open_file directory_path behind (map (λ p. p.0) folders) number cities
        ≡ some (loaded_cities number folders cities)
  unfolding get_data_from_dataset
  get_data_from_dataset-loaded number [] cities h = refl
  get_data_from_dataset-loaded number (p ∷ folders) [] h = absurd h
  get_data_from_dataset-loaded number (p ∷ folders) (c ∷ cities) h =
      rw
        (
          get_data_from_dataset,
          date_loop-folder number p c h.0,
          get_data_from_dataset-loaded number folders cities h.1,
        )
        refl

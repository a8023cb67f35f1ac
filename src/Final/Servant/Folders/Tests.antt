-- ===== src/Final/Servant/Folders/Tests.antt =====
-- The theorems on folders at a directory of two cities and a file of one line.
use cse_344_system_programmi.Base.{ℕ, ◌≡◌, refl, Option, some, List, [], ◌∷◌, arith}
use cse_344_system_programmi.Base.Int.{pos}
use cse_344_system_programmi.Base.Text.{Str, codes}
use cse_344_system_programmi.Final.Structs.{TransactionArg, DateFile, City}
use cse_344_system_programmi.Final.Servant.Files.Reading.{text_of}
use cse_344_system_programmi.Final.Servant.Files.Tests.{line, villa, empty_entry, line-IsLine}
use cse_344_system_programmi.Final.Servant.Folders.{Entry, Folder, get_data_from_dataset}
use cse_344_system_programmi.Final.Servant.Folders.Loading.{
  Day, File, AreFolders, loaded_cities, get_data_from_dataset-loaded,
}

abbrev entries : List Entry
entries = (codes ".", 4) ∷ (codes "ADANA", 4) ∷ (codes "notes", 8) ∷ (codes "BURSA", 4) ∷ []

abbrev opendir : Str → Option (List Entry)
opendir path = some entries

abbrev no_folder : Folder
no_folder = record { name = []; sub_names = codes "01-01-2000" ∷ [] }

abbrev bursa : Folder
bursa = record no_folder { name = codes "BURSA" }

abbrev blank_file : DateFile
blank_file = record {
  date = record { day = pos 0; month = pos 0; year = pos 0 };
  transaction = empty_entry ∷ [];
  transaction_count = 0;
}

abbrev blank_city : City
blank_city = record { city_name = []; date_file = blank_file ∷ []; date_file_count = 0 }

abbrev one_line : List (Str × TransactionArg)
one_line = (line, villa) ∷ []

abbrev open_file : Str → Option (List ℕ)
open_file path = some (text_of one_line)

abbrev new_year : Day
new_year = record {
  day = 1;
  month = 1;
  year = 2000;
  day_short = omega arith;
  month_short = omega arith;
  year_short = omega arith;
}

abbrev behind : Str → List ℕ
behind name = []

abbrev folders : List (Folder × List File)
folders = (bursa, (new_year, one_line) ∷ []) ∷ []

folders-AreFolders : AreFolders open_file (codes "data") behind 1 folders (blank_city ∷ [])
folders-AreFolders = (
  record {
    some_files = omega arith;
    number_files = refl;
    names = ([], refl);
    files = (record { opens = refl; lines = (line-IsLine, tt); fits = omega arith }, tt);
    short = omega arith;
  },
  tt,
)

get_data_from_dataset-loaded_example :
    get_data_from_dataset open_file (codes "data") behind (bursa ∷ []) 1 (blank_city ∷ [])
    ≡ some (loaded_cities open_file (codes "data") behind 1 folders (blank_city ∷ []))
get_data_from_dataset-loaded_example =
    get_data_from_dataset-loaded open_file (codes "data") behind 1 folders (blank_city ∷ [])
      folders-AreFolders

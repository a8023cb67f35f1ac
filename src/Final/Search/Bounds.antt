-- ===== src/Final/Search/Bounds.antt =====
-- The counters of a servant stay in the range of `int`.
use cse_344_system_programmi.Base.{
  ℕ, ◌*◌, ◌^◌, ◌≤◌, ◌<◌, List, [], ◌∷◌, take, arith, length, length-append, length-map, length-take,
  All, All-take,
}
use cse_344_system_programmi.Base.Counting.{Counts-le}
use cse_344_system_programmi.Base.Text.{Str}
use cse_344_system_programmi.Final.Structs.{DateFile, City, ServerToServant}
use cse_344_system_programmi.Final.Search.{calculate_transaction}
use cse_344_system_programmi.Final.Search.Counts.{
  entry, entries_of_file, entries_of_files, entries_of_city, entries, calculate_transaction-Counts,
}

-- REAL_ESTATE_TRANSACTION_SIZE, DATE_FILE_SIZE and CITY_SIZE of structs.h.
abbrev pub real_estate_transaction_size : ℕ
real_estate_transaction_size = 128

abbrev pub date_file_size : ℕ
date_file_size = 128

abbrev pub city_size : ℕ
city_size = 200

-- The counts of a city stay within its arrays.
abbrev pub Fits : City → Type 0
Fits c =
    (c.date_file_count ≤ date_file_size)
    × All (λ (f : DateFile). f.transaction_count ≤ real_estate_transaction_size) c.date_file

length-entries_of_file :
    (name : Str) (f : DateFile) → length (entries_of_file name f) ≤ f.transaction_count
length-entries_of_file name f = omega (
  arith,
  length-map (take f.transaction_count f.transaction) (entry name f.date),
  length-take f.transaction_count f.transaction,
)

length-entries_of_files :
    (name : Str) (fs : List DateFile)
    → All (λ (f : DateFile). f.transaction_count ≤ real_estate_transaction_size) fs
    → length (entries_of_files name fs) ≤ length fs * real_estate_transaction_size
length-entries_of_files name [] h = omega arith
length-entries_of_files name (f ∷ fs) h = omega (
  arith,
  length-append (entries_of_file name f) (entries_of_files name fs),
  length-entries_of_file name f,
  length-entries_of_files name fs h.1,
  h.0,
)

length-entries_of_city :
    (c : City) → Fits c → length (entries_of_city c) ≤ date_file_size * real_estate_transaction_size
length-entries_of_city c (few, h) = omega (
  arith,
  length-entries_of_files c.city_name (take c.date_file_count c.date_file)
      (All-take _ c.date_file_count c.date_file h),
  length-take c.date_file_count c.date_file,
)

length-entries :
    (cs : List City)
    → All Fits cs
    → length (entries cs) ≤ length cs * (date_file_size * real_estate_transaction_size)
length-entries [] h = omega arith
length-entries (c ∷ cs) h = omega (
  arith,
  length-append (entries_of_city c) (entries cs),
  length-entries_of_city c h.0,
  length-entries cs h.1,
)

-- With counts that fit the arrays, and at most CITY_SIZE cities, the result of a query is at most
-- 200 * 128 * 128, far below 2^31: no counter of the loops overflows.
calculate_transaction_bound :
    (q : ServerToServant) (cities : List City) (len : ℕ)
    → len ≤ city_size
    → All Fits cities
    → (calculate_transaction cities len q
        ≤ city_size * (date_file_size * real_estate_transaction_size))
      × (calculate_transaction cities len q < 2 ^ 31)
calculate_transaction_bound q cities len le h = omega (
  arith,
  Counts-le (calculate_transaction-Counts q cities len),
  length-entries (take len cities) (All-take Fits len cities h),
  length-take len cities,
)

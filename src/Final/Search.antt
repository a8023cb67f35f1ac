-- ===== src/Final/Search.antt =====
-- Final/src/lib.c, the data searching functions: how a servant counts the transactions that a
-- query asks for. A loop over an array stops at the count or, where C would read on past the
-- array, at its end; the theorems that matter state that the counts fit the arrays.
pub mod Dates
pub mod Counts
pub mod Bounds
pub mod Samples
mod Tests
use cse_344_system_programmi.Base.{
  ℕ, zero, suc, ◌+◌, Bool, true, false, ◌&&◌, ◌||◌, List, [], ◌∷◌, if◌then◌else◌,
}
use cse_344_system_programmi.Base.Int.{ℤ, ltb_ℤ, eqb_ℤ}
use cse_344_system_programmi.Base.Text.{Str, str_eq, codes}
use cse_344_system_programmi.Final.Structs.{Date, TransactionArg, DateFile, City, ServerToServant}

-- Each early `return 0` is a branch; 1 and 0 are `true` and `false`.
pub in_between_date : Date → Date → Date → Bool
in_between_date start stop comp =
    if ltb_ℤ comp.year start.year || ltb_ℤ stop.year comp.year
    then false
    else if eqb_ℤ comp.year start.year && ltb_ℤ comp.month start.month
    then false
    else if eqb_ℤ comp.year stop.year && ltb_ℤ stop.month comp.month
    then false
    else if eqb_ℤ comp.year start.year && (eqb_ℤ comp.month start.month && ltb_ℤ comp.day start.day)
    then false
    else if eqb_ℤ comp.year stop.year && (eqb_ℤ comp.month stop.month && ltb_ℤ stop.day comp.day)
    then false
    else true

pub compare_transaction_arg : TransactionArg → ServerToServant → Bool
compare_transaction_arg t1 s2s = if str_eq t1.real_estate_type s2s.real_estate then true else false

-- for (i = 0; i < transaction_count; i++)
pub count_transactions : ℕ → List TransactionArg → ServerToServant → ℕ → ℕ
unfolding compare_transaction_arg
count_transactions zero ts s2s count = count
count_transactions (suc n) [] s2s count = count
count_transactions (suc n) (t ∷ ts) s2s count =
    count_transactions n ts s2s (if compare_transaction_arg t s2s then count + 1 else count)

pub calculate_transaction_in_date_file : DateFile → ServerToServant → ℕ
unfolding count_transactions
calculate_transaction_in_date_file df s2s =
    count_transactions df.transaction_count df.transaction s2s 0

-- for (i = 0; i < date_file_count; i++)
pub count_date_files : ℕ → List DateFile → ServerToServant → ℕ → ℕ
unfolding in_between_date calculate_transaction_in_date_file
count_date_files zero fs req count = count
count_date_files (suc n) [] req count = count
count_date_files (suc n) (f ∷ fs) req count = count_date_files n fs req (
    if in_between_date req.start_date req.end_date f.date
    then count + calculate_transaction_in_date_file f req
    else count)

pub calculate_transaction_in_city : City → ServerToServant → ℕ
unfolding count_date_files
calculate_transaction_in_city c req = count_date_files c.date_file_count c.date_file req 0

abbrev pub all_cities : Str
all_cities = codes "all"

-- for (i = 0; i < len; i++)
pub count_cities : ℕ → List City → ServerToServant → ℕ → ℕ
unfolding calculate_transaction_in_city
count_cities zero cs req count = count
count_cities (suc n) [] req count = count
count_cities (suc n) (c ∷ cs) req count = count_cities n cs req (
    if str_eq req.city_name all_cities || str_eq req.city_name c.city_name
    then count + calculate_transaction_in_city c req
    else count)

unfoldable pub calculate_transaction : List City → ℕ → ServerToServant → ℕ
unfolding count_cities
calculate_transaction cities len req = count_cities len cities req 0

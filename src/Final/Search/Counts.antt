-- ===== src/Final/Search/Counts.antt =====
-- The nested loops of a servant count exactly the transactions that the query asks for.
use cse_344_system_programmi.Base.{
  ℕ, zero, suc, ◌+◌, ◌≡◌, ◌≢◌, ◌⊎◌, inl, inr, ◌↔◌, true, arith, ◌||◌, List, [], ◌∷◌, ◌++◌, map,
  take, Bool-cases, All,
}
use cse_344_system_programmi.Base.Counting.{
  Counts, none_left, hit, miss, Counts-append, Counts-zero_of_map,
}
use cse_344_system_programmi.Base.Text.{Str, str_eq, str_eq_iff}
use cse_344_system_programmi.Final.Structs.{Date, TransactionArg, DateFile, City, ServerToServant}
use cse_344_system_programmi.Final.Search.{
  in_between_date, count_transactions, calculate_transaction_in_date_file, count_date_files,
  calculate_transaction_in_city, all_cities, count_cities, calculate_transaction,
}
use cse_344_system_programmi.Final.Search.Dates.{DateLe, in_between_date-iff_DateLe}

-- A transaction, with the city and the date that it is filed under.
pub record Entry : Type 0 where
  pub city : Str
  pub date : Date
  pub transaction : TransactionArg

abbrev pub entry : Str → Date → TransactionArg → Entry
entry name d t = record { city = name; date = d; transaction = t }

-- What a query asks for.
abbrev pub Asked : ServerToServant → Entry → Type 0
Asked q e =
    ((q.city_name ≡ all_cities) ⊎ (q.city_name ≡ e.city))
    × (DateLe q.start_date e.date × DateLe e.date q.end_date)
    × (e.transaction.real_estate_type ≡ q.real_estate)

-- The entries of the parts of the arrays that are in use.
abbrev pub entries_of_file : Str → DateFile → List Entry
entries_of_file name f = map (entry name f.date) (take f.transaction_count f.transaction)

abbrev pub entries_of_files : Str → List DateFile → List Entry
entries_of_files name [] = []
entries_of_files name (f ∷ fs) = entries_of_file name f ++ entries_of_files name fs

abbrev pub entries_of_city : City → List Entry
entries_of_city c = entries_of_files c.city_name (take c.date_file_count c.date_file)

abbrev pub entries : List City → List Entry
entries [] = []
entries (c ∷ cs) = entries_of_city c ++ entries cs

-- A loop that has counted `acc` goes on to `acc` and the count of the list `xs`.
abbrev GoesOn : ServerToServant → List Entry → ℕ → ℕ → Type 0
GoesOn q xs acc result = (r : ℕ) × (result ≡ acc + r) × Counts (Asked q) xs r

module _ (q : ServerToServant) where
  transactions-GoesOn :
      (name : Str) (d : Date)
      → (q.city_name ≡ all_cities) ⊎ (q.city_name ≡ name)
      → DateLe q.start_date d × DateLe d q.end_date
      → (n : ℕ) (ts : List TransactionArg) (acc : ℕ)
      → GoesOn q (map (entry name d) (take n ts)) acc (count_transactions n ts q acc)
  unfolding count_transactions
  transactions-GoesOn name d c w zero ts acc = (0, omega arith, none_left)
  transactions-GoesOn name d c w (suc n) [] acc = (0, omega arith, none_left)
  transactions-GoesOn name d c w (suc n) (t ∷ ts) acc =
      elim (Bool-cases (str_eq t.real_estate_type q.real_estate)) [
        | inl same ↦
            let (r, e, cs) = transactions-GoesOn name d c w n ts (acc + 1) in
            (suc r, rw same (omega arith), hit (c, w, (str_eq_iff _ _).0 same) cs)
        | inr other ↦
            let (r, e, cs) = transactions-GoesOn name d c w n ts acc in
            (r, rw other e, miss (λ p. ground (arith, (str_eq_iff _ _).1 p.2)) cs)
      ]

  file_miss :
      (name : Str) (f : DateFile)
      → ¬ (DateLe q.start_date f.date × DateLe f.date q.end_date)
      → Counts (Asked q) (entries_of_file name f) 0
  file_miss name f w = Counts-zero_of_map (entry name f.date) _ (λ t p. w p.1)

  pub files_miss :
      (name : Str) (fs : List DateFile)
      → ¬ ((q.city_name ≡ all_cities) ⊎ (q.city_name ≡ name))
      → Counts (Asked q) (entries_of_files name fs) 0
  files_miss name [] c = none_left
  files_miss name (f ∷ fs) c =
      Counts-append {m = 0} {n = 0} (Counts-zero_of_map (entry name f.date) _ (λ t p. c p.0))
        (files_miss name fs c)

  date_files-GoesOn :
      (name : Str)
      → (q.city_name ≡ all_cities) ⊎ (q.city_name ≡ name)
      → (n : ℕ) (fs : List DateFile) (acc : ℕ)
      → GoesOn q (entries_of_files name (take n fs)) acc (count_date_files n fs q acc)
  unfolding count_date_files
  date_files-GoesOn name c zero fs acc = (0, omega arith, none_left)
  date_files-GoesOn name c (suc n) [] acc = (0, omega arith, none_left)
  date_files-GoesOn name c (suc n) (f ∷ fs) acc =
      elim (Bool-cases (in_between_date q.start_date q.end_date f.date)) [
        | inl inside ↦
            let (k, d, ks) =
              transactions-GoesOn name f.date c
                ((in_between_date-iff_DateLe q.start_date q.end_date f.date).0 inside)
                f.transaction_count f.transaction 0 in
            let (r, e, rs) =
              date_files-GoesOn name c n fs (acc + calculate_transaction_in_date_file f q) in
            (k + r, rw inside (omega arith), Counts-append ks rs)
        | inr outside ↦
            let (r, e, rs) = date_files-GoesOn name c n fs acc in
            (
              0 + r,
              rw outside (omega arith),
              Counts-append
                  (file_miss name f (λ p.
                    ground
                      (arith, (in_between_date-iff_DateLe q.start_date q.end_date f.date).1 p)))
                  rs,
            )
      ]

  -- The test on the city's name, as the query means it.
  name_test_iff :
      (name : Str)
      → ((str_eq q.city_name all_cities || str_eq q.city_name name) ≡ true)
        ↔ ((q.city_name ≡ all_cities) ⊎ (q.city_name ≡ name))
  name_test_iff name = (
    λ h. ground (arith, str_eq_iff q.city_name all_cities, str_eq_iff q.city_name name),
    λ h. ground (arith, str_eq_iff q.city_name all_cities, str_eq_iff q.city_name name),
  )

  cities-GoesOn :
      (n : ℕ) (cs : List City) (acc : ℕ)
      → GoesOn q (entries (take n cs)) acc (count_cities n cs q acc)
  unfolding count_cities
  cities-GoesOn zero cs acc = (0, omega arith, none_left)
  cities-GoesOn (suc n) [] acc = (0, omega arith, none_left)
  cities-GoesOn (suc n) (c ∷ cs) acc =
      elim (Bool-cases (str_eq q.city_name all_cities || str_eq q.city_name c.city_name)) [
        | inl named ↦
            let (k, d, ks) =
              date_files-GoesOn c.city_name ((name_test_iff c.city_name).0 named) c.date_file_count
                c.date_file 0 in
            let (r, e, rs) = cities-GoesOn n cs (acc + calculate_transaction_in_city c q) in
            (k + r, rw named (omega arith), Counts-append ks rs)
        | inr other ↦
            let (r, e, rs) = cities-GoesOn n cs acc in
            (
              0 + r,
              rw other (omega arith),
              Counts-append
                  (files_miss c.city_name (take c.date_file_count c.date_file)
                    (λ p. ground (arith, (name_test_iff c.city_name).1 p)))
                  rs,
            )
      ]

  -- `calculate_transaction` returns the number of transactions, in the used parts of the first
  -- `len` cities, of a city that is asked for, filed under a date from the first to the last one,
  -- and of the type that is asked for.
  pub calculate_transaction-Counts :
      (cities : List City) (len : ℕ)
      → Counts (Asked q) (entries (take len cities)) (calculate_transaction cities len q)
  unfolding calculate_transaction
  calculate_transaction-Counts cities len =
      let (r, e, cs) = cities-GoesOn len cities 0 in
      let e' : r ≡ count_cities len cities q 0 = omega arith in rw (← e') cs

  -- Where every city has another name than the one asked for, nothing is counted.
  pub cities_miss :
      (cs : List City)
      → q.city_name ≢ all_cities
      → All (λ (c : City). q.city_name ≢ c.city_name) cs
      → Counts (Asked q) (entries cs) 0
  cities_miss [] one h = none_left
  cities_miss (c ∷ cs) one h =
      Counts-append {m = 0} {n = 0}
        (files_miss c.city_name (take c.date_file_count c.date_file) (λ e. ground arith))
        (cities_miss cs one h.1)

-- ===== src/Final/Search/Samples.antt =====
-- Two cities and queries over them, for the tests.
use cse_344_system_programmi.Base.{ℕ, [], ◌∷◌}
use cse_344_system_programmi.Base.Int.{pos}
use cse_344_system_programmi.Base.Text.{Str, codes}
use cse_344_system_programmi.Final.Structs.{Date, TransactionArg, City, ServerToServant}

abbrev pub a_date : ℕ → ℕ → ℕ → Date
a_date d m y = record { day = pos d; month = pos m; year = pos y }

abbrev pub sale : ℕ → Str → TransactionArg
sale n kind = record {
  transaction_id = pos n;
  real_estate_type = kind;
  city_name = codes "VAN";
  surface_area = pos 90;
  price = pos 1000;
}

abbrev pub van : City
van = record {
  city_name = codes "VAN";
  date_file =
      record {
        date = a_date 31 12 2021;
        transaction = sale 1 (codes "VILLA") ∷ sale 2 (codes "FIELD") ∷ sale 3 (codes "VILLA") ∷ [];
        transaction_count = 3;
      }
      ∷ record {
        date = a_date 1 2 2022;
        transaction = sale 4 (codes "VILLA") ∷ [];
        transaction_count = 1;
      }
      ∷ [];
  date_file_count = 2;
}

abbrev pub bolu : City
bolu = record van { city_name = codes "BOLU" }

abbrev pub query : Str → ServerToServant
query name = record {
  start_date = a_date 15 1 2021;
  end_date = a_date 1 1 2022;
  real_estate = codes "VILLA";
  city_name = name;
}

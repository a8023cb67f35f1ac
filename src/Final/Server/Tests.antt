-- ===== src/Final/Server/Tests.antt =====
-- Two servants with one city each, and the theorems of the server there.
use cse_344_system_programmi.Base.{
  ℕ, ◌≡◌, ◌≢◌, refl, List, [], ◌∷◌, ◌++◌, arith, Option, some, if◌then◌else◌,
}
use cse_344_system_programmi.Base.Int.{ℤ, pos, ◌+ℤ◌}
use cse_344_system_programmi.Base.Counting.{Counts}
use cse_344_system_programmi.Base.Text.{Str, codes, strcmp, str_eq, StrLe-trans, str_eq_iff}
use cse_344_system_programmi.Final.Structs.{ServerToServant, ServerRequest, Servant}
use cse_344_system_programmi.Final.Search.Samples.{a_date, van, bolu}
use cse_344_system_programmi.Final.Search.Counts.{Asked}
use cse_344_system_programmi.Final.Search.{all_cities, calculate_transaction}
use cse_344_system_programmi.Final.Servant.{DataSet, handle_query}
use cse_344_system_programmi.Final.Server.{
  Server, returns, minus_one, req_servant, handle_client, handle_request, create_servant_connection,
  servant_of,
}
use cse_344_system_programmi.Final.Server.Lookup.{InRange, OutOfRange}
use cse_344_system_programmi.Final.Server.Answers.{
  Serves, held_by_all, IsPartition, Answered, all_request-Counts, one_city_request-Answered,
}
use cse_344_system_programmi.Final.Server.Registry.{
  IsValid, handle_request-IsValid, no_servant_two_replies,
}

abbrev servant_at : ℕ → Str → Servant
servant_at port name = record {
  port_number = pos port;
  lower_bound = pos 1;
  upper_bound = pos 1;
  process_id = pos 7;
  ip_address = codes "127.0.0.1";
  lower_city_name = name;
  upper_city_name = name;
}

abbrev two_servants : List Servant
two_servants = servant_at 5000 (codes "BOLU") ∷ servant_at 5001 (codes "VAN") ∷ []

abbrev data_set : Servant → DataSet
data_set s =
    if str_eq s.lower_city_name (codes "BOLU")
    then record { cities = bolu ∷ []; responsible_directories_counter = 1 }
    else record { cities = van ∷ []; responsible_directories_counter = 1 }

abbrev ask : Servant → ServerToServant → Option ℤ
ask s q = some (handle_query (data_set s) q)

serves : Serves ask data_set
serves s q = refl

abbrev server : Server
server = record { servants = two_servants; client_counter = 3; servant_counter = 2 }

abbrev no_servants : Server
no_servants = record { servants = []; client_counter = 0; servant_counter = 0 }

abbrev request : ℕ → Str → ServerRequest
request n name = record {
  kind = pos n;
  port_number = pos 6000;
  process_id = pos 9;
  lower_bound = pos 2;
  upper_bound = pos 3;
  lower_city_name = codes "MUS";
  upper_city_name = codes "RIZE";
  ip_address = codes "127.0.0.1";
  order_type = codes "transactionCount";
  real_estate = codes "VILLA";
  start_date = a_date 15 1 2021;
  end_date = a_date 1 1 2022;
  city_name = name;
}

all_cities_run : handle_client ask server (request 1 all_cities) ≡ returns server (pos 4 ∷ [])
unfolding handle_client handle_query calculate_transaction strcmp ◌+ℤ◌
all_cities_run = refl

all_request-Counts_example :
    (n : ℕ) × (handle_client ask server (request 1 all_cities) ≡ returns server (pos n ∷ []))
    × Counts (Asked (req_servant (request 1 all_cities))) (held_by_all ask data_set two_servants) n
all_request-Counts_example =
    all_request-Counts ask data_set serves server (request 1 all_cities) (omega arith) refl

-- A name in both ranges would put "VAN" before "BOLU".
apart :
    (name : Str)
    → InRange name (servant_at 5000 (codes "BOLU"))
    → OutOfRange name (servant_at 5001 (codes "VAN"))
unfolding strcmp
apart name p q = cc (StrLe-trans (codes "VAN") name (codes "BOLU") q.0 p.1)

two_servants-IsPartition : IsPartition ask data_set serves two_servants
unfolding strcmp
two_servants-IsPartition = record {
  covers = (((refl, refl), tt), (((refl, refl), tt), tt));
  disjoint = ((apart, tt), (tt, tt));
  ports = (refl, (refl, tt));
}

van-ne-all : codes "VAN" ≢ all_cities
unfolding strcmp
van-ne-all e = cc ((str_eq_iff (codes "VAN") all_cities).1 e)

one_city_request-Answered_example :
    Answered ask data_set serves server
      (request 1 (codes "VAN"))
      (handle_client ask server (request 1 (codes "VAN")))
one_city_request-Answered_example =
    one_city_request-Answered ask data_set serves server (request 1 (codes "VAN")) (omega arith)
      van-ne-all two_servants-IsPartition

server-IsValid : IsValid server
server-IsValid = record { room = omega arith; counted = refl }

abbrev three : Server
three = record server {
  servants = two_servants ++ servant_of (request 0 (codes "MUS")) ∷ [];
  servant_counter = 3;
}

registered : handle_request ask server (request 0 (codes "MUS")) ≡ returns three []
unfolding handle_request create_servant_connection
registered = refl

handle_request-IsValid_example : IsValid three × ◌≡◌ {A = ℕ} 6 6 × (three.servants ≡ three.servants)
handle_request-IsValid_example =
    handle_request-IsValid ask server three (request 0 (codes "MUS")) [] server-IsValid registered

no_servant_run :
    handle_client ask no_servants (request 1 (codes "VAN"))
    ≡ returns no_servants (minus_one ∷ minus_one ∷ [])
unfolding strcmp
no_servant_run = no_servant_two_replies ask no_servants (request 1 (codes "VAN")) refl

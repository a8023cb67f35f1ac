-- ===== src/Final/Client/Tests.antt =====
-- The theorems on the client at a file of two lines.
use mathlib.Core.List.{Perm}
use cse_344_system_programmi.Base.{ℕ, ◌≡◌, refl, none, some, List, [], ◌∷◌, map, arith}
use cse_344_system_programmi.Base.Int.{pos}
use cse_344_system_programmi.Base.Text.{Str, codes, All-of_is_plain}
use cse_344_system_programmi.Final.Structs.{Date, ServerRequest}
use cse_344_system_programmi.Final.Words.{get_date}
use cse_344_system_programmi.Final.Words.Splitting.{IsWord-of_is_free}
use cse_344_system_programmi.Final.Client.{client_main, ClientThreadArg, Sends}
use cse_344_system_programmi.Final.Client.Requests.{parse_request-spell}
use cse_344_system_programmi.Final.Client.Reading.{
  IsLine, text_of, requests_of, as_client, client_main-lines,
}

abbrev no_date : Date
no_date = record { day = pos 0; month = pos 0; year = pos 0 }

abbrev junk : ServerRequest
junk = record {
  kind = pos 0;
  port_number = pos 0;
  process_id = pos 0;
  lower_bound = pos 0;
  upper_bound = pos 0;
  lower_city_name = [];
  upper_city_name = [];
  ip_address = [];
  order_type = [];
  real_estate = [];
  start_date = no_date;
  end_date = no_date;
  city_name = [];
}

abbrev line : Str
line = codes "count villa 01-01-2000 31-12-2020"

abbrev parsed : ServerRequest
parsed = record junk {
  order_type = codes "count";
  real_estate = codes "villa";
  start_date = get_date (codes "01-01-2000");
  end_date = get_date (codes "31-12-2020");
  city_name = codes "all";
}

abbrev two_lines : List (ℕ × (Str × ServerRequest))
two_lines = (0, (line, parsed)) ∷ (2, (line, parsed)) ∷ []

line-IsLine : IsLine junk line parsed
line-IsLine = record {
  some_bytes = omega arith;
  fits = omega arith;
  no_break = All-of_is_plain line refl;
  parses =
      parse_request-spell junk (codes "count") (codes "villa") (codes "01-01-2000")
        (codes "31-12-2020") 0 0 0 none (IsWord-of_is_free 32 _ _ refl refl, omega arith)
        (IsWord-of_is_free 32 _ _ refl refl, omega arith) (IsWord-of_is_free 32 _ _ refl refl)
        (IsWord-of_is_free 32 _ _ refl refl) tt;
}

client_main-lines_example :
    (threads : List ClientThreadArg) × (client_main junk
        (pos 5000)
        (codes "127.0.0.1")
        (text_of two_lines)
      ≡ some threads)
    × ((sent : List ServerRequest)
        → Sends threads sent
        → Perm sent (map as_client (requests_of two_lines)))
client_main-lines_example =
    client_main-lines junk (pos 5000) (codes "127.0.0.1") two_lines (line-IsLine, (line-IsLine, tt))
      (omega arith)

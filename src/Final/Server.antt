-- ===== src/Final/Server.antt =====
-- Final/src/server.c: how one request is handled. The servants are other processes: what one of
-- them answers is the parameter `ask`, `none` where `send` or `recv` reports an error. Every worker
-- takes `global_mutex` for each change of the counters and of the table, so a handler is a function
-- of the table at its time. Output on the terminal is left out.
pub mod Lookup
pub mod Answers
pub mod Registry
mod Tests
use cse_344_system_programmi.Base.{
  ℕ, zero, suc, ◌+◌, Bool, true, false, ◌&&◌, ◌||◌, Option, none, some, List, [], ◌∷◌, ◌++◌,
  if◌then◌else◌, ltb, ◌==◌, length,
}
use cse_344_system_programmi.Base.Int.{ℤ, pos, negsuc, ◌+ℤ◌, eqb_ℤ}
use cse_344_system_programmi.Base.Text.{Str, str_eq, str_le, str_ge, codes}
use cse_344_system_programmi.Final.Structs.{Date, ServerToServant, ServerRequest, Servant}
use cse_344_system_programmi.Final.Search.{all_cities}

abbrev pub max_servant_num : ℕ
max_servant_num = 100

-- The globals: the used part of the array `servants`, whose length is `servant_num`, and the
-- counters.
pub record Server : Type 0 where
  pub servants : List Servant
  pub client_counter : ℕ
  pub servant_counter : ℕ

abbrev pub servant_num : Server → ℕ
servant_num s = length s.servants

-- How a handler ends: it returns, with the values sent to the client in order; it calls `exit`; or
-- it writes behind the array `servants`, where C says nothing more.
pub data Outcome : Type 0 where
  returns : Server → List ℤ → Outcome
  exits : Outcome
  overrun : Outcome

abbrev pub minus_one : ℤ
minus_one = negsuc 0

abbrev pub servant_of : ServerRequest → Servant
servant_of req = record {
  port_number = req.port_number;
  lower_bound = req.lower_bound;
  upper_bound = req.upper_bound;
  process_id = req.process_id;
  ip_address = req.ip_address;
  lower_city_name = req.lower_city_name;
  upper_city_name = req.upper_city_name;
}

-- `servants[servant_num++] = s`, with no test of the bound.
pub create_servant_connection : Server → ServerRequest → Outcome
create_servant_connection s req =
    if ltb (servant_num s) max_servant_num
    then returns (record s { servants = s.servants ++ servant_of req ∷ [] }) []
    else overrun

-- The first servant whose range of names holds the city. `none` stands for port -1.
pub get_servant_with_names : List Servant → Str → Option Servant
get_servant_with_names [] city_name = none
get_servant_with_names (s ∷ rest) city_name =
    if str_le s.lower_city_name city_name && str_ge s.upper_city_name city_name
    then some s
    else get_servant_with_names rest city_name

-- The fields of the request that go to a servant.
pub req_servant : ServerRequest → ServerToServant
req_servant req = record {
  start_date = req.start_date;
  end_date = req.end_date;
  real_estate = req.real_estate;
  city_name = req.city_name;
}

module _ (ask : Servant → ServerToServant → Option ℤ) where
  -- The loop of `response_with_multi_city`: `none` is the call of `exit`.
  pub sum_answers : List Servant → ServerToServant → ℤ → Option ℤ
  sum_answers [] q sum = some sum
  sum_answers (s ∷ rest) q sum = elim (ask s q) [
    | none ↦ none
    | some val ↦ sum_answers rest q (sum +ℤ val)
  ]

  pub response_with_multi_city : Server → ServerRequest → List ℤ → Outcome
  unfolding sum_answers req_servant
  response_with_multi_city s req sent = elim (sum_answers s.servants (req_servant req) (pos 0)) [
    | none ↦ exits
    | some sum ↦ returns s (sent ++ sum ∷ [])
  ]

  -- The end of `handle_client`, from the servant that was found.
  pub contact : Server → ServerRequest → List ℤ → Option Servant → Outcome
  unfolding req_servant
  contact s req sent none = returns s (sent ++ minus_one ∷ [])
  contact s req sent (some v) =
      if eqb_ℤ v.port_number minus_one
      then returns s (sent ++ minus_one ∷ [])
      else elim (ask v (req_servant req)) [ none ↦ exits | some val ↦ returns s (sent ++ val ∷ []) ]

  -- With no servant -1 is sent, and the function goes on.
  pub handle_client : Server → ServerRequest → Outcome
  unfolding response_with_multi_city contact get_servant_with_names
  handle_client s req =
      let sent : List ℤ = if servant_num s == 0 then minus_one ∷ [] else [] in
      if str_eq req.city_name all_cities
      then response_with_multi_city s req sent
      else contact s req sent (get_servant_with_names s.servants req.city_name)

  -- Type 0 is a servant, type 1 a client; any other type is counted as a client and ignored.
  pub handle_request : Server → ServerRequest → Outcome
  handle_request s req =
      let counted : Server =
        if eqb_ℤ req.kind (pos 0)
        then record s { servant_counter = s.servant_counter + 1 }
        else record s { client_counter = s.client_counter + 1 } in
      if eqb_ℤ req.kind (pos 0)
      then create_servant_connection counted req
      else if eqb_ℤ req.kind (pos 1)
      then handle_client counted req
      else returns counted []

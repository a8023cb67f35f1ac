-- ===== src/Final/Client.antt =====
-- Final/src/client.c: the file of requests and the threads that send them. `none` is a write or a
-- read behind an array. What fresh memory holds is the parameter `junk`.
pub mod Requests
pub mod Reading
mod Tests
use cse_344_system_programmi.Base.{
  ℕ, zero, suc, ◌+◌, ◌<◌, Bool, true, false, ◌&&◌, Option, none, some, List, [], ◌∷◌, ◌++◌, map,
  length, get_or, ltb, ◌==◌, if◌then◌else◌,
}
use cse_344_system_programmi.Base.Int.{ℤ, pos}
use cse_344_system_programmi.Base.Text.{Str, codes, c_str}
use cse_344_system_programmi.Final.Structs.{
  Date, ServerRequest, word_length, real_estate_size, city_name_size, max_line_byte,
}
use cse_344_system_programmi.Final.Words.{split_str, get_date}

abbrev pub max_req_num : ℕ
max_req_num = 1024

-- The fields that the words of a line set.
abbrev pub filled : ServerRequest → List Str → Str → ServerRequest
filled junk words city_name = record junk {
  order_type = get_or words 0 [];
  real_estate = get_or words 1 [];
  start_date = get_date (get_or words 2 []);
  end_date = get_date (get_or words 3 []);
  city_name = city_name;
}

-- `split_count` is 0 before and after each call.
pub parse_request : ServerRequest → Str → Option ServerRequest
parse_request junk request_str = elim (split_str request_str b' ' 0) [
  | none ↦ none
  | some (words, split_count) ↦
      let city : Str = if split_count == 4 then get_or words 4 [] else codes "all" in
      if ltb (length (get_or words 0 [])) word_length
        && (ltb (length (get_or words 1 [])) real_estate_size && ltb (length city) city_name_size)
      then some (filled junk words city)
      else none
]

abbrev with_request :
    List ServerRequest → Option ServerRequest → Option (List ℕ × List ServerRequest)
with_request req none = none
with_request req (some r) = some ([], req ++ r ∷ [])

-- One byte of the loop over the file, with the first `index` bytes of `buffer`.
pub read_step :
    ServerRequest → ℕ → List ℕ → List ServerRequest → Option (List ℕ × List ServerRequest)
unfolding parse_request
read_step junk c buffer req =
    if c == 10
    then (if length buffer == 0
        then some (buffer, req)
        else if ltb (length buffer) max_line_byte && ltb (length req) max_req_num
        then with_request req (parse_request junk (c_str buffer))
        else none)
    else (if ltb (length buffer) max_line_byte then some (buffer ++ c ∷ [], req) else none)

pub read_loop : ServerRequest → List ℕ → List ℕ → List ServerRequest → Option (List ServerRequest)
unfolding read_step
read_loop junk [] buffer req = some req
read_loop junk (c ∷ file) buffer req = elim (read_step junk c buffer req) [
  | none ↦ none
  | some (buffer', req') ↦ read_loop junk file buffer' req'
]

pub read_request_file : ServerRequest → List ℕ → Option (List ServerRequest)
unfolding read_loop
read_request_file junk file = read_loop junk file [] []

-- `struct client_thread_arg`
pub record ClientThreadArg : Type 0 where
  pub port_number : ℤ
  pub ip_address : Str
  pub nth : ℕ
  pub request : ServerRequest

-- The loop of `main` that creates the threads, from the `i`th.
pub create_threads : ℤ → Str → ℕ → List ServerRequest → List ClientThreadArg
create_threads port_number ip_address i [] = []
create_threads port_number ip_address i (r ∷ req) =
    record { port_number = port_number; ip_address = ip_address; nth = i; request = r }
    ∷ create_threads port_number ip_address (i + 1) req

-- The request that `thread_main` sends.
pub sent_by : ClientThreadArg → ServerRequest
sent_by arg = record arg.request { kind = pos 1 }

-- The threads that `main` creates, given the file.
pub client_main : ServerRequest → ℤ → Str → List ℕ → Option (List ClientThreadArg)
unfolding read_request_file create_threads
client_main junk port_number ip_address file = elim (read_request_file junk file) [
  | none ↦ none
  | some req ↦ some (create_threads port_number ip_address 0 req)
]

-- What threads send behind the barrier, in the order in which they come to it: any of them is next.
pub data Sends : List ClientThreadArg → List ServerRequest → Type 0 where
  all_sent : Sends [] []
  next :
      {sent : List ServerRequest} (before after : List ClientThreadArg) (arg : ClientThreadArg)
      → Sends (before ++ after) sent
      → Sends (before ++ arg ∷ after) (sent_by arg ∷ sent)

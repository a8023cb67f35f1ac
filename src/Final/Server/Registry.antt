-- ===== src/Final/Server/Registry.antt =====
-- The table of servants and the counters, over any sequence of requests.
use cse_344_system_programmi.Base.{
  ◌+◌, ◌≤◌, ◌≡◌, refl, arith, Option, none, some, List, [], ◌∷◌, ◌++◌, length, length-append,
  if◌then◌else◌,
}
use cse_344_system_programmi.Base.Int.{ℤ, pos, eqb_ℤ}
use cse_344_system_programmi.Base.Text.{Str, str_eq}
use cse_344_system_programmi.Final.Structs.{ServerToServant, ServerRequest, Servant}
use cse_344_system_programmi.Final.Search.{all_cities}
use cse_344_system_programmi.Final.Server.{
  Server, Outcome, returns, minus_one, servant_num, servant_of, max_servant_num,
  create_servant_connection, get_servant_with_names, req_servant, sum_answers,
  response_with_multi_city, contact, handle_client, handle_request,
}

-- The table fits its array, and each request of a servant has made one entry.
pub record IsValid (s : Server) : Type 0 where
  pub room : servant_num s ≤ max_servant_num
  pub counted : servant_num s ≡ s.servant_counter

get_servant_with_names-nil :
    (xs : List Servant) (name : Str) → length xs ≡ 0 → get_servant_with_names xs name ≡ none
unfolding get_servant_with_names
get_servant_with_names-nil [] name h = refl
get_servant_with_names-nil (x ∷ xs) name h = absurd (omega arith)

module _ (ask : Servant → ServerToServant → Option ℤ) where
  -- A client's request leaves the server as it is, whatever is sent.
  Unchanged : Server → Outcome → Type 0
  Unchanged s r = (s' : Server) (sent : List ℤ) → r ≡ returns s' sent → s' ≡ s

  handle_client-Unchanged :
      (s : Server) (req : ServerRequest) → Unchanged s (handle_client ask s req)
  unfolding Unchanged handle_client response_with_multi_city contact
  handle_client-Unchanged s req s' sent e = ground arith

  client_counted-Unchanged :
      (s : Server) (req : ServerRequest) (s' : Server) (sent : List ℤ)
      → handle_client ask (record s { client_counter = s.client_counter + 1 }) req ≡ returns s' sent
      → s' ≡ record s { client_counter = s.client_counter + 1 }
  unfolding Unchanged
  client_counted-Unchanged s req s' sent =
      handle_client-Unchanged (record s { client_counter = s.client_counter + 1 }) req s' sent

  sum_answers-nil :
      (xs : List Servant) (q : ServerToServant) (a : ℤ)
      → length xs ≡ 0
      → sum_answers ask xs q a ≡ some a
  unfolding sum_answers
  sum_answers-nil [] q a h = refl
  sum_answers-nil (x ∷ xs) q a h = absurd (omega arith)

  -- A request that is handled keeps the table valid, is counted once, and is the only thing that
  -- a servant's request adds to the table.
  pub handle_request-IsValid :
      (s s' : Server) (req : ServerRequest) (sent : List ℤ)
      → IsValid s
      → handle_request ask s req ≡ returns s' sent
      → IsValid s'
        × (s'.servant_counter + s'.client_counter ≡ s.servant_counter + s.client_counter + 1)
        × (s'.servants
            ≡ (if eqb_ℤ req.kind (pos 0) then s.servants ++ servant_of req ∷ [] else s.servants))
  unfolding handle_request create_servant_connection
  handle_request-IsValid s s' req sent v e = ground (
    arith,
    length-append s.servants (servant_of req ∷ []),
    client_counted-Unchanged s req s' sent,
  )

  -- While no servant is known, a client's request that is handled is answered twice: by -1, and
  -- then by 0 if it asks for "all" cities and by -1 again if it asks for one.
  pub no_servant_two_replies :
      (s : Server) (req : ServerRequest)
      → servant_num s ≡ 0
      → handle_client ask s req
        ≡ returns s
            (minus_one ∷ (if str_eq req.city_name all_cities then pos 0 else minus_one) ∷ [])
  unfolding handle_client response_with_multi_city contact
  no_servant_two_replies s req h = ground (
    arith,
    sum_answers-nil s.servants (req_servant req) (pos 0) h,
    get_servant_with_names-nil s.servants req.city_name h,
  )

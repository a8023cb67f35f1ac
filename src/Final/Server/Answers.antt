-- ===== src/Final/Server/Answers.antt =====
-- What a client is told, against the transactions that all servants hold together.
use cse_344_system_programmi.Base.{
  ℕ, ◌+◌, ◌<◌, ◌≡◌, ◌≢◌, ◌⊎◌, inl, inr, refl, sym, false, arith, Option, none, some, List, [], ◌∷◌,
  ◌++◌, take, All, All-imp,
}
use cse_344_system_programmi.Base.Int.{ℤ, pos, ◌+ℤ◌, eqb_ℤ}
use cse_344_system_programmi.Base.Counting.{
  Counts, none_left, Counts-append, Counts-skip, Counts-only,
}
use cse_344_system_programmi.Base.Text.{Str, str_eq_iff}
use cse_344_system_programmi.Final.Structs.{City, ServerToServant, ServerRequest, Servant}
use cse_344_system_programmi.Final.Search.{all_cities, calculate_transaction}
use cse_344_system_programmi.Final.Search.Counts.{
  Asked, Entry, entries, cities_miss, calculate_transaction-Counts,
}
use cse_344_system_programmi.Final.Servant.{DataSet, handle_query}
use cse_344_system_programmi.Final.Server.{
  Server, Outcome, returns, minus_one, servant_num, get_servant_with_names, req_servant,
  sum_answers, response_with_multi_city, contact, handle_client,
}
use cse_344_system_programmi.Final.Server.Lookup.{
  InRange, OutOfRange, Looked, get_servant_with_names-Looked,
}
use mathlib.Core.Path.{subst}

abbrev pub held : DataSet → List Entry
held d = entries (take d.responsible_directories_counter d.cities)

-- Each servant has a data set, and answers every query by `handle_client` of servant.c.
module _ (ask : Servant → ServerToServant → Option ℤ) (data_set : Servant → DataSet) where
  abbrev pub Serves : Type 0
  Serves = (s : Servant) (q : ServerToServant) → ask s q ≡ some (handle_query (data_set s) q)

  abbrev pub held_by_all : List Servant → List Entry
  held_by_all [] = []
  held_by_all (s ∷ rest) = held (data_set s) ++ held_by_all rest

module _ (ask : Servant → ServerToServant → Option ℤ) (data_set : Servant → DataSet)
    (serves : Serves ask data_set) where
  sum_answers-Counts :
      (q : ServerToServant) (servants : List Servant) (acc : ℕ)
      → (n : ℕ) × (sum_answers ask servants q (pos acc) ≡ some (pos (acc + n)))
        × Counts (Asked q) (held_by_all ask data_set servants) n
  unfolding sum_answers handle_query ◌+ℤ◌
  sum_answers-Counts q [] acc = (0, ground arith, none_left)
  sum_answers-Counts q (s ∷ rest) acc =
      let d : DataSet = data_set s in
      let k : ℕ = calculate_transaction d.cities d.responsible_directories_counter q in
      let (n, e, cs) = sum_answers-Counts q rest (acc + k) in
      (
        k + n,
        ground (arith, serves s q, e),
        Counts-append (calculate_transaction-Counts q d.cities d.responsible_directories_counter)
            cs,
      )

  -- With at least one servant, a request for "all" cities is answered once, by the number of
  -- transactions asked for among those that all servants hold; the server stays as it is.
  pub all_request-Counts :
      (s : Server) (req : ServerRequest)
      → 0 < servant_num s
      → req.city_name ≡ all_cities
      → (n : ℕ) × (handle_client ask s req ≡ returns s (pos n ∷ []))
        × Counts (Asked (req_servant req)) (held_by_all ask data_set s.servants) n
  unfolding handle_client response_with_multi_city
  all_request-Counts s req some_servant all =
      let (n, e, cs) = sum_answers-Counts (req_servant req) s.servants 0 in
      (n, ground (arith, (str_eq_iff req.city_name all_cities).1 all, e), cs)

  -- The cities of every servant lie in its range, the ranges of two servants share no name, and no
  -- servant has the port that marks a failed lookup.
  abbrev pub Disjoint : List Servant → Type 0
  Disjoint [] = Unit {0}
  Disjoint (s ∷ rest) =
      All (λ t. (name : Str) → InRange name s → OutOfRange name t) rest × Disjoint rest

  abbrev pub HasPort : Servant → Type 0
  HasPort s = eqb_ℤ s.port_number minus_one ≡ false

  abbrev pub Covers : Servant → Type 0
  Covers s =
      All (λ (c : City). InRange c.city_name s)
        (take (data_set s).responsible_directories_counter (data_set s).cities)

  pub record IsPartition (servants : List Servant) : Type 0 where
    pub covers : All Covers servants
    pub disjoint : Disjoint servants
    pub ports : All HasPort servants

  -- A servant whose range does not hold the name has no transaction of that city.
  OutOfRange-miss :
      (q : ServerToServant) (s : Servant)
      → q.city_name ≢ all_cities
      → Covers s
      → OutOfRange q.city_name s
      → Counts (Asked q) (held (data_set s)) 0
  OutOfRange-miss q s one covers out =
      cities_miss q (take (data_set s).responsible_directories_counter (data_set s).cities) one
        (All-imp _ _ _ (λ c inside e. out (subst (λ name. InRange name s) (sym e) inside)) covers)

  All-OutOfRange_miss :
      (q : ServerToServant) (servants : List Servant)
      → q.city_name ≢ all_cities
      → All Covers servants
      → All (OutOfRange q.city_name) servants
      → Counts (Asked q) (held_by_all ask data_set servants) 0
  All-OutOfRange_miss q [] one covers out = none_left
  All-OutOfRange_miss q (s ∷ rest) one covers out =
      Counts-skip (OutOfRange-miss q s one covers.0 out.0)
        (All-OutOfRange_miss q rest one covers.1 out.1)

  abbrev count_at : Servant → ServerToServant → ℕ
  count_at v q =
      calculate_transaction (data_set v).cities (data_set v).responsible_directories_counter q

  -- Of a partition, only the servant whose range holds the name has transactions of that city.
  InRange-Counts :
      (q : ServerToServant) (before after : List Servant) (v : Servant)
      → q.city_name ≢ all_cities
      → IsPartition (before ++ v ∷ after)
      → All (OutOfRange q.city_name) before
      → InRange q.city_name v
      → HasPort v × Counts (Asked q) (held_by_all ask data_set (before ++ v ∷ after)) (count_at v q)
  InRange-Counts q [] after v one p out inside = (
    p.ports.0,
    Counts-only
        (calculate_transaction-Counts q (data_set v).cities
          (data_set v).responsible_directories_counter)
        (All-OutOfRange_miss q after one p.covers.1
          (All-imp _ _ _ (λ t apart. apart q.city_name inside) p.disjoint.0)),
  )
  InRange-Counts q (s ∷ before) after v one p out inside =
      let rest : IsPartition (before ++ v ∷ after) = record {
        covers = p.covers.1;
        disjoint = p.disjoint.1;
        ports = p.ports.1;
      } in
      let (port, cs) = InRange-Counts q before after v one rest out.1 inside in
      (port, Counts-skip (OutOfRange-miss q s one p.covers.0 out.0) cs)

  -- What a request for one city gets: the number of transactions asked for among those that all
  -- servants hold, or -1 if no range holds the name, and then there are none.
  abbrev pub Answered : Server → ServerRequest → Outcome → Type 0
  Answered s req r =
      (n : ℕ) × Counts (Asked (req_servant req)) (held_by_all ask data_set s.servants) n
      × ((r ≡ returns s (pos n ∷ []))
          ⊎ ((r ≡ returns s (minus_one ∷ []))
              × (n ≡ 0)
              × All (OutOfRange req.city_name) s.servants))

  contact-Answered :
      (s : Server) (req : ServerRequest) (found : Option Servant)
      → req.city_name ≢ all_cities
      → IsPartition s.servants
      → Looked s.servants req.city_name found
      → Answered s req (contact ask s req [] found)
  unfolding contact req_servant handle_query
  contact-Answered s req none one p out =
      (0, All-OutOfRange_miss (req_servant req) s.servants one p.covers out, inr (refl, refl, out))
  contact-Answered s req (some v) one p (before, after, e, out, inside) =
      let (port, cs) =
        InRange-Counts (req_servant req) before after v one (subst IsPartition e p) out inside in
      (
        count_at v (req_servant req),
        subst
            (λ l.
              Counts (Asked (req_servant req)) (held_by_all ask data_set l)
                (count_at v (req_servant req)))
            (sym e) cs,
        inl (ground (arith, port, serves v (req_servant req))),
      )

  -- With at least one servant and a partition of the cities, a request for one city is answered
  -- once: by the number of transactions asked for among those that all servants hold, or by -1 if
  -- the name is in no range, and then no servant holds any. The server stays as it is.
  pub one_city_request-Answered :
      (s : Server) (req : ServerRequest)
      → 0 < servant_num s
      → req.city_name ≢ all_cities
      → IsPartition s.servants
      → Answered s req (handle_client ask s req)
  unfolding handle_client
  one_city_request-Answered s req some_servant one p =
      let found = get_servant_with_names s.servants req.city_name in
      let same : handle_client ask s req ≡ contact ask s req [] found =
        ground (arith, str_eq_iff req.city_name all_cities) in
      subst (Answered s req) (sym same) (
        contact-Answered s req found one p (get_servant_with_names-Looked s.servants req.city_name))

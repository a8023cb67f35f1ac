-- ===== src/Midterm/Reading.antt =====
-- How the servers of Midterm/src read a request: `serverY` of server.c and `serverZ` of
-- backup_server.c share the loop, but only the second sets `total_byte` to 0 before it.
use cse_344_system_programmi.Base.{
  ℕ, zero, suc, ◌+◌, ◌*◌, ◌%◌, ◌^◌, Option, none, some, List, [], ◌∷◌, if◌then◌else◌, ◌==◌,
}
use cse_344_system_programmi.Midterm.Matrix.{Matrix}

-- `request` of structs.h.
pub record Request : Type 0 where
  pub matrix : Matrix
  pub client_id : ℕ

-- What a call of read returns. A request is larger than what a pipe takes at once, so a call may get
-- a part of it only; each call writes from the start of `req` on.
pub data ReadResult : Type 0 where
  part : (n : ℕ) → Request → ReadResult  -- n bytes, and what `req` holds afterwards
  end_of_file : ReadResult
  interrupted : ReadResult  -- EINTR

-- sizeof(request)
abbrev pub request_size : ℕ
request_size = 4 * (4096 + 1) + 4

-- A request that is read whole.
abbrev pub whole : Request → ReadResult
whole r = part request_size r

-- The variables of the loop, and the calls of read that are left.
pub record Received : Type 0 where
  pub req : Request
  pub total_byte : ℕ  -- an int, as the 32 bits of it
  pub later : List ReadResult

-- while(1): `none` while it waits for more.
unfoldable pub read_request :
    (calls : List ReadResult) (total_byte : ℕ) (req : Request) → Option Received
read_request [] total_byte req = none
read_request (interrupted ∷ calls) total_byte req = read_request calls total_byte req
read_request (end_of_file ∷ calls) total_byte req =
    some (record { req = req; total_byte = total_byte; later = calls })
read_request (part n r ∷ calls) total_byte req =
    let total = (total_byte + n) % 2 ^ 32 in
    let next = read_request calls total r in
    if total == request_size
    then some (record { req = r; total_byte = total; later = calls })
    else next

-- `serverZ`, `rounds` times: what it reads.
unfoldable pub serve_backup :
    (rounds : ℕ) (calls : List ReadResult) (req : Request) → Option (List Request)
serve_backup zero calls req = some []
serve_backup (suc rounds) calls req = elim (read_request calls 0 req) [
  | none ↦ none
  | some got ↦ elim (serve_backup rounds got.later got.req) [
    | none ↦ none
    | some more ↦ some (got.req ∷ more)
  ]
]

-- Of calls that read requests whole, or end, or are interrupted: the requests.
abbrev pub reads_whole : List ReadResult → Option (List Request)
reads_whole [] = some []
reads_whole (interrupted ∷ calls) = reads_whole calls
reads_whole (end_of_file ∷ calls) = reads_whole calls
reads_whole (part n r ∷ calls) =
    let more = reads_whole calls in
    if n == request_size then elim more [ none ↦ none | some rs ↦ some (r ∷ rs) ] else none

-- ===== src/Midterm/Server/Reading.antt =====
-- What the reading loop of the servers of Midterm/src reads.
use cse_344_system_programmi.Base.{
  ℕ, suc, ◌+◌, ◌*◌, ◌%◌, ◌^◌, ◌<◌, ◌≡◌, ap, ◌∙◌, false, some, List, [], ◌∷◌, ◌++◌, map, length,
  ◌==◌, arith,
}
use cse_344_system_programmi.Midterm.Reading.{
  Request, ReadResult, part, end_of_file, interrupted, whole, request_size, read_request,
}

-- Calls of read that get the bytes of one request, after `total` of them, in any parts and with any
-- interruptions; the last of them leaves `r` in `req`.
pub data Delivers : ℕ → List ReadResult → Request → Type 0 where
  last_part :
      {total : ℕ} (n : ℕ) (r : Request)
      → total + n ≡ request_size
      → Delivers total (part n r ∷ []) r
  first_part :
      {total : ℕ} {calls : List ReadResult} {r : Request} (n : ℕ) (q : Request)
      → total + n < request_size
      → Delivers (total + n) calls r
      → Delivers total (part n q ∷ calls) r
  again :
      {total : ℕ} {calls : List ReadResult} {r : Request}
      → Delivers total calls r
      → Delivers total (interrupted ∷ calls) r

-- The same for requests one after the other.
pub data Writes : List ReadResult → List Request → Type 0 where
  nothing_left : Writes [] []
  then_more :
      {calls rest : List ReadResult} {r : Request} {rs : List Request}
      → Delivers 0 calls r
      → Writes rest rs
      → Writes (calls ++ rest) (r ∷ rs)

-- The last of `r` and the requests behind it.
abbrev pub last_of : Request → List Request → Request
last_of r [] = r
last_of r (x ∷ xs) = last_of x xs

-- Server Y, with `total_byte` as its first request leaves it: of the requests that clients write
-- before the fifo is empty and closed by all of them, only the last is handled, as long as the sum
-- of the bytes stays in 32 bits.
pub read_request-last :
    (r : Request) (rs : List Request) (calls : List ReadResult) (total_byte : ℕ)
    → 0 < total_byte
    → total_byte + request_size * length rs < 2 ^ 32
    → read_request (map whole rs ++ end_of_file ∷ calls) total_byte r
      ≡ some (record {
        req = last_of r rs;
        total_byte = total_byte + request_size * length rs;
        later = calls;
      })
unfolding read_request
read_request-last r [] calls total_byte some_read fits =
    let same : total_byte ≡ total_byte + request_size * 0 = omega arith in
    ap (λ t. some (record { req = r; total_byte = t; later = calls })) same
read_request-last r (x ∷ xs) calls total_byte some_read fits =
    let small : (total_byte + request_size) % 2 ^ 32 ≡ total_byte + request_size = omega arith in
    let more : ((total_byte + request_size) == request_size) ≡ false = ground arith in
    let sum : total_byte + request_size + request_size * length xs
        ≡ total_byte + request_size * suc (length xs) =
      omega arith in
    rw (small, more)
      (read_request-last x xs calls (total_byte + request_size) (omega arith) (omega arith)
        ∙ ap (λ t. some (record { req = last_of x xs; total_byte = t; later = calls })) sum)

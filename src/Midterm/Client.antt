-- ===== src/Midterm/Client.antt =====
-- Midterm/src/client.c: the matrix that it reads from a file of numbers, and what it logs about the
-- response. Left out: the fifos, the time, and errors of system calls. Bytes are ASCII.
pub mod Reading
mod Tests
use cse_344_system_programmi.Base.{
  ℕ, zero, suc, ◌+◌, ◌-◌, ◌*◌, ◌||◌, Bool, true, false, Option, none, some, List, [], ◌∷◌,
  if◌then◌else◌, ltb, leb, ◌==◌,
}
use cse_344_system_programmi.Base.Int.{ℤ, pos, ◌+ℤ◌, ◌*ℤ◌, sub_ℕ, ltb_ℤ}
use cse_344_system_programmi.Base.Machine.{wrap}
use cse_344_system_programmi.Midterm.Server.{Request, Response}

-- int buffer_i[1024]
abbrev pub buffer_size : ℕ
buffer_size = 1024

pub record Reader : Type 0 where
  pub buffer_i : ℕ → ℤ
  pub line_num : ℕ
  pub num : ℤ
  pub index : ℕ

abbrev pub init : Reader
init = record { buffer_i = λ i. pos 0; line_num = 0; num = pos 0; index = 0 }

-- `buffer_i[index] = num`
pub store_num : Reader → Reader
store_num s = record s { buffer_i = λ k. if k == s.index then s.num else s.buffer_i k }

-- The body of the loop for the byte `ch`; `none` is a write behind `buffer_i`.
pub read_byte : (ch : ℕ) → Reader → Option Reader
read_byte ch s =
    if (ch == b',') || (ch == b'\n')
    then (if leb buffer_size s.index
        then none
        else some (record (store_num s) {
          index = s.index + 1;
          num = pos 0;
          line_num = if ch == b'\n' then s.line_num + 1 else s.line_num;
        }))
    else some (record s { num = wrap (wrap (s.num *ℤ pos 10) +ℤ sub_ℕ ch b'0') })

pub read_bytes : List ℕ → Reader → Option Reader
read_bytes [] s =
    if leb buffer_size s.index
    then none
    else some (record (store_num s) { line_num = s.line_num + 1 })
read_bytes (ch ∷ file) s = elim (read_byte ch s) [ none ↦ none | some t ↦ read_bytes file t ]

-- What the client sends; `junk` is the rest of the array.
pub make_request : (client_id : ℕ) (junk : ℕ → ℤ) → Reader → Request
make_request client_id junk s = record {
  matrix = record {
    array = λ k. if ltb k (s.line_num * s.line_num) then s.buffer_i k else junk k;
    size = s.line_num;
  };
  client_id = client_id;
}

-- Whether the log says "invertible".
unfoldable pub says_invertible : Response → Bool
says_invertible res = if ltb_ℤ res.result (pos 0) then false else true

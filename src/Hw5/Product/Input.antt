-- ===== src/Hw5/Product/Input.antt =====
-- Hw5/src/main.c: `read_file`, and the matrix of structs.h that is filled from its bytes. The errors
-- of open, read and close, and the signals, are left out: errno is not EINTR. Bytes are signed.
pub mod Reading
use cse_344_system_programmi.Base.{
  ℕ, zero, suc, ◌+◌, ◌-◌, ◌*◌, List, [], ◌∷◌, length, take, drop, if◌then◌else◌, ltb, leb, ◌==◌,
  ◌&&◌, get_or,
}
use cse_344_system_programmi.Base.Int.{ℤ, pos, eqb_ℤ}

pub data ReadResult : Type 0 where
  content_of : (ℕ → ℤ) → ReadResult
  insufficient : ReadResult  -- exit(1)
  overrun : ReadResult  -- a write behind the memory of `content`
  out_of_fuel : ReadResult

-- The bytes before the first NUL.
pub nonzero_prefix : List ℤ → ℕ
nonzero_prefix [] = 0
nonzero_prefix (b ∷ bytes) =
    let more = nonzero_prefix bytes in if eqb_ℤ b (pos 0) then 0 else more + 1

-- strlen(buffer): `buffer` has room for `size` bytes and no NUL behind them. If none of its bytes is
-- NUL, strlen runs on into foreign memory, where it counts `behind` more.
pub strlen_buffer : (size behind : ℕ) → (chunk : List ℤ) → ℕ
strlen_buffer size behind chunk =
    if nonzero_prefix chunk == size then size + behind else nonzero_prefix chunk

-- All `size` bytes of the buffer, zeros behind the chunk included, go to `content` from `at` on.
pub copy_chunk : (size at : ℕ) → (chunk : List ℤ) → (ℕ → ℤ) → ℕ → ℤ
copy_chunk size at chunk content i =
    if leb at i && ltb i (at + size) then get_or chunk (i - at) (pos 0) else content i

-- The memory of `content` is `calloc(sizeof(char*), length)`.
abbrev pub content_room : ℕ → ℕ
content_room size = 8 * size

-- for(;;), by fuel: `left_over` is what the file still has.
pub read_chunks :
    (size behind : ℕ)
    → (fuel : ℕ) (left_over : List ℤ) (cpy_index total_byte : ℕ) (content : ℕ → ℤ) → ReadResult
read_chunks size behind zero left_over cpy_index total_byte content = out_of_fuel
read_chunks size behind (suc fuel) left_over cpy_index total_byte content =
    let chunk = take size left_over in
    let total = total_byte + strlen_buffer size behind chunk in
    let next =
      read_chunks size behind fuel (drop size left_over) (cpy_index + size) total
        (copy_chunk size cpy_index chunk content) in
    if length chunk == 0
    then (if leb size total then content_of content else insufficient)
    else if ltb (content_room size) (cpy_index + size)
    then overrun
    else next

pub read_file : (fuel behind : ℕ) → (file : List ℤ) (size : ℕ) (content : ℕ → ℤ) → ReadResult
read_file fuel behind file size content = read_chunks size behind fuel file 0 0 content

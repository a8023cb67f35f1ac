-- ===== src/Final/Servant/Files.antt =====
-- Final/src/servant.c: `parse_transaction_file` and `read_data_file`. `none` is a write or a read
-- behind an array.
pub mod Reading
pub mod Tests
use cse_344_system_programmi.Base.{
  ℕ, zero, suc, ◌+◌, ◌-◌, ◌^◌, ◌<◌, Bool, true, false, ◌&&◌, Option, none, some, List, [], ◌∷◌,
  ◌++◌, length, get_or, set, ltb, ◌==◌, if◌then◌else◌,
}
use cse_344_system_programmi.Base.Int.{ℤ, pos, negsuc}
use cse_344_system_programmi.Base.Text.{Str, atoi, c_str}
use cse_344_system_programmi.Final.Structs.{
  TransactionArg, real_estate_size, city_name_size, max_line_byte,
}
use cse_344_system_programmi.Final.Words.{split_str}

-- The conversion of an `int` to `unsigned long`.
abbrev pub unsigned_long : ℤ → ℤ
unsigned_long (pos n) = pos n
unsigned_long (negsuc n) = pos (2 ^ 64 - suc n)

pub parse_transaction_file : Str → Option TransactionArg
parse_transaction_file str = elim (split_str str b' ' 0) [
  | none ↦ none
  | some (result, split_count) ↦
      if ltb (length (get_or result 1 [])) real_estate_size
        && ltb (length (get_or result 2 [])) city_name_size
      then some (record {
        transaction_id = atoi (get_or result 0 []);
        real_estate_type = get_or result 1 [];
        city_name = get_or result 2 [];
        price = unsigned_long (atoi (get_or result 3 []));
        surface_area = atoi (get_or result 4 []);
      })
      else none
]

-- The first `index` bytes of `buffer`, the array `data`, and `data_idx`, which `line_count` equals.
pub record Reader : Type 0 where
  pub buffer : List ℕ
  pub data_array : List TransactionArg
  pub data_idx : ℕ

abbrev pub stored : Reader → Option TransactionArg → Option Reader
stored r none = none
stored r (some t) =
    some (record {
      buffer = [];
      data_array = set r.data_array r.data_idx t;
      data_idx = r.data_idx + 1;
    })

-- One byte of the loop over the file.
pub read_step : ℕ → Reader → Option Reader
unfolding parse_transaction_file
read_step c r =
    if c == 10
    then (if ltb (length r.buffer) max_line_byte && ltb r.data_idx (length r.data_array)
        then stored r (parse_transaction_file (c_str r.buffer))
        else none)
    else (if ltb (length r.buffer) max_line_byte
        then some (record r { buffer = r.buffer ++ c ∷ [] })
        else none)

pub read_loop : List ℕ → Reader → Option Reader
unfolding read_step
read_loop [] r = some r
read_loop (c ∷ file) r = elim (read_step c r) [ none ↦ none | some r' ↦ read_loop file r' ]

-- What is in the array afterwards, and `*num_data`.
pub read_data_file : List ℕ → List TransactionArg → Option (List TransactionArg × ℕ)
unfolding read_loop
read_data_file file data_array =
    elim (read_loop file (record { buffer = []; data_array = data_array; data_idx = 0 })) [
      | none ↦ none
      | some r ↦ some (r.data_array, r.data_idx)
    ]

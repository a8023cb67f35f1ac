-- ===== src/Final/Structs.antt =====
-- Final/src/structs.h and structs.c: the records that the server, the servants and the clients
-- share, the date of a file name and the sort of the folder names. An `int` is an integer in range,
-- a `char` array the C string that it holds.
pub mod Sorting
use cse_344_system_programmi.Base.{ℕ, List, Option, none, some, zero, suc, Bool, get_or}
use cse_344_system_programmi.Base.Int.{ℤ}
use cse_344_system_programmi.Base.Text.{Str, atoi}

abbrev pub real_estate_size : ℕ
real_estate_size = 128

abbrev pub city_name_size : ℕ
city_name_size = 32

abbrev pub max_line_byte : ℕ
max_line_byte = 160

abbrev pub word_length : ℕ
word_length = 128

pub record Date : Type 0 where
  pub day : ℤ
  pub month : ℤ
  pub year : ℤ

pub record TransactionArg : Type 0 where
  pub transaction_id : ℤ
  pub real_estate_type : Str
  pub city_name : Str
  pub surface_area : ℤ
  pub price : ℤ

-- `transaction` is the array; its first `transaction_count` entries are in use.
pub record DateFile : Type 0 where
  pub date : Date
  pub transaction : List TransactionArg
  pub transaction_count : ℕ

pub record City : Type 0 where
  pub city_name : Str
  pub date_file : List DateFile
  pub date_file_count : ℕ

-- `struct server_2_servant`: what the server asks a servant.
pub record ServerToServant : Type 0 where
  pub start_date : Date
  pub end_date : Date
  pub real_estate : Str
  pub city_name : Str

-- `struct server_request`, from a client or from a servant.
pub record ServerRequest : Type 0 where
  pub kind : ℤ
  pub port_number : ℤ
  pub process_id : ℤ
  pub lower_bound : ℤ
  pub upper_bound : ℤ
  pub lower_city_name : Str
  pub upper_city_name : Str
  pub ip_address : Str
  pub order_type : Str
  pub real_estate : Str
  pub start_date : Date
  pub end_date : Date
  pub city_name : Str

-- `struct servant`, without the descriptor that no code reads or writes.
pub record Servant : Type 0 where
  pub port_number : ℤ
  pub lower_bound : ℤ
  pub upper_bound : ℤ
  pub process_id : ℤ
  pub ip_address : Str
  pub lower_city_name : Str
  pub upper_city_name : Str

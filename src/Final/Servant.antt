-- ===== src/Final/Servant.antt =====
-- Final/src/servant.c: a servant's data set and its answers.
pub mod Files
pub mod Folders
use cse_344_system_programmi.Base.{ℕ, List}
use cse_344_system_programmi.Base.Int.{ℤ, pos}
use cse_344_system_programmi.Final.Structs.{City, ServerToServant}
use cse_344_system_programmi.Final.Search.{calculate_transaction}

-- The globals `cities` and `responsible_directories_counter`.
pub record DataSet : Type 0 where
  pub cities : List City
  pub responsible_directories_counter : ℕ

-- What `handle_client` sends back for a query that it received.
unfoldable pub handle_query : DataSet → ServerToServant → ℤ
handle_query d s2s = pos (calculate_transaction d.cities d.responsible_directories_counter s2s)

-- ===== src/Midterm/Backup/Progress.antt =====
-- The servers of Midterm/src/backup_server.c never wait for each other in vain.
use cse_344_system_programmi.Base.{ℕ, ◌<◌, ◌≤◌, ◌≡◌, []}
use cse_344_system_programmi.Midterm.Matrix.{Rows, temp_rows}
use cse_344_system_programmi.Midterm.Server.{Request}
use cse_344_system_programmi.Midterm.Backup.{reading, idle, Backup, Step}
use cse_344_system_programmi.Midterm.Backup.Handshake.{Handshake}

module _ (junk : Rows) (pool_size : ℕ) (Sent : Request → Type 0)
    (sized : (r : Request) → Sent r → (0 < r.matrix.size) × (r.matrix.size ≤ temp_rows)) where
  abbrev Moves : Backup → Type 0
  Moves s = (t : Backup) × Step junk pool_size s t

  -- No request is left anywhere.
  pub record Finished (s : Backup) : Type 0 where
    pub nothing_comes : s.incoming ≡ []
    pub parent_reads : s.parent ≡ reading
    pub children_idle : (i : ℕ) → i < pool_size → s.child i ≡ idle

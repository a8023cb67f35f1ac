-- ===== src/Midterm/Backup/Tests.antt =====
-- The theorems on Midterm/src/backup_server.c at a run with one worker.
use cse_344_system_programmi.Base.{◌≡◌}
use cse_344_system_programmi.Midterm.Server.{Request}
use cse_344_system_programmi.Midterm.Backup.{Backup}

abbrev OneRow : Request → Type 0
OneRow r = r.matrix.size ≡ 1

-- ===== src/Midterm/Together/Tests.antt =====
-- Both servers of Midterm/src, with one worker each: Y answers a request and forwards another.
use cse_344_system_programmi.Base.{ℕ, ◌≡◌, ◌==◌, if◌then◌else◌}
use cse_344_system_programmi.Midterm.Server.{Request}
use cse_344_system_programmi.Midterm.Server.Samples as Y
use cse_344_system_programmi.Midterm.Backup.Samples as Z

-- Counts the requests of client 72.
abbrev of_72 : ℕ → ℕ
of_72 c = if c == 72 then 1 else 0

abbrev OneRow : Request → Type 0
OneRow r = r.matrix.size ≡ 1

-- ===== src/Midterm/Together.antt =====
-- Both servers of Midterm/src: what server.c writes to its pipe is what backup_server.c reads from it.
mod Tests
use cse_344_system_programmi.Base.{
  ℕ, zero, suc, ◌+◌, ◌*◌, ◌≤◌, ◌≡◌, not, if◌then◌else◌, [], ◌∷◌, ◌==◌, ◌⊎◌,
}
use cse_344_system_programmi.Base.Int.{pos, eqb_ℤ}
use cse_344_system_programmi.Base.Totals.{total}
use cse_344_system_programmi.Base.Machine.{wrap}
use cse_344_system_programmi.Midterm.Matrix.{is_invertable}
use cse_344_system_programmi.Midterm.Matrix.Determinant.{det}
use cse_344_system_programmi.Midterm.Matrix.Answer.{rows_of}
use cse_344_system_programmi.Midterm.Server.{Request, Answer, Server, int_of}
use cse_344_system_programmi.Midterm.Server.Conservation.{requests_weight, held}
use cse_344_system_programmi.Midterm.Backup.{Backup}
use cse_344_system_programmi.Midterm.Backup.Handshake.{sum, unread}
use cse_344_system_programmi.Midterm.Backup.Answers.{parent_held, child_held}
use cse_344_system_programmi.Midterm.Server as Y
use cse_344_system_programmi.Midterm.Backup as Z

-- What is under way in server Y: in the pipe of its pool, with a worker.
abbrev pub under_way_y : (w : ℕ → ℕ) (pool_size : ℕ) → Server → ℕ
under_way_y w pool_size s = requests_weight w s.pipe + total pool_size (λ i. held w (s.worker i))

-- What is under way in server Z: in the pipe, with its parent, in the shared memory, with a worker.
abbrev pub under_way_z : (w : ℕ → ℕ) (pool_size : ℕ) → Backup → ℕ
under_way_z w pool_size z =
    requests_weight w z.incoming
    + parent_held w pool_size z.parent
    + unread pool_size z * w z.shared.client_id
    + sum pool_size (child_held w pool_size) z

-- The result of an answer tells whether the determinant of the matrix of one of the requests `Sent`, by
-- the same client, is not 0 modulo 2 ^ 32, in which the determinant is computed.
abbrev pub TellsDet : (Sent : Request → Type 0) → Answer → Type 0
TellsDet Sent a =
    (r : Request) × Sent r
    × (a.client_id ≡ r.client_id)
    × (a.response.result
        ≡ int_of (not (eqb_ℤ (wrap (det r.matrix.size (rows_of r.matrix))) (pos 0))))

-- A request that a client sends, or what server Y finds in `req` before it has read one.
abbrev pub SentOr : (memory : Request) → (Request → Type 0) → Request → Type 0
SentOr memory Sent r = Sent r ⊎ (r ≡ memory)

-- ===== src/Final/Queue/Chain.antt =====
-- When a heap holds a queue: the nodes in order, each linked to the next, the last one to NULL.
use cse_344_system_programmi.Base.{ℕ, ◌≡◌, ◌≢◌, List, [], ◌∷◌, map, some}
use cse_344_system_programmi.Final.Queue.{null, Heap, Queue}

pub record Cell : Type 0 where
  pub addr : ℕ
  pub payload : ℕ

abbrev pub cell : ℕ → ℕ → Cell
cell a d = record { addr = a; payload = d }

abbrev pub first : List Cell → ℕ
first [] = null
first (c ∷ cs) = c.addr

-- `a` is the address of no cell.
abbrev pub Apart : ℕ → List Cell → Type 0
Apart a [] = Unit {0}
Apart a (c ∷ cs) = (a ≢ c.addr) × Apart a cs

abbrev pub IsChain : Heap → List Cell → Type 0
IsChain h [] = Unit {0}
IsChain h (c ∷ cs) =
    (c.addr ≢ null)
    × (h c.addr ≡ some (record { next = first cs; data_ptr = c.payload }))
    × Apart c.addr cs
    × IsChain h cs

abbrev pub IsQueue : Queue → List Cell → Type 0
IsQueue q cs = (q.head ≡ first cs) × IsChain q.heap cs

-- What the client sees: the pointers, first come first.
abbrev pub contents : List Cell → List ℕ
contents = map λ c. c.payload

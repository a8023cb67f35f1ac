-- ===== src/Final/Queue/Tests.antt =====
-- Runs of the queue, and its theorems at a queue of two nodes.
use cse_344_system_programmi.Base.{
  ℕ, ◌≡◌, refl, List, [], ◌∷◌, none, some, ◌==◌, if◌then◌else◌, arith,
}
use cse_344_system_programmi.Final.Queue.{null, Queue, enqueue, dequeue, drain}
use cse_344_system_programmi.Final.Queue.Chain.{Cell, cell, IsQueue}
use cse_344_system_programmi.Final.Queue.Laws.{
  Enqueued, Dequeued, enqueue-Enqueued, dequeue-Dequeued, drain-all, has_cell,
}

-- The node at 8 comes before the node at 4.
abbrev two : Queue
two = record {
  head = 8;
  heap = λ a.
      if a == 8
      then some (record { next = 4; data_ptr = 100 })
      else if a == 4
      then some (record { next = 0; data_ptr = 200 })
      else none;
}

abbrev two_cells : List Cell
two_cells = cell 8 100 ∷ cell 4 200 ∷ []

two-IsQueue : IsQueue two two_cells
two-IsQueue = (refl, (omega arith, refl, (omega arith, tt), (omega arith, refl, tt, tt)))

enqueue-Enqueued_example :
    (q' : Queue) × (enqueue 2 12 two 300 ≡ some q') × Enqueued two two_cells 12 300 q'
enqueue-Enqueued_example =
    enqueue-Enqueued 2 12 300 two two_cells (omega arith) (omega arith, refl) two-IsQueue

dequeue-Dequeued_example : Dequeued two two_cells (dequeue two)
dequeue-Dequeued_example = dequeue-Dequeued two two_cells two-IsQueue

drain-all_example :
    (q' : Queue) × (drain 3 two ≡ some q')
    × (q'.head ≡ null)
    × ((a : ℕ) → q'.heap a ≡ (if has_cell a two_cells then none else two.heap a))
drain-all_example =
    drain-all 3 two two_cells (omega arith) (omega arith, (omega arith, tt)) two-IsQueue

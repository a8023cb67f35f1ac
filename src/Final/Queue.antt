-- ===== src/Final/Queue.antt =====
-- Final/src/queue.c: the linked list of waiting requests, over an explicit heap of nodes. An
-- address is a number and NULL is 0. `none` as a result is a fault, or a walk that did not end.
pub mod Chain
pub mod Laws
mod Tests
use cse_344_system_programmi.Base.{ℕ, zero, suc, Option, none, some, ◌==◌, if◌then◌else◌}

-- `struct node`; `data` is the pointer that the queue carries.
pub record Node : Type 0 where
  pub next : ℕ
  pub data_ptr : ℕ

abbrev pub null : ℕ
null = 0

abbrev pub Heap : Type 0
Heap = ℕ → Option Node

abbrev pub write : Heap → ℕ → Option Node → Heap
write h p c a = if a == p then c else h a

-- The heap, and the global `head` that the functions are handed.
pub record Queue : Type 0 where
  pub head : ℕ
  pub heap : Heap

-- `while(current->next != NULL) current = current->next`, with fuel.
pub walk : ℕ → Heap → ℕ → Option ℕ
walk zero h current = none
walk (suc fuel) h current = elim (h current) [
  | none ↦ none
  | some n ↦ let rest = walk fuel h n.next in if n.next == null then some current else rest
]

-- `current->next = p`
pub set_next : Heap → ℕ → ℕ → Option Heap
set_next h current p = elim (h current) [
  | none ↦ none
  | some n ↦ some (write h current (some (record n { next = p })))
]

-- The write after the walk: the walk's result is the last node.
append_after : Heap → Option ℕ → ℕ → Option Heap
unfolding set_next
append_after h none p = none
append_after h (some last) p = set_next h last p

with_head : ℕ → Option Heap → Option Queue
with_head p none = none
with_head p (some h) = some (record { head = p; heap = h })

-- `new_node` is what `calloc` returns; its two fields are stored before anything else.
pub enqueue : (fuel new_node : ℕ) → Queue → ℕ → Option Queue
unfolding walk append_after with_head
enqueue fuel new_node q d =
    let h = write q.heap new_node (some (record { next = null; data_ptr = d })) in
    if new_node == null
    then none
    else if q.head == null
    then with_head new_node (some h)
    else with_head q.head (append_after h (walk fuel h q.head) new_node)

-- The pointer that was queued first, or NULL; its node is freed.
pub dequeue : Queue → Option (ℕ × Queue)
dequeue q = if q.head == null then some (null, q) else elim (q.heap q.head) [
  | none ↦ none
  | some n ↦ some (n.data_ptr, record { head = n.next; heap = write q.heap q.head none })
]

-- `while(1) { a = dequeue(&head); if(a == NULL) break; free(a); }` of the server's clean-up, with
-- fuel. (The payloads are not nodes: freeing one leaves the heap of nodes as it is.)
pub drain : ℕ → Queue → Option Queue
drain zero q = none
drain (suc fuel) q = elim (dequeue q) [
  | none ↦ none
  | some (d, q') ↦ let rest = drain fuel q' in if d == null then some q' else rest
]

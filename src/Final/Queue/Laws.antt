-- ===== src/Final/Queue/Laws.antt =====
-- The queue is first in, first out, touches no other node and frees what it hands out.
use cse_344_system_programmi.Base.{
  Bool, false, ◌||◌, ◌==◌, ℕ, zero, suc, ◌≤◌, ◌<◌, ◌≡◌, ◌≢◌, refl, sym, List, [], ◌∷◌, ◌++◌, some,
  none, arith, Option, length, ◌==◌, if◌then◌else◌,
}
use cse_344_system_programmi.Final.Queue.{
  Node, null, Heap, Queue, write, walk, set_next, append_after, with_head, enqueue, dequeue, drain,
}
use cse_344_system_programmi.Final.Queue.Chain.{Cell, cell, first, Apart, IsChain, IsQueue}

-- A write beside the chain leaves it a chain.
IsChain-write :
    (h : Heap) (a : ℕ) (n : Option Node) (cs : List Cell)
    → Apart a cs
    → IsChain h cs
    → IsChain (write h a n) cs
IsChain-write h a n [] ap ch = tt
IsChain-write h a n (c ∷ cs) (ne, ap) (nz, at, rest_ap, ch) =
    (nz, ground arith, rest_ap, IsChain-write h a n cs ap ch)

-- A cell of the chain is allocated.
Apart-of_none : (h : Heap) (a : ℕ) (cs : List Cell) → h a ≡ none → IsChain h cs → Apart a cs
Apart-of_none h a [] free ch = tt
Apart-of_none h a (c ∷ cs) free (nz, at, ap, ch) = (λ e. ground arith, Apart-of_none h a cs free ch)

last_cell : Cell → List Cell → Cell
last_cell c [] = c
last_cell c (d ∷ cs) = last_cell d cs

Apart-last : (a : ℕ) (c : Cell) (cs : List Cell) → Apart a (c ∷ cs) → a ≢ (last_cell c cs).addr
unfolding last_cell
Apart-last a c [] ap = ap.0
Apart-last a c (d ∷ cs) ap = Apart-last a d cs ap.1

-- The walk ends at the last cell.
walk-last :
    (fuel : ℕ) (h : Heap) (c : Cell) (cs : List Cell)
    → length cs < fuel
    → IsChain h (c ∷ cs)
    → walk fuel h c.addr ≡ some (last_cell c cs).addr
unfolding walk last_cell
walk-last zero h c cs lt ch = absurd (omega arith)
walk-last (suc fuel) h c [] lt ch = ground arith
walk-last (suc fuel) h c (d ∷ cs) lt ch = ground (arith, walk-last fuel h d cs (omega arith) ch.3)

-- There the chain ends.
at-last :
    (h : Heap) (c : Cell) (cs : List Cell)
    → IsChain h (c ∷ cs)
    → h (last_cell c cs).addr ≡ some (record { next = null; data_ptr = (last_cell c cs).payload })
unfolding last_cell
at-last h c [] ch = ch.1
at-last h c (d ∷ cs) ch = at-last h d cs ch.3

Apart-append :
    (a : ℕ) (cs : List Cell) (d : Cell) → Apart a cs → a ≢ d.addr → Apart a (cs ++ d ∷ [])
Apart-append a [] d ap ne = (ne, tt)
Apart-append a (c ∷ cs) d ap ne = (ap.0, Apart-append a cs d ap.1 ne)

-- Linking the last cell to a node that holds `d` makes the chain longer by `d`.
IsChain-grow :
    (h : Heap) (c : Cell) (cs : List Cell) (d : Cell)
    → d.addr ≢ null
    → h d.addr ≡ some (record { next = null; data_ptr = d.payload })
    → Apart d.addr (c ∷ cs)
    → IsChain h (c ∷ cs)
    → IsChain
        (write h
          (last_cell c cs).addr
          (some (record { next = d.addr; data_ptr = (last_cell c cs).payload })))
        (c ∷ cs ++ d ∷ [])
unfolding last_cell
IsChain-grow h c [] d nz at ap ch =
    (ch.0, ground arith, (λ e. ap.0 (sym e), tt), (nz, ground (arith, ap.0), tt, tt))
IsChain-grow h c (e ∷ cs) d nz at ap ch = (
  ch.0,
  ground (arith, Apart-last c.addr e cs ch.2),
  Apart-append c.addr (e ∷ cs) d ch.2 (λ p. ap.0 (sym p)),
  IsChain-grow h e cs d nz at ap.1 ch.3,
)

-- `fresh` is an address that the allocator may return: not NULL, and not in use.
abbrev pub IsFree : Queue → ℕ → Type 0
IsFree q fresh = (fresh ≢ null) × (q.heap fresh ≡ none)

-- What `enqueue` leaves: a queue with the new cell last, and the other nodes as they were.
pub record Enqueued (q : Queue) (cs : List Cell) (new_node d : ℕ) (q' : Queue) : Type 0 where
  pub queue : IsQueue q' (cs ++ cell new_node d ∷ [])
  pub frame : (a : ℕ) → a ≢ new_node → Apart a cs → q'.heap a ≡ q.heap a

-- On a queue of fewer nodes than the fuel, and at an address that the allocator may return,
-- `enqueue` succeeds, puts the pointer behind all others and changes no node outside the queue.
pub enqueue-Enqueued :
    (fuel new_node d : ℕ) (q : Queue) (cs : List Cell)
    → length cs ≤ fuel
    → IsFree q new_node
    → IsQueue q cs
    → (q' : Queue) × (enqueue fuel new_node q d ≡ some q') × Enqueued q cs new_node d q'
unfolding enqueue with_head append_after set_next
enqueue-Enqueued fuel new_node d q [] le free (hd, ch) = (
  record {
    head = new_node;
    heap = write q.heap new_node (some (record { next = null; data_ptr = d }));
  },
  ground (arith, free.0),
  record { queue = (refl, (free.0, ground arith, tt, tt)); frame = λ a ne ap. ground arith },
)
enqueue-Enqueued fuel new_node d q (c ∷ cs) le free (hd, ch) = (
  record { head = c.addr; heap = after },
  ground (arith, free.0, ch.0, walk-last fuel h c cs (omega arith) ch', at-last h c cs ch'),
  record {
    queue = (refl, IsChain-grow h c cs (cell new_node d) free.0 (ground arith) ap ch');
    frame = λ a ne apart. ground (arith, Apart-last a c cs apart);
  },
)
  where
    h : Heap
    h = write q.heap new_node (some (record { next = null; data_ptr = d }))

    ap : Apart new_node (c ∷ cs)
    ap = Apart-of_none q.heap new_node (c ∷ cs) free.1 ch

    ch' : IsChain h (c ∷ cs)
    ch' = IsChain-write q.heap new_node _ (c ∷ cs) ap ch

    after : Heap
    after =
        write h (last_cell c cs).addr
          (some (record { next = new_node; data_ptr = (last_cell c cs).payload }))

-- `dequeue` on a queue: NULL and no change if it is empty, else the oldest pointer; its node is
-- freed, the rest is the queue, and no other node changes.
abbrev pub Dequeued : Queue → List Cell → Option (ℕ × Queue) → Type 0
Dequeued q [] r = r ≡ some (null, q)
Dequeued q (c ∷ cs) r =
    (q' : Queue) × (r ≡ some (c.payload, q'))
    × IsQueue q' cs
    × (q'.heap c.addr ≡ none)
    × ((a : ℕ) → a ≢ c.addr → q'.heap a ≡ q.heap a)

pub dequeue-Dequeued : (q : Queue) (cs : List Cell) → IsQueue q cs → Dequeued q cs (dequeue q)
unfolding dequeue
dequeue-Dequeued q [] (hd, ch) = ground arith
dequeue-Dequeued q (c ∷ cs) (hd, ch) = (
  record { head = first cs; heap = write q.heap c.addr none },
  ground (arith, ch.0),
  (refl, IsChain-write q.heap c.addr none cs ch.2 ch.3),
  ground arith,
  λ a ne. ground arith,
)

abbrev pub has_cell : ℕ → List Cell → Bool
has_cell a [] = false
has_cell a (c ∷ cs) = (a == c.addr) || has_cell a cs

-- A client queues no NULL.
abbrev pub NonNull : List Cell → Type 0
NonNull [] = Unit {0}
NonNull (c ∷ cs) = (c.payload ≢ null) × NonNull cs

-- The loop of the clean-up empties a queue of pointers that are not NULL, in one round more than
-- it has nodes; it frees every node of the queue and leaves the others as they were.
pub drain-all :
    (fuel : ℕ) (q : Queue) (cs : List Cell)
    → length cs < fuel
    → NonNull cs
    → IsQueue q cs
    → (q' : Queue) × (drain fuel q ≡ some q')
      × (q'.head ≡ null)
      × ((a : ℕ) → q'.heap a ≡ (if has_cell a cs then none else q.heap a))
unfolding drain
drain-all zero q cs lt nn r = absurd (omega arith)
drain-all (suc fuel) q [] lt nn r = (q, ground (arith, dequeue-Dequeued q [] r), r.0, λ a. refl)
drain-all (suc fuel) q (c ∷ cs) lt nn r =
    let (q1, run, queue, freed, frame) = dequeue-Dequeued q (c ∷ cs) r in
    let (q2, rest, empty, cells) = drain-all fuel q1 cs (omega arith) nn.1 queue in
    (q2, ground (arith, run, rest, nn.0), empty, λ a. ground (arith, cells a, frame a, freed))

-- ===== src/Queue.antt =====
-- The linked queue: src/lib/queue.h and src/lib/queue.c. Nodes stand at addresses of a heap; a queue
-- is the record that a `Queue *` leads to. The queues of the other modules are lists.
pub mod Chain
pub mod Fifo
pub mod Traces
use le_forum.Common.{
  ℕ, zero, suc, ◌+◌, ◌-◌, ◌%◌, ◌≡◌, ◌≢◌, Bool, true, false, List, [], ◌∷◌, ◌++◌, Option, none, some,
  ◌==◌, if◌then◌else◌, not, Outcome, ok, fault, hang,
}
use le_forum.Common.Result.{◌>>=◌}
use le_forum.Clib.Words.{u64_mod}
use le_forum.Conf.{LeStatus, lestatus_ok, lestatus_nptr}

abbrev pub Ptr : Type 0
Ptr = ℕ

abbrev pub nullptr : Ptr
nullptr = 0

-- `data` is the address of what is stored.
pub record QueueNode : Type 0 where
  pub item : Ptr
  pub next : Ptr

abbrev pub node : Ptr → Ptr → QueueNode
node item next = record { item = item; next = next }

abbrev pub Heap : Type 0
Heap = Ptr → Option QueueNode

pub record Queue : Type 0 where
  pub size : ℕ
  pub first : Ptr
  pub last : Ptr

unfoldable pub update : Heap → Ptr → Option QueueNode → Heap
update h p c q = if q == p then c else h q

-- `*p`; a fault at NULL and where no node is.
unfoldable pub load : Ptr → Heap → Outcome QueueNode
load p h = if p == nullptr then fault else elim (h p) [ none ↦ fault | some n ↦ ok n ]

-- `queue_create`, with a destructor.
unfoldable pub queue_create : Queue
queue_create = record { size = 0; first = nullptr; last = nullptr }

unfoldable pub queue_is_empty : Queue → Bool
queue_is_empty q = q.size == 0

-- `fresh` is the address that `malloc` returns for the node. The status, the queue and the heap.
unfoldable pub queue_push : Ptr → Queue → Ptr → Heap → Outcome (LeStatus × Queue × Heap)
queue_push fresh q item h = if item == nullptr then ok (lestatus_nptr, q, h) else (do
  let h = update h fresh (some (node item nullptr))
  (q, h) ← if q.first == nullptr then ok (record q { first = fresh; last = fresh }, h) else (do
    n ← load q.last h
    ok (record q { last = fresh }, update h q.last (some (node n.item fresh))))
  ok (lestatus_ok, record q { size = (q.size + 1) % u64_mod }, h))

-- What is returned (NULL for an empty queue), the queue and the heap without the node. The second
-- test of emptiness comes before `size` falls, so it does not see the queue become empty.
unfoldable pub queue_pop : Queue → Heap → Outcome (Ptr × Queue × Heap)
unfolding queue_is_empty
queue_pop q h = if queue_is_empty q then ok (nullptr, q, h) else (do
  first ← load q.first h
  let h = update h q.first none
  let q = record q { first = first.next }
  let q = if queue_is_empty q then record q { last = nullptr } else q
  ok (first.item, record q { size = (q.size + u64_mod - 1) % u64_mod }, h))

-- The loop of `queue_delete`: the data that the destructor is called on, in order, and the heap.
pub delete_loop : ℕ → Ptr → Heap → Outcome (List Ptr × Heap)
delete_loop zero p h = hang
delete_loop (suc fuel) p h = if p == nullptr then ok ([], h) else (do
  n ← load p h
  (rest, h) ← delete_loop fuel n.next (update h p none)
  ok (if n.item == nullptr then rest else n.item ∷ rest, h))

-- The queues that are allocated, by address.
abbrev pub Queues : Type 0
Queues = Ptr → Option Queue

-- `free(queue)`.
unfoldable pub free_queue : Ptr → Queues → Queues
free_queue queue qs p = if p == queue then none else qs p

-- The status, the data that the destructor was called on, the queues and the heap that are left. The
-- loop over the nodes has `size + 1` rounds.
unfoldable pub queue_delete : Ptr → Queues → Heap → Outcome (LeStatus × List Ptr × Queues × Heap)
unfolding delete_loop free_queue
queue_delete queue qs h =
    if queue == nullptr then ok (lestatus_nptr, [], qs, h) else elim (qs queue) [
      | none ↦ fault
      | some q ↦ do
        (destructed, h) ← delete_loop (q.size + 1) q.first h
        ok (lestatus_ok, destructed, free_queue queue qs, h)
    ]

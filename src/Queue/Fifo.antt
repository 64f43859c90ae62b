-- ===== src/Queue/Fifo.antt =====
-- The linked queue is a first-in first-out list.
use le_forum.Common.{
  true, ℕ, zero, suc, ◌+◌, ◌-◌, ◌%◌, ◌<◌, ◌≡◌, ◌≢◌, refl, false, [], ◌∷◌, ◌++◌, none, some, ◌==◌,
  if◌then◌else◌, arith, ==_of_ne, length, length-append, Outcome, ok,
}
use le_forum.Clib.Words.{u64_mod}
use le_forum.Conf.{LeStatus, lestatus_ok, lestatus_nptr}
use le_forum.Queue.{
  Ptr, nullptr, node, Heap, Queue, update, queue_create, queue_push, queue_pop, queue_delete,
  Queues, free_queue, delete_loop,
}
use le_forum.Queue.Chain.{
  Cells, has, items, Chain, nil, cons, LastOf, load-node, link, Chain-update, not-has_of_none,
}

abbrev IsLast : Cells → Ptr → Type 0
IsLast [] a = Unit
IsLast ((p, _) ∷ xs) a = LastOf p xs a

-- The queue holds the nodes `xs`: they hang together, `size` counts them, and `last` is the last of
-- them, if there is one. (In an empty queue `last` is not looked at.)
pub record IsQueue (h : Heap) (q : Queue) (xs : Cells) : Type 0 where
  pub chain : Chain h nullptr q.first xs
  pub size : q.size ≡ length xs
  pub room : length xs < u64_mod
  pub last : IsLast xs q.last

pub queue_create-IsQueue : (h : Heap) → IsQueue h queue_create []
unfolding queue_create
queue_create-IsQueue h = record { chain = nil; size = refl; room = omega arith; last = tt }

length-snoc : (xs : Cells) (c : Ptr × Ptr) → length (xs ++ (c ∷ [])) ≡ length xs + 1
length-snoc xs c = length-append xs (c ∷ [])

LastOf-snoc : (p : Ptr) (xs : Cells) (a x : Ptr) → LastOf p (xs ++ ((a, x) ∷ [])) a
LastOf-snoc p [] a x = refl
LastOf-snoc p ((q, y) ∷ xs) a x = LastOf-snoc q xs a x

abbrev pub Pushed : Cells → Ptr → Ptr → Outcome (LeStatus × Queue × Heap) → Type 0
Pushed xs fresh item r =
    (q' : Queue) × (h' : Heap) × (r ≡ ok (lestatus_ok, q', h'))
    × IsQueue h' q' (xs ++ ((fresh, item) ∷ []))

module _ (h : Heap) (fresh item n a : ℕ) (new : fresh ≢ nullptr) (unused : h fresh ≡ none)
    (there : item ≢ nullptr) where
  push-Chain :
      {p : Ptr} {xs : Cells}
      → Chain h nullptr p xs
      → n ≡ length xs
      → length xs + 1 < u64_mod
      → IsLast xs a
      → Pushed xs fresh item (queue_push fresh (record { size = n; first = p; last = a }) item h)
  unfolding queue_push update
  push-Chain nil size room last = (
    record { size = 1; first = fresh; last = fresh },
    update h fresh (some (node item nullptr)),
    rw (==_of_ne there, size),
    record {
      chain = cons new (ground arith) refl nil;
      size = refl;
      room = omega arith;
      last = refl;
    },
  )
  push-Chain (cons {p} {x} {xs} ne e out s) size room last =
      let h1 = update h fresh (some (node item nullptr)) in
      let far : has fresh ((p, x) ∷ xs) ≡ false = not-has_of_none fresh (cons ne e out s) unused in
      let (y, ld, chain) =
        link a fresh item ne (ground arith) out
          (Chain-update fresh (some (node item nullptr)) s (ground arith)) last far new
          (ground arith) in
      let fits : (n + 1) % u64_mod ≡ n + 1 = omega arith in
      (
        record { size = n + 1; first = p; last = fresh },
        update h1 a (some (node y fresh)),
        rw (queue_push, ==_of_ne there, ==_of_ne ne, ld, fits),
        record {
          chain = chain;
          size = omega (arith, length-snoc xs (fresh, item));
          room = omega (arith, length-snoc xs (fresh, item));
          last = LastOf-snoc p xs fresh item;
        },
      )

-- For a well-formed queue `xs` with room for one more, a fresh address that is not NULL and a datum
-- that is not NULL, `queue_push` succeeds without a fault and leaves a well-formed queue with the
-- datum behind `xs`.
pub queue_push-append :
    {h : Heap} {q : Queue} {xs : Cells} (fresh item : Ptr)
    → IsQueue h q xs
    → fresh ≢ nullptr
    → h fresh ≡ none
    → item ≢ nullptr
    → length xs + 1 < u64_mod
    → Pushed xs fresh item (queue_push fresh q item h)
queue_push-append {h} {q} fresh item is new unused there room =
    push-Chain h fresh item q.size q.last new unused there is.chain is.size room is.last

-- A null datum is refused, and nothing changes.
pub queue_push-null :
    (h : Heap) (q : Queue) (fresh : Ptr) → queue_push fresh q nullptr h ≡ ok (lestatus_nptr, q, h)
unfolding queue_push
queue_push-null h q fresh = refl

abbrev pub Popped : Heap → Ptr → Ptr × Ptr → Cells → Outcome (Ptr × Queue × Heap) → Type 0
Popped h a (p, x) xs r =
    (q' : Queue) × (r ≡ ok (x, q', update h p none))
    × IsQueue (update h p none) q' xs
    × (q'.last ≡ a)

IsLast-tail : (c : Ptr × Ptr) (xs : Cells) (a : Ptr) → IsLast (c ∷ xs) a → IsLast xs a
IsLast-tail c [] a l = tt
IsLast-tail c (d ∷ xs) a l = l

pop-Chain :
    {h : Heap} {p : Ptr} {c : Ptr × Ptr} {xs : Cells} (n a : ℕ)
    → Chain h nullptr p (c ∷ xs)
    → n ≡ suc (length xs)
    → n < u64_mod
    → IsLast (c ∷ xs) a
    → Popped h a c xs (queue_pop (record { size = n; first = p; last = a }) h)
unfolding queue_pop
pop-Chain {h} n a (cons {p} {q} {x} {xs} ne e out s) size room last =
    let full : (n == 0) ≡ false = ground arith in
    let less : (n + u64_mod - 1) % u64_mod ≡ length xs = omega arith in
    (
      record { size = length xs; first = q; last = a },
      rw (queue_pop, full, load-node h ne e, less),
      record {
        chain = Chain-update p none s out;
        size = refl;
        room = omega arith;
        last = IsLast-tail (p, x) xs a last;
      },
      refl,
    )

-- From a well-formed queue that is not empty `queue_pop` returns the first datum, frees its node
-- and no other, and leaves the rest as a well-formed queue; `last` keeps its value, also where the
-- queue becomes empty.
pub queue_pop-cons :
    {h : Heap} {q : Queue} {c : Ptr × Ptr} {xs : Cells}
    → IsQueue h q (c ∷ xs)
    → Popped h q.last c xs (queue_pop q h)
queue_pop-cons {q} is =
    pop-Chain q.size q.last is.chain is.size (omega (arith, is.size, is.room)) is.last

-- On an empty queue it returns NULL and changes nothing.
pub queue_pop-nil : {h : Heap} {q : Queue} → IsQueue h q [] → queue_pop q h ≡ ok (nullptr, q, h)
unfolding queue_pop
queue_pop-nil is = ground (arith, is.size)

-- The heap `g` is `h` without the nodes of `xs`.
abbrev pub Without : Cells → Heap → Heap → Type 0
Without xs h g = (a : Ptr) → g a ≡ (if has a xs then none else h a)

abbrev pub AreData : Cells → Type 0
AreData [] = Unit
AreData ((p, x) ∷ xs) = (x ≢ nullptr) × AreData xs

delete_loop-Chain :
    (fuel : ℕ) {h : Heap} {p : Ptr} {xs : Cells}
    → Chain h nullptr p xs
    → AreData xs
    → length xs < fuel
    → (g : Heap) × (delete_loop fuel p h ≡ ok (items xs, g)) × Without xs h g
unfolding delete_loop update
delete_loop-Chain zero s d f = absurd (omega arith)
delete_loop-Chain (suc fuel) {h} nil d f = (h, refl, λ a. refl)
delete_loop-Chain (suc fuel) {h} (cons {p} {xs} ne e out s) (there, d) f =
    let (g, r, gone) = delete_loop-Chain fuel (Chain-update p none s out) d (omega arith) in
    (g, rw (==_of_ne ne, load-node h ne e, r, ==_of_ne there), λ a. ground (arith, gone a))

-- For a well-formed queue at an address that is not NULL, whose data are not NULL, `queue_delete`
-- ends without a fault, calls the destructor on each datum once, first to last, and frees the nodes
-- of the queue, but no other node, and the queue, but no other queue.
pub queue_delete_lem :
    {h : Heap} {q : Queue} {xs : Cells} (queue : Ptr) (qs : Queues)
    → queue ≢ nullptr
    → qs queue ≡ some q
    → IsQueue h q xs
    → AreData xs
    → (qs' : Queues) × (g : Heap) × (queue_delete queue qs h ≡ ok (lestatus_ok, items xs, qs', g))
      × Without xs h g
      × (qs' queue ≡ none)
      × ((p : Ptr) → p ≢ queue → qs' p ≡ qs p)
unfolding queue_delete free_queue
queue_delete_lem {q} queue qs there at is d =
    let (g, e, gone) = delete_loop-Chain (q.size + 1) is.chain d (omega (arith, is.size)) in
    let own : (queue == queue) ≡ true = ground arith in
    (
      free_queue queue qs,
      g,
      rw (queue_delete, ==_of_ne there, at, e),
      gone,
      rw own,
      λ p other. rw (==_of_ne other),
    )

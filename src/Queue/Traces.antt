-- ===== src/Queue/Traces.antt =====
-- Sequences of pushes and pops on one queue.
use le_forum.Common.{
  ◌+◌, ◌<◌, ◌≡◌, ◌≢◌, sym, List, [], ◌∷◌, ◌++◌, append-nil, append_assoc, none, ok, arith,
}
use le_forum.Clib.Words.{u64_mod}
use le_forum.Conf.{lestatus_ok}
use le_forum.Queue.{Ptr, nullptr, Heap, Queue, queue_push, queue_pop, update}
use le_forum.Queue.Chain.{Cells, items, items-append}
use le_forum.Queue.Fifo.{IsQueue, AreData, queue_push-append, queue_pop-cons, queue_pop-nil}

-- `Trace q h ins outs q' h'`: pushes of the data `ins` and pops that return `outs`, in any order, lead
-- from the queue `q` on the heap `h` to `q'` on `h'`. Pops that return NULL are not in `outs`.
pub data Trace : Queue → Heap → List Ptr → List Ptr → Queue → Heap → Type 0 where
  stop : {q : Queue} {h : Heap} → Trace q h [] [] q h
  push :
      {q q' q'' : Queue} {h h' h'' : Heap} {ins outs : List Ptr} (fresh item : Ptr)
      → fresh ≢ nullptr
      → h fresh ≡ none
      → item ≢ nullptr
      → q.size + 1 < u64_mod
      → queue_push fresh q item h ≡ ok (lestatus_ok, q', h')
      → Trace q' h' ins outs q'' h''
      → Trace q h (item ∷ ins) outs q'' h''
  pop :
      {q q' q'' : Queue} {h h' h'' : Heap} {ins outs : List Ptr} (x : Ptr)
      → x ≢ nullptr
      → queue_pop q h ≡ ok (x, q', h')
      → Trace q' h' ins outs q'' h''
      → Trace q h ins (x ∷ outs) q'' h''
  pop_null :
      {q q' q'' : Queue} {h h' h'' : Heap} {ins outs : List Ptr}
      → queue_pop q h ≡ ok (nullptr, q', h')
      → Trace q' h' ins outs q'' h''
      → Trace q h ins outs q'' h''

AreData-snoc : (xs : Cells) (p x : Ptr) → AreData xs → x ≢ nullptr → AreData (xs ++ ((p, x) ∷ []))
AreData-snoc [] p x d there = (there, tt)
AreData-snoc ((q, y) ∷ xs) p x (ne, d) there = (ne, AreData-snoc xs p x d there)

module _ {q q' : Queue} {h h' : Heap} where
  push_one :
      (xs : Cells) (fresh item : Ptr)
      → IsQueue h q xs
      → fresh ≢ nullptr
      → h fresh ≡ none
      → item ≢ nullptr
      → q.size + 1 < u64_mod
      → queue_push fresh q item h ≡ ok (lestatus_ok, q', h')
      → IsQueue h' q' (xs ++ ((fresh, item) ∷ []))
  push_one xs fresh item is new unused there room e =
      let (q1, h1, e1, is1) =
        queue_push-append fresh item is new unused there (omega (arith, is.size)) in
      let p : q1 ≡ q' = cc in let r : h1 ≡ h' = cc in rw (← p, ← r) is1

  pop_one :
      (p y x : Ptr) (xs : Cells)
      → IsQueue h q ((p, y) ∷ xs)
      → queue_pop q h ≡ ok (x, q', h')
      → (y ≡ x) × IsQueue h' q' xs
  pop_one p y x xs is e =
      let (q1, e1, is1, l) = queue_pop-cons is in
      let a : q1 ≡ q' = cc in let b : update h p none ≡ h' = cc in (cc, rw (← a, ← b) is1)

  pop_empty :
      (x : Ptr) → IsQueue h q [] → queue_pop q h ≡ ok (x, q', h') → (nullptr ≡ x) × IsQueue h' q' []
  pop_empty x is e =
      let e1 = queue_pop-nil is in
      let a : q ≡ q' = cc in let b : h ≡ h' = cc in (cc, rw (← a, ← b) is)

-- For a well-formed queue whose data are not NULL, and any sequence of pushes and pops on it, with
-- fresh addresses that are not in use and data that are not NULL: the queue stays well formed, and
-- the data in it at the start followed by those pushed are those that the pops returned followed by
-- those that remain, in order.
pub fifo :
    {q q' : Queue} {h h' : Heap} {ins outs : List Ptr} (xs : Cells)
    → IsQueue h q xs
    → AreData xs
    → Trace q h ins outs q' h'
    → (ys : Cells) × IsQueue h' q' ys × AreData ys × (items xs ++ ins ≡ outs ++ items ys)
fifo xs is d stop = (xs, is, d, append-nil (items xs))
fifo xs is d (push {ins} {outs} fresh item new unused there room e rest) =
    let next = push_one xs fresh item is new unused there room e in
    let (ys, is', d', l) =
      fifo (xs ++ ((fresh, item) ∷ [])) next (AreData-snoc xs fresh item d there) rest in
    (ys, is', d', rw (items-append xs ((fresh, item) ∷ []), append_assoc) at l)
fifo [] is d (pop x ne e rest) = let (n, is1) = pop_empty x is e in absurd (ne (sym n))
fifo ((p, y) ∷ xs) is d (pop x ne e rest) =
    let (n, is1) = pop_one p y x xs is e in
    let (ys, is', d', l) = fifo xs is1 d.1 rest in (ys, is', d', rw (n, l))
fifo [] is d (pop_null e rest) = let (n, is1) = pop_empty nullptr is e in fifo [] is1 d rest
fifo ((p, y) ∷ xs) is d (pop_null e rest) =
    let (n, is1) = pop_one p y nullptr xs is e in absurd (d.0 n)

-- ===== src/Tests/Parts.antt =====
-- The queue, tokens and messages at concrete values.
use le_forum.Common.{
  ℕ, ◌≡◌, ◌≢◌, refl, [], ◌∷◌, ◌++◌, arith, Bool, true, some, none, ok, length, All, ◌↔◌,
  if◌then◌else◌, replicate, ◌==◌,
}
use le_forum.Clib.Strings.{Bytes, codes}
use le_forum.Clib.Text.{before_nul, before_nul-IsText}
use le_forum.Security.{rand_string, rand_char, rand_string-IsPrintable, IsPrintable}
use le_forum.Forum.{is_token_valid, lethread_message_count, lemessage_create}
use le_forum.Forum.Posting.{IsCounted, with_lemessage, new_lemessage, lemessage_create-IsCounted}
use le_forum.Conf.{lestatus_ok}
use le_forum.Clib.Strings.{strlen, strncpy}
use le_forum.Forum.Tokens.{is_token_valid_iff}
use le_forum.Queue.{
  Heap, Queue, queue_create, queue_push, queue_pop, queue_delete, node, update, Queues, Ptr,
}
use le_forum.Queue.Chain.{Cells, items, cons, nil}
use le_forum.Queue.Fifo.{IsQueue, queue_create-IsQueue, queue_delete_lem, Without}
use le_forum.Queue.{load, queue_is_empty}
use le_forum.Queue.Fifo.{AreData}
use le_forum.Queue.Traces.{Trace, push, pop, pop_null, stop, fifo}
use le_forum.Tests.Samples.{news, author, token}

abbrev no_nodes : Heap
no_nodes a = none

one_node : Heap
one_node = update no_nodes 10 (some (node 77 0))

abbrev one_queue : Queue
one_queue = record { size = 1; first = 10; last = 10 }

one_queue-IsQueue : IsQueue one_node one_queue ((10, 77) ∷ [])
unfolding one_node update
one_queue-IsQueue = record {
  chain = cons (omega arith) refl refl nil;
  size = refl;
  room = omega arith;
  last = refl;
}

-- The queue stands at the address 4.
abbrev one_there : Queues
one_there p = if p == 4 then some one_queue else none

queue_delete_lem_example :
    (qs : Queues) × (g : Heap) × (queue_delete 4 one_there one_node
      ≡ ok (lestatus_ok, 77 ∷ [], qs, g))
    × Without ((10, 77) ∷ []) one_node g
    × (qs 4 ≡ none)
    × ((p : Ptr) → p ≢ 4 → qs p ≡ one_there p)
queue_delete_lem_example =
    queue_delete_lem 4 one_there (omega arith) refl one_queue-IsQueue (omega arith, tt)

is_token_valid_iff_example :
    (b : Bool) × (is_token_valid news (replicate 24 65 ++ []) ≡ ok (if b then 1 else 0))
    × ((b ≡ true) ↔ (token ≡ replicate 24 65))
unfolding before_nul
is_token_valid_iff_example =
    is_token_valid_iff news author refl (replicate 24 65) [] (before_nul-IsText token) refl refl

abbrev bye : Bytes
bye = codes "goodbye" ++ (0 ∷ [])

news-IsCounted : IsCounted news
unfolding lethread_message_count
news-IsCounted = record { first_fits = omega arith; next_fits = omega arith; counted = refl }

bye-created :
    lemessage_create news bye 0
    ≡ ok (lestatus_ok, some (new_lemessage news bye 0), with_lemessage news bye 0)
unfolding lemessage_create strlen strncpy before_nul
bye-created = refl

lemessage_create-IsCounted_example : IsCounted (with_lemessage news bye 0)
lemessage_create-IsCounted_example =
    lemessage_create-IsCounted news (with_lemessage news bye 0) bye 0 lestatus_ok
      (some (new_lemessage news bye 0)) news-IsCounted (omega arith) bye-created

rand_string-IsPrintable_example :
    (length {A = ℕ} (73 ∷ 66 ∷ []) ≡ 2) × All IsPrintable (73 ∷ 66 ∷ [])
unfolding rand_string rand_char
rand_string-IsPrintable_example =
    rand_string-IsPrintable 2 (40 ∷ 10 ∷ 33 ∷ []) (73 ∷ 66 ∷ []) [] refl

-- A push, a pop and a pop of nothing.
trace :
    Trace queue_create no_nodes
      (77 ∷ [])
      (77 ∷ [])
      (record { size = 0; first = 0; last = 10 })
      (update one_node 10 none)
unfolding queue_create queue_push queue_pop one_node update load queue_is_empty
trace =
    push {q' = one_queue} {h' = one_node} 10 77 (omega arith) refl (omega arith) (omega arith) refl
      (pop 77 (omega arith) refl (pop_null refl stop))

fifo_example :
    (ys : Cells) × IsQueue (update one_node 10 none) (record { size = 0; first = 0; last = 10 }) ys
    × AreData ys
    × (items [] ++ (77 ∷ []) ≡ (77 ∷ []) ++ items ys)
fifo_example = fifo [] (queue_create-IsQueue no_nodes) tt trace

-- ===== src/Server/Response/Layout.antt =====
-- What the response to GTHR is, and that it is never written past its allocation.
use mathlib.Core.List.{flatten}
use le_forum.Common.{
  ℕ, ◌+◌, ◌%◌, ◌^◌, ◌≤◌, ◌<◌, ◌≡◌, List, [], ◌∷◌, ◌++◌, arith, length, length-append, append-nil,
  append_assoc, ok, All,
}
use le_forum.Clib.Strings.{Bytes}
use le_forum.Clib.Text.{before_nul, IsString, strlen-before_nul, strncpy-before_nul}
use le_forum.Clib.Words.{le_bytes, length-le_bytes, u64_mod}
use le_forum.Clib.Writer.{buffer, write_all-ok}
use le_forum.Forum.{LeThread, LeMessage, lethread_message_count}
use le_forum.Protocol.{chars, thrid, tpcsz, tpc, msgcnt, msg, msgend}
use le_forum.Server.Response.{Junk, junk_bytes, gthr_message, gthr_messages, gthr_response}
use le_forum.Server.Response.Growth.{reserve_lem}

abbrev pub text_size : LeMessage → ℕ
text_size m = length (before_nul m.text)

abbrev message_parts : Junk → ℕ → LeMessage → List Bytes
message_parts junk offset m =
    chars msg
    ∷ ((m.by_lethread_author % 256) ∷ junk_bytes junk (offset + 4) 3)
    ∷ le_bytes 8 m.id
    ∷ le_bytes 8 (text_size m)
    ∷ before_nul m.text
    ∷ chars msgend
    ∷ []

-- A message of the response, at its offset there.
unfoldable pub message_bytes : Junk → ℕ → LeMessage → Bytes
message_bytes junk offset m =
    chars msg
    ++ (((m.by_lethread_author % 256) ∷ junk_bytes junk (offset + 4) 3)
        ++ (le_bytes 8 m.id ++ (le_bytes 8 (text_size m) ++ (before_nul m.text ++ chars msgend))))

unfoldable pub messages_bytes : Junk → ℕ → List LeMessage → Bytes
unfolding message_bytes
messages_bytes junk offset [] = []
messages_bytes junk offset (m ∷ ms) =
    message_bytes junk offset m ++ messages_bytes junk (offset + (29 + text_size m)) ms

flatten-message_parts :
    (junk : Junk) (offset : ℕ) (m : LeMessage)
    → flatten (message_parts junk offset m) ≡ message_bytes junk offset m
unfolding flatten message_bytes
flatten-message_parts junk offset m = rw append-nil

pub length-message_bytes :
    (junk : Junk) (offset : ℕ) (m : LeMessage)
    → length (message_bytes junk offset m) ≡ 29 + text_size m
unfolding message_bytes chars junk_bytes
length-message_bytes junk offset m = omega (arith, length-append {0}, length-le_bytes)

-- Every text is a C string.
abbrev pub AreStrings : List LeMessage → Type 0
AreStrings = All (λ m. IsString m.text)

module _ (junk : Junk) where
  gthr_message_lem :
      (m : LeMessage) (w : Bytes) (chunk capacity : ℕ)
      → IsString m.text
      → 0 < chunk
      → chunk ≤ capacity
      → length w + (29 + text_size m) < 2 ^ 61
      → (chunk' : ℕ) × (capacity' : ℕ) × (gthr_message junk m (length w) chunk (buffer w capacity)
          ≡ ok (
            length w + (29 + text_size m),
            chunk',
            buffer (w ++ message_bytes junk (length w) m) capacity',
          ))
        × (0 < chunk')
        × (chunk' ≤ capacity')
  unfolding gthr_message
  gthr_message_lem m w chunk capacity str pos fits bound =
      let n = (length w + 3 + 4 + 8 + 8 + text_size m + 6) % u64_mod in
      let same : n ≡ length w + (29 + text_size m) = omega arith in
      let (c, k, e, small, inside) =
        reserve_lem 64 n chunk w capacity pos fits (omega arith) (omega arith) in
      let f = flatten-message_parts junk (length w) m in
      let l = length-message_bytes junk (length w) m in
      let room : length w + length (flatten (message_parts junk (length w) m)) ≤ k =
        rw f (omega arith) in
      (
        c,
        k,
        rw (
          strlen-before_nul m.text str,
          e,
          strncpy-before_nul m.text,
          write_all-ok (message_parts junk (length w) m) w k room,
          f,
          length-append,
          l,
        ),
        omega arith,
        inside,
      )

  -- The loop, from the offset `n` on.
  gthr_messages_lem :
      (ms : List LeMessage) (n : ℕ) (w : Bytes) (chunk capacity : ℕ)
      → length w ≡ n
      → AreStrings ms
      → 0 < chunk
      → chunk ≤ capacity
      → n + length (messages_bytes junk n ms) < 2 ^ 61
      → (capacity' : ℕ) × (gthr_messages junk ms n chunk (buffer w capacity)
          ≡ ok (buffer (w ++ messages_bytes junk n ms) capacity'))
  unfolding gthr_messages messages_bytes
  gthr_messages_lem [] n w chunk capacity e strs pos fits bound = (capacity, rw append-nil)
  gthr_messages_lem (m ∷ ms) n w chunk capacity e (str, strs) pos fits bound =
      let l = length-message_bytes junk n m in
      let l' =
        length-append (message_bytes junk n m) (messages_bytes junk (n + (29 + text_size m)) ms) in
      let (c, k, step, pos', fits') =
        rw e at (gthr_message_lem m w chunk capacity str pos fits (omega arith)) in
      let (capacity', rest) =
        gthr_messages_lem ms (n + (29 + text_size m)) (w ++ message_bytes junk n m) c k
          (omega (arith, length-append w (message_bytes junk n m))) strs pos' fits' (omega arith) in
      (capacity', rw (step, rest, append_assoc))

-- The response to GTHR: the thread, and its messages in their order.
unfoldable pub thread_bytes : ℕ → LeThread → Bytes
thread_bytes id t =
    chars thrid
    ++ (le_bytes 8 id
        ++ (chars tpcsz
            ++ (le_bytes 8 (length (before_nul t.topic))
                ++ (chars tpc
                    ++ (before_nul t.topic
                        ++ (chars msgcnt ++ le_bytes 8 (lethread_message_count t)))))))

abbrev thread_parts : ℕ → LeThread → List Bytes
thread_parts id t =
    chars thrid
    ∷ le_bytes 8 id
    ∷ chars tpcsz
    ∷ le_bytes 8 (length (before_nul t.topic))
    ∷ chars tpc
    ∷ before_nul t.topic
    ∷ chars msgcnt
    ∷ le_bytes 8 (lethread_message_count t)
    ∷ []

flatten-thread_parts : (id : ℕ) (t : LeThread) → flatten (thread_parts id t) ≡ thread_bytes id t
unfolding flatten thread_bytes
flatten-thread_parts id t = rw append-nil

pub length-thread_bytes :
    (id : ℕ) (t : LeThread) → length (thread_bytes id t) ≡ 43 + length (before_nul t.topic)
unfolding thread_bytes chars
length-thread_bytes id t = omega (arith, length-append {0}, length-le_bytes)

abbrev pub gthr_answer : Junk → ℕ → LeThread → Bytes
gthr_answer junk id t =
    thread_bytes id t ++ messages_bytes junk (43 + length (before_nul t.topic)) t.messages

-- All strings of the thread are C strings.
pub record HasStrings (t : LeThread) : Type 0 where
  pub topic : IsString t.topic
  pub texts : AreStrings t.messages

-- For a thread whose strings are terminated and whose response is below 2 ^ 61 bytes, building the
-- response ends, never writes past the allocation that it grows, however many messages there are,
-- and gives the thread's fields followed by its messages in order, each with the byte of its flag
-- and three bytes that were never written (`junk`) behind it.
pub gthr_response_lem :
    (junk : Junk) (id : ℕ) (t : LeThread)
    → HasStrings t
    → length (gthr_answer junk id t) < 2 ^ 61
    → gthr_response junk id t ≡ ok (gthr_answer junk id t)
unfolding gthr_response
gthr_response_lem junk id t strs bound =
    let n = 43 + length (before_nul t.topic) in
    let f = flatten-thread_parts id t in
    let l = length-thread_bytes id t in
    let a = length-append (thread_bytes id t) (messages_bytes junk n t.messages) in
    let room : 0 + length (flatten (thread_parts id t)) ≤ n + 1024 + 1 = rw f (omega arith) in
    let (k, e) =
      gthr_messages_lem junk t.messages n (thread_bytes id t) (n + 1024) (n + 1024 + 1) l strs.texts
        (omega arith) (omega arith) (omega arith) in
    let sum : 5 + 8 + 5 + 8 + 3 + length (before_nul t.topic) + 6 + 8 ≡ n = omega arith in
    rw (
      strlen-before_nul t.topic strs.topic,
      strncpy-before_nul t.topic,
      sum,
      write_all-ok (thread_parts id t) [] (n + 1024 + 1) room,
      f,
      e,
    )

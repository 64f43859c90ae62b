-- ===== src/Client/Response/Thread.antt =====
-- What the client makes of the server's response to GTHR.
use le_forum.Common.{
  ℕ, suc, ◌+◌, ◌*◌, ◌%◌, ◌^◌, ◌≤◌, ◌<◌, ◌≡◌, refl, List, [], ◌∷◌, ◌++◌, arith, length, append_assoc,
  ok, All, drop-append_of_length, none,
}
use le_forum.Common.Command.{done}
use le_forum.Clib.Strings.{Bytes, IsText, strncpy-text}
use le_forum.Clib.Text.{
  before_nul, strlen-before_nul, strncpy-before_nul, before_nul-IsText, before_nul-text,
  has_nul-text,
}
use le_forum.Clib.Words.{le_bytes, u64_mod, le_value}
use le_forum.Conf.{min_message_size, max_message_size}
use le_forum.Security.{Entropy, rand_uint64_t}
use le_forum.Forum.{lethread_message_count, LeThread, LeMessage, lethread_create}
use le_forum.Forum.Posting.{with_lemessage, lemessage_create_accepted}
use le_forum.Protocol.{thrid, tpcsz, tpc, msgcnt, chars, msg, msgend, read_int}
use le_forum.Protocol.Words.{expect-chars, read_int-le_bytes}
use le_forum.Server.Response.{Junk, junk_bytes}
use le_forum.Server.Response.Layout.{
  thread_bytes, gthr_answer, message_bytes, messages_bytes, text_size,
}
use le_forum.Client.Response.{parse_response_gthr, gthr_round, gthr_rounds, new_lethread}

-- The `bool_t` that the client reads: one byte of the flag, and three that the server never wrote.
abbrev pub flag_read : Junk → ℕ → LeMessage → ℕ
flag_read junk n m =
    m.by_lethread_author % 256
    + 256
      * (junk (n + 4) % 256
          + 256 * (junk (suc (n + 4)) % 256 + 256 * (junk (suc (suc (n + 4))) % 256 + 256 * 0)))

-- A message as the client creates it anew in its own thread.
abbrev pub receive : Junk → ℕ → LeThread → LeMessage → LeThread
receive junk n c m = with_lemessage c (before_nul m.text ++ (0 ∷ [])) (flag_read junk n m)

unfoldable pub receive_all : Junk → ℕ → LeThread → List LeMessage → LeThread
receive_all junk n c [] = c
receive_all junk n c (m ∷ ms) = receive_all junk (n + (29 + text_size m)) (receive junk n c m) ms

-- A message that the forum takes: its size is allowed, and its id is a `uint64_t`.
pub record IsPosted (m : LeMessage) : Type 0 where
  pub long_enough : min_message_size ≤ text_size m
  pub short_enough : text_size m ≤ max_message_size
  pub id_fits : m.id < u64_mod

module _ (junk : Junk) where
  message_bytes-append :
      (n : ℕ) (m : LeMessage) (rest : Bytes)
      → message_bytes junk n m ++ rest
        ≡ chars msg
          ++ (((m.by_lethread_author % 256) ∷ junk_bytes junk (n + 4) 3)
              ++ (le_bytes 8 m.id
                  ++ (le_bytes 8 (text_size m) ++ (before_nul m.text ++ (chars msgend ++ rest)))))
  unfolding message_bytes
  message_bytes-append n m rest = simp append_assoc

  read_flag :
      (n : ℕ) (m : LeMessage) (p : Bytes) (e : Entropy)
      → read_int 4 (((m.by_lethread_author % 256) ∷ junk_bytes junk (n + 4) 3) ++ p) e
        ≡ done (flag_read junk n m, p) e
  unfolding read_int le_value junk_bytes
  read_flag n m p e = refl

  gthr_round_lem :
      (n : ℕ) (m : LeMessage) (c : LeThread) (rest : Bytes) (e : Entropy)
      → IsPosted m
      → gthr_round c (message_bytes junk n m ++ rest) e ≡ done (receive junk n c m, rest) e
  unfolding gthr_round
  gthr_round_lem n m c rest e posted =
      let text = before_nul m.text in
      let h = before_nul-IsText m.text in
      let b = before_nul-text text [] h in
      let small : text_size m < 256 ^ 8 = omega (arith, posted.short_enough) in
      let fits : m.id < 256 ^ 8 = posted.id_fits in
      rw (
        message_bytes-append n m rest,
        expect-chars _ msg,
        read_flag n m,
        read_int-le_bytes 8 m.id,
        read_int-le_bytes 8 (text_size m),
        strncpy-text text (chars msgend ++ rest) h,
        lemessage_create_accepted c (text ++ (0 ∷ [])) (flag_read junk n m) (has_nul-text text [])
            (rw b posted.long_enough) (rw b posted.short_enough),
        drop-append_of_length text (chars msgend ++ rest) refl,
        expect-chars _ msgend,
      )

  gthr_rounds_lem :
      (ms : List LeMessage) (n : ℕ) (c : LeThread) (rest : Bytes) (e : Entropy)
      → All IsPosted ms
      → gthr_rounds (length ms) c (messages_bytes junk n ms ++ rest) e
        ≡ done (receive_all junk n c ms) e
  unfolding gthr_rounds messages_bytes receive_all
  gthr_rounds_lem [] n c rest e h = refl
  gthr_rounds_lem (m ∷ ms) n c rest e (hm, h) =
      rw
        (
          append_assoc,
          gthr_round_lem n m c (messages_bytes junk (n + (29 + text_size m)) ms ++ rest) e hm,
        )
        (gthr_rounds_lem ms (n + (29 + text_size m)) (receive junk n c m) rest e h)

-- The client's own thread before its messages: the random number is the id of the first.
abbrev pub empty_view : ℕ → ℕ → Bytes → LeThread
empty_view r id topic = record {
  id = id;
  first_message_id = r % 0xffff_ffff;
  next_message_id = r % 0xffff_ffff;
  topic = before_nul topic ++ (0 ∷ []);
  messages = [];
  author = none;
}

pub new_lethread_lem :
    (topic : Bytes) (id r : ℕ) (e e' : Entropy)
    → IsText topic
    → rand_uint64_t e ≡ ok (r, e')
    → new_lethread (topic ++ (0 ∷ [])) id e ≡ done (empty_view r id (topic ++ (0 ∷ []))) e'
unfolding new_lethread lethread_create
new_lethread_lem topic id r e e' h d =
    let s = has_nul-text topic [] in
    rw (
      lethread_create,
      strlen-before_nul (topic ++ (0 ∷ [])) s,
      d,
      strncpy-before_nul (topic ++ (0 ∷ [])),
    )

-- The response is read back whole: the client's thread has the id, the topic and the messages of the
-- response, in their order.
pub parse_response_gthr_lem :
    (junk : Junk) (id size r : ℕ) (t : LeThread) (e e' : Entropy)
    → id < u64_mod
    → length (before_nul t.topic) < u64_mod
    → length t.messages < u64_mod
    → lethread_message_count t ≡ length t.messages
    → All IsPosted t.messages
    → rand_uint64_t e ≡ ok (r, e')
    → parse_response_gthr (gthr_answer junk id t ++ (0 ∷ [])) size e
      ≡ done
          (receive_all junk
            (43 + length (before_nul t.topic))
            (empty_view r id (before_nul t.topic ++ (0 ∷ [])))
            t.messages)
          e'
unfolding parse_response_gthr thread_bytes
parse_response_gthr_lem junk id size r t e e' fits topic_fits count_fits counted posted drawn =
    let topic = before_nul t.topic in
    let h = before_nul-IsText t.topic in
    let i : id < 256 ^ 8 = fits in
    let l : length topic < 256 ^ 8 = topic_fits in
    let k : length t.messages < 256 ^ 8 = count_fits in
    let body = messages_bytes junk (43 + length topic) t.messages ++ (0 ∷ []) in
    simp append_assoc (
      rw
        (
          expect-chars _ thrid,
          read_int-le_bytes 8 id,
          expect-chars _ tpcsz,
          read_int-le_bytes 8 (length topic),
          expect-chars _ tpc,
          strncpy-text topic _ h,
          new_lethread_lem topic id r e e' h drawn,
          drop-append_of_length topic _ refl,
          expect-chars _ msgcnt,
          counted,
          read_int-le_bytes 8 (length t.messages),
        )
        (gthr_rounds_lem junk t.messages (43 + length topic) _ (0 ∷ []) e' posted))

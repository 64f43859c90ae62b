-- ===== src/Exchange/Read.antt =====
-- Reading a thread: GTHR.
use le_forum.Common.{
  ℕ, ◌+◌, ◌<◌, ◌^◌, ◌%◌, ◌≡◌, [], ◌∷◌, ◌++◌, arith, some, none, ok, length, append_assoc, All,
}
use le_forum.Common.Command.{done}
use le_forum.Clib.Strings.{Bytes}
use le_forum.Clib.Text.{before_nul}
use le_forum.Clib.Words.{u64_mod, le_bytes, length-le_bytes}
use le_forum.Conf.{lestatus_nfnd}
use le_forum.Security.{Entropy, rand_uint64_t}
use le_forum.Forum.{LeThread}
use le_forum.Forum.Posting.{IsCounted}
use le_forum.Protocol.{chars, gthr, thrid}
use le_forum.Server.{Server, lethread_get_by_id}
use le_forum.Server.Response.{Junk}
use le_forum.Server.Response.Layout.{gthr_answer, HasStrings}
use le_forum.Server.Query.{query_process, process}
use le_forum.Server.Query.Get.{cmd_lethread_get_found, cmd_lethread_get_missing}
use le_forum.Server.Query.Dispatch.{query_process-gthr}
use le_forum.Client.Request.{gen_query_gthr}
use le_forum.Client.Request.Layout.{gen_query_gthr_lem}
use le_forum.Client.Response.{parse_response_gthr}
use le_forum.Client.Response.Thread.{IsPosted, receive_all, empty_view, parse_response_gthr_lem}
use le_forum.Client.Response.View.{texts, ids, ids_from, texts-receive_all, ids-receive_all}
use le_forum.Exchange.{packet, received, answer, status_only}

-- A thread that the forum holds: its strings, its count and its messages are in order.
pub record IsThread (t : LeThread) : Type 0 where
  pub strings : HasStrings t
  pub counted : IsCounted t
  pub posted : All IsPosted t.messages
  pub topic_fits : length (before_nul t.topic) < 2 ^ 32
  pub count_fits : length t.messages < 2 ^ 32

pub length-request : (id : ℕ) → length (chars gthr ++ (chars thrid ++ le_bytes 8 id)) ≡ 17
unfolding chars
length-request id = omega (arith, length-le_bytes)

-- What the client makes of a thread, with `r` from its random source.
abbrev pub view : Junk → ℕ → LeThread → ℕ → LeThread
view junk id t r =
    receive_all junk (43 + length (before_nul t.topic))
      (empty_view r id (before_nul t.topic ++ (0 ∷ []))) t.messages

module _ (junk : Junk) (s s' : Server) (id : ℕ) (fits : id < u64_mod) (behind : Bytes) where
  -- For an id that `lethread_get_by_id` does not find, the client's GTHR request is answered with
  -- the status NFND and no data.
  pub read_missing_exchange :
      lethread_get_by_id id s ≡ ok (none, s')
      → (request : Bytes) × (gen_query_gthr id ≡ ok request)
        × (query_process junk (packet request behind) (length request) s
            ≡ ok (status_only lestatus_nfnd, s'))
  unfolding process
  read_missing_exchange missing = (
    chars gthr ++ (chars thrid ++ le_bytes 8 id),
    gen_query_gthr_lem id,
    rw (length-request id) (
        simp append_assoc (
          rw (
            query_process-gthr junk _ 13 s (omega arith),
            cmd_lethread_get_missing junk s s' id 13 (0 ∷ behind) fits (omega arith) missing,
          ))),
  )

  pub read_parsed :
      (t : LeThread) (e e' : Entropy) (r : ℕ)
      → IsThread t
      → rand_uint64_t e ≡ ok (r, e')
      → parse_response_gthr (received (gthr_answer junk id t)) (length (gthr_answer junk id t)) e
        ≡ done (view junk id t r) e'
  read_parsed t e e' r is drawn =
      parse_response_gthr_lem junk id _ r t e e' fits (omega (arith, is.topic_fits))
        (omega (arith, is.count_fits)) is.counted.counted is.posted drawn

  pub read_processed :
      (place : ℕ) (t : LeThread)
      → lethread_get_by_id id s ≡ ok (some (place, t), s')
      → IsThread t
      → length (gthr_answer junk id t) < 2 ^ 61
      → query_process junk
          (packet (chars gthr ++ (chars thrid ++ le_bytes 8 id)) behind)
          (length (chars gthr ++ (chars thrid ++ le_bytes 8 id)))
          s
        ≡ ok (answer (gthr_answer junk id t), s')
  unfolding process
  read_processed place t found is bound = rw (length-request id) (
      simp append_assoc (
        rw (
          query_process-gthr junk _ 13 s (omega arith),
          cmd_lethread_get_found junk s s' id 13 (0 ∷ behind) fits (omega arith) place t found
              is.strings bound,
        )))

  -- For an id that `lethread_get_by_id` finds as a thread `t` in order (`IsThread t`), a response
  -- below 2 ^ 61 bytes and a random number `r` for the client: the client's GTHR request, processed
  -- by the server, is answered with `gthr_answer`; the client parses it without a fault into
  -- `view`, whose message texts are those of `t`, in order, and whose ids count up from `r %
  -- 0xffffffff`, whatever the server's ids are.
  pub read_exchange :
      (place : ℕ) (t : LeThread) (e e' : Entropy) (r : ℕ)
      → lethread_get_by_id id s ≡ ok (some (place, t), s')
      → IsThread t
      → length (gthr_answer junk id t) < 2 ^ 61
      → rand_uint64_t e ≡ ok (r, e')
      → (request : Bytes) × (response : Bytes) × (gen_query_gthr id ≡ ok request)
        × (query_process junk (packet request behind) (length request) s ≡ ok (answer response, s'))
        × (parse_response_gthr (received response) (length response) e ≡ done (view junk id t r) e')
        × (texts (view junk id t r).messages ≡ texts t.messages)
        × (ids (view junk id t r).messages ≡ ids_from (r % 0xffff_ffff) (length t.messages))
  unfolding process
  read_exchange place t e e' r found is bound drawn = (
    chars gthr ++ (chars thrid ++ le_bytes 8 id),
    gthr_answer junk id t,
    gen_query_gthr_lem id,
    read_processed place t found is bound,
    read_parsed t e e' r is drawn,
    texts-receive_all junk t.messages _ _,
    ids-receive_all junk t.messages _ _,
  )

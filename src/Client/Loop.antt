-- ===== src/Client/Loop.antt =====
-- The client's connection: `query_loop`, `query_create` and the waits of src/client/client.c and
-- src/client/query.c. A command puts one query in the queue and waits for it, so the queue is empty or
-- holds that query.
pub mod Asking
use le_forum.Common.{
  ℕ, ◌+◌, ◌-◌, List, ◌++◌, Option, none, some, Bool, true, false, ltb, if◌then◌else◌, Outcome, ok,
  fault, hang, length, replicate,
}
use le_forum.Common.Result.{◌>>=◌}
use le_forum.Common.Command.{Run, done, exit}
use le_forum.Clib.Strings.{Bytes}
use le_forum.Clib.Words.{le_value}
use le_forum.Conf.{LeStatus}
use le_forum.Security.{Entropy}
use le_forum.Forum.{LeThread, LeMeta}
use le_forum.Protocol.{chars, live, okay, has_word}
use le_forum.Communication.{Wire, Received, received, closed, failed, recv, s_recv, max_packet_size}
use le_forum.Server.Connection.{frame, bytes_of}
use le_forum.Client.State.{LeClient, ClientCmd}
use le_forum.Client.Response.{
  Parser, CreatedThreadInfo, parse_response_cthr, parse_response_gthr, parse_response_fthr,
  parse_response_meta,
}

-- The parsers that queries name, and what they write to `parsed_data`.
pub data ParseResponse : Type 0 where
  parse_cthr parse_gthr parse_fthr parse_meta : ParseResponse

pub data Parsed : Type 0 where
  parsed_thread : LeThread → Parsed
  parsed_info : CreatedThreadInfo → Parsed
  parsed_found : List LeThread → Parsed
  parsed_meta : LeMeta → Parsed

-- `parsed_data` is null where it is `none`.
pub record ServerQuery : Type 0 where
  pub completed : Bool
  pub request : Bytes
  pub parser : ParseResponse
  pub parsed_data : Option Parsed

unfoldable pub query_create : ParseResponse → Bytes → ServerQuery
query_create parser request = record {
  completed = false;
  request = request;
  parser = parser;
  parsed_data = none;
}

abbrev pub run_map : {A B : Type 0} → (A → B) → Run LeStatus Entropy A → Run LeStatus Entropy B
run_map f (done a e) = done (f a) e
run_map f (exit s e) = exit s e
run_map f Run.fault = Run.fault
run_map f Run.hang = Run.hang

unfoldable pub parse_response : ParseResponse → Bytes → ℕ → Parser Parsed
parse_response parse_cthr raw size e = run_map parsed_info (parse_response_cthr raw size e)
parse_response parse_gthr raw size e = run_map parsed_thread (parse_response_gthr raw size e)
parse_response parse_fthr raw size e = run_map parsed_found (parse_response_fthr raw size e)
parse_response parse_meta raw size e = run_map parsed_meta (parse_response_meta raw size e)

-- Where a client leaves a server.
unfoldable pub server_disconnect : {P : Type 0} → LeClient P → LeClient P
server_disconnect c =
    if c.connected
    then record c { connected = false; active_thread_exists = false; active_thread_id = 0 }
    else c

-- A query that its parser has looked at: what the parser returns is dropped.
abbrev pub complete :
    {P : Type 0}
    → ServerQuery
    → LeClient P
    → Run LeStatus Entropy Parsed
    → Outcome (ServerQuery × LeClient P)
complete q c (done a e) =
    ok (record q { completed = true; parsed_data = some a }, record c { entropy = e })
complete q c (exit status e) = ok (record q { completed = true }, record c { entropy = e })
complete q c Run.fault = fault
complete q c Run.hang = hang

-- `serve` is what the other side does with the bytes that are sent: what arrives from it then, and
-- `none` if the connection is lost.
module _ {P : Type 0} (serve : Bytes → P → Option (Wire × P)) where
  -- The response, into a buffer of its size and one more byte that starts as zeros. A size that does
  -- not arrive in full is a fault here: in the code it is what the variable held before, which at the
  -- first query was never written.
  unfoldable pub receive_response : LeClient P → Outcome (Bytes × ℕ × LeClient P)
  receive_response c = do
    let (r, w) = recv 8 c.wire
    response_size ← le_value 8 (bytes_of r)
    let (bytes, w) = s_recv response_size w
    ok (
      bytes ++ replicate (response_size + 1 - length bytes) 0,
      length bytes,
      record c { wire = w },
    )

  -- The branch of `query_loop` for a query.
  unfoldable pub answer_query : ServerQuery → LeClient P → Outcome (ServerQuery × LeClient P)
  unfolding receive_response
  answer_query q c = elim (serve (frame q.request) c.peer) [
    | none ↦ fault
    | some (arriving, p) ↦ do
      (raw, bytes_read, c) ← receive_response (record c { wire = c.wire ++ arriving; peer = p })
      complete q c (parse_response q.parser raw bytes_read c.entropy)
  ]

  -- A query is made, put in the queue and waited for. Without a connection the wait never ends.
  unfoldable pub ask : ParseResponse → Bytes → ClientCmd P (Option Parsed)
  unfolding query_create answer_query
  ask parser request c =
      if c.connected
      then elim (answer_query (query_create parser request) c) [
        | ok (q, c') ↦ done q.parsed_data c'
        | Outcome.fault ↦ Run.fault
        | Outcome.hang ↦ Run.hang
      ]
      else Run.hang

  -- What `recv` of the answer to LIVE leaves in zeroed memory.
  abbrev pub live_answer : ℕ → Received → Option Bytes
  live_answer size (received bs) = some (bs ++ replicate (size + 1 - length bs) 0)
  live_answer size closed = some (replicate (size + 1) 0)
  live_answer size failed = none

  -- The end of a LIVE round: the answer has to begin with OK.
  unfoldable pub check_live : ℕ → LeClient P → Outcome (LeClient P)
  check_live size c =
      let (r, w) = recv size c.wire in
      elim (live_answer size r) [
        | none ↦ ok (server_disconnect (record c { wire = w }))
        | some raw ↦ do
          good ← has_word okay raw
          ok (if good then record c { wire = w } else server_disconnect (record c { wire = w }))
      ]

  -- The branch of `query_loop` for an empty queue, with a size that does not arrive as above.
  unfoldable pub live_round : LeClient P → Outcome (LeClient P)
  unfolding check_live
  live_round c = elim (serve (frame (chars live)) c.peer) [
    | none ↦ ok (server_disconnect c)
    | some (arriving, p) ↦
        let (r, w) = recv 8 (c.wire ++ arriving) in
        let c = record c { wire = w; peer = p } in
        elim r [
          | failed ↦ ok (server_disconnect c)
          | closed ↦ fault
          | received bs ↦ do
            size ← le_value 8 bs
            if ltb max_packet_size size then ok (server_disconnect c) else check_live size c
        ]
  ]

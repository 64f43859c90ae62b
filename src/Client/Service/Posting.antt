-- ===== src/Client/Service/Posting.antt =====
-- What is typed as a message is posted.
use le_forum.Common.{
  ℕ, length-append, append_assoc, append-nil, ap, ◌∙◌, ◌+◌, ◌≤◌, ◌<◌, ◌≡◌, refl, [], ◌∷◌, ◌++◌,
  arith, Bool, if◌then◌else◌, Option, none, some, true, ok, length,
}
use le_forum.Common.Command.{Run, ◌>>=◌, and_then, done, exit}
use le_forum.Clib.Strings.{Bytes, IsText, strncmp_eq}
use le_forum.Clib.Words.{u64_mod, length-le_bytes}
use le_forum.Conf.{
  min_message_size, max_message_size, LeStatus, get_lestatus_string_repr, lestatus_ok,
  lestatus_idat,
}
use le_forum.Security.{Entropy}
use le_forum.Forum.{LeThread, LeAuthor, token_size}
use le_forum.Util.{newline}
use le_forum.Util.Lines.{IsLine, IsLine-IsText}
use le_forum.Communication.{Wire, arrived, max_packet_size}
use le_forum.Server.{Server, lethread_get_by_id}
use le_forum.Server.Response.{Junk}
use le_forum.Server.Query.{query_process, author_flag}
use le_forum.Server.Query.Post.{with_post, cmsg_body, author_flag-anonymous, author_flag-signed}
use le_forum.Server.Connection.{Connection, frame, reply}
use le_forum.Client.Request.{gen_query_cmsg}
use le_forum.Client.Response.{parse_response_gthr}
use le_forum.Protocol.{expect, has_word, chars, cmsg, tkn}
use le_forum.Client.Request.Layout.{gen_query_cmsg_anonymous, gen_query_cmsg_signed}
use le_forum.Client.State.{LeClient}
use le_forum.Client.Input.{get_range}
use le_forum.Client.Input.Bounds.{get_range-line}
use le_forum.Client.Files.{token_load}
use le_forum.Client.Loop.{parse_gthr, parse_response}
use le_forum.Client.Loop.Asking.{ask-exit}
use le_forum.Client.Threads.{cmd_thread_send_message, send_text, usable_token, choose_first}
use le_forum.Client.Service.{Peer, served_by, served_by_lem}
use le_forum.Exchange.{packet, status_only}
use le_forum.Exchange.Post.{post}
use le_forum.Forum.Tokens.{is_token_valid_iff}
use le_forum.Forum.{is_token_valid}

-- The answer OK is no thread, which the command does not look at.
parse-ok :
    (e : Entropy)
    → parse_response parse_gthr (get_lestatus_string_repr lestatus_ok ++ (0 ∷ [])) 2 e
      ≡ exit lestatus_idat e
unfolding parse_response parse_response_gthr expect has_word strncmp_eq chars
    get_lestatus_string_repr
parse-ok e = refl

reply-ok : reply (status_only lestatus_ok) ≡ frame (get_lestatus_string_repr lestatus_ok)
unfolding reply
reply-ok = refl

-- The text is sent to a server that processes its request with the status OK.
module _ (junk : Junk) (c : LeClient Peer) (conn : Connection) (s s' : Server)
    (peer : c.peer ≡ (conn, s)) (on : c.connected ≡ true) (quiet : c.wire ≡ []) where
  send_text_lem :
      (u request : Bytes) (token : Option Bytes)
      → usable_token (token_load c) ≡ token
      → gen_query_cmsg c.active_thread_id (u ++ (0 ∷ [])) (length u) token ≡ ok request
      → 0 < length request
      → length request ≤ max_packet_size
      → ((behind : Bytes)
          → query_process junk (packet request behind) (length request) s
            ≡ ok (status_only lestatus_ok, s'))
      → (conn' : Connection) × (send_text (served_by junk) (some u) c
          ≡ done tt (record c { wire = []; peer = (conn', s') }))
  unfolding send_text parse_response get_lestatus_string_repr
  send_text_lem u request token has made there small process =
      let (conn', served) =
        served_by_lem junk conn s s' request (status_only lestatus_ok) there small process in
      let whole : served_by junk (frame request) c.peer
          ≡ some (arrived (frame (get_lestatus_string_repr lestatus_ok)) ∷ [], (conn', s')) =
        rw (peer, ← reply-ok) served in
      let size : length (get_lestatus_string_repr lestatus_ok) ≡ 2 =
        unfold get_lestatus_string_repr in refl in
      let asked =
        ask-exit (served_by junk) c (conn', s') request (get_lestatus_string_repr lestatus_ok) quiet
          whole (omega (arith, size)) (omega (arith, size)) parse_gthr on (parse-ok c.entropy) in
      (conn', rw (send_text, has, made, asked))

-- A client that is connected to a server and has a thread chosen, with a line typed that the server
-- takes for a message.
pub record IsReady (c : LeClient Peer) (u rest : Bytes) : Type 0 where
  pub on : c.connected ≡ true
  pub quiet : c.wire ≡ []
  pub active : c.active_thread_exists ≡ true
  pub typed : c.stdin ≡ u ++ (newline ∷ rest)
  pub text : IsLine u
  pub some_limit : 0 < c.meta.min_topic_size
  pub long : c.meta.min_topic_size ≤ length u
  pub short : length u < c.meta.max_topic_size
  pub room : c.meta.max_topic_size ≤ c.meta.max_message_size
  pub lo : min_message_size ≤ length u
  pub hi : length u ≤ max_message_size

module _ (junk : Junk) (c : LeClient Peer) (conn : Connection) (s s' : Server) (place : ℕ)
    (t : LeThread) (u rest : Bytes) (ready : IsReady c u rest) (peer : c.peer ≡ (conn, s))
    (fits : c.active_thread_id < u64_mod)
    (found : lethread_get_by_id c.active_thread_id s ≡ ok (some (place, t), s')) where
  posted :
      (serve : Bytes → Peer → Option (Wire × Peer)) {after : LeClient Peer}
      → send_text serve (some u) (record c { stdin = rest }) ≡ done tt after
      → cmd_thread_send_message serve c ≡ done tt after
  unfolding cmd_thread_send_message
  posted serve sent =
      let read =
        get_range-line c (c.meta.max_message_size + 1) c.meta.min_topic_size c.meta.max_topic_size u
          rest ready.typed ready.text ready.some_limit ready.long ready.short
          (omega (arith, ready.room)) in
      let run =
        (get_range (c.meta.max_message_size + 1) c.meta.min_topic_size c.meta.max_topic_size
            >>= (λ typed. send_text serve typed))
          c in
      ap (λ (b : Bool). if b then run else choose_first c) ready.active
      ∙ (ap
            (λ (r : Run LeStatus (LeClient Peer) (Option Bytes)).
              and_then r (λ typed. send_text serve typed))
            read
          ∙ sent)

  sent :
      (tail : Bytes) (flag : ℕ) (token : Option Bytes)
      → length tail ≤ 100
      → usable_token (token_load c) ≡ token
      → gen_query_cmsg c.active_thread_id (u ++ (0 ∷ [])) (length u) token
        ≡ ok (chars cmsg ++ cmsg_body c.active_thread_id (length u) (u ++ tail))
      → ((behind : Bytes) → author_flag t (tail ++ (0 ∷ behind)) s' ≡ done flag s')
      → (conn' : Connection) × (cmd_thread_send_message (served_by junk) c
          ≡ done tt (record c {
            stdin = rest;
            wire = [];
            peer = (conn', with_post s' place t (u ++ (0 ∷ [])) flag);
          }))
  unfolding token_load
  sent tail flag token few has made flagged =
      let request = chars cmsg ++ cmsg_body c.active_thread_id (length u) (u ++ tail) in
      let size : length request ≡ 33 + length u + length tail =
        unfold chars in omega (arith, length-append {0}, length-le_bytes) in
      let (conn', e) =
        send_text_lem junk (record c { stdin = rest }) conn s
          (with_post s' place t (u ++ (0 ∷ [])) flag) peer ready.on ready.quiet u request token has
          made (omega (arith, size)) (omega (arith, size, ready.hi))
          (λ behind.
            post junk s s' c.active_thread_id place t fits found u (0 ∷ []) behind
              (IsLine-IsText u ready.text) ready.lo ready.hi tail flag few (flagged behind)) in
      (conn', posted (served_by junk) e)

  -- For a client that is connected to a server and has nothing unread, with a thread chosen that
  -- the server finds and for which the client has kept no token, and a line typed of a size that
  -- the limits allow, below the largest topic: `cmd_thread_send_message` ends without a fault, has
  -- read the line and changed nothing else of the client, and the server has the text as the last
  -- message of the thread, with the flag 0 and both saves queued.
  pub send_message_anonymous :
      usable_token (token_load c) ≡ none
      → (conn' : Connection) × (cmd_thread_send_message (served_by junk) c
          ≡ done tt (record c {
            stdin = rest;
            wire = [];
            peer = (conn', with_post s' place t (u ++ (0 ∷ [])) 0);
          }))
  send_message_anonymous no_token =
      sent [] 0 none (omega arith) no_token
        (rw append-nil
          (gen_query_cmsg_anonymous u (0 ∷ []) (IsLine-IsText u ready.text) c.active_thread_id))
        (λ behind. author_flag-anonymous t behind s')

  -- For a client that is connected to a server and has nothing unread, with a thread chosen that
  -- the server finds and whose author's token of 24 characters the client has kept, and a line
  -- typed of a size that the limits allow, below the largest topic: `cmd_thread_send_message` ends
  -- without a fault, has read the line and changed nothing else of the client, and the server has
  -- the text as the last message of the thread, marked as by the author, with both saves queued.
  pub send_message_signed :
      (author : LeAuthor)
      → t.author ≡ some author
      → IsText author.token
      → length author.token ≡ token_size
      → token_load c ≡ (lestatus_ok, some (author.token ++ (0 ∷ [])))
      → (conn' : Connection) × (cmd_thread_send_message (served_by junk) c
          ≡ done tt (record c {
            stdin = rest;
            wire = [];
            peer = (conn', with_post s' place t (u ++ (0 ∷ [])) 1);
          }))
  unfolding is_token_valid
  send_message_signed author known text long kept =
      let short : length (chars tkn ++ author.token) ≤ 100 =
        unfold chars in omega (arith, length-append {0}) in
      sent (chars tkn ++ author.token) 1 (some (author.token ++ (0 ∷ []))) short
        (ap usable_token kept)
        (gen_query_cmsg_signed u (0 ∷ []) (IsLine-IsText u ready.text) c.active_thread_id
          author.token (0 ∷ []) text long)
        (λ behind.
          let (b, e, i) =
            is_token_valid_iff t author known author.token (0 ∷ behind) text long long in
          rw append_assoc (
            author_flag-signed t (author.token ++ (0 ∷ behind)) s' 1
              (e ∙ ap (λ (x : Bool). ok (if x then 1 else 0)) (i.1 refl))))

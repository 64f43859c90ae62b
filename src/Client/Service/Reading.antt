-- ===== src/Client/Service/Reading.antt =====
-- The messages of the chosen thread are printed.
use le_forum.Common.{
  ℕ, ◌+◌, ◌<◌, ◌^◌, ◌≡◌, refl, ap, ◌∙◌, List, [], ◌∷◌, ◌++◌, arith, some, Bool, true, false, not,
  ◌==◌, if◌then◌else◌, ok, length, length-append, append-nil, append_assoc, All, All-append, map,
}
use le_forum.Common.Command.{Run, ◌>>=◌, and_then, done}
use le_forum.Clib.Strings.{Bytes, codes}
use le_forum.Clib.Text.{before_nul, IsString, text_of-before_nul, has_nul-text}
use le_forum.Clib.Words.{u64_mod, le_bytes}
use le_forum.Conf.{LeStatus}
use le_forum.Security.{Entropy, rand_uint64_t}
use le_forum.Forum.{LeThread, LeMessage}
use le_forum.Protocol.{chars, gthr, thrid}
use le_forum.Communication.{arrived}
use le_forum.Server.{Server, lethread_get_by_id}
use le_forum.Server.Response.{Junk}
use le_forum.Server.Response.Layout.{
  gthr_answer, thread_bytes, length-thread_bytes, messages_bytes, text_size,
}
use le_forum.Server.Connection.{Connection, frame, reply}
use le_forum.Client.Request.Layout.{gen_query_gthr_lem}
use le_forum.Client.Response.Thread.{receive, receive_all}
use le_forum.Client.Response.View.{texts, texts-receive_all}
use le_forum.Client.State.{LeClient, Shown, said, shown_message}
use le_forum.Client.Loop.{parse_gthr, parse_response, parsed_thread, run_map}
use le_forum.Client.Loop.Asking.{ask_lem}
use le_forum.Client.Threads.{
  cmd_thread_message_history, ask_thread, list_messages, show_messages, choose_first,
}
use le_forum.Client.Service.{Peer, served_by, served_by_lem}
use le_forum.Exchange.{answer}
use le_forum.Exchange.Read.{IsThread, view, read_processed, read_parsed, length-request}

-- How a message is printed.
abbrev pub shown_of : LeMessage → Shown
shown_of m = shown_message m.id (not (m.by_lethread_author == 0)) (before_nul m.text)

abbrev pub history : List LeMessage → List Shown
history [] = said (codes "No messages. Be first to post here!") ∷ []
history (m ∷ ms) = map shown_of (m ∷ ms)

pub reply-answer :
    (response : Bytes) → 0 < length response → reply (answer response) ≡ frame response
unfolding reply
reply-answer response there =
    let some_bytes : (length response == 0) ≡ false = ground arith in rw some_bytes

module _ {P : Type 0} where
  list_messages_lem :
      (ms : List LeMessage) (c : LeClient P)
      → All (λ (m : LeMessage). IsString m.text) ms
      → list_messages ms c ≡ done tt (record c { output = c.output ++ map shown_of ms })
  unfolding list_messages
  list_messages_lem [] c h = rw append-nil
  list_messages_lem (m ∷ ms) c (hm, h) = rw (
    text_of-before_nul m.text hm,
    list_messages_lem ms (record c { output = c.output ++ (shown_of m ∷ []) }) h,
    append_assoc,
  )

  show_messages_lem :
      (ms : List LeMessage) (c : LeClient P)
      → All (λ (m : LeMessage). IsString m.text) ms
      → show_messages ms c ≡ done tt (record c { output = c.output ++ history ms })
  unfolding show_messages
  show_messages_lem [] c h = refl
  show_messages_lem (m ∷ ms) c h = list_messages_lem (m ∷ ms) c h

receive_all-IsString :
    (junk : Junk) (n : ℕ) (c : LeThread) (ms : List LeMessage)
    → All (λ (m : LeMessage). IsString m.text) c.messages
    → All (λ (m : LeMessage). IsString m.text) (receive_all junk n c ms).messages
unfolding receive_all
receive_all-IsString junk n c [] h = h
receive_all-IsString junk n c (m ∷ ms) h =
    receive_all-IsString junk (n + (29 + text_size m)) (receive junk n c m) ms (
      All-append (λ (m : LeMessage). IsString m.text) c.messages _ h
        (has_nul-text (before_nul (before_nul m.text ++ (0 ∷ []))) [], tt))

length-gthr_answer : (junk : Junk) (id : ℕ) (t : LeThread) → 0 < length (gthr_answer junk id t)
length-gthr_answer junk id t = omega (
  arith,
  length-append (thread_bytes id t)
      (messages_bytes junk (43 + length (before_nul t.topic)) t.messages),
  length-thread_bytes id t,
)

module _ (junk : Junk) (c : LeClient Peer) (conn : Connection) (s s' : Server) (place r : ℕ)
    (t : LeThread) (e' : Entropy) (peer : c.peer ≡ (conn, s)) (on : c.connected ≡ true)
    (quiet : c.wire ≡ []) (fits : c.active_thread_id < u64_mod)
    (found : lethread_get_by_id c.active_thread_id s ≡ ok (some (place, t), s')) (is : IsThread t)
    (bound : length (gthr_answer junk c.active_thread_id t) < 2 ^ 61)
    (drawn : rand_uint64_t c.entropy ≡ ok (r, e')) where
  ask_thread_lem :
      (conn' : Connection) × (ask_thread (served_by junk) c
        ≡ done
            (view junk c.active_thread_id t r)
            (record c { wire = []; peer = (conn', s'); entropy = e' }))
  unfolding ask_thread parse_response
  ask_thread_lem =
      let id = c.active_thread_id in
      let request = chars gthr ++ (chars thrid ++ le_bytes 8 id) in
      let response = gthr_answer junk id t in
      let size = length-request id in
      let there = length-gthr_answer junk id t in
      let (conn', served) =
        served_by_lem junk conn s s' request (answer response) (omega (arith, size))
          (omega (arith, size))
          (λ behind. read_processed junk s s' id fits behind place t found is bound) in
      let whole : served_by junk (frame request) c.peer
          ≡ some (arrived (frame response) ∷ [], (conn', s')) =
        rw (peer, ← reply-answer response there) served in
      let asked =
        ask_lem (served_by junk) c (conn', s') request response quiet whole there
          (omega (arith, bound)) parse_gthr on
          (ap (run_map parsed_thread)
            (read_parsed junk s s' id fits [] t c.entropy e' r is drawn)) in
      (conn', rw (ask_thread, gen_query_gthr_lem id, asked))

  -- For a client that is connected to a server and has nothing unread, with a thread chosen that
  -- the server finds as `t`, in order (`IsThread`), an answer below 2 ^ 61 bytes, and a random
  -- number: `cmd_thread_message_history` ends without a fault and prints the messages of the
  -- client's view of `t`, each once and in order, or that there are none; the texts in the view are
  -- those of `t`.
  pub cmd_thread_message_history_lem :
      c.active_thread_exists ≡ true
      → (conn' : Connection) × (cmd_thread_message_history (served_by junk) c
          ≡ done tt (record c {
            output = c.output ++ history (view junk c.active_thread_id t r).messages;
            wire = [];
            peer = (conn', s');
            entropy = e';
          }))
        × (texts (view junk c.active_thread_id t r).messages ≡ texts t.messages)
  unfolding cmd_thread_message_history
  cmd_thread_message_history_lem active =
      let (conn', asked) = ask_thread_lem in
      let after : LeClient Peer = record c { wire = []; peer = (conn', s'); entropy = e' } in
      let seen = view junk c.active_thread_id t r in
      let run = (ask_thread (served_by junk) >>= (λ t. show_messages t.messages)) c in
      (
        conn',
        ap (λ (b : Bool). if b then run else choose_first c) active
            ∙ (ap
                  (λ (r : Run LeStatus (LeClient Peer) LeThread).
                    and_then r (λ t. show_messages t.messages))
                  asked
                ∙ show_messages_lem seen.messages after
                    (receive_all-IsString junk _ _ t.messages tt)),
        texts-receive_all junk t.messages _ _,
      )

-- ===== src/Client/Service/Finding.antt =====
-- A thread is found by a part of its topic, and chosen by its number.
use le_forum.Common.{
  ℕ, zero, suc, ◌+◌, ◌-◌, ◌*◌, ◌≤◌, ◌<◌, ◌^◌, ◌≡◌, refl, ap, ◌∙◌, List, [], ◌∷◌, ◌++◌, arith,
  Option, some, true, false, ◌==◌, ltb, le→ltb, length, length-append, append-nil, append_assoc,
  All, get_elem?,
}
use le_forum.Common.Command.{Run, and_then, done}
use le_forum.Clib.Strings.{Bytes}
use le_forum.Clib.Text.{before_nul, text_of-before_nul}
use le_forum.Clib.Words.{le_bytes, length-le_bytes}
use le_forum.Clib.Decimal.{digits, print_u64}
use le_forum.Clib.Decimal.RoundTrip.{digits-IsDigit, strtoull-print_u64}
use le_forum.Conf.{LeStatus, min_topic_size, max_topic_size}
use le_forum.Security.{Entropy}
use le_forum.Forum.{LeThread}
use le_forum.Util.{newline}
use le_forum.Util.Lines.{IsLine, IsLine-IsText}
use le_forum.Client.Response.Search.{thread_ids, topics, IsSmall}
use le_forum.Server.Response.Search.{HaveTopics, found_bytes, all_found_bytes, length-found_bytes}
use le_forum.Client.State.{LeClient, Shown, listed}
use le_forum.Client.Input.Bounds.{get_line-line, get_range-line}
use le_forum.Client.Files.Lines.{IsLine-digits, length-digits}
use le_forum.Client.Threads.{
  list_threads, choose_thread, offer_threads, find_threads, cmd_thread_find,
}
use le_forum.Client.Request.Layout.{gen_query_fthr_lem}
use le_forum.Client.Loop.{parse_fthr, parse_response, parsed_found, run_map}
use le_forum.Client.Loop.Asking.{ask_lem}
use le_forum.Client.Service.{Peer, served_by, served_by_lem}
use le_forum.Client.Service.Reading.{reply-answer}
use le_forum.Communication.{arrived}
use le_forum.Exchange.{answer}
use le_forum.Exchange.Search.{
  matching, All-matching, length-matching, fthr_answer, search_processed, parse_response_fthr_lem,
}
use le_forum.Protocol.{chars, fthr, tpcpsz, tpcp}
use le_forum.Server.{Server}
use le_forum.Server.Response.{Junk}
use le_forum.Server.Connection.{Connection, frame}

-- The list that is printed, from a number on.
unfoldable pub listing : ℕ → List Bytes → List Shown
listing n [] = []
listing n (u ∷ us) = listed n u ∷ listing (suc n) us

get_elem?_bound :
    (i : ℕ) (t : LeThread) (ts : List LeThread) → get_elem? ts i ≡ some t → suc i ≤ length ts
get_elem?_bound i t [] h = cc
get_elem?_bound zero t (x ∷ ts) h = omega arith
get_elem?_bound (suc i) t (x ∷ ts) h = omega (arith, get_elem?_bound i t ts h)

module _ {P : Type 0} where
  list_threads_lem :
      (n : ℕ) (ts : List LeThread) (c : LeClient P)
      → HaveTopics ts
      → list_threads n ts c ≡ done tt (record c { output = c.output ++ listing n (topics ts) })
  unfolding list_threads listing
  list_threads_lem n [] c h = rw append-nil
  list_threads_lem n (t ∷ ts) c (ht, h) = rw (
    text_of-before_nul t.topic ht,
    list_threads_lem (suc n) ts
        (record c { output = c.output ++ (listed n (before_nul t.topic) ∷ []) }) h,
    append_assoc,
  )

  choose_thread_lem :
      (i : ℕ) (t : LeThread) (ts : List LeThread) (c : LeClient P) (rest : Bytes)
      → c.stdin ≡ print_u64 (suc i) ++ (newline ∷ rest)
      → suc i < 2 ^ 64
      → get_elem? ts i ≡ some t
      → choose_thread ts c
        ≡ done tt (record c { stdin = rest; active_thread_exists = true; active_thread_id = t.id })
  unfolding choose_thread print_u64
  choose_thread_lem i t ts c rest typed fits there =
      let inside = get_elem?_bound i t ts there in
      let same : suc i - 1 ≡ i = omega arith in
      let low : ltb (suc i) 1 ≡ false = le→ltb (omega arith) in
      let high : ltb (length ts) (suc i) ≡ false = le→ltb inside in
      let read =
        get_line-line c 32 32 (print_u64 (suc i)) rest typed
          (IsLine-digits (digits 20 (suc i)) (digits-IsDigit 20 (suc i)))
          (omega (arith, length-digits 20 (suc i))) (omega (arith, length-digits 20 (suc i))) in
      let number = strtoull-print_u64 (suc i) fits in
      rw (choose_thread, read, number, low, high, same, there)

  offer_threads_lem :
      (i : ℕ) (t : LeThread) (ts : List LeThread) (c : LeClient P) (rest : Bytes)
      → c.stdin ≡ print_u64 (suc i) ++ (newline ∷ rest)
      → suc i < 2 ^ 64
      → get_elem? ts i ≡ some t
      → HaveTopics ts
      → offer_threads ts c
        ≡ done tt (record c {
          stdin = rest;
          output = c.output ++ listing 1 (topics ts);
          active_thread_exists = true;
          active_thread_id = t.id;
        })
  unfolding offer_threads
  offer_threads_lem i t ts c rest typed fits there ends =
      let some_found : (length ts == 0) ≡ false = ground (arith, get_elem?_bound i t ts there) in
      let next =
        choose_thread_lem i t ts (record c { output = c.output ++ listing 1 (topics ts) }) rest
          typed fits there in
      rw (offer_threads, some_found, list_threads_lem 1 ts c ends, next)

-- Heard threads stand at the places of those on the server.
heard_id :
    (i : ℕ) (t : LeThread) (ts cs : List LeThread)
    → get_elem? ts i ≡ some t
    → thread_ids cs ≡ thread_ids ts
    → (x : LeThread) × (get_elem? cs i ≡ some x) × (x.id ≡ t.id)
heard_id i t [] cs h same = cc
heard_id i t (y ∷ ts) [] h same = cc
heard_id zero t (y ∷ ts) (x ∷ cs) h same = (x, refl, cc)
heard_id (suc i) t (y ∷ ts) (x ∷ cs) h same = heard_id i t ts cs h cc

fthr_answer_pos : (ts : List LeThread) → 0 < length (fthr_answer ts)
unfolding all_found_bytes chars
fthr_answer_pos [] = omega arith
fthr_answer_pos (t ∷ ts) =
    omega (arith, length-append (found_bytes t) (all_found_bytes ts), length-found_bytes t)

module _ (junk : Junk) (c : LeClient Peer) (conn : Connection) (s : Server) (u rest : Bytes)
    (peer : c.peer ≡ (conn, s)) (on : c.connected ≡ true) (quiet : c.wire ≡ []) (text : IsLine u)
    (lo : min_topic_size ≤ length u) (hi : length u ≤ max_topic_size)
    (ends : HaveTopics s.lethreads) (bound : length (fthr_answer (matching u s.lethreads)) < 2 ^ 61)
    (small : All IsSmall s.lethreads) (enough : 8 * length s.lethreads ≤ length c.entropy) where
  find_threads_lem :
      (i : ℕ) (t : LeThread)
      → c.stdin ≡ print_u64 (suc i) ++ (newline ∷ rest)
      → suc i < 2 ^ 64
      → get_elem? (matching u s.lethreads) i ≡ some t
      → (conn' : Connection) × (e' : Entropy) × (find_threads (served_by junk) (some u) c
          ≡ done tt (record c {
            stdin = rest;
            output = c.output ++ listing 1 (topics (matching u s.lethreads));
            active_thread_exists = true;
            active_thread_id = t.id;
            wire = [];
            peer = (conn', s);
            entropy = e';
          }))
  unfolding find_threads parse_response
  find_threads_lem i t typed fits there =
      let found = matching u s.lethreads in
      let request = chars fthr ++ (chars tpcpsz ++ (le_bytes 8 (length u) ++ (chars tpcp ++ u))) in
      let h = IsLine-IsText u text in
      let size : length request ≡ 22 + length u =
        unfold chars in omega (arith, length-append {0}, length-le_bytes) in
      let (conn', served) =
        served_by_lem junk conn s s request (answer (fthr_answer found)) (omega (arith, size))
          (omega (arith, size, hi))
          (λ behind. search_processed junk s u [] behind h lo hi ends bound) in
      let whole : served_by junk (frame request) c.peer
          ≡ some (arrived (frame (fthr_answer found)) ∷ [], (conn', s)) =
        rw (peer, ← reply-answer (fthr_answer found) (fthr_answer_pos found)) served in
      let (cs, e', parsed, (ids, names, terminated)) =
        parse_response_fthr_lem found c.entropy (All-matching IsSmall u s.lethreads small)
          (omega (arith, length-matching u s.lethreads)) in
      let asked =
        ask_lem (served_by junk) c (conn', s) request (fthr_answer found) quiet whole
          (fthr_answer_pos found) (omega (arith, bound)) parse_fthr on
          (ap (run_map parsed_found) parsed) in
      let (x, at_i, same) = heard_id i t found cs there ids in
      let after : LeClient Peer = record c { wire = []; peer = (conn', s); entropy = e' } in
      let offered = offer_threads_lem i x cs after rest typed fits at_i terminated in
      (conn', e', rw (find_threads, gen_query_fthr_lem u (0 ∷ []) h, asked, offered, names, same))

-- A client that is connected to a server with its topics and ids in order, whose limits allow the
-- text `u`.
pub record CanSearch (c : LeClient Peer) (conn : Connection) (s : Server) (u : Bytes) : Type 0 where
  pub peer : c.peer ≡ (conn, s)
  pub on : c.connected ≡ true
  pub quiet : c.wire ≡ []
  pub text : IsLine u
  pub some_limit : 0 < c.meta.min_topic_size
  pub long : c.meta.min_topic_size ≤ length u
  pub short : length u < c.meta.max_topic_size
  pub lo : min_topic_size ≤ length u
  pub hi : length u ≤ max_topic_size
  pub ends : HaveTopics s.lethreads
  pub bound : length (fthr_answer (matching u s.lethreads)) < 2 ^ 61
  pub small : All IsSmall s.lethreads
  pub enough : 8 * length s.lethreads ≤ length c.entropy

-- For a client that is connected to a server and has nothing unread, a text typed of a size that
-- the limits of both allow, below the largest topic of the client, topics and ids on the server in
-- order, a response below 2 ^ 61 bytes and enough random bytes, and then the number typed of one of
-- the threads with the text in their topic: `cmd_thread_find` ends without a fault, lists the
-- topics of these threads, numbered from 1, in order, and makes the thread with that number on the
-- server the active one; the server does not change.
pub cmd_thread_find_lem :
    (junk : Junk) (c : LeClient Peer) (conn : Connection) (s : Server) (u rest : Bytes) (i : ℕ)
    (t : LeThread)
    → CanSearch c conn s u
    → c.stdin ≡ u ++ (newline ∷ (print_u64 (suc i) ++ (newline ∷ rest)))
    → suc i < 2 ^ 64
    → get_elem? (matching u s.lethreads) i ≡ some t
    → (conn' : Connection) × (e' : Entropy) × (cmd_thread_find (served_by junk) c
        ≡ done tt (record c {
          stdin = rest;
          output = c.output ++ listing 1 (topics (matching u s.lethreads));
          active_thread_exists = true;
          active_thread_id = t.id;
          wire = [];
          peer = (conn', s);
          entropy = e';
        }))
unfolding cmd_thread_find
cmd_thread_find_lem junk c conn s u rest i t can typed fits there =
    let behind = print_u64 (suc i) ++ (newline ∷ rest) in
    let (conn', e', found) =
      find_threads_lem junk (record c { stdin = behind }) conn s u rest can.peer can.on can.quiet
        can.text can.lo can.hi can.ends can.bound can.small can.enough i t refl fits there in
    let read =
      get_range-line c (c.meta.max_topic_size + 1) c.meta.min_topic_size c.meta.max_topic_size u
        behind typed can.text can.some_limit can.long can.short (omega arith) in
    let then_find : Run LeStatus (LeClient Peer) (Option Bytes)
        → Run LeStatus (LeClient Peer) (Unit {0}) =
      λ r. and_then r (λ o. find_threads (served_by junk) o) in
    (conn', e', ap then_find read ∙ found)

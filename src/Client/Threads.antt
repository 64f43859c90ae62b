-- ===== src/Client/Threads.antt =====
-- The commands on threads of src/client/client.c.
use le_forum.Common.{
  ℕ, suc, ◌+◌, ◌-◌, List, [], ◌∷◌, ◌++◌, Option, none, some, true, ◌==◌, ◌||◌, ltb, not,
  if◌then◌else◌, length, get_elem?,
}
use le_forum.Common.Command.{Run, ◌>>=◌, get, put, lift, pure}
use le_forum.Clib.Strings.{Bytes, codes, text_of}
use le_forum.Clib.Decimal.{strtoull}
use le_forum.Conf.{LeStatus, lestatus_idat, lestatus_nsfd}
use le_forum.Forum.{LeThread, LeMessage, lethread_message_count}
use le_forum.Communication.{Wire}
use le_forum.Client.Request.{gen_query_cthr, gen_query_gthr, gen_query_fthr, gen_query_cmsg}
use le_forum.Client.Response.{CreatedThreadInfo}
use le_forum.Client.State.{
  ClientCmd, said, listed, shown_topic, shown_id, shown_count, shown_message, show,
}
use le_forum.Client.Input.{get_line, get_range}
use le_forum.Client.Files.{token_save, token_load}
use le_forum.Client.Loop.{
  Parsed, parsed_thread, parsed_info, parsed_found, parsed_meta, parse_cthr, parse_gthr, parse_fthr,
  ask,
}

-- What is sent along: no token where none is found.
abbrev pub usable_token : LeStatus × Option Bytes → Option Bytes
usable_token (lestatus_idat, token) = none
usable_token (lestatus_nsfd, token) = none
usable_token (status, token) = token

module _ {P : Type 0} where
  -- `query->parsed_data`, as what the command takes it for; a null pointer is followed.
  abbrev pub created_info : Option Parsed → ClientCmd P CreatedThreadInfo
  created_info none c = Run.fault
  created_info (some (parsed_info info)) c = pure info c
  created_info (some (parsed_thread t)) c = Run.fault
  created_info (some (parsed_found ts)) c = Run.fault
  created_info (some (parsed_meta m)) c = Run.fault

  abbrev pub answered_thread : Option Parsed → ClientCmd P LeThread
  answered_thread none c = Run.fault
  answered_thread (some (parsed_thread t)) c = pure t c
  answered_thread (some (parsed_info info)) c = Run.fault
  answered_thread (some (parsed_found ts)) c = Run.fault
  answered_thread (some (parsed_meta m)) c = Run.fault

  abbrev pub found_threads : Option Parsed → ClientCmd P (List LeThread)
  found_threads none c = Run.fault
  found_threads (some (parsed_found ts)) c = pure ts c
  found_threads (some (parsed_info info)) c = Run.fault
  found_threads (some (parsed_thread t)) c = Run.fault
  found_threads (some (parsed_meta m)) c = Run.fault

  abbrev pub set_active : ℕ → ClientCmd P (Unit {0})
  set_active id = do c ← get; put (record c { active_thread_exists = true; active_thread_id = id })

  abbrev pub choose_first : ClientCmd P (Unit {0})
  choose_first = show (said (codes "To use this command, choose some thread first!"))

  -- The numbered topics.
  unfoldable pub list_threads : ℕ → List LeThread → ClientCmd P (Unit {0})
  list_threads cntr [] = pure tt
  list_threads cntr (t ∷ ts) = do
    topic ← lift (text_of t.topic)
    _ ← show (listed cntr topic)
    list_threads (suc cntr) ts

  -- The choice of a thread: any number but those in the list changes nothing.
  unfoldable pub choose_thread : List LeThread → ClientCmd P (Unit {0})
  choose_thread ts = do
    buf ← get_line 32 32
    let choice = strtoull buf
    if ltb choice 1 || ltb (length ts) choice
        then pure tt
        else elim (get_elem? ts (choice - 1)) [ none ↦ (λ _. Run.fault) | some t ↦ set_active t.id ]

  unfoldable pub offer_threads : List LeThread → ClientCmd P (Unit {0})
  unfolding list_threads choose_thread
  offer_threads ts =
      if length ts == 0
      then show (said (codes "Nothing found."))
      else (do _ ← list_threads 1 ts; choose_thread ts)

  -- The messages, as they are printed.
  unfoldable pub list_messages : List LeMessage → ClientCmd P (Unit {0})
  list_messages [] = pure tt
  list_messages (m ∷ ms) = do
    text ← lift (text_of m.text)
    _ ← show (shown_message m.id (not (m.by_lethread_author == 0)) text)
    list_messages ms

  unfoldable pub show_messages : List LeMessage → ClientCmd P (Unit {0})
  unfolding list_messages
  show_messages [] = show (said (codes "No messages. Be first to post here!"))
  show_messages (m ∷ ms) = list_messages (m ∷ ms)

module _ {P : Type 0} (serve : Bytes → P → Option (Wire × P)) where
  -- The topic that is typed becomes a thread, which is chosen, and its token is kept.
  unfoldable pub cmd_thread_create : ClientCmd P (Unit {0})
  cmd_thread_create = do
    c ← get
    typed ← get_range (c.meta.max_topic_size + 1) c.meta.min_topic_size c.meta.max_topic_size
    elim typed [
      | none ↦ pure tt
      | some topic ↦ do
        request ← lift (gen_query_cthr (topic ++ (0 ∷ [])) (length topic))
        parsed_data ← ask serve parse_cthr request
        info ← created_info parsed_data
        _ ← set_active info.thread_id
        c ← get
        put (token_save info.token c).1
    ]

  unfoldable pub find_threads : Option Bytes → ClientCmd P (Unit {0})
  unfolding offer_threads
  find_threads none = pure tt
  find_threads (some search_query) = do
    request ← lift (gen_query_fthr (search_query ++ (0 ∷ [])) (length search_query))
    parsed_data ← ask serve parse_fthr request
    ts ← found_threads parsed_data
    offer_threads ts

  unfoldable pub cmd_thread_find : ClientCmd P (Unit {0})
  unfolding find_threads
  cmd_thread_find c =
      let room = c.meta.max_topic_size + 1 in
      (get_range room c.meta.min_topic_size c.meta.max_topic_size >>= (λ typed. find_threads typed))
        c

  -- The active thread, as the server has it now.
  unfoldable pub ask_thread : ClientCmd P LeThread
  ask_thread = do
    c ← get
    request ← lift (gen_query_gthr c.active_thread_id)
    parsed_data ← ask serve parse_gthr request
    answered_thread parsed_data

  unfoldable pub cmd_thread_info : ClientCmd P (Unit {0})
  unfolding ask_thread
  cmd_thread_info c =
      let run = (do
        t ← ask_thread
        topic ← lift (text_of t.topic)
        _ ← show (shown_topic topic)
        _ ← show (shown_id t.id)
        show (shown_count (lethread_message_count t))) in
      if c.active_thread_exists then run c else choose_first c

  unfoldable pub cmd_thread_message_history : ClientCmd P (Unit {0})
  unfolding ask_thread show_messages
  cmd_thread_message_history c =
      let run = (ask_thread >>= (λ t. show_messages t.messages)) c in
      if c.active_thread_exists then run else choose_first c

  -- What the answer says is not looked at.
  unfoldable pub send_text : Option Bytes → ClientCmd P (Unit {0})
  send_text none = pure tt
  send_text (some text) = do
    c ← get
    request ← lift (
        gen_query_cmsg c.active_thread_id (text ++ (0 ∷ [])) (length text)
          (usable_token (token_load c)))
    _ ← ask serve parse_gthr request
    pure tt

  -- The text is read with the limits of a topic into a buffer for a message.
  unfoldable pub cmd_thread_send_message : ClientCmd P (Unit {0})
  unfolding send_text
  cmd_thread_send_message c =
      let room = c.meta.max_message_size + 1 in
      let run =
        (get_range room c.meta.min_topic_size c.meta.max_topic_size >>= (λ typed. send_text typed))
          c in
      if c.active_thread_exists then run else choose_first c

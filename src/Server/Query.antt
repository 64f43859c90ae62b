-- ===== src/Server/Query.antt =====
-- The query handlers of src/server/query.c. `raw_data` is the memory from where the pointer points
-- to the end of the receive buffer, and `size` the number of bytes that the client sent.
pub mod Dispatch
pub mod Get
pub mod Post
pub mod Create
pub mod Handlers
pub mod Refused
use le_forum.Common.{
  ℕ, ◌+◌, ◌-◌, ◌%◌, List, [], ◌∷◌, ◌++◌, Option, none, some, true, false, ltb, not, ◌||◌,
  if◌then◌else◌, Outcome, ok, length, set, drop,
}
use le_forum.Common.Command.{Cmd, Run, done, exit, ◌>>=◌, pure, get, put, lift}
use le_forum.Clib.Strings.{Bytes, strncpy}
use le_forum.Clib.Words.{u64_mod}
use le_forum.Conf.{
  LeStatus, lestatus_ok, lestatus_isyn, lestatus_idat, lestatus_nfnd, lestatus_nptr, max_topic_size,
  min_topic_size, max_message_size, min_message_size,
}
use le_forum.Security.{rand_uint64_t}
use le_forum.Forum.{LeThread, LeMessage, leauthor_create, lemessage_create, is_token_valid}
use le_forum.Protocol.{
  Word, chars, has_word, require, expect, read_int, gthr, cthr, fthr, cmsg, meta, live, thrid,
  tpcsz, tpc, tpcpsz, tpcp, txtsz, txt, tkn,
}
use le_forum.Server.{
  Server, lethread_get_by_id, lethread_find, s_lethread_save, s_lemessage_save, s_leauthor_save,
  s_lethread_create, get_lethread_count, get_version,
}
use le_forum.Server.Response.{Junk, gthr_response, cthr_response, fthr_response, meta_response}

-- `data` is the response, and `none` for a null pointer.
pub record LeCommandResult : Type 0 where
  pub response : Option Bytes
  pub size : ℕ
  pub status : LeStatus

abbrev pub Handler : Type 0 → Type 0
Handler A = Cmd LeStatus Server A

-- `if (sharedptr_lethread == -LESTATUS_NFND) return …;`, with the place of the thread.
unfoldable pub found_lethread : ℕ → Handler (ℕ × LeThread)
found_lethread lethread_id s = elim (lethread_get_by_id lethread_id s) [
  | ok (none, s') ↦ exit lestatus_nfnd s'
  | ok (some t, s') ↦ done t s'
  | Outcome.fault ↦ Run.fault
  | Outcome.hang ↦ Run.hang
]

unfoldable pub cmd_lethread_get : Junk → Bytes → ℕ → Handler (Option Bytes)
cmd_lethread_get junk raw_data size = do
  _ ← require (not (ltb size 13)) lestatus_isyn
  p ← expect lestatus_isyn thrid raw_data
  (lethread_id, p) ← read_int 8 p
  (place, lethread) ← found_lethread lethread_id
  response ← lift (gthr_response junk lethread_id lethread)
  pure (some response)

-- `leauthor_create(lethread, TRUE, nullptr)` on the thread at a place.
unfoldable pub create_author : ℕ → LeThread → Handler LeThread
create_author place t = do
  s ← get
  (t, author, e) ← lift (leauthor_create t true s.entropy)
  _ ← put (record s { lethreads = set s.lethreads place t; entropy = e })
  pure t

unfoldable pub create_lethread : Bytes → Handler (ℕ × LeThread)
create_lethread topic = do
  s ← get
  (place, t, s) ← lift (s_lethread_create topic s)
  _ ← put s
  pure (place, t)

-- The id that `rand_uint64_t` gives for `s_lethread_create` is not used there.
unfoldable pub spend_random : Handler (Unit {0})
spend_random = do s ← get; (r, e) ← lift (rand_uint64_t s.entropy); put (record s { entropy = e })

unfoldable pub answer_cthr : Junk → LeThread → Handler (Option Bytes)
answer_cthr junk t = elim t.author [
  | none ↦ (λ s. Run.fault)
  | some author ↦ do response ← lift (cthr_response junk t.id author); pure (some response)
]

unfoldable pub cmd_lethread_create : Junk → Bytes → ℕ → Handler (Option Bytes)
unfolding create_author create_lethread spend_random answer_cthr
cmd_lethread_create junk raw_data size = do
  _ ← require (not (ltb size 16)) lestatus_isyn
  p ← expect lestatus_isyn tpcsz raw_data
  (topic_size, p) ← read_int 8 p
  _ ← require (not (ltb max_topic_size topic_size || ltb topic_size min_topic_size)) lestatus_idat
  p ← expect lestatus_isyn tpc p
  _ ← spend_random
  (place, t) ← create_lethread p
  t ← create_author place t
  s ← get
  _ ← put (s_leauthor_save place (s_lethread_save place s))
  answer_cthr junk t

-- The size of the packet is not looked at.
unfoldable pub cmd_lethread_find : Bytes → ℕ → Handler (Option Bytes)
cmd_lethread_find raw_data size = do
  p ← expect lestatus_isyn tpcpsz raw_data
  (topic_part_size, p) ← read_int 8 p
  _ ←
      require (not (ltb max_topic_size topic_part_size || ltb topic_part_size min_topic_size))
        lestatus_idat
  p ← expect lestatus_isyn tpcp p
  topic_part ← lift (strncpy p topic_part_size)
  s ← get
  lethreads ← lift (lethread_find (topic_part ++ (0 ∷ [])) s.lethreads)
  response ← lift (fthr_response lethreads)
  pure (some response)

-- Whether the message is by the author of the thread: the optional token, behind the text.
unfoldable pub author_flag : LeThread → Bytes → Handler ℕ
author_flag t p = do
  given ← lift (has_word tkn p)
  lift (if given then is_token_valid t (drop (length (chars tkn)) p) else ok 0)

-- The two saves. Where no message was created, `lemessage` was never written, and
-- `s_lemessage_save(lemessage)` uses it.
abbrev pub save_created : ℕ → LeThread → Option LeMessage → Handler (Unit {0})
save_created place t none s = Run.fault
save_created place t (some m) s =
    put
      (s_lethread_save place
        (s_lemessage_save m (record s { lethreads = set s.lethreads place t })))
      s

unfoldable pub post_message : ℕ → LeThread → Bytes → ℕ → Handler (Unit {0})
post_message place t text is_author = do
  (status, created, t) ← lift (lemessage_create t text is_author)
  save_created place t created

unfoldable pub cmd_lemessage_create : Bytes → ℕ → Handler (Option Bytes)
cmd_lemessage_create raw_data size = do
  _ ← require (not (ltb size 29)) lestatus_isyn
  p ← expect lestatus_isyn thrid raw_data
  (lethread_id, p) ← read_int 8 p
  (place, lethread) ← found_lethread lethread_id
  p ← expect lestatus_isyn txtsz p
  (text_size, p) ← read_int 8 p
  _ ← require (not (ltb max_message_size text_size || ltb text_size min_message_size)) lestatus_idat
  p ← expect lestatus_isyn txt p
  text ← lift (strncpy p text_size)
  is_author ← author_flag lethread (drop text_size p)
  _ ← post_message place lethread (text ++ (0 ∷ [])) is_author
  pure none

unfoldable pub cmd_meta : Bytes → ℕ → Handler (Option Bytes)
cmd_meta raw_data size = do
  s ← get
  response ← lift (meta_response (get_lethread_count s) (get_version ++ (0 ∷ [])))
  pure (some response)

unfoldable pub cmd_alive : Bytes → ℕ → Handler (Option Bytes)
cmd_alive raw_data size = pure none

-- The commands, in the order of `CMDS`.
abbrev pub cmds : List Word
cmds = gthr ∷ cthr ∷ fthr ∷ cmsg ∷ meta ∷ live ∷ []

unfoldable pub find_cmd : List Word → Bytes → Outcome (Option Word)
find_cmd [] raw_data = ok none
find_cmd (w ∷ rest) raw_data = elim (has_word w raw_data) [
  | ok true ↦ ok (some w)
  | ok false ↦ find_cmd rest raw_data
  | Outcome.fault ↦ Outcome.fault
  | Outcome.hang ↦ Outcome.hang
]

unfoldable pub process : Junk → Word → Bytes → ℕ → Handler (Option Bytes)
process junk gthr p size = cmd_lethread_get junk p size
process junk cthr p size = cmd_lethread_create junk p size
process junk fthr p size = cmd_lethread_find p size
process junk cmsg p size = cmd_lemessage_create p size
process junk meta p size = cmd_meta p size
process junk live p size = cmd_alive p size
process junk _ p size = λ s. exit lestatus_isyn s

abbrev pub size_of : Option Bytes → ℕ
size_of none = 0
size_of (some bytes) = length bytes

abbrev pub status_result : LeStatus → LeCommandResult
status_result e = record { response = none; size = 0; status = e }

-- The value that a handler returns.
abbrev pub result_of : Run LeStatus Server (Option Bytes) → Outcome (LeCommandResult × Server)
result_of (done r s) = ok (record { response = r; size = size_of r; status = lestatus_ok }, s)
result_of (exit e s) = ok (status_result e, s)
result_of Run.fault = Outcome.fault
result_of Run.hang = Outcome.hang

unfoldable pub query_process : Junk → Option Bytes → ℕ → Server → Outcome (LeCommandResult × Server)
query_process junk none size s = ok (status_result lestatus_nptr, s)
query_process junk (some raw_data) size s = elim (find_cmd cmds raw_data) [
  | ok none ↦ ok (status_result lestatus_isyn, s)
  | ok (some w) ↦
      let name_size = length (chars w) in
      result_of
        (process junk w (drop name_size raw_data) ((size + u64_mod - name_size) % u64_mod) s)
  | Outcome.fault ↦ Outcome.fault
  | Outcome.hang ↦ Outcome.hang
]

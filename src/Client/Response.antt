-- ===== src/Client/Response.antt =====
-- How the client reads responses: the parsers of src/client/query.c. A parser of a response draws random
-- numbers, where it creates threads of its own.
pub mod Thread
pub mod View
pub mod Search
use le_forum.Common.{ℕ, zero, suc, ◌+◌, List, [], ◌∷◌, ◌++◌, ltb, leb, if◌then◌else◌, drop}
use le_forum.Common.Command.{Cmd, Run, ◌>>=◌, pure, get, put, lift}
use le_forum.Clib.Strings.{Bytes, strncpy}
use le_forum.Conf.{LeStatus, lestatus_idat}
use le_forum.Security.{Entropy}
use le_forum.Forum.{LeThread, LeMeta, lethread_create, lemessage_create, token_size}
use le_forum.Protocol.{
  has_word, expect, read_int, thrid, tpcsz, tpc, msgcnt, msg, msgend, tkn, nfnd, okay, mintpcsz,
  maxtpcsz, minmsgsz, maxmsgsz, thrn, versz, ver,
}

pub record CreatedThreadInfo : Type 0 where
  pub thread_id : ℕ
  pub token : Bytes

abbrev pub Parser : Type 0 → Type 0
Parser A = Cmd LeStatus Entropy A

-- `*p = malloc(allocated); (*p)->… = …;` for a struct whose fields take `needed` bytes.
unfoldable pub fill_struct : {A : Type 0} → (allocated needed : ℕ) → A → Parser A
fill_struct allocated needed a = if leb needed allocated then pure a else (λ _. Run.fault)

-- The reads of `parse_response_CTHR`.
unfoldable pub read_response_cthr : Bytes → Parser CreatedThreadInfo
read_response_cthr p = do
  p ← expect lestatus_idat thrid p
  (thread_id, p) ← read_int 8 p
  p ← expect lestatus_idat tkn p
  token ← lift (strncpy p token_size)
  pure (record { thread_id = thread_id; token = token ++ (0 ∷ []) })

-- `malloc(sizeof(*info))` is room for a pointer, where the struct takes sixteen bytes.
unfoldable pub parse_response_cthr : Bytes → ℕ → Parser CreatedThreadInfo
parse_response_cthr raw_data size = do info ← read_response_cthr raw_data; fill_struct 8 16 info

pub new_lethread : Bytes → ℕ → Parser LeThread
new_lethread topic id = do e ← get; (t, e) ← lift (lethread_create topic id e); _ ← put e; pure t

-- One message of a response: the id that it has there is read and dropped, and what
-- `lemessage_create` returns is not looked at.
unfoldable pub gthr_round : LeThread → Bytes → Parser (LeThread × Bytes)
gthr_round t p = do
  p ← expect lestatus_idat msg p
  (by_author, p) ← read_int 4 p
  (msg_id, p) ← read_int 8 p
  (msg_size, p) ← read_int 8 p
  text ← lift (strncpy p msg_size)
  (status, created, t) ← lift (lemessage_create t (text ++ (0 ∷ [])) by_author)
  p ← expect lestatus_idat msgend (drop msg_size p)
  pure (t, p)

unfoldable pub gthr_rounds : ℕ → LeThread → Bytes → Parser LeThread
gthr_rounds zero t p = pure t
gthr_rounds (suc n) t p = do (t, p) ← gthr_round t p; gthr_rounds n t p

unfoldable pub parse_response_gthr : Bytes → ℕ → Parser LeThread
parse_response_gthr raw_data size = do
  p ← expect lestatus_idat thrid raw_data
  (thread_id, p) ← read_int 8 p
  p ← expect lestatus_idat tpcsz p
  (topic_size, p) ← read_int 8 p
  p ← expect lestatus_idat tpc p
  topic ← lift (strncpy p topic_size)
  t ← new_lethread (topic ++ (0 ∷ [])) thread_id
  p ← expect lestatus_idat msgcnt (drop topic_size p)
  (msg_cntr, p) ← read_int 8 p
  gthr_rounds msg_cntr t p

-- One thread of a response, with the bytes that it takes.
unfoldable pub fthr_round : Bytes → Parser (LeThread × ℕ × Bytes)
fthr_round p = do
  p ← expect lestatus_idat thrid p
  (thread_id, p) ← read_int 8 p
  p ← expect lestatus_idat tpcsz p
  (topic_size, p) ← read_int 8 p
  p ← expect lestatus_idat tpc p
  topic ← lift (strncpy p topic_size)
  t ← new_lethread (topic ++ (0 ∷ [])) thread_id
  pure (t, 5 + 8 + 5 + 8 + 3 + topic_size, drop topic_size p)

-- `while (data_ptr - raw_data < size)`, where `pos` is `data_ptr - raw_data`. A round moves it on,
-- so `size` rounds are enough.
unfoldable pub fthr_rounds : ℕ → ℕ → ℕ → Bytes → Parser (List LeThread)
fthr_rounds zero pos size p = if ltb pos size then (λ _. Run.hang) else pure []
fthr_rounds (suc fuel) pos size p =
    if ltb pos size
    then (do
      (t, taken, p) ← fthr_round p
      rest ← fthr_rounds fuel (pos + taken) size p
      pure (t ∷ rest))
    else pure []

unfoldable pub parse_response_fthr : Bytes → ℕ → Parser (List LeThread)
parse_response_fthr raw_data size = do
  nothing ← lift (has_word nfnd raw_data)
  if nothing then pure [] else fthr_rounds size 0 size raw_data

unfoldable pub parse_response_cmsg : Bytes → ℕ → Parser (Unit {0})
parse_response_cmsg raw_data size = do p ← expect lestatus_idat okay raw_data; pure tt

-- The reads of `parse_response_META`.
unfoldable pub read_response_meta : Bytes → Parser LeMeta
read_response_meta p = do
  p ← expect lestatus_idat mintpcsz p
  (min_topic, p) ← read_int 8 p
  p ← expect lestatus_idat maxtpcsz p
  (max_topic, p) ← read_int 8 p
  p ← expect lestatus_idat minmsgsz p
  (min_message, p) ← read_int 8 p
  p ← expect lestatus_idat maxmsgsz p
  (max_message, p) ← read_int 8 p
  p ← expect lestatus_idat thrn p
  (thread_count, p) ← read_int 8 p
  p ← expect lestatus_idat versz p
  (version_size, p) ← read_int 8 p
  p ← expect lestatus_idat ver p
  version ← lift (strncpy p version_size)
  pure (record {
    min_message_size = min_message;
    max_message_size = max_message;
    min_topic_size = min_topic;
    max_topic_size = max_topic;
    version = version ++ (0 ∷ []);
    version_size = version_size;
    thread_count = thread_count;
  })

-- `malloc(sizeof(*meta))` is room for a pointer, where the struct takes seven words.
unfoldable pub parse_response_meta : Bytes → ℕ → Parser LeMeta
parse_response_meta raw_data size = do info ← read_response_meta raw_data; fill_struct 8 56 info

unfoldable pub parse_response_live : Bytes → ℕ → Parser (Unit {0})
parse_response_live raw_data size = do p ← expect lestatus_idat okay raw_data; pure tt

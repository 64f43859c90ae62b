-- ===== src/Server/Response.antt =====
-- The responses of src/server/query.c, as they are written into growing allocations.
pub mod Growth
pub mod Layout
pub mod Search
use le_forum.Common.{
  ℕ, zero, suc, ◌+◌, ◌*◌, ◌%◌, List, [], ◌∷◌, ◌++◌, leb, if◌then◌else◌, Outcome, ok, hang, length,
}
use le_forum.Common.Result.{◌>>=◌}
use le_forum.Clib.Strings.{Bytes, strlen, strncpy}
use le_forum.Clib.Words.{le_bytes, u64_mod}
use le_forum.Clib.Writer.{Buffer, buffer, malloc, write_all}
use le_forum.Conf.{min_topic_size, max_topic_size, min_message_size, max_message_size}
use le_forum.Forum.{LeThread, LeMessage, LeAuthor, lethread_message_count, token_size}
use le_forum.Protocol.{
  chars, thrid, tpcsz, tpc, msgcnt, msg, msgend, tkn, nfnd, mintpcsz, maxtpcsz, minmsgsz, maxmsgsz,
  thrn, versz, ver,
}

-- What memory that was never written holds, by its offset in the allocation.
abbrev pub Junk : Type 0
Junk = ℕ → ℕ

unfoldable pub junk_bytes : Junk → ℕ → ℕ → Bytes
junk_bytes junk offset zero = []
junk_bytes junk offset (suc n) = (junk offset % 256) ∷ junk_bytes junk (suc offset) n

-- `while (size >= chunk_size) { chunk_size *= 2; response_start = realloc(…, chunk_size); }`
pub reserve : ℕ → ℕ → ℕ → Buffer → Outcome (ℕ × Buffer)
reserve zero size chunk_size b = hang
reserve (suc fuel) size chunk_size b =
    let more = chunk_size * 2 % u64_mod in
    let rest = reserve fuel size more (buffer b.written more) in
    if leb chunk_size size then rest else ok (chunk_size, b)

-- A size of 64 bits is reached after 64 rounds.
abbrev pub growth_fuel : ℕ
growth_fuel = 65

-- One round of the loop over the messages. `*(uint8_t *)response = by_lethread_author` writes one
-- byte, and the pointer moves on by the four of an `int`.
pub gthr_message : Junk → LeMessage → ℕ → ℕ → Buffer → Outcome (ℕ × ℕ × Buffer)
gthr_message junk lemessage response_size chunk_size b = do
  text_size ← strlen lemessage.text
  (chunk_size, b) ←
      reserve growth_fuel ((response_size + 3 + 4 + 8 + 8 + text_size + 6) % u64_mod) chunk_size b
  text ← strncpy lemessage.text text_size
  b ←
      write_all
        (chars msg
          ∷ ((lemessage.by_lethread_author % 256) ∷ junk_bytes junk (length b.written + 4) 3)
          ∷ le_bytes 8 lemessage.id
          ∷ le_bytes 8 text_size
          ∷ text
          ∷ chars msgend
          ∷ [])
        b
  ok (length b.written, chunk_size, b)

pub gthr_messages : Junk → List LeMessage → ℕ → ℕ → Buffer → Outcome Buffer
gthr_messages junk [] response_size chunk_size b = ok b
gthr_messages junk (lemessage ∷ rest) response_size chunk_size b = do
  (response_size, chunk_size, b) ← gthr_message junk lemessage response_size chunk_size b
  gthr_messages junk rest response_size chunk_size b

unfoldable pub gthr_response : Junk → ℕ → LeThread → Outcome Bytes
gthr_response junk lethread_id lethread = do
  topic_size ← strlen lethread.topic
  let message_cnt = lethread_message_count lethread
  let response_size = 5 + 8 + 5 + 8 + 3 + topic_size + 6 + 8
  let chunk_size = response_size + 1024
  topic ← strncpy lethread.topic topic_size
  b ←
      write_all
        (chars thrid
          ∷ le_bytes 8 lethread_id
          ∷ chars tpcsz
          ∷ le_bytes 8 topic_size
          ∷ chars tpc
          ∷ topic
          ∷ chars msgcnt
          ∷ le_bytes 8 message_cnt
          ∷ [])
        (malloc (chunk_size + 1))
  b ← gthr_messages junk lethread.messages response_size chunk_size b
  ok b.written

-- One round of the loop over the threads that were found.
pub fthr_lethread : LeThread → ℕ → ℕ → Buffer → Outcome (ℕ × ℕ × Buffer)
fthr_lethread lethread response_size chunk_size b = do
  topic_size ← strlen lethread.topic
  (chunk_size, b) ←
      reserve growth_fuel ((response_size + 5 + 8 + 5 + 8 + 3 + topic_size) % u64_mod) chunk_size b
  topic ← strncpy lethread.topic topic_size
  b ←
      write_all
        (chars thrid
          ∷ le_bytes 8 lethread.id
          ∷ chars tpcsz
          ∷ le_bytes 8 topic_size
          ∷ chars tpc
          ∷ topic
          ∷ [])
        b
  ok (length b.written, chunk_size, b)

pub fthr_lethreads : List LeThread → ℕ → ℕ → Buffer → Outcome Buffer
fthr_lethreads [] response_size chunk_size b = ok b
fthr_lethreads (lethread ∷ rest) response_size chunk_size b = do
  (response_size, chunk_size, b) ← fthr_lethread lethread response_size chunk_size b
  fthr_lethreads rest response_size chunk_size b

pub fthr_found : List LeThread → Outcome Buffer
fthr_found [] = write_all (chars nfnd ∷ []) (malloc (1024 + 1))
fthr_found (lethread ∷ rest) = fthr_lethreads (lethread ∷ rest) 0 1024 (malloc (1024 + 1))

unfoldable pub fthr_response : List LeThread → Outcome Bytes
fthr_response lethreads = do b ← fthr_found lethreads; ok b.written

-- The size of the response counts the two letters of "OK", which are not written: what is sent ends
-- in two bytes of the allocation that were never written.
unfoldable pub cthr_response : Junk → ℕ → LeAuthor → Outcome Bytes
cthr_response junk lethread_id author = do
  let response_size = 7 + 8 + 3 + token_size
  token ← strncpy author.token token_size
  b ←
      write_all (chars thrid ∷ le_bytes 8 lethread_id ∷ chars tkn ∷ token ∷ [])
        (malloc (response_size + 1))
  ok (b.written ++ junk_bytes junk (length b.written) 2)

unfoldable pub meta_response : ℕ → Bytes → Outcome Bytes
meta_response lethread_count version = do
  tmp_size ← strlen version
  tmp ← strncpy version tmp_size
  b ←
      write_all
        (chars mintpcsz
          ∷ le_bytes 8 min_topic_size
          ∷ chars maxtpcsz
          ∷ le_bytes 8 max_topic_size
          ∷ chars minmsgsz
          ∷ le_bytes 8 min_message_size
          ∷ chars maxmsgsz
          ∷ le_bytes 8 max_message_size
          ∷ chars thrn
          ∷ le_bytes 8 lethread_count
          ∷ chars versz
          ∷ le_bytes 8 tmp_size
          ∷ chars ver
          ∷ tmp
          ∷ [])
        (malloc 128)
  ok b.written

-- ===== src/Client/Request.antt =====
-- The requests that the client sends: the `gen_query_` functions of src/client/query.c.
pub mod Layout
use le_forum.Common.{ℕ, ◌+◌, List, [], ◌∷◌, Option, none, some, Outcome, ok}
use le_forum.Common.Result.{◌>>=◌}
use le_forum.Clib.Strings.{Bytes, strncpy}
use le_forum.Clib.Words.{le_bytes}
use le_forum.Clib.Writer.{malloc, write_all, contents}
use le_forum.Forum.{token_size}
use le_forum.Protocol.{
  chars, gthr, cthr, fthr, cmsg, meta, live, thrid, tpcsz, tpc, tkn, tpcpsz, tpcp, txtsz, txt,
}

-- A zeroed allocation of `size` bytes, filled by a row of writes.
pub request : ℕ → List Bytes → Outcome Bytes
unfolding write_all contents
request size parts = do b ← write_all parts (malloc size); ok (contents b)

unfoldable pub gen_query_cthr : Bytes → ℕ → Outcome Bytes
unfolding request
gen_query_cthr topic size = do
  text ← strncpy topic size
  request (4 + 5 + 8 + 3 + size)
      (chars cthr ∷ chars tpcsz ∷ le_bytes 8 size ∷ chars tpc ∷ text ∷ [])

unfoldable pub gen_query_gthr : ℕ → Outcome Bytes
unfolding request
gen_query_gthr thread_id =
    request (4 + 5 + 8) (chars gthr ∷ chars thrid ∷ le_bytes 8 thread_id ∷ [])

unfoldable pub gen_query_fthr : Bytes → ℕ → Outcome Bytes
unfolding request
gen_query_fthr topic_part size = do
  text ← strncpy topic_part size
  request (4 + 6 + 8 + 4 + size)
      (chars fthr ∷ chars tpcpsz ∷ le_bytes 8 size ∷ chars tpcp ∷ text ∷ [])

-- The optional token, at the end of a request.
token_parts : Option Bytes → Outcome (List Bytes)
token_parts none = ok []
token_parts (some token) = do text ← strncpy token token_size; ok (chars tkn ∷ text ∷ [])

token_room : Option Bytes → ℕ
token_room none = 0
token_room (some token) = 3 + token_size

unfoldable pub gen_query_cmsg : ℕ → Bytes → ℕ → Option Bytes → Outcome Bytes
unfolding request token_parts token_room
gen_query_cmsg thread_id message size token = do
  text ← strncpy message size
  rest ← token_parts token
  request (4 + 5 + 8 + 5 + 8 + 3 + size + token_room token) (
      chars cmsg
      ∷ chars thrid
      ∷ le_bytes 8 thread_id
      ∷ chars txtsz
      ∷ le_bytes 8 size
      ∷ chars txt
      ∷ text
      ∷ rest)

unfoldable pub gen_query_meta : Outcome Bytes
unfolding request
gen_query_meta = request 4 (chars meta ∷ [])

unfoldable pub gen_query_live : Outcome Bytes
unfolding request
gen_query_live = request 4 (chars live ∷ [])

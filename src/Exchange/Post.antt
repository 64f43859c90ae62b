-- ===== src/Exchange/Post.antt =====
-- Posting a message: CMSG.
use le_forum.Common.{
  ◌≢◌, ℕ, ◌+◌, ◌≤◌, ◌<◌, ◌≡◌, [], ◌∷◌, ◌++◌, arith, some, none, Bool, true, ok, length,
  length-append, append_assoc, append-nil, if◌then◌else◌, ◌↔◌,
}
use le_forum.Common.Command.{done}
use le_forum.Clib.Strings.{Bytes, IsText}
use le_forum.Clib.Words.{u64_mod, length-le_bytes}
use le_forum.Conf.{min_message_size, max_message_size, lestatus_ok}
use le_forum.Forum.{LeThread, LeAuthor, token_size}
use le_forum.Forum.Tokens.{is_token_valid_iff, is_token_valid_unknown}
use le_forum.Protocol.{chars, cmsg, tkn}
use le_forum.Server.{Server, lethread_get_by_id}
use le_forum.Server.Response.{Junk}
use le_forum.Server.Query.{query_process, process, author_flag}
use le_forum.Server.Query.Post.{
  with_post, cmsg_body, cmd_lemessage_create_lem, author_flag-anonymous, author_flag-signed,
}
use le_forum.Server.Query.Dispatch.{query_process-cmsg}
use le_forum.Client.Request.{gen_query_cmsg}
use le_forum.Client.Request.Layout.{gen_query_cmsg_anonymous, gen_query_cmsg_signed}
use le_forum.Exchange.{packet, status_only}

module _ (junk : Junk) (s s' : Server) (id place : ℕ) (t : LeThread) (fits : id < u64_mod)
    (found : lethread_get_by_id id s ≡ ok (some (place, t), s')) (text r behind : Bytes)
    (h : IsText text) (lo : min_message_size ≤ length text)
    (hi : length text ≤ max_message_size) where
  -- A request with `tail` behind the text, which gives the flag.
  pub post :
      (tail : Bytes) (flag : ℕ)
      → length tail ≤ 100
      → author_flag t (tail ++ (0 ∷ behind)) s' ≡ done flag s'
      → query_process junk
          (packet (chars cmsg ++ cmsg_body id (length text) (text ++ tail)) behind)
          (length (chars cmsg ++ cmsg_body id (length text) (text ++ tail)))
          s
        ≡ ok (status_only lestatus_ok, with_post s' place t (text ++ (0 ∷ [])) flag)
  unfolding process
  post tail flag short e =
      let n = 29 + length text + length tail in
      let size : length (chars cmsg ++ cmsg_body id (length text) (text ++ tail)) ≡ 4 + n =
        unfold chars in omega (arith, length-append {0}, length-le_bytes) in
      let c =
        cmd_lemessage_create_lem s s' id place t fits found n (omega arith) text h lo hi
          (tail ++ (0 ∷ behind)) flag e in
      rw size (simp append_assoc (rw (query_process-cmsg junk _ n s (omega arith), c)))

  -- For an id that is found and a text of an allowed size, the client's CMSG request without a
  -- token is processed into `with_post` with the flag 0 and status OK, whatever the receive buffer
  -- holds behind the request.
  pub post_anonymous_exchange :
      (request : Bytes) × (gen_query_cmsg id (text ++ r) (length text) none ≡ ok request)
      × (query_process junk (packet request behind) (length request) s
          ≡ ok (status_only lestatus_ok, with_post s' place t (text ++ (0 ∷ [])) 0))
  post_anonymous_exchange = (
    chars cmsg ++ cmsg_body id (length text) text,
    gen_query_cmsg_anonymous text r h id,
    rw append-nil at (post [] 0 (omega arith) (author_flag-anonymous t behind s')),
  )

  -- For an id that is found as a thread with a known author, a text of an allowed size and a token
  -- of 24 characters: the server processes the client's CMSG request into `with_post` (the text as
  -- the last message under the next number, both saves queued) with status OK, and the message is
  -- marked as by the author if and only if the token is the author's.
  pub post_signed_exchange :
      (author : LeAuthor) (token u : Bytes)
      → t.author ≡ some author
      → IsText author.token
      → length author.token ≡ token_size
      → IsText token
      → length token ≡ token_size
      → (request : Bytes) × (by_author : Bool) × (gen_query_cmsg id
            (text ++ r)
            (length text)
            (some (token ++ u))
          ≡ ok request)
        × (query_process junk (packet request behind) (length request) s
            ≡ ok (
              status_only lestatus_ok,
              with_post s' place t (text ++ (0 ∷ [])) (if by_author then 1 else 0),
            ))
        × ((by_author ≡ true) ↔ (author.token ≡ token))
  post_signed_exchange author token u known ha la hk lk =
      let (b, e, i) = is_token_valid_iff t author known token (0 ∷ behind) ha la lk in
      let flag : ℕ = if b then 1 else 0 in
      let signed : author_flag t ((chars tkn ++ token) ++ (0 ∷ behind)) s' ≡ done flag s' =
        rw append_assoc (author_flag-signed t (token ++ (0 ∷ behind)) s' flag e) in
      let short : length (chars tkn ++ token) ≤ 100 =
        unfold chars in omega (arith, length-append {0}) in
      (
        chars cmsg ++ cmsg_body id (length text) (text ++ (chars tkn ++ token)),
        b,
        gen_query_cmsg_signed text r h id token u hk lk,
        post (chars tkn ++ token) flag short signed,
        i,
      )

  -- For an id that is found as a thread without an author, a text of an allowed size and any token
  -- of 24 characters: the server processes the client's CMSG request into `with_post` (the text as
  -- the last message under the next number, both saves queued) with status OK, and the flag of the
  -- message is not 0, so that it counts as by the author.
  pub post_unknown_exchange :
      (token u : Bytes)
      → t.author ≡ none
      → IsText token
      → length token ≡ token_size
      → (request : Bytes) × (flag : ℕ) × (gen_query_cmsg id
            (text ++ r)
            (length text)
            (some (token ++ u))
          ≡ ok request)
        × (query_process junk (packet request behind) (length request) s
            ≡ ok (status_only lestatus_ok, with_post s' place t (text ++ (0 ∷ [])) flag))
        × (flag ≢ 0)
  post_unknown_exchange token u unknown hk lk =
      let (flag, e, marks) = is_token_valid_unknown t (token ++ (0 ∷ behind)) unknown in
      let signed : author_flag t ((chars tkn ++ token) ++ (0 ∷ behind)) s' ≡ done flag s' =
        rw append_assoc (author_flag-signed t (token ++ (0 ∷ behind)) s' flag e) in
      let short : length (chars tkn ++ token) ≤ 100 =
        unfold chars in omega (arith, length-append {0}) in
      (
        chars cmsg ++ cmsg_body id (length text) (text ++ (chars tkn ++ token)),
        flag,
        gen_query_cmsg_signed text r h id token u hk lk,
        post (chars tkn ++ token) flag short signed,
        marks,
      )

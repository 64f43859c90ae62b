-- ===== src/Server/Query/Post.antt =====
-- CMSG: what the server does with a request for a message.
use le_forum.Common.{
  ℕ, ◌≤◌, ◌<◌, ◌^◌, ◌≡◌, refl, [], ◌∷◌, ◌++◌, arith, some, none, ok, length, set, le→ltb,
  drop-append_of_length,
}
use le_forum.Common.Command.{done}
use le_forum.Clib.Strings.{Bytes, IsText, strncpy-text, strncmp_eq}
use le_forum.Clib.Text.{before_nul-text, has_nul-text}
use le_forum.Clib.Words.{le_bytes}
use le_forum.Conf.{min_message_size, max_message_size}
use le_forum.Forum.{LeThread, is_token_valid}
use le_forum.Forum.Posting.{with_lemessage, new_lemessage, lemessage_create_accepted}
use le_forum.Protocol.{chars, has_word, thrid, txtsz, txt, tkn}
use le_forum.Protocol.Words.{expect-chars, read_int-le_bytes, has_word-chars}
use le_forum.Server.{Server, lethread_get_by_id}
use le_forum.Server.Query.{cmd_lemessage_create, found_lethread, author_flag, post_message}

-- The server with a message more in the thread at `place`, and both saves in their queues.
abbrev pub with_post : Server → ℕ → LeThread → Bytes → ℕ → Server
with_post s place t text flag = record s {
  lethreads = set s.lethreads place (with_lemessage t text flag);
  lethread_queries = s.lethread_queries ++ (place ∷ []);
  lemessage_queries = s.lemessage_queries ++ (new_lemessage t text flag ∷ []);
}

-- The bytes of the request behind the command word.
abbrev pub cmsg_body : ℕ → ℕ → Bytes → Bytes
cmsg_body id n p =
    chars thrid ++ (le_bytes 8 id ++ (chars txtsz ++ (le_bytes 8 n ++ (chars txt ++ p))))

pub author_flag-anonymous :
    (t : LeThread) (r : Bytes) (s : Server) → author_flag t (0 ∷ r) s ≡ done 0 s
unfolding author_flag has_word chars strncmp_eq
author_flag-anonymous t r s = refl

pub author_flag-signed :
    (t : LeThread) (r : Bytes) (s : Server) (flag : ℕ)
    → is_token_valid t r ≡ ok flag
    → author_flag t (chars tkn ++ r) s ≡ done flag s
unfolding author_flag
author_flag-signed t r s flag e =
    rw (has_word-chars tkn r, drop-append_of_length (chars tkn) r refl, e)

module _ (s : Server) (place : ℕ) (t : LeThread) (text : Bytes) (flag : ℕ) where
  pub post_message_accepted :
      IsText text
      → min_message_size ≤ length text
      → length text ≤ max_message_size
      → post_message place t (text ++ (0 ∷ [])) flag s
        ≡ done tt (with_post s place t (text ++ (0 ∷ [])) flag)
  unfolding post_message
  post_message_accepted h lo hi =
      let e = before_nul-text text [] h in
      rw (
        lemessage_create_accepted t (text ++ (0 ∷ [])) flag (has_nul-text text []) (rw e lo)
          (rw e hi))

-- A request whose fields are in order, for a thread that is found, up to the text.
module _ (s s' : Server) (id place : ℕ) (t : LeThread) (fits : id < 256 ^ 8)
    (found : lethread_get_by_id id s ≡ ok (some (place, t), s')) (size : ℕ) (enough : 29 ≤ size)
    (text : Bytes) (h : IsText text) (lo : min_message_size ≤ length text)
    (hi : length text ≤ max_message_size) where
  found_it : found_lethread id s ≡ done (place, t) s'
  unfolding found_lethread
  found_it = rw (found_lethread, found)

  pub cmd_lemessage_create_lem :
      (p : Bytes) (flag : ℕ)
      → author_flag t p s' ≡ done flag s'
      → cmd_lemessage_create (cmsg_body id (length text) (text ++ p)) size s
        ≡ done none (with_post s' place t (text ++ (0 ∷ [])) flag)
  unfolding cmd_lemessage_create
  cmd_lemessage_create_lem p flag e =
      let small : length text < 256 ^ 8 = omega arith in
      rw (
        cmd_lemessage_create,
        le→ltb enough,
        expect-chars _ thrid,
        read_int-le_bytes 8 id,
        found_it,
        expect-chars _ txtsz,
        read_int-le_bytes 8 (length text),
        le→ltb hi,
        le→ltb lo,
        expect-chars _ txt,
        strncpy-text text p h,
        drop-append_of_length text p refl,
        e,
        post_message_accepted s' place t text flag h lo hi,
      )

-- ===== src/Exchange/Create.antt =====
-- Creating a thread: CTHR.
use le_forum.Common.{
  ℕ, ◌+◌, ◌≤◌, ◌<◌, ◌^◌, ◌≡◌, [], ◌∷◌, ◌++◌, arith, ok, length, length-append, append_assoc,
}
use le_forum.Common.Command.{done, Run}
use le_forum.Clib.Strings.{Bytes, IsText, strncpy-text, strncpy}
use le_forum.Clib.Text.{before_nul-text, has_nul-text}
use le_forum.Clib.Words.{u64_mod, le_bytes, length-le_bytes}
use le_forum.Conf.{min_topic_size, max_topic_size}
use le_forum.Security.{Entropy}
use le_forum.Forum.{token_size}
use le_forum.Protocol.{chars, cthr, tpcsz, tpc, thrid, tkn}
use le_forum.Protocol.Words.{expect-chars, read_int-le_bytes}
use le_forum.Server.{Server}
use le_forum.Server.Response.{Junk, junk_bytes}
use le_forum.Server.Query.{query_process, process}
use le_forum.Server.Query.Create.{
  Draws, with_lethread, cthr_answer, cmd_lethread_create_lem, token_lem,
}
use le_forum.Server.Query.Dispatch.{query_process-cthr}
use le_forum.Client.Request.{gen_query_cthr}
use le_forum.Client.Request.Layout.{gen_query_cthr_lem}
use le_forum.Client.Response.{read_response_cthr, parse_response_cthr, fill_struct}
use le_forum.Exchange.{packet, received, answer}

abbrev pub cthr_body : ℕ → Bytes → Bytes
cthr_body n p = chars tpcsz ++ (le_bytes 8 n ++ (chars tpc ++ p))

module _ (junk : Junk) (s : Server) (d : Draws s.entropy) (behind : Bytes) where
  process-cthr :
      (n size : ℕ) (t : Bytes)
      → IsText t
      → min_topic_size ≤ n
      → n ≤ max_topic_size
      → 16 ≤ size
      → size < 2 ^ 62
      → query_process junk (packet (chars cthr ++ cthr_body n t) behind) (4 + size) s
        ≡ ok (
          answer (cthr_answer junk s.next_lethread_id_value d.token),
          with_lethread s d (t ++ (0 ∷ behind)),
        )
  unfolding process
  process-cthr n size t h lo hi enough small =
      let c =
        cmd_lethread_create_lem junk s d n size (t ++ (0 ∷ behind)) lo hi enough
          (has_nul-text t behind) in
      simp append_assoc (rw (query_process-cthr junk _ size s small, c) (simp append_assoc))

  -- A CTHR request that declares an allowed size `n` creates a thread with the whole text `t`
  -- before the terminator as its topic, for a text of any length below 2 ^ 61, whether or not it is
  -- the size declared or an allowed one.
  pub declared_size_ignored :
      (n : ℕ) (t : Bytes)
      → IsText t
      → min_topic_size ≤ n
      → n ≤ max_topic_size
      → length t < 2 ^ 61
      → query_process junk (packet (chars cthr ++ cthr_body n t) behind) (20 + length t) s
        ≡ ok (
          answer (cthr_answer junk s.next_lethread_id_value d.token),
          with_lethread s d (t ++ (0 ∷ [])),
        )
  declared_size_ignored n t h lo hi small =
      let sum : 20 + length t ≡ 4 + (16 + length t) = omega arith in
      let made = process-cthr n (16 + length t) t h lo hi (omega arith) (omega arith) in
      rw (sum, made, before_nul-text t behind h, before_nul-text t [] h)

read_response_cthr_lem :
    (junk : Junk) (id : ℕ) (token : Bytes) (e : Entropy)
    → id < u64_mod
    → IsText token
    → length token ≡ token_size
    → read_response_cthr (received (cthr_answer junk id token)) e
      ≡ done (record { thread_id = id; token = token ++ (0 ∷ []) }) e
unfolding read_response_cthr
read_response_cthr_lem junk id token e fits h l =
    let i : id < 256 ^ 8 = fits in
    let c : strncpy (token ++ (junk_bytes junk 40 2 ++ (0 ∷ []))) token_size ≡ ok token =
      rw (← l) (strncpy-text token (junk_bytes junk 40 2 ++ (0 ∷ [])) h) in
    simp append_assoc (rw (expect-chars _ thrid, read_int-le_bytes 8 id, expect-chars _ tkn, c))

module _ (junk : Junk) (s : Server) (d : Draws s.entropy) (behind t r : Bytes) (h : IsText t)
    (lo : min_topic_size ≤ length t) (hi : length t ≤ max_topic_size)
    (fits : s.next_lethread_id_value < u64_mod) (e : Entropy) where
  -- For a topic of an allowed size, an id that fits 64 bits and the draws `d` of the random source:
  -- the server processes the client's CTHR request into `with_lethread` (one more thread with the
  -- next id, the topic and a new author, the next id counted and saved, both saves queued), and the
  -- reads of the client's parser give that id and that author's token.
  pub create_exchange :
      (request : Bytes) × (gen_query_cthr (t ++ r) (length t) ≡ ok request)
      × (query_process junk (packet request behind) (length request) s
          ≡ ok (
            answer (cthr_answer junk s.next_lethread_id_value d.token),
            with_lethread s d (t ++ (0 ∷ [])),
          ))
      × (read_response_cthr (received (cthr_answer junk s.next_lethread_id_value d.token)) e
          ≡ done (record { thread_id = s.next_lethread_id_value; token = d.token ++ (0 ∷ []) }) e)
  create_exchange =
      let (long, text) = token_lem d in
      let size : length (chars cthr ++ cthr_body (length t) t) ≡ 20 + length t =
        unfold chars in omega (arith, length-append {0}, length-le_bytes) in
      (
        chars cthr ++ cthr_body (length t) t,
        gen_query_cthr_lem t r h,
        rw size (declared_size_ignored junk s d behind (length t) t h lo hi (omega arith)),
        read_response_cthr_lem junk s.next_lethread_id_value d.token e fits text long,
      )

  -- On the server's answer to a CTHR request `parse_response_cthr` as a whole writes outside its
  -- allocation, whatever the random draws and the id below 2 ^ 64 are.
  pub parse_response_cthr_overflows :
      (size : ℕ)
      → parse_response_cthr (received (cthr_answer junk s.next_lethread_id_value d.token)) size e
        ≡ Run.fault
  unfolding parse_response_cthr fill_struct
  parse_response_cthr_overflows size =
      let (long, text) = token_lem d in
      rw
        (read_response_cthr_lem junk s.next_lethread_id_value d.token e fits text long, fill_struct)

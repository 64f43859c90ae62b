-- ===== src/Exchange/Search.antt =====
-- Searching for threads: FTHR.
use le_forum.Common.{
  ℕ, ◌+◌, ◌*◌, ◌≤◌, ◌<◌, ◌^◌, ◌≡◌, refl, List, [], ◌∷◌, ◌++◌, arith, false, Bool-cases, inl, inr,
  if◌then◌else◌, ok, some, length, length-append, append_assoc, All, le→ltb,
}
use le_forum.Common.Command.{done}
use le_forum.Clib.Strings.{Bytes, IsText, is_infix, strncpy-text, strncmp_eq}
use le_forum.Clib.Text.{before_nul, strstr_found_lem, IsString}
use le_forum.Clib.Words.{le_bytes, length-le_bytes}
use le_forum.Conf.{min_topic_size, max_topic_size}
use le_forum.Security.{Entropy}
use le_forum.Forum.{LeThread}
use le_forum.Protocol.{chars, fthr, tpcpsz, tpcp, nfnd, has_word}
use le_forum.Protocol.Words.{expect-chars, read_int-le_bytes, has_word-chars}
use le_forum.Server.{Server, lethread_find}
use le_forum.Server.Response.{Junk, fthr_response}
use le_forum.Server.Response.Search.{
  HaveTopics, found_bytes, all_found_bytes, fthr_response_lem, fthr_response_none,
}
use le_forum.Server.Query.{query_process, process, cmd_lethread_find}
use le_forum.Server.Query.Dispatch.{query_process-fthr}
use le_forum.Client.Request.{gen_query_fthr}
use le_forum.Client.Request.Layout.{gen_query_fthr_lem}
use le_forum.Client.Response.{parse_response_fthr}
use le_forum.Client.Response.Search.{IsSmall, Heard, fthr_rounds_lem}
use le_forum.Exchange.{packet, received, answer}

-- The threads whose topic has the text in it.
abbrev pub matching : Bytes → List LeThread → List LeThread
matching u [] = []
matching u (t ∷ ts) =
    let rest = matching u ts in if is_infix u (before_nul t.topic) then t ∷ rest else rest

pub All-matching :
    (P : LeThread → Type 0) (u : Bytes) (ts : List LeThread) → All P ts → All P (matching u ts)
All-matching P u [] h = tt
All-matching P u (t ∷ ts) (ht, h) = elim (Bool-cases (is_infix u (before_nul t.topic))) [
  | inl e ↦ rw e (ht, All-matching P u ts h)
  | inr e ↦ rw e (All-matching P u ts h)
]

pub length-matching : (u : Bytes) (ts : List LeThread) → length (matching u ts) ≤ length ts
length-matching u [] = omega arith
length-matching u (t ∷ ts) = elim (Bool-cases (is_infix u (before_nul t.topic))) [
  | inl e ↦ rw e (omega (arith, length-matching u ts))
  | inr e ↦ rw e (omega (arith, length-matching u ts))
]

pub lethread_find_lem :
    (u : Bytes) (ts : List LeThread)
    → IsText u
    → HaveTopics ts
    → lethread_find (u ++ (0 ∷ [])) ts ≡ ok (matching u ts)
unfolding lethread_find
lethread_find_lem u [] h strs = refl
lethread_find_lem u (t ∷ ts) h (str, strs) =
    rw (strstr_found_lem t.topic u str h, lethread_find_lem u ts h strs)

-- The response to FTHR.
abbrev pub fthr_answer : List LeThread → Bytes
fthr_answer [] = chars nfnd
fthr_answer (t ∷ ts) = all_found_bytes (t ∷ ts)

fthr_answer_lem :
    (ts : List LeThread)
    → HaveTopics ts
    → length (fthr_answer ts) < 2 ^ 61
    → fthr_response ts ≡ ok (fthr_answer ts)
fthr_answer_lem [] strs bound = fthr_response_none
fthr_answer_lem (t ∷ ts) strs bound = fthr_response_lem t ts strs bound

-- The client tells threads from NFND by the first letters.
not_nfnd :
    (t : LeThread) (ts : List LeThread) (p : Bytes)
    → has_word nfnd (all_found_bytes (t ∷ ts) ++ p) ≡ ok false
unfolding has_word all_found_bytes found_bytes chars strncmp_eq
not_nfnd t ts p = refl

pub parse_response_fthr_lem :
    (ts : List LeThread) (e : Entropy)
    → All IsSmall ts
    → 8 * length ts ≤ length e
    → (cs : List LeThread) × (e' : Entropy) × (parse_response_fthr
          (received (fthr_answer ts))
          (length (fthr_answer ts))
          e
        ≡ done cs e')
      × Heard ts cs
unfolding parse_response_fthr
parse_response_fthr_lem [] e small enough =
    ([], e, rw (has_word-chars nfnd (0 ∷ [])), (refl, refl, tt))
parse_response_fthr_lem (t ∷ ts) e small enough =
    let n = length (all_found_bytes (t ∷ ts)) in
    let (cs, e', k, h) =
      fthr_rounds_lem n 0 n (t ∷ ts) (0 ∷ []) e (omega arith) (omega arith) small enough in
    (cs, e', rw (not_nfnd t ts (0 ∷ [])) k, h)

module _ (junk : Junk) (s : Server) (u r behind : Bytes) (h : IsText u)
    (lo : min_topic_size ≤ length u) (hi : length u ≤ max_topic_size)
    (topics_end : HaveTopics s.lethreads)
    (bound : length (fthr_answer (matching u s.lethreads)) < 2 ^ 61) where
  cmd_lethread_find_lem :
      (size : ℕ)
      → cmd_lethread_find
          (chars tpcpsz ++ (le_bytes 8 (length u) ++ (chars tpcp ++ (u ++ (0 ∷ behind)))))
          size
          s
        ≡ done (some (fthr_answer (matching u s.lethreads))) s
  unfolding cmd_lethread_find
  cmd_lethread_find_lem size =
      let small : length u < 256 ^ 8 = omega arith in
      rw (
        expect-chars _ tpcpsz,
        read_int-le_bytes 8 (length u),
        le→ltb hi,
        le→ltb lo,
        expect-chars _ tpcp,
        strncpy-text u (0 ∷ behind) h,
        lethread_find_lem u s.lethreads h topics_end,
        fthr_answer_lem (matching u s.lethreads)
            (All-matching (λ t. IsString t.topic) u s.lethreads topics_end) bound,
      )

  pub search_processed :
      query_process junk
        (packet
          (chars fthr ++ (chars tpcpsz ++ (le_bytes 8 (length u) ++ (chars tpcp ++ u))))
          behind)
        (length (chars fthr ++ (chars tpcpsz ++ (le_bytes 8 (length u) ++ (chars tpcp ++ u)))))
        s
      ≡ ok (answer (fthr_answer (matching u s.lethreads)), s)
  unfolding process
  search_processed =
      let body = chars tpcpsz ++ (le_bytes 8 (length u) ++ (chars tpcp ++ u)) in
      let size : length (chars fthr ++ body) ≡ 4 + (18 + length u) =
        unfold chars in omega (arith, length-append {0}, length-le_bytes) in
      rw size (
        simp append_assoc (
          rw (
            query_process-fthr junk _ (18 + length u) s (omega arith),
            cmd_lethread_find_lem (18 + length u),
          )))

  -- For a text of 3 to 64 characters, on a server whose topics are terminated and below 2 ^ 32
  -- characters, with ids of 64 bits, a response below 2 ^ 61 bytes and enough random bytes for the
  -- client: the client's FTHR request is answered without a fault and without a change of the
  -- server, and the parser ends, without a fault, with threads that have the ids and the topics of
  -- the threads with the text in their topic, in order.
  pub search_exchange :
      (e : Entropy)
      → All IsSmall s.lethreads
      → 8 * length s.lethreads ≤ length e
      → (request : Bytes) × (response : Bytes) × (cs : List LeThread) × (e' : Entropy)
        × (gen_query_fthr (u ++ r) (length u) ≡ ok request)
        × (query_process junk (packet request behind) (length request) s ≡ ok (answer response, s))
        × (parse_response_fthr (received response) (length response) e ≡ done cs e')
        × Heard (matching u s.lethreads) cs
  unfolding process
  search_exchange e small enough =
      let found = matching u s.lethreads in
      let body = chars tpcpsz ++ (le_bytes 8 (length u) ++ (chars tpcp ++ u)) in
      let (cs, e', k, heard) =
        parse_response_fthr_lem found e (All-matching IsSmall u s.lethreads small)
          (omega (arith, length-matching u s.lethreads)) in
      (
        chars fthr ++ body,
        fthr_answer found,
        cs,
        e',
        gen_query_fthr_lem u r h,
        search_processed,
        k,
        heard,
      )

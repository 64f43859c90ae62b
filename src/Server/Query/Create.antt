-- ===== src/Server/Query/Create.antt =====
-- CTHR: what the server does with a well-formed request for a thread.
use mathlib.Core.List.{append-nil, flatten}
use le_forum.Common.{
  ℕ, ◌+◌, ◌%◌, ◌≤◌, ◌<◌, ◌^◌, ◌≡◌, refl, ap, List, [], ◌∷◌, ◌++◌, arith, All, length-append,
  append-nil, some, none, ok, length, set, le→ltb,
}
use le_forum.Common.Command.{done}
use le_forum.Clib.Strings.{Bytes, IsText, strncpy-text, strncpy}
use le_forum.Clib.Text.{before_nul, IsString, strlen-before_nul, strncpy-before_nul}
use le_forum.Clib.Words.{u64_mod, le_bytes, length-le_bytes}
use le_forum.Clib.Writer.{write_all-ok}
use le_forum.Conf.{min_topic_size, max_topic_size}
use le_forum.Security.{rand_string-IsPrintable, IsPrintable, Entropy, rand_uint64_t, rand_string}
use le_forum.Forum.{LeThread, LeAuthor, lethread_create, leauthor_create, token_size}
use le_forum.Protocol.{chars, tpcsz, tpc, thrid, tkn}
use le_forum.Protocol.Words.{expect-chars, read_int-le_bytes}
use le_forum.Server.{Server, s_lethread_create, next_lethread_id}
use le_forum.Server.Response.{Junk, junk_bytes, cthr_response}
use le_forum.Server.Query.{cmd_lethread_create, create_author, answer_cthr}

-- The numbers and the token that the random source gives while a thread is created.
pub record Draws (e : Entropy) : Type 0 where
  pub unused : ℕ
  pub first_id : ℕ
  pub author_id : ℕ
  pub token : Bytes
  pub after_unused : Entropy
  pub after_first : Entropy
  pub after_author : Entropy
  pub after_token : Entropy
  pub draw_unused : rand_uint64_t e ≡ ok (unused, after_unused)
  pub draw_first : rand_uint64_t after_unused ≡ ok (first_id, after_first)
  pub draw_author : rand_uint64_t after_first ≡ ok (author_id, after_author)
  pub draw_token : rand_string token_size after_author ≡ ok (token, after_token)

module _ {e : Entropy} (d : Draws e) where
  abbrev pub new_author : LeAuthor
  new_author = record { id = d.author_id % 0xffff_ffff; token = d.token }

  -- The thread without its author.
  abbrev pub bare_lethread : ℕ → Bytes → LeThread
  bare_lethread id topic = record {
    id = id;
    first_message_id = d.first_id % 0xffff_ffff;
    next_message_id = d.first_id % 0xffff_ffff;
    topic = before_nul topic ++ (0 ∷ []);
    messages = [];
    author = none;
  }

  abbrev pub new_lethread : ℕ → Bytes → LeThread
  new_lethread id topic = record (bare_lethread id topic) { author = some new_author }

-- The server with one more thread: its id counted and saved, both saves in their queues.
abbrev pub with_lethread : (s : Server) → Draws s.entropy → Bytes → Server
with_lethread s d topic = record {
  lethreads = s.lethreads ++ (new_lethread d s.next_lethread_id_value topic ∷ []);
  next_lethread_id_value = (s.next_lethread_id_value + 1) % u64_mod;
  lethread_queries = s.lethread_queries ++ (length s.lethreads ∷ []);
  lemessage_queries = s.lemessage_queries;
  leauthor_queries = s.leauthor_queries ++ (length s.lethreads ∷ []);
  disk = record s.disk { lemeta = some (le_bytes 8 ((s.next_lethread_id_value + 1) % u64_mod)) };
  entropy = d.after_token;
}

set-append_last :
    (ts : List LeThread) (t u : LeThread) → set (ts ++ (t ∷ [])) (length ts) u ≡ ts ++ (u ∷ [])
set-append_last [] t u = refl
set-append_last (x ∷ ts) t u = ap (λ (l : List LeThread). x ∷ l) (set-append_last ts t u)

abbrev pub cthr_answer : Junk → ℕ → Bytes → Bytes
cthr_answer junk id token =
    (chars thrid ++ (le_bytes 8 id ++ (chars tkn ++ token))) ++ junk_bytes junk 40 2

abbrev cthr_parts : ℕ → Bytes → List Bytes
cthr_parts id token = chars thrid ∷ le_bytes 8 id ∷ chars tkn ∷ token ∷ []

length-cthr_parts :
    (id : ℕ) (token : Bytes)
    → length token ≡ token_size
    → length (flatten (cthr_parts id token)) ≡ 40
unfolding flatten chars
length-cthr_parts id token e = omega (arith, length-append {0}, length-le_bytes)

cthr_response_lem :
    (junk : Junk) (id : ℕ) (author : LeAuthor)
    → IsText author.token
    → length author.token ≡ token_size
    → cthr_response junk id author ≡ ok (cthr_answer junk id author.token)
unfolding cthr_response
cthr_response_lem junk id author h e =
    let copied : strncpy author.token token_size ≡ ok author.token =
      rw (← e) (rw append-nil at (strncpy-text author.token [] h)) in
    let l = length-cthr_parts id author.token e in
    let fits : 0 + length (flatten (cthr_parts id author.token)) ≤ 43 = omega arith in
    rw (copied, write_all-ok (cthr_parts id author.token) [] 43 fits, l)
      (unfold flatten in rw append-nil)

IsText-of_printable : (t : Bytes) → All IsPrintable t → IsText t
IsText-of_printable [] h = tt
IsText-of_printable (c ∷ t) (hc, h) = (omega arith, IsText-of_printable t h)

-- A token that was drawn has its full size, and no terminator in it.
pub token_lem : {e : Entropy} (d : Draws e) → (length d.token ≡ token_size) × IsText d.token
token_lem d =
    let (long, printable) = rand_string-IsPrintable token_size _ d.token _ d.draw_token in
    (long, IsText-of_printable d.token printable)

module _ (junk : Junk) (s : Server) (d : Draws s.entropy) where
  pub cmd_lethread_create_lem :
      (n size : ℕ) (p : Bytes)
      → min_topic_size ≤ n
      → n ≤ max_topic_size
      → 16 ≤ size
      → IsString p
      → cmd_lethread_create junk (chars tpcsz ++ (le_bytes 8 n ++ (chars tpc ++ p))) size s
        ≡ done (some (cthr_answer junk s.next_lethread_id_value d.token)) (with_lethread s d p)
  unfolding cmd_lethread_create s_lethread_create lethread_create leauthor_create next_lethread_id
  cmd_lethread_create_lem n size p lo hi enough str =
      let small : n < 256 ^ 8 = omega arith in
      let (long, text) = token_lem d in
      rw
        (
          le→ltb enough,
          expect-chars _ tpcsz,
          read_int-le_bytes 8 n,
          le→ltb hi,
          le→ltb lo,
          expect-chars _ tpc,
          d.draw_unused,
          strlen-before_nul p str,
          d.draw_first,
          strncpy-before_nul p,
        )
        (rw (
          create_author,
          leauthor_create,
          d.draw_author,
          d.draw_token,
          set-append_last,
          answer_cthr,
          cthr_response_lem junk _ (new_author d) text long,
        ))

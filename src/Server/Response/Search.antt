-- ===== src/Server/Response/Search.antt =====
-- What the response to FTHR is, and that it is never written past its allocation.
use mathlib.Core.List.{flatten}
use le_forum.Common.{
  ℕ, ◌+◌, ◌%◌, ◌^◌, ◌≤◌, ◌<◌, ◌≡◌, refl, List, [], ◌∷◌, ◌++◌, arith, length, length-append,
  append-nil, append_assoc, ok, All,
}
use le_forum.Clib.Strings.{Bytes}
use le_forum.Clib.Text.{before_nul, IsString, strlen-before_nul, strncpy-before_nul}
use le_forum.Clib.Words.{le_bytes, length-le_bytes, u64_mod}
use le_forum.Clib.Writer.{buffer, write_all, write_all-ok}
use le_forum.Forum.{LeThread}
use le_forum.Protocol.{chars, thrid, tpcsz, tpc, nfnd}
use le_forum.Server.Response.{fthr_lethread, fthr_lethreads, fthr_found, fthr_response}
use le_forum.Server.Response.Growth.{reserve_lem}

abbrev pub topic_size : LeThread → ℕ
topic_size t = length (before_nul t.topic)

abbrev found_parts : LeThread → List Bytes
found_parts t =
    chars thrid
    ∷ le_bytes 8 t.id
    ∷ chars tpcsz
    ∷ le_bytes 8 (topic_size t)
    ∷ chars tpc
    ∷ before_nul t.topic
    ∷ []

-- A thread of the response, and all of them.
unfoldable pub found_bytes : LeThread → Bytes
found_bytes t =
    chars thrid
    ++ (le_bytes 8 t.id
        ++ (chars tpcsz ++ (le_bytes 8 (topic_size t) ++ (chars tpc ++ before_nul t.topic))))

unfoldable pub all_found_bytes : List LeThread → Bytes
all_found_bytes [] = []
all_found_bytes (t ∷ ts) = found_bytes t ++ all_found_bytes ts

abbrev pub HaveTopics : List LeThread → Type 0
HaveTopics = All (λ t. IsString t.topic)

flatten-found_parts : (t : LeThread) → flatten (found_parts t) ≡ found_bytes t
unfolding flatten found_bytes
flatten-found_parts t = rw append-nil

pub length-found_bytes : (t : LeThread) → length (found_bytes t) ≡ 29 + topic_size t
unfolding found_bytes chars
length-found_bytes t = omega (arith, length-append {0}, length-le_bytes)

fthr_lethread_lem :
    (t : LeThread) (w : Bytes) (chunk capacity : ℕ)
    → IsString t.topic
    → 0 < chunk
    → chunk ≤ capacity
    → length w + (29 + topic_size t) < 2 ^ 61
    → (chunk' : ℕ) × (capacity' : ℕ) × (fthr_lethread t (length w) chunk (buffer w capacity)
        ≡ ok (length w + (29 + topic_size t), chunk', buffer (w ++ found_bytes t) capacity'))
      × (0 < chunk')
      × (chunk' ≤ capacity')
unfolding fthr_lethread
fthr_lethread_lem t w chunk capacity str pos fits bound =
    let n = (length w + 5 + 8 + 5 + 8 + 3 + topic_size t) % u64_mod in
    let same : n ≡ length w + (29 + topic_size t) = omega arith in
    let (c, k, e, small, inside) =
      reserve_lem 64 n chunk w capacity pos fits (omega arith) (omega arith) in
    let f = flatten-found_parts t in
    let l = length-found_bytes t in
    let room : length w + length (flatten (found_parts t)) ≤ k = rw f (omega arith) in
    (
      c,
      k,
      rw (
        strlen-before_nul t.topic str,
        e,
        strncpy-before_nul t.topic,
        write_all-ok (found_parts t) w k room,
        f,
        length-append,
        l,
      ),
      omega arith,
      inside,
    )

fthr_lethreads_lem :
    (ts : List LeThread) (n : ℕ) (w : Bytes) (chunk capacity : ℕ)
    → length w ≡ n
    → HaveTopics ts
    → 0 < chunk
    → chunk ≤ capacity
    → n + length (all_found_bytes ts) < 2 ^ 61
    → (capacity' : ℕ) × (fthr_lethreads ts n chunk (buffer w capacity)
        ≡ ok (buffer (w ++ all_found_bytes ts) capacity'))
unfolding fthr_lethreads all_found_bytes
fthr_lethreads_lem [] n w chunk capacity e strs pos fits bound = (capacity, rw append-nil)
fthr_lethreads_lem (t ∷ ts) n w chunk capacity e (str, strs) pos fits bound =
    let l = length-found_bytes t in
    let l' = length-append (found_bytes t) (all_found_bytes ts) in
    let (c, k, one, pos', fits') =
      rw e at (fthr_lethread_lem t w chunk capacity str pos fits (omega arith)) in
    let (capacity', rest) =
      fthr_lethreads_lem ts (n + (29 + topic_size t)) (w ++ found_bytes t) c k
        (omega (arith, length-append w (found_bytes t))) strs pos' fits' (omega arith) in
    (capacity', rw (one, rest, append_assoc))

pub fthr_response_lem :
    (t : LeThread) (ts : List LeThread)
    → HaveTopics (t ∷ ts)
    → length (all_found_bytes (t ∷ ts)) < 2 ^ 61
    → fthr_response (t ∷ ts) ≡ ok (all_found_bytes (t ∷ ts))
unfolding fthr_response fthr_found
fthr_response_lem t ts strs bound =
    let (k, e) =
      fthr_lethreads_lem (t ∷ ts) 0 [] 1024 1025 refl strs (omega arith) (omega arith)
        (omega arith) in
    rw e

-- With no thread found the response is the word NFND.
pub fthr_response_none : fthr_response [] ≡ ok (chars nfnd)
unfolding fthr_response fthr_found chars write_all
fthr_response_none = refl

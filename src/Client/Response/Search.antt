-- ===== src/Client/Response/Search.antt =====
-- What the client makes of the server's response to FTHR.
use le_forum.Common.{
  ℕ, zero, suc, ◌+◌, ◌*◌, ◌^◌, ◌≤◌, ◌<◌, ◌≡◌, refl, List, [], ◌∷◌, ◌++◌, arith, length, length-drop,
  append_assoc, ok, All, map, drop, drop-append_of_length, lt→ltb, le→ltb, ltb, length-append, true,
  false,
}
use le_forum.Common.Command.{done}
use le_forum.Clib.Strings.{Bytes, strncpy-text}
use le_forum.Clib.Text.{before_nul, before_nul-IsText, before_nul-text, has_nul-text}
use le_forum.Clib.Words.{u64_mod}
use le_forum.Security.{Entropy, rand_uint64_t, draw}
use le_forum.Forum.{LeThread}
use le_forum.Protocol.{thrid, tpcsz, tpc}
use le_forum.Protocol.Words.{expect-chars, read_int-le_bytes}
use le_forum.Server.Response.Search.{
  HaveTopics, topic_size, found_bytes, all_found_bytes, length-found_bytes,
}
use le_forum.Client.Response.{fthr_round, fthr_rounds}
use le_forum.Client.Response.Thread.{empty_view, new_lethread_lem}

abbrev pub thread_ids : List LeThread → List ℕ
thread_ids ts = map (λ (t : LeThread). t.id) ts

abbrev pub topics : List LeThread → List Bytes
topics ts = map (λ (t : LeThread). before_nul t.topic) ts

-- The numbers of the thread fit their fields.
pub record IsSmall (t : LeThread) : Type 0 where
  pub id : t.id < u64_mod
  pub topic : topic_size t < 2 ^ 32

abbrev pub heard : ℕ → LeThread → LeThread
heard r t = empty_view r t.id (before_nul t.topic ++ (0 ∷ []))

fthr_round_lem :
    (t : LeThread) (rest : Bytes) (r : ℕ) (e e' : Entropy)
    → IsSmall t
    → rand_uint64_t e ≡ ok (r, e')
    → fthr_round (found_bytes t ++ rest) e ≡ done (heard r t, 29 + topic_size t, rest) e'
unfolding fthr_round found_bytes
fthr_round_lem t rest r e e' small d =
    let text = before_nul t.topic in
    let h = before_nul-IsText t.topic in
    let i : t.id < 256 ^ 8 = small.id in
    let n : topic_size t < 256 ^ 8 = omega (arith, small.topic) in
    simp append_assoc (
      rw (
        expect-chars _ thrid,
        read_int-le_bytes 8 t.id,
        expect-chars _ tpcsz,
        read_int-le_bytes 8 (topic_size t),
        expect-chars _ tpc,
        strncpy-text text rest h,
        new_lethread_lem text t.id r e e' h d,
        drop-append_of_length text rest refl,
      ))

-- What is read of `ts`: threads with their ids and topics, which are terminated.
abbrev pub Heard : List LeThread → List LeThread → Type 0
Heard ts cs = (thread_ids cs ≡ thread_ids ts) × (topics cs ≡ topics ts) × HaveTopics cs

pub fthr_rounds_lem :
    (fuel pos size : ℕ) (ts : List LeThread) (rest : Bytes) (e : Entropy)
    → size ≡ pos + length (all_found_bytes ts)
    → length (all_found_bytes ts) ≤ fuel
    → All IsSmall ts
    → 8 * length ts ≤ length e
    → (cs : List LeThread) × (e' : Entropy) × (fthr_rounds fuel pos size
          (all_found_bytes ts ++ rest)
          e
        ≡ done cs e')
      × Heard ts cs
unfolding fthr_rounds all_found_bytes
fthr_rounds_lem zero pos size [] rest e hs hf small enough =
    let b : ltb pos size ≡ false = le→ltb (omega arith) in ([], e, rw b, (refl, refl, tt))
fthr_rounds_lem (suc fuel) pos size [] rest e hs hf small enough =
    let b : ltb pos size ≡ false = le→ltb (omega arith) in ([], e, rw b, (refl, refl, tt))
fthr_rounds_lem zero pos size (t ∷ ts) rest e hs hf small enough =
    let l = length-found_bytes t in
    absurd (omega (arith, length-append (found_bytes t) (all_found_bytes ts)))
fthr_rounds_lem (suc fuel) pos size (t ∷ ts) rest e hs hf (one, small) enough =
    let l = length-found_bytes t in
    let l' = length-append (found_bytes t) (all_found_bytes ts) in
    let b : ltb pos size ≡ true = lt→ltb (omega arith) in
    let (r, d) = draw e (omega arith) in
    let (cs, e', k, (ids, names, ends)) =
      fthr_rounds_lem fuel (pos + (29 + topic_size t)) size ts rest (drop 8 e) (omega arith)
        (omega arith) small (omega (arith, length-drop 8 e)) in
    let again = before_nul-text (before_nul t.topic) [] (before_nul-IsText t.topic) in
    (
      heard r t ∷ cs,
      e',
      rw (b, append_assoc, fthr_round_lem t (all_found_bytes ts ++ rest) r e (drop 8 e) one d, k),
      (
        rw ids,
        rw (names, again, again),
        (has_nul-text (before_nul (before_nul t.topic ++ (0 ∷ []))) [], ends),
      ),
    )

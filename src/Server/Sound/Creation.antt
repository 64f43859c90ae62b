-- ===== src/Server/Sound/Creation.antt =====
-- The thread that a CTHR request creates, with its author and both saves queued.
use le_forum.Common.{
  ℕ, ◌+◌, ◌%◌, ◌<◌, ◌≡◌, refl, ap, ◌∙◌, subst, ◌∷◌, ◌++◌, [], List, arith, some, true, length,
  All-append, set, ok, inl,
}
use le_forum.Common.Result.{>>=-eq-ok}
use le_forum.Clib.Strings.{Bytes}
use le_forum.Clib.Words.{u64_mod, le_bytes}
use le_forum.Security.{Entropy, rand_uint64_t, rand_string, rand_string-IsPrintable}
use le_forum.Disk.{read_file}
use le_forum.Forum.{LeThread, LeAuthor, lethread_create, leauthor_create, token_size}
use le_forum.Server.{
  Server, s_lethread_create, s_lethread_save, s_leauthor_save, next_lethread_id, lemeta_save,
}
use le_forum.Server.Sound.{IsSound, IsSynced, SyncedAt, Moves, Reaches}
use le_forum.Server.Sound.Synced.{IsSynced-append, SyncedAt-grow, Memᴰ-last, Memᴰ-front}
use le_forum.Server.Sound.Threads.{get_elem?_bound, get_elem?-set}
use le_forum.Server.Sound.Lookup.{kept_at}
use le_forum.Server.Sound.Loading.{leauthor_create_lem, IsKept-author}
use le_forum.Server.Sound.Effects.{Moves-trans, requeued}
use le_forum.Server.Sound.NewThread.{s_lethread_create-Moves, lethread_create_lem}

-- The saves of a thread and its author are queued.
both_queued :
    (s : Server) (place : ℕ)
    → IsSound s
    → place < length s.lethreads
    → Moves 0 s (s_leauthor_save place (s_lethread_save place s))
both_queued s place sound inside =
    requeued s sound (s.lethread_queries ++ (place ∷ [])) (s.leauthor_queries ++ (place ∷ []))
      s.lemessage_queries s.entropy
      (All-append (λ (i : ℕ). i < length s.lethreads) s.lethread_queries (place ∷ [])
        sound.lethread_places (inside, tt))
      (All-append (λ (i : ℕ). i < length s.lethreads) s.leauthor_queries (place ∷ [])
        sound.leauthor_places (inside, tt))
      sound.ready

set-append_last :
    (ts : List LeThread) (t t' : LeThread) → set (ts ++ (t ∷ [])) (length ts) t' ≡ ts ++ (t' ∷ [])
set-append_last [] t t' = refl
set-append_last (x ∷ ts) t t' = ap (λ (l : List LeThread). x ∷ l) (set-append_last ts t t')

-- The number of an author that is created fits 64 bits, and the token has its size.
author_made :
    (t t' : LeThread) (e e' : Entropy) (a : LeAuthor)
    → leauthor_create t true e ≡ ok (t', a, e')
    → (a.id < u64_mod) × (length a.token ≡ token_size)
unfolding leauthor_create
author_made t t' e e' a h =
    let ((r, e1), h0, h1) = >>=-eq-ok (rand_uint64_t e) _ h in
    let ((token, e2), h2, h3) = >>=-eq-ok (rand_string token_size e1) _ h1 in
    let made : LeAuthor = record { id = r % 0xffff_ffff; token = token } in
    let p : made ≡ a = cc in
    let (long, _) = rand_string-IsPrintable token_size e1 token e2 h2 in
    subst (λ (x : LeAuthor). (x.id < u64_mod) × (length x.token ≡ token_size)) p (omega arith, long)

module _ (s s1 : Server) (topic : Bytes) (place : ℕ) (t t' : LeThread) (a : LeAuthor) (e : Entropy)
    (sound : IsSound s) (room : s.next_lethread_id_value + 1 < u64_mod)
    (created : s_lethread_create topic s ≡ ok (place, t, s1))
    (made : leauthor_create t true s1.entropy ≡ ok (t', a, e)) where
  abbrev pub last : Server
  last =
      s_leauthor_save place
        (s_lethread_save place (record s1 { lethreads = set s1.lethreads place t'; entropy = e }))

  created-Moves : Moves 1 s last
  created-Moves =
      let (m, there, unknown) = s_lethread_create-Moves s s1 topic place t sound room created in
      let s2 : Server = record s1 { lethreads = set s1.lethreads place t'; entropy = e } in
      let k =
        kept_at s1 place t t' e m.sound there
          (IsKept-author t t' a unknown (leauthor_create_lem t t' true s1.entropy e a made)) in
      let inside =
        get_elem?_bound s2.lethreads place t' (get_elem?-set s1.lethreads place t t' there) in
      Moves-trans m (Moves-trans k (both_queued s2 place k.sound inside))

  created-IsSynced : IsSynced s → IsSynced last
  unfolding s_lethread_create next_lethread_id lemeta_save read_file
  created-IsSynced synced =
      let next = s.next_lethread_id_value in
      let ((u, r), h0, h1) = >>=-eq-ok (lethread_create topic next s.entropy) _ created in
      let (_, id, _, first, later) = lethread_create_lem topic next u s.entropy r h0 in
      let s0 : Server = record s {
        lethreads = s.lethreads ++ (u ∷ []);
        next_lethread_id_value = (next + 1) % u64_mod;
        disk = record s.disk { lemeta = some (le_bytes 8 ((next + 1) % u64_mod)) };
        entropy = r;
      } in
      let p : ◌≡◌ {A = ℕ × LeThread × Server} (length s.lethreads, u, s0) (place, t, s1) = cc in
      let q : record t { author = some a } ≡ t' =
        leauthor_create_lem t t' true s1.entropy e a made in
      let (small, long) = author_made t t' s1.entropy e a made in
      let q' : record u { author = some a } ≡ t' =
        ap (λ (x : ℕ × LeThread × Server). record x.1 { author = some a }) p ∙ q in
      let n = length s.lethreads in
      let f : Server =
        s_leauthor_save n
          (s_lethread_save n (record s0 { lethreads = set s0.lethreads n t'; entropy = e })) in
      let fits : u.id < u64_mod = omega (arith, id, room) in
      let new : SyncedAt f n (record u { author = some a }) = record {
        author = a;
        known = refl;
        fits = record { id = fits; author_id = small; first = first; next = later };
        long = long;
        lethread_file = inl (Memᴰ-last n s.lethread_queries);
        leauthor_file = inl (Memᴰ-last n s.leauthor_queries);
      } in
      subst
        (λ (x : ℕ × LeThread × Server). IsSynced (
          s_leauthor_save x.0 (
            s_lethread_save x.0
              (record x.2 { lethreads = set x.2.lethreads x.0 t'; entropy = e }))))
        p
        (IsSynced-append s f t' (set-append_last s.lethreads u t')
          (subst (λ (x : LeThread). SyncedAt f n x) q' new)
          (λ j v. SyncedAt-grow s f j v (Memᴰ-front (n ∷ [])) (Memᴰ-front (n ∷ [])) refl refl)
          synced)

  pub created-Reaches : Reaches 1 s last
  created-Reaches = record { moves = created-Moves; synced = created-IsSynced }

-- ===== src/Server/Sound/NewThread.antt =====
-- A thread that is created has an id of its own.
use le_forum.Common.{
  ℕ, ◌+◌, ◌%◌, ◌<◌, ◌≡◌, ◌≢◌, refl, subst, [], ◌∷◌, ◌++◌, arith, none, some, length, length-append,
  All, All-append, get_elem?, ok,
}
use le_forum.Common.Result.{>>=-eq-ok}
use le_forum.Clib.Strings.{Bytes, strlen, strncpy}
use le_forum.Clib.Text.{IsString, has_nul-text}
use le_forum.Clib.Words.{u64_mod, le_bytes}
use le_forum.Security.{Entropy, rand_uint64_t}
use le_forum.Forum.{LeThread, lethread_create}
use le_forum.Server.{Server, s_lethread_create, next_lethread_id, lemeta_save}
use le_forum.Server.Sound.{IsSound, IsGiven, Moves}
use le_forum.Server.Sound.Threads.{
  AreKept-append, AreDistinct-append, All-weaken, get_elem?-append_last,
}

pub lethread_create_lem :
    (topic : Bytes) (id : ℕ) (t : LeThread) (e e' : Entropy)
    → lethread_create topic id e ≡ ok (t, e')
    → IsString t.topic
      × (t.id ≡ id)
      × (t.author ≡ none)
      × (t.first_message_id < u64_mod)
      × (t.next_message_id < u64_mod)
unfolding lethread_create
lethread_create_lem topic id t e e' h =
    let (size, h0, h1) = >>=-eq-ok (strlen topic) _ h in
    let ((r, e1), h2, h3) = >>=-eq-ok (rand_uint64_t e) _ h1 in
    let (copy, h4, h5) = >>=-eq-ok (strncpy topic size) _ h3 in
    let u : LeThread = record {
      id = id;
      first_message_id = r % 0xffff_ffff;
      next_message_id = r % 0xffff_ffff;
      topic = copy ++ (0 ∷ []);
      messages = [];
      author = none;
    } in
    let p : u ≡ t = cc in
    subst
      (λ (x : LeThread).
        IsString x.topic
        × (x.id ≡ id)
        × (x.author ≡ none)
        × (x.first_message_id < u64_mod)
        × (x.next_message_id < u64_mod))
      p (has_nul-text copy [], refl, refl, omega arith, omega arith)

pub s_lethread_create-Moves :
    (s s' : Server) (topic : Bytes) (place : ℕ) (t : LeThread)
    → IsSound s
    → s.next_lethread_id_value + 1 < u64_mod
    → s_lethread_create topic s ≡ ok (place, t, s')
    → Moves 1 s s' × (get_elem? s'.lethreads place ≡ some t) × (t.author ≡ none)
unfolding s_lethread_create next_lethread_id lemeta_save
s_lethread_create-Moves s s' topic place t sound room h =
    let next = s.next_lethread_id_value in
    let ((u, e), made, h1) = >>=-eq-ok (lethread_create topic next s.entropy) _ h in
    let (topic_ok, id, unknown, _, _) = lethread_create_lem topic next u s.entropy e made in
    let counted : (next + 1) % u64_mod ≡ next + 1 = omega arith in
    let new : All (λ (x : LeThread). x.id ≢ u.id) s.lethreads =
      All-weaken (IsGiven next) (λ (x : LeThread). x.id ≢ u.id) s.lethreads
        (λ x g. omega (arith, g.id, id)) sound.given in
    let older : All (IsGiven (next + 1)) s.lethreads =
      All-weaken (IsGiven next) (IsGiven (next + 1)) s.lethreads
        (λ x g. record { topic = g.topic; id = omega (arith, g.id) }) sound.given in
    let more = length-append s.lethreads (u ∷ []) in
    let inside : (i : ℕ) → i < length s.lethreads → i < length (s.lethreads ++ (u ∷ [])) =
      λ i f. omega (arith, f, more) in
    let s1 : Server = record s {
      lethreads = s.lethreads ++ (u ∷ []);
      next_lethread_id_value = (next + 1) % u64_mod;
      disk = record s.disk { lemeta = some (le_bytes 8 ((next + 1) % u64_mod)) };
      entropy = e;
    } in
    let p : ◌≡◌ {A = ℕ × LeThread × Server} (length s.lethreads, u, s1) (place, t, s') = cc in
    subst
      (λ (x : ℕ × LeThread × Server).
        Moves 1 s x.2 × (get_elem? x.2.lethreads x.0 ≡ some x.1) × (x.1.author ≡ none))
      p
      (
        record {
          sound = record {
            given = rw counted (
                All-append (IsGiven (next + 1)) s.lethreads (u ∷ []) older
                  (record { topic = topic_ok; id = omega (arith, id) }, tt));
            distinct = AreDistinct-append s.lethreads u sound.distinct new;
            fits = rw counted room;
            stored = refl;
            lethread_places =
                All-weaken (λ (i : ℕ). i < length s.lethreads) (λ (i : ℕ). i < length s1.lethreads)
                  s.lethread_queries inside sound.lethread_places;
            leauthor_places =
                All-weaken (λ (i : ℕ). i < length s.lethreads) (λ (i : ℕ). i < length s1.lethreads)
                  s.leauthor_queries inside sound.leauthor_places;
            ready = sound.ready;
          };
          kept = AreKept-append s.lethreads (u ∷ []);
          later = omega (arith, counted);
          soon = omega (arith, counted);
        },
        get_elem?-append_last s.lethreads u,
        unknown,
      )

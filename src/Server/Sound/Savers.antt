-- ===== src/Server/Sound/Savers.antt =====
-- The three threads that save: from a sound state a round of each succeeds, and keeps the state sound.
use mathlib.Core.List.{Memᴰ}
use le_forum.Common.{
  ℕ, ◌<◌, ◌≡◌, ◌≢◌, ◌⊎◌, refl, sym, ◌∙◌, ap, subst, ◌∷◌, List, arith, some, false, ok, length, All,
  get_elem?, List-cases, inl, inr, Bool-cases, ◌==◌, eq_of_==,
}
use le_forum.Forum.{token_size, LeThread, LeMessage, LeAuthor}
use le_forum.Disk.{Disk, file_lethread, file_lemessages, file_leauthor, read_file, same_file}
use le_forum.Disk.Others.{is_same}
use le_forum.ForumIo.{leauthor_save}
use le_forum.ForumIo.RoundTrip.{lethread_bytes}
use le_forum.ForumIo.Authors.{leauthor_bytes}
use le_forum.Saving.Log.{IsReady}
use le_forum.Server.{Server, lethread_query_manage, lemessage_query_manage, leauthor_query_manage}
use le_forum.Server.Sound.{IsSound, IsGiven, IsSynced, Moves, Reaches}
use le_forum.Server.Sound.Threads.{AreKept-refl, All-get_elem?, get_elem?-some, same_lethread}
use le_forum.Server.Sound.Synced.{SyncedAt-grow}
use le_forum.Server.Sound.Lookup.{Reaches-refl}
use le_forum.Server.Sound.Written.{
  Touches, lethread_save-Touches, leauthor_save-Touches, lemessage_save-Touches,
}

-- The front of a queue is taken.
popped :
    {P : Type 0} (i place : ℕ) (rest : List ℕ)
    → i ≢ place
    → Memᴰ i (place ∷ rest) ⊎ P
    → Memᴰ i rest ⊎ P
popped i place rest other (inl (Memᴰ.head e)) = absurd (other e)
popped i place rest other (inl (Memᴰ.tail m)) = inl m
popped i place rest other (inr p) = inr p

-- A file that is not queued stays.
stays_or : {P Q R : Type 0} → (Q → R) → P ⊎ Q → P ⊎ R
stays_or f (inl p) = inl p
stays_or f (inr q) = inr (f q)

module _ (s : Server) (sound : IsSound s) where
  -- Where only the queues and the folders change.
  saved :
      (ps qs : List ℕ) (ms : List LeMessage) (d : Disk)
      → All (λ (i : ℕ). i < length s.lethreads) ps
      → All (λ (i : ℕ). i < length s.lethreads) qs
      → All IsReady ms
      → d.lemeta ≡ s.disk.lemeta
      → Moves 0 s (record s {
        lethread_queries = ps;
        leauthor_queries = qs;
        lemessage_queries = ms;
        disk = d;
      })
  saved ps qs ms d hp ha hm meta = record {
    sound = record {
      given = sound.given;
      distinct = sound.distinct;
      fits = sound.fits;
      stored = rw meta sound.stored;
      lethread_places = hp;
      leauthor_places = ha;
      ready = hm;
    };
    kept = AreKept-refl s.lethreads;
    later = omega arith;
    soon = omega arith;
  }

  -- A thread with another id stands at another place.
  other_place :
      (i place : ℕ) (t u : LeThread)
      → get_elem? s.lethreads place ≡ some t
      → get_elem? s.lethreads i ≡ some u
      → (u.id == t.id) ≡ false
      → i ≢ place
  other_place i place t u there at differ same =
      let at' : get_elem? s.lethreads place ≡ some u = rw same at at in
      let p : t ≡ u = cc in
      let q : u.id ≡ t.id = ap (λ (x : LeThread). x.id) (sym p) in ground (arith, q)

  lethread-Synced :
      (place : ℕ) (rest : List ℕ) (t : LeThread) (d : Disk)
      → s.lethread_queries ≡ place ∷ rest
      → get_elem? s.lethreads place ≡ some t
      → Touches t.id file_lethread s.disk d
      → ((a : LeAuthor) → t.author ≡ some a → read_file t.id file_lethread d ≡ lethread_bytes t a)
      → IsSynced s
      → IsSynced (record s { lethread_queries = rest; disk = d })
  unfolding same_file
  lethread-Synced place rest t d queued there touches whole synced i u at =
      let h = synced i u at in
      let m = rw queued at h.lethread_file in
      record {
        author = h.author;
        known = h.known;
        fits = h.fits;
        long = h.long;
        lethread_file = elim (Bool-cases (u.id == t.id)) [
          | inl e ↦
              let p : t ≡ u =
                same_lethread s.lethreads place i t u sound.distinct there at
                  (eq_of_== u.id t.id e) in
              inr (
                subst
                  (λ (x : LeThread).
                    x.author ≡ some h.author
                    → read_file x.id file_lethread d ≡ lethread_bytes x h.author)
                  p (whole h.author) h.known)
          | inr e ↦
              let o : is_same u.id file_lethread t.id file_lethread ≡ false = rw e in
              popped i place rest (other_place i place t u there at e)
                (stays_or (λ same. touches.others u.id file_lethread o ∙ same) m)
        ];
        leauthor_file =
            let o : is_same u.id file_leauthor t.id file_lethread ≡ false = ground arith in
            stays_or (λ same. touches.others u.id file_leauthor o ∙ same) h.leauthor_file;
      }

  leauthor-Synced :
      (place : ℕ) (rest : List ℕ) (t : LeThread) (d : Disk)
      → s.leauthor_queries ≡ place ∷ rest
      → get_elem? s.lethreads place ≡ some t
      → Touches t.id file_leauthor s.disk d
      → ((a : LeAuthor)
          → t.author ≡ some a
          → length a.token ≡ token_size
          → read_file t.id file_leauthor d ≡ leauthor_bytes a)
      → IsSynced s
      → IsSynced (record s { leauthor_queries = rest; disk = d })
  unfolding same_file
  leauthor-Synced place rest t d queued there touches whole synced i u at =
      let h = synced i u at in
      let m = rw queued at h.leauthor_file in
      record {
        author = h.author;
        known = h.known;
        fits = h.fits;
        long = h.long;
        lethread_file =
            let o : is_same u.id file_lethread t.id file_leauthor ≡ false = ground arith in
            stays_or (λ same. touches.others u.id file_lethread o ∙ same) h.lethread_file;
        leauthor_file = elim (Bool-cases (u.id == t.id)) [
          | inl e ↦
              let p : t ≡ u =
                same_lethread s.lethreads place i t u sound.distinct there at
                  (eq_of_== u.id t.id e) in
              inr (
                subst
                  (λ (x : LeThread).
                    x.author ≡ some h.author
                    → read_file x.id file_leauthor d ≡ leauthor_bytes h.author)
                  p (λ known. whole h.author known h.long) h.known)
          | inr e ↦
              let o : is_same u.id file_leauthor t.id file_leauthor ≡ false = rw e in
              popped i place rest (other_place i place t u there at e)
                (stays_or (λ same. touches.others u.id file_leauthor o ∙ same) m)
        ];
      }

  lemessage-Synced :
      (k : ℕ) (rest : List LeMessage) (d : Disk)
      → Touches k file_lemessages s.disk d
      → IsSynced s
      → IsSynced (record s { lemessage_queries = rest; disk = d })
  unfolding same_file
  lemessage-Synced k rest d touches synced i u at =
      let o : is_same u.id file_lethread k file_lemessages ≡ false = ground arith in
      let o' : is_same u.id file_leauthor k file_lemessages ≡ false = ground arith in
      SyncedAt-grow s (record s { lemessage_queries = rest; disk = d }) i u (λ m. m) (λ m. m)
        (touches.others u.id file_lethread o) (touches.others u.id file_leauthor o') (synced i u at)

  pub lethread_query_manage-Reaches :
      (s' : Server) × (lethread_query_manage s ≡ ok s') × Reaches 0 s s'
  unfolding lethread_query_manage
  lethread_query_manage-Reaches = elim (List-cases s.lethread_queries) [
    | inl idle ↦ (s, simp (lethread_query_manage, idle), Reaches-refl s sound)
    | inr (place, rest, queued) ↦
        let (inside, others) : All (λ (i : ℕ). i < length s.lethreads) (place ∷ rest) =
          rw queued at sound.lethread_places in
        let (t, there) = get_elem?-some s.lethreads place inside in
        let given =
          All-get_elem? (IsGiven s.next_lethread_id_value) s.lethreads place t sound.given there in
        let (r, e, touches, whole) = lethread_save-Touches t s.disk given.topic in
        (
          record s { lethread_queries = rest; disk = r.1 },
          rw (lethread_query_manage, queued, there, e) refl,
          record {
            moves =
                saved rest s.leauthor_queries s.lemessage_queries r.1 others sound.leauthor_places
                  sound.ready touches.lemeta;
            synced = lethread-Synced place rest t r.1 queued there touches whole;
          },
        )
  ]

  pub leauthor_query_manage-Reaches :
      (s' : Server) × (leauthor_query_manage s ≡ ok s') × Reaches 0 s s'
  unfolding leauthor_query_manage
  leauthor_query_manage-Reaches = elim (List-cases s.leauthor_queries) [
    | inl idle ↦ (s, simp (leauthor_query_manage, idle), Reaches-refl s sound)
    | inr (place, rest, queued) ↦
        let (inside, others) : All (λ (i : ℕ). i < length s.lethreads) (place ∷ rest) =
          rw queued at sound.leauthor_places in
        let (t, there) = get_elem?-some s.lethreads place inside in
        let d = (leauthor_save t s.disk).1 in
        let (touches, whole) = leauthor_save-Touches t s.disk in
        (
          record s { leauthor_queries = rest; disk = d },
          rw (leauthor_query_manage, queued, there) refl,
          record {
            moves =
                saved s.lethread_queries rest s.lemessage_queries d sound.lethread_places others
                  sound.ready touches.lemeta;
            synced = leauthor-Synced place rest t d queued there touches whole;
          },
        )
  ]

  pub lemessage_query_manage-Reaches :
      (s' : Server) × (lemessage_query_manage s ≡ ok s') × Reaches 0 s s'
  unfolding lemessage_query_manage
  lemessage_query_manage-Reaches = elim (List-cases s.lemessage_queries) [
    | inl idle ↦ (s, simp (lemessage_query_manage, idle), Reaches-refl s sound)
    | inr (m, rest, queued) ↦
        let (ready, others) : All IsReady (m ∷ rest) = rw queued at sound.ready in
        let (d, k, e, touches) = lemessage_save-Touches m s.disk ready in
        (
          record s { lemessage_queries = rest; disk = d },
          rw (lemessage_query_manage, queued, e) refl,
          record {
            moves =
                saved s.lethread_queries s.leauthor_queries rest d sound.lethread_places
                  sound.leauthor_places others touches.lemeta;
            synced = lemessage-Synced k rest d touches;
          },
        )
  ]

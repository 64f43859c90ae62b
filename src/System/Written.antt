-- ===== src/System/Written.antt =====
-- What a round of a saving thread brings to disk.
use le_forum.Common.{
  ℕ, ◌+◌, ◌<◌, ◌≡◌, refl, sym, ap, ◌∙◌, arith, [], ◌∷◌, ◌++◌, List, some, true, ok, Outcome, length,
  All, get_elem?, ◌==◌,
}
use le_forum.Clib.Words.{u64_mod}
use le_forum.Forum.{LeThread, LeMessage, LeAuthor}
use le_forum.Disk.{file_lethread, file_lemessages, file_leauthor, read_file}
use le_forum.ForumIo.{leauthor_save}
use le_forum.ForumIo.RoundTrip.{lethread_bytes}
use le_forum.ForumIo.Authors.{leauthor_bytes}
use le_forum.ForumIo.Messages.{lemessage_bytes}
use le_forum.ForumIo.Apart.{entry, lemessage_save-entry}
use le_forum.Saving.Log.{IsReady}
use le_forum.Server.{Server, lethread_query_manage, lemessage_query_manage, leauthor_query_manage}
use le_forum.Server.Sound.{IsSound, IsGiven, IsSynced}
use le_forum.Server.Sound.Threads.{All-get_elem?, get_elem?-some}
use le_forum.Server.Sound.Written.{lethread_save-Touches, leauthor_save-Touches}
use le_forum.System.{Saver, lethread_saver, lemessage_saver, leauthor_saver, save_round, Serves}
use le_forum.System.Reach.{Serves-Reaches, save_round-Reaches}

-- The front of a queue is taken and stands in its file; a round without work changes nothing.
abbrev WroteThread : List ℕ → Server → Server → Type 0
WroteThread [] s s' = s' ≡ s
WroteThread (place ∷ rest) s s' =
    (t : LeThread) × (a : LeAuthor) × (get_elem? s.lethreads place ≡ some t)
    × (t.author ≡ some a)
    × (s'.lethread_queries ≡ rest)
    × (read_file t.id file_lethread s'.disk ≡ lethread_bytes t a)

abbrev WroteAuthor : List ℕ → Server → Server → Type 0
WroteAuthor [] s s' = s' ≡ s
WroteAuthor (place ∷ rest) s s' =
    (t : LeThread) × (a : LeAuthor) × (get_elem? s.lethreads place ≡ some t)
    × (t.author ≡ some a)
    × (s'.leauthor_queries ≡ rest)
    × (read_file t.id file_leauthor s'.disk ≡ leauthor_bytes a)

abbrev WroteMessage : List LeMessage → Server → Server → Type 0
WroteMessage [] s s' = s' ≡ s
WroteMessage (m ∷ rest) s s' =
    (id : ℕ) × (m.lethread ≡ some id)
    × (s'.lemessage_queries ≡ rest)
    × (read_file id file_lemessages s'.disk
        ≡ read_file id file_lemessages s.disk ++ lemessage_bytes m)

abbrev pub Wrote : Saver → Server → Server → Type 0
Wrote lethread_saver s s' = WroteThread s.lethread_queries s s'
Wrote lemessage_saver s s' = WroteMessage s.lemessage_queries s s'
Wrote leauthor_saver s s' = WroteAuthor s.leauthor_queries s s'

module _ (s s' : Server) (sound : IsSound s) where
  lethread_round :
      (queue : List ℕ)
      → s.lethread_queries ≡ queue
      → IsSynced s
      → lethread_query_manage s ≡ ok s'
      → WroteThread queue s s'
  unfolding lethread_query_manage
  lethread_round [] queued synced h =
      let h0 : Outcome.ok s ≡ ok s' = rw (lethread_query_manage, queued) at h in cc
  lethread_round (place ∷ rest) queued synced h =
      let (inside, _) : All (λ (i : ℕ). i < length s.lethreads) (place ∷ rest) =
        rw queued at sound.lethread_places in
      let (t, there) = get_elem?-some s.lethreads place inside in
      let given =
        All-get_elem? (IsGiven s.next_lethread_id_value) s.lethreads place t sound.given there in
      let (r, e, _, whole) = lethread_save-Touches t s.disk given.topic in
      let at = synced place t there in
      let h0 = rw (lethread_query_manage, queued, there, e) at h in
      let p : record s { lethread_queries = rest; disk = r.1 } ≡ s' = cc in
      (
        t,
        at.author,
        there,
        at.known,
        ap (λ (x : Server). x.lethread_queries) (sym p),
        ap (λ (x : Server). read_file t.id file_lethread x.disk) (sym p) ∙ whole at.author at.known,
      )

  leauthor_round :
      (queue : List ℕ)
      → s.leauthor_queries ≡ queue
      → IsSynced s
      → leauthor_query_manage s ≡ ok s'
      → WroteAuthor queue s s'
  unfolding leauthor_query_manage
  leauthor_round [] queued synced h =
      let h0 : Outcome.ok s ≡ ok s' = rw (leauthor_query_manage, queued) at h in cc
  leauthor_round (place ∷ rest) queued synced h =
      let (inside, _) : All (λ (i : ℕ). i < length s.lethreads) (place ∷ rest) =
        rw queued at sound.leauthor_places in
      let (t, there) = get_elem?-some s.lethreads place inside in
      let (_, whole) = leauthor_save-Touches t s.disk in
      let at = synced place t there in
      let h0 = rw (leauthor_query_manage, queued, there) at h in
      let p : record s { leauthor_queries = rest; disk = (leauthor_save t s.disk).1 } ≡ s' = cc in
      (
        t,
        at.author,
        there,
        at.known,
        ap (λ (x : Server). x.leauthor_queries) (sym p),
        ap (λ (x : Server). read_file t.id file_leauthor x.disk) (sym p)
            ∙ whole at.author at.known at.long,
      )

  lemessage_round :
      (queue : List LeMessage)
      → s.lemessage_queries ≡ queue
      → lemessage_query_manage s ≡ ok s'
      → WroteMessage queue s s'
  unfolding lemessage_query_manage
  lemessage_round [] queued h =
      let h0 : Outcome.ok s ≡ ok s' = rw (lemessage_query_manage, queued) at h in cc
  lemessage_round (m ∷ rest) queued h =
      let (ready, _) : All IsReady (m ∷ rest) = rw queued at sound.ready in
      let (k, known) = ready.lethread in
      let (d, e, file) = lemessage_save-entry m k s.disk known ready.text in
      let h0 = rw (lemessage_query_manage, queued, e) at h in
      let p : record s { lemessage_queries = rest; disk = d } ≡ s' = cc in
      let own : (k == k) ≡ true = ground arith in
      let f : entry k m ≡ lemessage_bytes m = rw (known, own) in
      (
        k,
        known,
        ap (λ (x : Server). x.lemessage_queries) (sym p),
        ap (λ (x : Server). read_file k file_lemessages x.disk) (sym p) ∙ rw f at (file k),
      )

save_round-Wrote :
    (saver : Saver) (s s' : Server)
    → IsSound s
    → IsSynced s
    → save_round saver s ≡ ok s'
    → Wrote saver s s'
save_round-Wrote lethread_saver s s' sound synced h =
    lethread_round s s' sound s.lethread_queries refl synced h
save_round-Wrote lemessage_saver s s' sound synced h =
    lemessage_round s s' sound s.lemessage_queries refl h
save_round-Wrote leauthor_saver s s' sound synced h =
    leauthor_round s s' sound s.leauthor_queries refl synced h

-- In every state that a sound server in which every thread stands in its files or is queued to be
-- saved (`IsSynced`) reaches by `n` requests, with room for `n` ids, and rounds of the saving
-- threads: the next round of each of the three saving threads succeeds, in a state that is again
-- sound and synced. With an empty queue it changes nothing. Otherwise it takes the front of its
-- queue, which is a thread with a known author, or a message that points to its thread, and then
-- the file of the thread holds its record, the file of the author holds its record, or the file of
-- messages holds what it held and the record of the message behind it.
pub savers_write :
    {n : ℕ} {s s' : Server}
    → IsSound s
    → IsSynced s
    → s.next_lethread_id_value + n < u64_mod
    → Serves n s s'
    → (saver : Saver)
    → (s'' : Server) × (save_round saver s' ≡ ok s'')
      × IsSound s''
      × IsSynced s''
      × Wrote saver s' s''
savers_write {s'} sound synced room run saver =
    let reached = Serves-Reaches sound room run in
    let (s'', e, r) = save_round-Reaches saver s' reached.moves.sound in
    let kept = reached.synced synced in
    (s'', e, r.moves.sound, r.synced kept, save_round-Wrote saver s' s'' reached.moves.sound kept e)

-- ===== src/Saving/Reach.antt =====
-- From a sequence of steps to the disk.
use le_forum.Common.{
  ℕ, ◌≡◌, refl, sym, ◌∙◌, List, [], ◌∷◌, ◌++◌, append-nil, append_assoc, ok, length, All,
}
use le_forum.Forum.{LeMessage}
use le_forum.Disk.{file_lemessages, read_file}
use le_forum.Server.{Server}
use le_forum.Saving.{
  Step, posted, found, created, lethread_saved, lemessage_saved, leauthor_saved, Steps, stop, step,
  rounds,
}
use le_forum.Saving.Log.{
  entries, entries-append, log, IsReady, AreReady, Keeps, round, Keeps-lethread_saved,
  Keeps-leauthor_saved, Keeps-lemessage_saved, Keeps-found, Keeps-created, Keeps-posted,
}

Keeps-Step : {s s' : Server} {ms : List LeMessage} → AreReady s → Step s ms s' → Keeps s ms s'
Keeps-Step ready (posted place t text flag h lo hi e) =
    Keeps-posted place t text flag ready h lo hi e
Keeps-Step ready (found id e) = Keeps-found id ready e
Keeps-Step ready (created topic e) = Keeps-created topic ready e
Keeps-Step ready (lethread_saved e) = Keeps-lethread_saved ready e
Keeps-Step ready (lemessage_saved e) = Keeps-lemessage_saved ready e
Keeps-Step ready (leauthor_saved e) = Keeps-leauthor_saved ready e

Keeps-Steps : {s s' : Server} {ms : List LeMessage} → AreReady s → Steps s ms s' → Keeps s ms s'
Keeps-Steps ready stop = record { ready = ready; logged = λ id. sym (append-nil _) }
Keeps-Steps {s} ready (step {ms} {ns} one rest) =
    let k = Keeps-Step ready one in
    let l = Keeps-Steps k.ready rest in
    record {
      ready = l.ready;
      logged = λ id.
          rw (l.logged id, k.logged id, entries-append id ms ns)
            (append_assoc (log id s) (entries id ms) (entries id ns));
    }

-- As many rounds as messages are queued bring all of them to their files.
rounds_lem :
    (ms : List LeMessage) (s : Server)
    → s.lemessage_queries ≡ ms
    → All IsReady ms
    → (s' : Server) × (rounds (length ms) s ≡ ok s')
      × (s'.lemessage_queries ≡ [])
      × ((id : ℕ) → read_file id file_lemessages s'.disk ≡ log id s)
unfolding rounds
rounds_lem [] s q ready = (s, refl, q, λ id. rw q (sym (append-nil _)))
rounds_lem (m ∷ rest) s q (hm, hrest) =
    let (s1, e, q1, l1) = round s m rest q hm in
    let (s', e', q', l') = rounds_lem rest s1 q1 hrest in (s', rw e e', q', λ id. l' id ∙ l1 id)

-- From a server whose queued messages point to their threads and have terminated texts, after any
-- sequence of posts, lookups, creations of threads and rounds of the three saving threads, in any
-- order: as many rounds of the message thread as messages are queued then succeed and empty the
-- queue, and the messages file of every thread holds what it held at the start, then the records of
-- its messages queued at the start, then those of its messages posted, in order, each once.
pub messages_reach_disk :
    {s s' : Server} {ms : List LeMessage}
    → AreReady s
    → Steps s ms s'
    → (s'' : Server) × (rounds (length s'.lemessage_queries) s' ≡ ok s'')
      × (s''.lemessage_queries ≡ [])
      × ((id : ℕ) → read_file id file_lemessages s''.disk ≡ log id s ++ entries id ms)
messages_reach_disk {s' = s'} ready run =
    let k = Keeps-Steps ready run in
    let (s'', e, q, l) = rounds_lem s'.lemessage_queries s' refl k.ready in
    (s'', e, q, λ id. l id ∙ k.logged id)

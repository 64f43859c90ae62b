-- ===== src/Saving/Log.antt =====
-- The messages file of a thread as it will be when the queue is served, and what each step does to it.
use le_forum.Common.{
  ℕ, ◌≤◌, ◌≡◌, refl, sym, List, [], ◌∷◌, ◌++◌, append-nil, append_assoc, Option, some, Outcome, ok,
  length, All, All-append, get_elem?, set, Option-cases, List-cases, inl, inr,
}
use le_forum.Common.Result.{>>=-eq-ok}
use le_forum.Common.Command.{done}
use le_forum.Clib.Strings.{Bytes, IsText}
use le_forum.Clib.Text.{IsString, before_nul, has_nul-text}
use le_forum.Conf.{min_message_size, max_message_size}
use le_forum.Forum.{LeThread, LeMessage, lethread_create}
use le_forum.Forum.Posting.{new_lemessage}
use le_forum.Disk.{file_lemessages, read_file}
use le_forum.ForumIo.Apart.{entry, lemessage_save-entry, lethread_save_apart, leauthor_save_apart}
use le_forum.ForumIo.{lethread_save, leauthor_save}
use le_forum.Server.{
  Server, lethread_get_by_id, s_lethread_create, lethread_query_manage, lemessage_query_manage,
  leauthor_query_manage, place_of, load_missing_messages, load_missing_author, next_lethread_id,
  lemeta_save,
}
use le_forum.Server.Query.{post_message}
use le_forum.Server.Query.Post.{with_post, post_message_accepted}

-- The records that messages add to the file of the thread `id`.
abbrev pub entries : ℕ → List LeMessage → Bytes
entries id [] = []
entries id (m ∷ ms) = entry id m ++ entries id ms

pub entries-append :
    (id : ℕ) (ms ns : List LeMessage) → entries id (ms ++ ns) ≡ entries id ms ++ entries id ns
entries-append id [] ns = refl
entries-append id (m ∷ ms) ns =
    rw (entries-append id ms ns) (sym (append_assoc (entry id m) (entries id ms) (entries id ns)))

-- The messages file of a thread as it will be, when the queue is served.
abbrev pub log : ℕ → Server → Bytes
log id s = read_file id file_lemessages s.disk ++ entries id s.lemessage_queries

-- The message points to its thread, and its text is terminated.
pub record IsReady (m : LeMessage) : Type 0 where
  pub lethread : (k : ℕ) × (m.lethread ≡ some k)
  pub text : IsString m.text

abbrev pub AreReady : Server → Type 0
AreReady s = All IsReady s.lemessage_queries

-- What a step keeps, and what it adds.
pub record Keeps (s : Server) (ms : List LeMessage) (s' : Server) : Type 0 where
  pub ready : AreReady s'
  pub logged : (id : ℕ) → log id s' ≡ log id s ++ entries id ms

module _ (s : Server) (m : LeMessage) (rest : List LeMessage)
    (queued : s.lemessage_queries ≡ m ∷ rest) (ready : IsReady m) where
  -- A round of the thread that saves messages.
  pub round :
      (s' : Server) × (lemessage_query_manage s ≡ ok s')
      × (s'.lemessage_queries ≡ rest)
      × ((id : ℕ) → log id s' ≡ log id s)
  unfolding lemessage_query_manage
  round =
      let (k, known) = ready.lethread in
      let (d, e, file) = lemessage_save-entry m k s.disk known ready.text in
      (
        record s { lemessage_queries = rest; disk = d },
        rw (lemessage_query_manage, queued, e),
        refl,
        λ id.
            rw (file id, queued)
              (append_assoc (read_file id file_lemessages s.disk) (entry id m) (entries id rest)),
      )

-- Where the queue and the messages files are as before, so is the log.
Keeps-of_same :
    {s s' : Server}
    → AreReady s
    → s'.lemessage_queries ≡ s.lemessage_queries
    → ((id : ℕ) → read_file id file_lemessages s'.disk ≡ read_file id file_lemessages s.disk)
    → Keeps s [] s'
Keeps-of_same ready q file = record {
  ready = rw q ready;
  logged = λ id. rw (q, file id, append-nil);
}

pub Keeps-lethread_saved :
    {s s' : Server} → AreReady s → lethread_query_manage s ≡ ok s' → Keeps s [] s'
unfolding lethread_query_manage
Keeps-lethread_saved {s} {s'} ready h = elim (List-cases s.lethread_queries) [
  | inl none_queued ↦
      let h0 : Outcome.ok s ≡ ok s' = rw (lethread_query_manage, none_queued) at h in
      let p : s ≡ s' = cc in rw (← p) (Keeps-of_same ready refl (λ k. refl))
  | inr (place, rest, queued) ↦ elim (Option-cases (get_elem? s.lethreads place)) [
    | inl gone ↦
        let h0 : Outcome.fault ≡ ok s' = rw (lethread_query_manage, queued, gone) at h in cc
    | inr (t, there) ↦
        let h0 = rw (lethread_query_manage, queued, there) at h in
        let ((status, d), e, h1) = >>=-eq-ok (lethread_save t s.disk) _ h0 in
        let p : record s { lethread_queries = rest; disk = d } ≡ s' = cc in
        rw (← p) (Keeps-of_same ready refl (λ k. lethread_save_apart k t s.disk e))
  ]
]

pub Keeps-leauthor_saved :
    {s s' : Server} → AreReady s → leauthor_query_manage s ≡ ok s' → Keeps s [] s'
unfolding leauthor_query_manage
Keeps-leauthor_saved {s} {s'} ready h = elim (List-cases s.leauthor_queries) [
  | inl none_queued ↦
      let h0 : Outcome.ok s ≡ ok s' = rw (leauthor_query_manage, none_queued) at h in
      let p : s ≡ s' = cc in rw (← p) (Keeps-of_same ready refl (λ k. refl))
  | inr (place, rest, queued) ↦ elim (Option-cases (get_elem? s.lethreads place)) [
    | inl gone ↦
        let h0 : Outcome.fault ≡ ok s' = rw (leauthor_query_manage, queued, gone) at h in cc
    | inr (t, there) ↦
        let h0 = rw (leauthor_query_manage, queued, there) at h in
        let p : record s { leauthor_queries = rest; disk = (leauthor_save t s.disk).1 } ≡ s' = cc in
        rw (← p) (Keeps-of_same ready refl (λ k. leauthor_save_apart k t s.disk))
  ]
]

pub Keeps-lemessage_saved :
    {s s' : Server} → AreReady s → lemessage_query_manage s ≡ ok s' → Keeps s [] s'
unfolding lemessage_query_manage
Keeps-lemessage_saved {s} {s'} ready h = elim (List-cases s.lemessage_queries) [
  | inl none_queued ↦
      let h0 : Outcome.ok s ≡ ok s' = rw (lemessage_query_manage, none_queued) at h in
      let p : s ≡ s' = cc in rw (← p) (Keeps-of_same ready refl (λ k. refl))
  | inr (m, rest, queued) ↦
      let (hm, hrest) : All IsReady (m ∷ rest) = rw queued at ready in
      let (s1, e, q, l) = round s m rest queued hm in
      let p : s1 ≡ s' = cc in
      rw (← p) (record { ready = rw q hrest; logged = λ id. rw append-nil (l id) })
]

pub Keeps-found :
    {s s' : Server} {r : Option (ℕ × LeThread)} (id : ℕ)
    → AreReady s
    → lethread_get_by_id id s ≡ ok (r, s')
    → Keeps s [] s'
unfolding lethread_get_by_id
Keeps-found {s} {s'} {r} id ready h = elim (Option-cases (place_of id s.lethreads)) [
  | inl nowhere ↦
      let p : s ≡ s' = (let h' = rw (lethread_get_by_id, nowhere) at h in cc) in
      rw (← p) (Keeps-of_same ready refl (λ k. refl))
  | inr ((i, t), there) ↦
      let h0 = rw (lethread_get_by_id, there) at h in
      let (t1, e1, h1) = >>=-eq-ok (load_missing_messages t s) _ h0 in
      let ((t2, e), e2, h2) = >>=-eq-ok (load_missing_author t1 s) _ h1 in
      let p : record s { lethreads = set s.lethreads i t2; entropy = e } ≡ s' = cc in
      rw (← p) (Keeps-of_same ready refl (λ k. refl))
]

pub Keeps-created :
    {s s' : Server} {place : ℕ} {t : LeThread} (topic : Bytes)
    → AreReady s
    → s_lethread_create topic s ≡ ok (place, t, s')
    → Keeps s [] s'
unfolding s_lethread_create next_lethread_id lemeta_save read_file
Keeps-created {s} {s'} topic ready h =
    let ((t, e), e1, h1) =
      >>=-eq-ok (lethread_create topic s.next_lethread_id_value s.entropy) _ h in
    let s1 = (next_lethread_id s).1 in
    let p : record s1 { lethreads = s1.lethreads ++ (t ∷ []); entropy = e } ≡ s' = cc in
    rw (← p) (Keeps-of_same ready refl (λ k. refl))

pub Keeps-posted :
    {s s' : Server} (place : ℕ) (t : LeThread) (text : Bytes) (flag : ℕ)
    → AreReady s
    → IsText text
    → min_message_size ≤ length text
    → length text ≤ max_message_size
    → post_message place t (text ++ (0 ∷ [])) flag s ≡ done tt s'
    → Keeps s (new_lemessage t (text ++ (0 ∷ [])) flag ∷ []) s'
Keeps-posted {s} {s'} place t text flag ready h lo hi e =
    let m = new_lemessage t (text ++ (0 ∷ [])) flag in
    let made = post_message_accepted s place t text flag h lo hi in
    let p : with_post s place t (text ++ (0 ∷ [])) flag ≡ s' = cc in
    let good : IsReady m = record {
      lethread = (t.id, refl);
      text = has_nul-text (before_nul (text ++ (0 ∷ []))) [];
    } in
    rw (← p) (record {
      ready = All-append IsReady s.lemessage_queries (m ∷ []) ready (good, tt);
      logged = λ id. rw (entries-append id s.lemessage_queries (m ∷ [])) (
          sym (
            append_assoc (read_file id file_lemessages s.disk) (entries id s.lemessage_queries)
              (entries id (m ∷ []))));
    })

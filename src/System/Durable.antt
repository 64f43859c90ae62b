-- ===== src/System/Durable.antt =====
-- What the saving threads bring to disk is what a restart finds.
use mathlib.Core.List.{Memᴰ}
use le_forum.Common.{
  ℕ, zero, suc, ◌+◌, ◌*◌, ◌≤◌, ◌<◌, ◌≡◌, ◌⊎◌, inl, inr, refl, sym, ap, ◌∙◌, arith, [], ◌∷◌, List,
  some, true, ok, Outcome, length, All, get_elem?, Option-cases, map,
}
use le_forum.Common.Result.{>>=-eq-ok}
use le_forum.Clib.Strings.{Bytes}
use le_forum.Clib.Text.{before_nul}
use le_forum.Clib.Words.{u64_mod, le_bytes}
use le_forum.Conf.{max_topic_size}
use le_forum.Security.{Entropy}
use le_forum.Forum.{LeThread}
use le_forum.Disk.{Disk, LeFile, file_lethread, file_leauthor, read_file, file_exists}
use le_forum.ForumIo.{lethread_save, leauthor_save}
use le_forum.Server.{Server, lethread_query_manage, leauthor_query_manage}
use le_forum.Server.Startup.{folder, startup}
use le_forum.Server.Startup.Restart.{OnDisk, started, startup_of}
use le_forum.Server.Sound.{IsSound, IsSynced, SyncedAt, Reaches}
use le_forum.Server.Sound.Threads.{All-get_elem?}
use le_forum.Server.Sound.Lookup.{Reaches-refl}
use le_forum.Server.Sound.Effects.{Reaches-trans}
use le_forum.Server.Sound.Savers.{lethread_query_manage-Reaches, leauthor_query_manage-Reaches}
use le_forum.System.{lethread_saver, leauthor_saver, save_rounds, Serves}
use le_forum.System.Reach.{Serves-Reaches}
use le_forum.System.Kept.{lemeta_load-Stored}

-- A round of the thread that saves threads takes the front of its queue.
lethread_taken :
    (s s' : Server) (place : ℕ) (rest : List ℕ)
    → s.lethread_queries ≡ place ∷ rest
    → lethread_query_manage s ≡ ok s'
    → (d : Disk) × (record s { lethread_queries = rest; disk = d } ≡ s')
unfolding lethread_query_manage
lethread_taken s s' place rest queued h = elim (Option-cases (get_elem? s.lethreads place)) [
  | inl gone ↦ let h0 : Outcome.fault ≡ ok s' = rw (lethread_query_manage, queued, gone) at h in cc
  | inr (t, there) ↦
      let h0 = rw (lethread_query_manage, queued, there) at h in
      let ((status, d), e, h1) = >>=-eq-ok (lethread_save t s.disk) _ h0 in (d, cc)
]

leauthor_taken :
    (s s' : Server) (place : ℕ) (rest : List ℕ)
    → s.leauthor_queries ≡ place ∷ rest
    → leauthor_query_manage s ≡ ok s'
    → (d : Disk) × (record s { leauthor_queries = rest; disk = d } ≡ s')
unfolding leauthor_query_manage
leauthor_taken s s' place rest queued h = elim (Option-cases (get_elem? s.lethreads place)) [
  | inl gone ↦ let h0 : Outcome.fault ≡ ok s' = rw (leauthor_query_manage, queued, gone) at h in cc
  | inr (t, there) ↦
      let h0 = rw (leauthor_query_manage, queued, there) at h in ((leauthor_save t s.disk).1, cc)
]

-- As many rounds as the queue is long empty it.
drain_lethreads :
    (queue : List ℕ) (s : Server)
    → IsSound s
    → s.lethread_queries ≡ queue
    → (s' : Server) × (save_rounds lethread_saver (length queue) s ≡ ok s')
      × Reaches 0 s s'
      × (s'.lethread_queries ≡ [])
      × (s'.leauthor_queries ≡ s.leauthor_queries)
      × (s'.lethreads ≡ s.lethreads)
unfolding save_rounds
drain_lethreads [] s sound q = (s, refl, Reaches-refl s sound, q, refl, refl)
drain_lethreads (place ∷ rest) s sound q =
    let (u, e, r) = lethread_query_manage-Reaches s sound in
    let (d, p) = lethread_taken s u place rest q e in
    let taken : u.lethread_queries ≡ rest = ap (λ (x : Server). x.lethread_queries) (sym p) in
    let authors : u.leauthor_queries ≡ s.leauthor_queries =
      ap (λ (x : Server). x.leauthor_queries) (sym p) in
    let threads : u.lethreads ≡ s.lethreads = ap (λ (x : Server). x.lethreads) (sym p) in
    let (s', e', r', empty, authors', threads') = drain_lethreads rest u r.moves.sound taken in
    (s', rw e e', Reaches-trans r r', empty, authors' ∙ authors, threads' ∙ threads)

drain_leauthors :
    (queue : List ℕ) (s : Server)
    → IsSound s
    → s.leauthor_queries ≡ queue
    → (s' : Server) × (save_rounds leauthor_saver (length queue) s ≡ ok s')
      × Reaches 0 s s'
      × (s'.leauthor_queries ≡ [])
      × (s'.lethread_queries ≡ s.lethread_queries)
      × (s'.lethreads ≡ s.lethreads)
unfolding save_rounds
drain_leauthors [] s sound q = (s, refl, Reaches-refl s sound, q, refl, refl)
drain_leauthors (place ∷ rest) s sound q =
    let (u, e, r) = leauthor_query_manage-Reaches s sound in
    let (d, p) = leauthor_taken s u place rest q e in
    let taken : u.leauthor_queries ≡ rest = ap (λ (x : Server). x.leauthor_queries) (sym p) in
    let others : u.lethread_queries ≡ s.lethread_queries =
      ap (λ (x : Server). x.lethread_queries) (sym p) in
    let threads : u.lethreads ≡ s.lethreads = ap (λ (x : Server). x.lethreads) (sym p) in
    let (s', e', r', empty, others', threads') = drain_leauthors rest u r.moves.sound taken in
    (s', rw e e', Reaches-trans r r', empty, others' ∙ others, threads' ∙ threads)

-- A file with a byte is there.
file_exists-of_read :
    (id : ℕ) (f : LeFile) (d : Disk) (b : ℕ) (bytes : Bytes)
    → read_file id f d ≡ b ∷ bytes
    → file_exists id f d ≡ true
unfolding read_file file_exists
file_exists-of_read id f d b bytes h = ground arith

not_queued : {P : Type 0} (i : ℕ) (queue : List ℕ) → queue ≡ [] → Memᴰ i queue ⊎ P → P
not_queued i queue empty (inl m) = let bad : Memᴰ i [] = rw empty at m in elim bad [ ]
not_queued i queue empty (inr p) = p

abbrev pub IsShort : LeThread → Type 0
IsShort t = length (before_nul t.topic) ≤ max_topic_size

-- With empty queues, a thread is on disk.
module _ (s : Server) (synced : IsSynced s) (saved : s.lethread_queries ≡ [])
    (saved' : s.leauthor_queries ≡ []) where
  SyncedAt-OnDisk : (i : ℕ) (t : LeThread) → SyncedAt s i t → IsShort t → OnDisk s.disk t
  unfolding le_bytes
  SyncedAt-OnDisk i t h short =
      let file = not_queued i s.lethread_queries saved h.lethread_file in
      let file' = not_queued i s.leauthor_queries saved' h.leauthor_file in
      record {
        author = h.author;
        known = h.known;
        fits = h.fits;
        short = short;
        long = h.long;
        lethread_there = file_exists-of_read t.id file_lethread s.disk _ _ file;
        lethread_file = file;
        leauthor_there = file_exists-of_read t.id file_leauthor s.disk _ _ file';
        leauthor_file = file';
      }

All-of_places :
    (P : LeThread → Type 0) (ts : List LeThread)
    → ((i : ℕ) (t : LeThread) → get_elem? ts i ≡ some t → P t)
    → All P ts
All-of_places P [] f = tt
All-of_places P (t ∷ ts) f = (f zero t refl, All-of_places P ts (λ i. f (suc i)))

-- Two queues are emptied, one after the other.
drain :
    (s : Server)
    → IsSound s
    → (u : Server) × (v : Server) × (save_rounds lethread_saver (length s.lethread_queries) s
        ≡ ok u)
      × (save_rounds leauthor_saver (length s.leauthor_queries) u ≡ ok v)
      × Reaches 0 s v
      × (v.lethread_queries ≡ [])
      × (v.leauthor_queries ≡ [])
      × (v.lethreads ≡ s.lethreads)
drain s sound =
    let (u, e, r, empty, authors, threads) = drain_lethreads s.lethread_queries s sound refl in
    let (v, e', r', empty', others, threads') =
      drain_leauthors s.leauthor_queries u r.moves.sound authors in
    (u, v, e, e', Reaches-trans r r', others ∙ empty, empty', threads' ∙ threads)

-- The rounds that empty the queues, and the start from what they leave.
pub drained_start :
    {n : ℕ} {s s' : Server}
    → IsSound s
    → IsSynced s
    → s.next_lethread_id_value + n < u64_mod
    → Serves n s s'
    → All IsShort s'.lethreads
    → (e : Entropy) → 8 * length s'.lethreads ≤ length e
    → (u : Server) × (v : Server) × (e' : Entropy) × (save_rounds lethread_saver
          (length s'.lethread_queries)
          s'
        ≡ ok u)
      × (save_rounds leauthor_saver (length s'.leauthor_queries) u ≡ ok v)
      × (startup (map (λ (t : LeThread). folder t.id) s'.lethreads) v.disk e
          ≡ ok (length s'.lethreads, started v.disk s'.lethreads v.next_lethread_id_value e'))
      × IsSound v
      × (v.lethreads ≡ s'.lethreads)
      × (v.next_lethread_id_value ≡ s'.next_lethread_id_value)
drained_start {s'} sound synced room run short e enough =
    let reached = Serves-Reaches sound room run in
    let (u, v, h, h', r, empty, empty', same) = drain s' reached.moves.sound in
    let kept : IsSynced v = r.synced (reached.synced synced) in
    let next : v.next_lethread_id_value ≡ s'.next_lethread_id_value =
      omega (arith, r.moves.later, r.moves.soon) in
    let on_disk : All (OnDisk v.disk) s'.lethreads =
      All-of_places (OnDisk v.disk) s'.lethreads (λ i t there.
        SyncedAt-OnDisk v kept empty empty' i t (kept i t (rw same there))
          (All-get_elem? IsShort s'.lethreads i t short there)) in
    let (e', run') =
      startup_of v.disk s'.lethreads e v.next_lethread_id_value on_disk enough (λ x at.
        lemeta_load-Stored x v.next_lethread_id_value (rw at r.moves.sound.stored)
          r.moves.sound.fits) in
    (u, v, e', h, h', run', r.moves.sound, same, next)

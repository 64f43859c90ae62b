-- ===== src/Server/Sound/Posting.antt =====
-- Posting a message: the thread is renewed and queued, and so is the message.
use mathlib.Core.List.{Memᴰ}
use le_forum.Disk.{file_leauthor, read_file}
use le_forum.Common.{
  ◌∙◌, ℕ, ◌+◌, ◌%◌, ◌<◌, ◌≡◌, refl, subst, List, [], ◌∷◌, ◌++◌, arith, Option, none, some, ◌||◌,
  ltb, inl, inr, length, All-append, get_elem?, set, Bool-cases, ok,
}
use le_forum.Common.Result.{>>=-eq-ok}
use le_forum.Common.Ends.{Ends, ends_done, ends_fault, Ends-lift}
use le_forum.Clib.Strings.{Bytes, strlen, strncpy}
use le_forum.Clib.Text.{has_nul-text}
use le_forum.Clib.Words.{u64_mod}
use le_forum.Conf.{LeStatus, min_message_size, max_message_size}
use le_forum.Forum.{LeThread, LeMessage, lemessage_create}
use le_forum.Saving.Log.{IsReady}
use le_forum.Server.{Server}
use le_forum.Server.Query.{post_message, save_created}
use le_forum.Server.Sound.{IsSound, IsKept, Reaches, SyncedAt}
use le_forum.Server.Sound.Synced.{IsSynced-set, SyncedAt-grow, Memᴰ-last, Memᴰ-front}
use le_forum.Server.Sound.Threads.{get_elem?_bound, length-set}
use le_forum.Server.Sound.Lookup.{kept_at}
use le_forum.Server.Sound.Effects.{Moves-trans, requeued}

-- A thread with another next message id, and other messages.
abbrev Renewed : LeThread → LeThread → Type 0
Renewed t t' =
    (n : ℕ) × (n < u64_mod)
    × (ms : List LeMessage) × (record t { next_message_id = n; messages = ms } ≡ t')

-- What `lemessage_create` gives.
abbrev Created : LeThread → Option LeMessage → LeThread → Type 0
Created t none t' = Unit
Created t (some m) t' = IsReady m × IsKept t t' × Renewed t t'

lemessage_create-Created :
    (t t' : LeThread) (p : Bytes) (flag : ℕ) (status : LeStatus) (created : Option LeMessage)
    → lemessage_create t p flag ≡ ok (status, created, t')
    → Created t created t'
unfolding lemessage_create
lemessage_create-Created t t' p flag status created h =
    let (size, e, h1) = >>=-eq-ok (strlen p) _ h in
    elim (Bool-cases (ltb size min_message_size || ltb max_message_size size)) [
      | inl b ↦
          let h2 = rw b at h1 in
          let q : none ≡ created = cc in subst (λ (c : Option LeMessage). Created t c t') q tt
      | inr b ↦
          let (copy, e1, h3) = >>=-eq-ok (strncpy p size) _ (rw b at h1) in
          let m : LeMessage = record {
            id = t.next_message_id;
            text = copy ++ (0 ∷ []);
            by_lethread_author = flag;
            lethread = some t.id;
          } in
          let u : LeThread = record t {
            next_message_id = (t.next_message_id + 1) % u64_mod;
            messages = t.messages ++ (m ∷ []);
          } in
          let q : ◌≡◌ {A = Option LeMessage × LeThread} (some m, u) (created, t') = cc in
          subst (λ (c : Option LeMessage × LeThread). Created t c.0 c.1) q
            (
              record { lethread = (t.id, refl); text = has_nul-text copy [] },
              record {
                id = refl;
                topic = refl;
                first = refl;
                added = (m ∷ [], refl);
                author = inr refl;
              },
              ((t.next_message_id + 1) % u64_mod, omega arith, t.messages ++ (m ∷ []), refl),
            )
    ]

-- A renewed thread is queued.
SyncedAt-Renewed :
    (s s' : Server) (i : ℕ) (t t' : LeThread)
    → Renewed t t'
    → Memᴰ i s'.lethread_queries
    → (Memᴰ i s.leauthor_queries → Memᴰ i s'.leauthor_queries)
    → read_file t.id file_leauthor s'.disk ≡ read_file t.id file_leauthor s.disk
    → SyncedAt s i t
    → SyncedAt s' i t'
SyncedAt-Renewed s s' i t t' (n, small, ms, e) queued g same h =
    subst (λ (u : LeThread). SyncedAt s' i u) e
      (record {
        author = h.author;
        known = h.known;
        fits = record {
          id = h.fits.id;
          author_id = h.fits.author_id;
          first = h.fits.first;
          next = small;
        };
        long = h.long;
        lethread_file = inl queued;
        leauthor_file = elim h.leauthor_file [ inl m ↦ inl (g m) | inr e ↦ inr (same ∙ e) ];
      })

module _ (s : Server) (sound : IsSound s) where
  save_created-Ends :
      (place : ℕ) (t t' : LeThread) (created : Option LeMessage)
      → get_elem? s.lethreads place ≡ some t
      → Created t created t'
      → Ends
          (λ (u : Unit {0}) s'. Reaches 0 s s')
          (λ s'. Reaches 0 s s')
          (save_created place t' created s)
  save_created-Ends place t t' none there c = ends_fault
  save_created-Ends place t t' (some m) there (ready, k, renewed) =
      let s1 = record s { lethreads = set s.lethreads place t' } in
      let a = kept_at s place t t' s.entropy sound there k in
      let inside : place < length s1.lethreads =
        rw (length-set s.lethreads place t') (get_elem?_bound s.lethreads place t there) in
      let s2 : Server = record s1 {
        lethread_queries = s.lethread_queries ++ (place ∷ []);
        lemessage_queries = s.lemessage_queries ++ (m ∷ []);
      } in
      ends_done tt s2 (record {
        moves = Moves-trans a (
            requeued s1 a.sound (s.lethread_queries ++ (place ∷ [])) s.leauthor_queries
              (s.lemessage_queries ++ (m ∷ [])) s.entropy
              (All-append (λ (i : ℕ). i < length s1.lethreads) s.lethread_queries (place ∷ [])
                a.sound.lethread_places (inside, tt))
              a.sound.leauthor_places
              (All-append IsReady s.lemessage_queries (m ∷ []) sound.ready (ready, tt)));
        synced = λ h.
            IsSynced-set s s2 place t' refl
              (SyncedAt-Renewed s s2 place t t' renewed (Memᴰ-last place s.lethread_queries)
                (λ q. q) refl (h place t there))
              (λ j u. SyncedAt-grow s s2 j u (Memᴰ-front (place ∷ [])) (λ q. q) refl refl) h;
      })

  pub post_message-Ends :
      (place : ℕ) (t : LeThread) (text : Bytes) (flag : ℕ)
      → get_elem? s.lethreads place ≡ some t
      → Ends
          (λ (u : Unit {0}) s'. Reaches 0 s s')
          (λ s'. Reaches 0 s s')
          (post_message place t text flag s)
  unfolding post_message
  post_message-Ends place t text flag there = Ends-lift s (lemessage_create t text flag) _ (λ r e.
      save_created-Ends place t r.2 r.1 there (lemessage_create-Created t r.2 text flag r.0 r.1 e))

-- ===== src/Server/Sound/Lookup.antt =====
-- A lookup keeps the threads: it adds what was on disk.
use le_forum.Common.{
  ℕ, ◌≡◌, refl, subst, ◌∙◌, ◌++◌, arith, Option, none, some, inl, inr, get_elem?, set, Option-cases,
  ok,
}
use le_forum.Common.Result.{>>=-eq-ok}
use le_forum.Security.{Entropy}
use le_forum.Forum.{LeThread}
use le_forum.Server.{
  Server, lethread_get_by_id, place_of, load_missing_messages, load_missing_author,
}
use le_forum.Server.Sound.{IsSound, IsGiven, IsKept, Reaches, Moves, IsSynced, SyncedAt}
use le_forum.Server.Sound.Synced.{IsSynced-set, SyncedAt-grow, SyncedAt-messages}
use le_forum.Server.Sound.Threads.{
  IsKept-trans, AreKept-refl, AreKept-set, AreDistinct-set, All-set, All-get_elem?, length-set,
  get_elem?-set, place_of_lem,
}
use le_forum.Server.Sound.Loading.{
  IsKept-messages, Loads, load_missing_messages-Loads, load_missing_author-IsKept,
  load_missing_author_known,
}

-- The state after a thread at its place was replaced by one that keeps it.
pub kept_at :
    (s : Server) (i : ℕ) (t t' : LeThread) (e : Entropy)
    → IsSound s
    → get_elem? s.lethreads i ≡ some t
    → IsKept t t'
    → Moves 0 s (record s { lethreads = set s.lethreads i t'; entropy = e })
kept_at s i t t' e sound there k =
    let given =
      All-get_elem? (IsGiven s.next_lethread_id_value) s.lethreads i t sound.given there in
    record {
      sound = record {
        given =
            All-set (IsGiven s.next_lethread_id_value) s.lethreads i t' sound.given
              (record { topic = rw (k.topic) given.topic; id = rw (k.id) given.id });
        distinct = AreDistinct-set s.lethreads i t t' there k.id sound.distinct;
        fits = sound.fits;
        stored = sound.stored;
        lethread_places = rw (length-set s.lethreads i t') sound.lethread_places;
        leauthor_places = rw (length-set s.lethreads i t') sound.leauthor_places;
        ready = sound.ready;
      };
      kept = AreKept-set s.lethreads i t t' there k;
      later = omega arith;
      soon = omega arith;
    }

-- What a lookup gives stands at its place.
abbrev pub Stands : Option (ℕ × LeThread) → Server → Type 0
Stands none s = Unit
Stands (some (i, t)) s = get_elem? s.lethreads i ≡ some t

pub Moves-refl : (s : Server) → IsSound s → Moves 0 s s
Moves-refl s sound = record {
  sound = sound;
  kept = AreKept-refl s.lethreads;
  later = omega arith;
  soon = omega arith;
}

pub Reaches-refl : (s : Server) → IsSound s → Reaches 0 s s
Reaches-refl s sound = record { moves = Moves-refl s sound; synced = λ h. h }

IsSynced-lookup :
    (s : Server) (i : ℕ) (t t1 t2 : LeThread) (e : Entropy)
    → get_elem? s.lethreads i ≡ some t
    → Loads t t1
    → load_missing_author t1 s ≡ ok (t2, e)
    → IsSynced s
    → IsSynced (record s { lethreads = set s.lethreads i t2; entropy = e })
IsSynced-lookup s i t t1 t2 e there (ms, p) h synced =
    let at_i = synced i t there in
    let known : t1.author ≡ some at_i.author = rw (← p) at_i.known in
    let q : record t { messages = t.messages ++ ms } ≡ t2 =
      p ∙ load_missing_author_known t1 t2 at_i.author s e known h in
    let s' : Server = record s { lethreads = set s.lethreads i t2; entropy = e } in
    IsSynced-set s s' i t2 refl
      (subst (λ (u : LeThread). SyncedAt s' i u) q
        (SyncedAt-messages s' i t (t.messages ++ ms)
          (SyncedAt-grow s s' i t (λ m. m) (λ m. m) refl refl at_i)))
      (λ j u k. SyncedAt-grow s s' j u (λ m. m) (λ m. m) refl refl k) synced

pub lethread_get_by_id-Reaches :
    (id : ℕ) (s s' : Server) (r : Option (ℕ × LeThread))
    → IsSound s
    → lethread_get_by_id id s ≡ ok (r, s')
    → Reaches 0 s s' × Stands r s'
unfolding lethread_get_by_id
lethread_get_by_id-Reaches id s s' r sound h = elim (Option-cases (place_of id s.lethreads)) [
  | inl nowhere ↦
      let h1 = rw (lethread_get_by_id, nowhere) at h in
      let p : s ≡ s' = cc in let q : none ≡ r = cc in rw (← p, ← q) (Reaches-refl s sound, tt)
  | inr ((i, t), place) ↦
      let (there, same) = place_of_lem id s.lethreads i t place in
      let h1 = rw (lethread_get_by_id, place) at h in
      let (t1, e1, h2) = >>=-eq-ok (load_missing_messages t s) _ h1 in
      let ((t2, e), e2, h3) = >>=-eq-ok (load_missing_author t1 s) _ h2 in
      let p : ◌≡◌ {A = Option (ℕ × LeThread) × Server}
          (some (i, t2), record s { lethreads = set s.lethreads i t2; entropy = e }) (r, s') =
        cc in
      let loads = load_missing_messages-Loads t t1 s e1 in
      let k =
        IsKept-trans (IsKept-messages t t1 loads.0 loads.1)
          (load_missing_author-IsKept t1 t2 s e e2) in
      subst (λ (x : Option (ℕ × LeThread) × Server). Reaches 0 s x.1 × Stands x.0 x.1) p
        (
          record {
            moves = kept_at s i t t2 e sound there k;
            synced = IsSynced-lookup s i t t1 t2 e there loads e2;
          },
          get_elem?-set s.lethreads i t t2 there,
        )
]

-- ===== src/Server/Sound/Effects.antt =====
-- What the parts of a request do to the state of the server.
use le_forum.Common.{
  ℕ, ◌+◌, ◌≤◌, ◌<◌, ◌≡◌, refl, List, arith, Option, none, some, Bool, true, false, length, All,
  get_elem?, drop, Outcome, ok,
}
use le_forum.Common.Command.{Run, done, exit}
use le_forum.Common.Ends.{
  Ends, ends_done, ends_exit, ends_fault, ends_hang, Stays, Ends-step, Ends-lift,
}
use le_forum.Clib.Strings.{Bytes}
use le_forum.Clib.Words.{le_value}
use le_forum.Conf.{LeStatus, lestatus_nfnd}
use le_forum.Security.{Entropy}
use le_forum.Forum.{LeThread, LeMessage}
use le_forum.Protocol.{Word, chars, has_word, require, expect, read_int}
use le_forum.Saving.Log.{IsReady}
use le_forum.Server.{Server, lethread_get_by_id}
use le_forum.Server.Query.{found_lethread}
use le_forum.Server.Sound.{IsSound, Reaches, Moves}
use le_forum.Server.Sound.Synced.{SyncedAt-grow}
use le_forum.Server.Sound.Threads.{AreKept-refl, AreKept-trans}
use le_forum.Server.Sound.Lookup.{lethread_get_by_id-Reaches}

pub Moves-trans : {m n : ℕ} {s u v : Server} → Moves m s u → Moves n u v → Moves (m + n) s v
Moves-trans a b = record {
  sound = b.sound;
  kept = AreKept-trans a.kept b.kept;
  later = omega (arith, a.later, b.later);
  soon = omega (arith, a.soon, b.soon);
}

pub Moves-le : {m n : ℕ} {s s' : Server} → m ≤ n → Moves m s s' → Moves n s s'
Moves-le h a = record {
  sound = a.sound;
  kept = a.kept;
  later = a.later;
  soon = omega (arith, a.soon);
}

pub Reaches-trans : {m n : ℕ} {s u v : Server} → Reaches m s u → Reaches n u v → Reaches (m + n) s v
Reaches-trans a b = record {
  moves = Moves-trans a.moves b.moves;
  synced = λ h. b.synced (a.synced h);
}

pub Reaches-le : {m n : ℕ} {s s' : Server} → m ≤ n → Reaches m s s' → Reaches n s s'
Reaches-le h a = record { moves = Moves-le h a.moves; synced = a.synced }

module _ {S : Type 0} (s : S) where
  pub Stays-require : (b : Bool) (e : LeStatus) → Stays s (require b e s)
  Stays-require true e = ends_done tt s refl
  Stays-require false e = ends_exit e s refl

  pub Stays-expect : (e : LeStatus) (w : Word) (p : Bytes) → Stays s (expect e w p s)
  unfolding expect
  Stays-expect e w p = Ends-lift s (has_word w p) _ (λ same _.
      Ends-step s (require same e s) _ (Stays-require same e) refl
        (λ _. ends_done (drop (length (chars w)) p) s refl))

  pub Stays-read_int : (k : ℕ) (p : Bytes) → Stays s (read_int {S = S} k p s)
  unfolding read_int
  Stays-read_int k p = Ends-lift s (le_value k p) _ (λ v _. ends_done (v, drop k p) s refl)

module _ (s : Server) (sound : IsSound s) where
  pub found_lethread-Ends :
      (id : ℕ)
      → Ends
          (λ (pt : ℕ × LeThread) s'. Reaches 0 s s' × (get_elem? s'.lethreads pt.0 ≡ some pt.1))
          (λ s'. Reaches 0 s s')
          (found_lethread id s)
  unfolding found_lethread
  found_lethread-Ends id = elim_found (lethread_get_by_id id s) refl
    where
      elim_found :
          (o : Outcome (Option (ℕ × LeThread) × Server))
          → lethread_get_by_id id s ≡ o
          → Ends
              (λ (pt : ℕ × LeThread) s'. Reaches 0 s s' × (get_elem? s'.lethreads pt.0 ≡ some pt.1))
              (λ s'. Reaches 0 s s')
              (elim o [
                | ok (none, s') ↦ exit lestatus_nfnd s'
                | ok (some t, s') ↦ done t s'
                | Outcome.fault ↦ Run.fault
                | Outcome.hang ↦ Run.hang
              ])
      elim_found (ok (none, s')) e =
          ends_exit lestatus_nfnd s' (lethread_get_by_id-Reaches id s s' none sound e).0
      elim_found (ok (some t, s')) e =
          ends_done t s' (lethread_get_by_id-Reaches id s s' (some t) sound e)
      elim_found Outcome.fault e = ends_fault
      elim_found Outcome.hang e = ends_hang

  -- Where only the random source and the queues change.
  pub requeued :
      (ps qs : List ℕ) (ms : List LeMessage) (e : Entropy)
      → All (λ (i : ℕ). i < length s.lethreads) ps
      → All (λ (i : ℕ). i < length s.lethreads) qs
      → All IsReady ms
      → Moves 0 s (record s {
        lethread_queries = ps;
        leauthor_queries = qs;
        lemessage_queries = ms;
        entropy = e;
      })
  requeued ps qs ms e hp ha hm = record {
    sound = record {
      given = sound.given;
      distinct = sound.distinct;
      fits = sound.fits;
      stored = sound.stored;
      lethread_places = hp;
      leauthor_places = ha;
      ready = hm;
    };
    kept = AreKept-refl s.lethreads;
    later = omega arith;
    soon = omega arith;
  }

  pub spent : (e : Entropy) → Reaches 0 s (record s { entropy = e })
  spent e = record {
    moves =
        requeued s.lethread_queries s.leauthor_queries s.lemessage_queries e sound.lethread_places
          sound.leauthor_places sound.ready;
    synced = λ h i t there.
        SyncedAt-grow s (record s { entropy = e }) i t (λ m. m) (λ m. m) refl refl (h i t there);
  }

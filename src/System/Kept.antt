-- ===== src/System/Kept.antt =====
-- What a client and a restart can rely on, whatever the other clients send.
use le_forum.Common.{
  ℕ, zero, suc, ◌+◌, ◌<◌, ◌≡◌, refl, sym, ap, ◌∙◌, List, Option, some, ok, Outcome, inl, inr,
  get_elem?, Option-cases,
}
use le_forum.Clib.Strings.{Bytes}
use le_forum.Clib.Words.{u64_mod, le_bytes}
use le_forum.Forum.{LeThread}
use le_forum.Server.{Server, lemeta_load, read_lemeta, place_of}
use le_forum.Server.Startup.Restart.{lemeta_load_lem}
use le_forum.Server.Sound.{Stored, IsSound, IsKept, AreKept, new_lethreads, kept_lethread}
use le_forum.Server.Sound.Threads.{place_of-distinct}
use le_forum.System.{Serves}
use le_forum.System.Reach.{Serves-Reaches}

AreKept-get_elem? :
    (ts us : List LeThread) (i : ℕ) (t : LeThread)
    → AreKept ts us
    → get_elem? ts i ≡ some t
    → (u : LeThread) × (get_elem? us i ≡ some u) × IsKept t u
AreKept-get_elem? _ us i t (new_lethreads _) e = cc
AreKept-get_elem? _ _ zero t (kept_lethread {t = x} {t' = y} k rest) e =
    let p : x ≡ t = cc in (y, refl, rw (← p) k)
AreKept-get_elem? _ _ (suc i) t (kept_lethread {ts} {ts' = us} k rest) e =
    AreKept-get_elem? ts us i t rest e

pub lemeta_load-Stored :
    (s : Server) (next : ℕ)
    → Stored s.disk.lemeta next
    → next < u64_mod
    → lemeta_load s ≡ ok (record s { next_lethread_id_value = next })
unfolding lemeta_load
lemeta_load-Stored s next stored small = elim (Option-cases s.disk.lemeta) [
  | inl new ↦
      let start : next ≡ 0 = rw new at stored in
      ap (λ (o : Option Bytes). read_lemeta o s) new
      ∙ ap (λ (k : ℕ). Outcome.ok (record s { next_lethread_id_value = k })) (sym start)
  | inr (file, old) ↦
      let same : file ≡ le_bytes 8 next = rw old at stored in
      lemeta_load_lem s next (old ∙ ap some same) small
]

module _ {n : ℕ} {s s' : Server} (sound : IsSound s) (room : s.next_lethread_id_value + n < u64_mod)
    (run : Serves n s s') where
  -- For a thread at a place of a sound server, after any `n` requests, with room for `n` ids, and
  -- rounds of the saving threads: the search for its id finds the thread at this place, with the
  -- same topic and first message id, its messages with more behind them, and its author, if it was
  -- known.
  pub lethread_found_again :
      (place : ℕ) (t : LeThread)
      → get_elem? s.lethreads place ≡ some t
      → (u : LeThread) × (place_of t.id s'.lethreads ≡ some (place, u)) × IsKept t u
  lethread_found_again place t there =
      let r = Serves-Reaches sound room run in
      let (u, e, k) = AreKept-get_elem? s.lethreads s'.lethreads place t r.moves.kept there in
      (u, rw (← k.id) (place_of-distinct s'.lethreads place u r.moves.sound.distinct e), k)

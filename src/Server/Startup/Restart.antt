-- ===== src/Server/Startup/Restart.antt =====
-- What is on disk is there again after a start.
use le_forum.Common.{
  ℕ, ◌*◌, ◌^◌, ◌≤◌, ◌<◌, ◌≡◌, ◌∙◌, Option, refl, ap, List, [], ◌∷◌, arith, some, none, true, ok,
  length, length-drop, length-map, append-nil, All, map, drop,
}
use le_forum.Clib.Strings.{Bytes}
use le_forum.Clib.Text.{before_nul}
use le_forum.Clib.Words.{u64_mod, le_bytes, le_value-le_bytes, le_value}
use le_forum.Conf.{max_topic_size}
use le_forum.Security.{Entropy, rand_uint64_t, draw}
use le_forum.Forum.{LeThread, LeAuthor, token_size}
use le_forum.Disk.{Disk, file_lethread, file_leauthor, read_file, file_exists}
use le_forum.ForumIo.RoundTrip.{lethread_bytes, Fits, loaded, lethread_load_lem}
use le_forum.ForumIo.Authors.{leauthor_bytes, reload_author, leauthor_load_lem}
use le_forum.Server.{Server, lemeta_load, read_lemeta}
use le_forum.Server.Startup.{folder, load_lethread, load_entries, startup}

-- The thread and its author stand in their files.
pub record OnDisk (d : Disk) (t : LeThread) : Type 0 where
  pub author : LeAuthor
  pub known : t.author ≡ some author
  pub fits : Fits t author
  pub short : length (before_nul t.topic) ≤ max_topic_size
  pub long : length author.token ≡ token_size
  pub lethread_there : file_exists t.id file_lethread d ≡ true
  pub lethread_file : read_file t.id file_lethread d ≡ lethread_bytes t author
  pub leauthor_there : file_exists t.id file_leauthor d ≡ true
  pub leauthor_file : read_file t.id file_leauthor d ≡ leauthor_bytes author

-- A thread after a restart: its messages are loaded later.
abbrev pub restarted : LeThread → LeThread
restarted t = record (loaded t) {
  author = elim t.author [ none ↦ none | some author ↦ some (reload_author author) ];
}

load_lethread_lem :
    (d : Disk) (t : LeThread) (r : ℕ) (e e' : Entropy)
    → OnDisk d t
    → rand_uint64_t e ≡ ok (r, e')
    → load_lethread t.id d e ≡ ok (some (restarted t), e')
unfolding load_lethread
load_lethread_lem d t r e e' o drawn =
    let h = lethread_load_lem t o.author d o.short o.fits o.lethread_there o.lethread_file in
    let a =
      leauthor_load_lem (loaded t) o.author d r e e' o.fits.author_id o.long drawn o.leauthor_there
        o.leauthor_file in
    rw (h, a, o.known)

load_entries_lem :
    (d : Disk) (ts : List LeThread) (e : Entropy)
    → All (OnDisk d) ts
    → 8 * length ts ≤ length e
    → (e' : Entropy) × (load_entries (map (λ (t : LeThread). folder t.id) ts) d e
        ≡ ok (map restarted ts, e'))
unfolding load_entries
load_entries_lem d [] e h enough = (e, refl)
load_entries_lem d (t ∷ ts) e (o, h) enough =
    let (r, drawn) = draw e (omega arith) in
    let (e', rest) = load_entries_lem d ts (drop 8 e) h (omega (arith, length-drop 8 e)) in
    (e', rw (load_lethread_lem d t r e (drop 8 e) o drawn, rest))

-- The next id is read back as it was written.
pub lemeta_load_lem :
    (s : Server) (next : ℕ)
    → s.disk.lemeta ≡ some (le_bytes 8 next)
    → next < u64_mod
    → lemeta_load s ≡ ok (record s { next_lethread_id_value = next })
unfolding lemeta_load le_bytes
lemeta_load_lem s next meta small =
    let fits : next < 256 ^ 8 = small in
    let v : le_value 8 (le_bytes 8 next) ≡ ok next =
      rw append-nil at (le_value-le_bytes 8 next [] fits) in
    ap (λ (o : Option Bytes). read_lemeta o s) meta ∙ rw v refl

-- The server after a start.
abbrev pub started : Disk → List LeThread → ℕ → Entropy → Server
started d ts next e = record {
  lethreads = map restarted ts;
  next_lethread_id_value = next;
  lethread_queries = [];
  lemessage_queries = [];
  leauthor_queries = [];
  disk = d;
  entropy = e;
}

-- A start, for any file from which the next id is loaded.
pub startup_of :
    (d : Disk) (ts : List LeThread) (e : Entropy) (next : ℕ)
    → All (OnDisk d) ts
    → 8 * length ts ≤ length e
    → ((s : Server) → s.disk ≡ d → lemeta_load s ≡ ok (record s { next_lethread_id_value = next }))
    → (e' : Entropy) × (startup (map (λ (t : LeThread). folder t.id) ts) d e
        ≡ ok (length ts, started d ts next e'))
unfolding startup
startup_of d ts e next h enough load =
    let (e', entries) = load_entries_lem d ts e h enough in
    let m = load (started d ts 0 e') refl in (e', rw (entries, m, length-map))

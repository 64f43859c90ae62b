-- ===== src/Server/Sound/Synced.antt =====
-- What changes of one thread do to what is on disk or queued.
use mathlib.Core.List.{Memᴰ}
use le_forum.Common.{
  ℕ, zero, suc, ◌≡◌, refl, ap, ◌∙◌, List, [], ◌∷◌, ◌++◌, some, ◌⊎◌, inl, inr, length, get_elem?,
  set,
}
use le_forum.Forum.{LeThread, LeMessage}
use le_forum.Disk.{file_lethread, file_leauthor, read_file}
use le_forum.Server.{Server}
use le_forum.Server.Sound.{IsSynced, SyncedAt}

pub Memᴰ-last : (i : ℕ) (is : List ℕ) → Memᴰ i (is ++ (i ∷ []))
Memᴰ-last i [] = Memᴰ.head refl
Memᴰ-last i (j ∷ is) = Memᴰ.tail (Memᴰ-last i is)

pub Memᴰ-front : {i : ℕ} {is : List ℕ} (js : List ℕ) → Memᴰ i is → Memᴰ i (is ++ js)
Memᴰ-front js (Memᴰ.head e) = Memᴰ.head e
Memᴰ-front js (Memᴰ.tail m) = Memᴰ.tail (Memᴰ-front js m)

pub get_elem?-set_cases :
    (ts : List LeThread) (i j : ℕ) (t u : LeThread)
    → get_elem? (set ts i t) j ≡ some u
    → ((j ≡ i) × (u ≡ t)) ⊎ (get_elem? ts j ≡ some u)
get_elem?-set_cases [] i j t u e = inr e
get_elem?-set_cases (x ∷ ts) zero zero t u e = inl (refl, cc)
get_elem?-set_cases (x ∷ ts) zero (suc j) t u e = inr e
get_elem?-set_cases (x ∷ ts) (suc i) zero t u e = inr e
get_elem?-set_cases (x ∷ ts) (suc i) (suc j) t u e = elim (get_elem?-set_cases ts i j t u e) [
  | inl (p, q) ↦ inl (ap suc p, q)
  | inr there ↦ inr there
]

pub get_elem?-append_cases :
    (ts : List LeThread) (j : ℕ) (t u : LeThread)
    → get_elem? (ts ++ (t ∷ [])) j ≡ some u
    → ((j ≡ length ts) × (u ≡ t)) ⊎ (get_elem? ts j ≡ some u)
get_elem?-append_cases [] zero t u e = inl (refl, cc)
get_elem?-append_cases [] (suc j) t u e = cc
get_elem?-append_cases (x ∷ ts) zero t u e = inr e
get_elem?-append_cases (x ∷ ts) (suc j) t u e = elim (get_elem?-append_cases ts j t u e) [
  | inl (p, q) ↦ inl (ap suc p, q)
  | inr there ↦ inr there
]

-- Where the queues grow and the files stay.
pub SyncedAt-grow :
    (s s' : Server) (i : ℕ) (t : LeThread)
    → (Memᴰ i s.lethread_queries → Memᴰ i s'.lethread_queries)
    → (Memᴰ i s.leauthor_queries → Memᴰ i s'.leauthor_queries)
    → read_file t.id file_lethread s'.disk ≡ read_file t.id file_lethread s.disk
    → read_file t.id file_leauthor s'.disk ≡ read_file t.id file_leauthor s.disk
    → SyncedAt s i t
    → SyncedAt s' i t
SyncedAt-grow s s' i t f g same same' h = record {
  author = h.author;
  known = h.known;
  fits = h.fits;
  long = h.long;
  lethread_file = elim h.lethread_file [ inl m ↦ inl (f m) | inr e ↦ inr (same ∙ e) ];
  leauthor_file = elim h.leauthor_file [ inl m ↦ inl (g m) | inr e ↦ inr (same' ∙ e) ];
}

-- A thread that changes in its messages only.
pub SyncedAt-messages :
    (s : Server) (i : ℕ) (t : LeThread) (ms : List LeMessage)
    → SyncedAt s i t
    → SyncedAt s i (record t { messages = ms })
SyncedAt-messages s i t ms h = record {
  author = h.author;
  known = h.known;
  fits = record {
    id = h.fits.id;
    author_id = h.fits.author_id;
    first = h.fits.first;
    next = h.fits.next;
  };
  long = h.long;
  lethread_file = h.lethread_file;
  leauthor_file = h.leauthor_file;
}

-- A thread is replaced at its place.
pub IsSynced-set :
    (s s' : Server) (i : ℕ) (t' : LeThread)
    → s'.lethreads ≡ set s.lethreads i t'
    → SyncedAt s' i t'
    → ((j : ℕ) (u : LeThread) → SyncedAt s j u → SyncedAt s' j u)
    → IsSynced s
    → IsSynced s'
IsSynced-set s s' i t' same at_i others h j u e =
    elim (get_elem?-set_cases s.lethreads i j t' u (rw same at e)) [
      | inl (p, q) ↦ rw (p, q) at_i
      | inr there ↦ others j u (h j u there)
    ]

-- A thread is added.
pub IsSynced-append :
    (s s' : Server) (t' : LeThread)
    → s'.lethreads ≡ s.lethreads ++ (t' ∷ [])
    → SyncedAt s' (length s.lethreads) t'
    → ((j : ℕ) (u : LeThread) → SyncedAt s j u → SyncedAt s' j u)
    → IsSynced s
    → IsSynced s'
IsSynced-append s s' t' same at_end others h j u e =
    elim (get_elem?-append_cases s.lethreads j t' u (rw same at e)) [
      | inl (p, q) ↦ rw (p, q) at_end
      | inr there ↦ others j u (h j u there)
    ]

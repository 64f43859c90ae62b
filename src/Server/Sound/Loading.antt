-- ===== src/Server/Sound/Loading.antt =====
-- What is loaded from disk is added to a thread.
use le_forum.Common.{
  drop, ◌+◌, ◌≡◌, refl, sym, ap, ◌∙◌, List, [], ◌∷◌, ◌++◌, append-nil, none, some, Bool, true,
  false, not, ◌&&◌, ◌==◌, inl, inr, Bool-cases, Option-cases, Outcome, ok, if◌then◌else◌, replicate,
}
use le_forum.Common.Result.{◌>>=◌, >>=-eq-ok}
use le_forum.Conf.{
  LeStatus, lestatus_ok, lestatus_clib, lestatus_nsfd, lestatus_exst, lestatus_nfnd, lestatus_isyn,
  lestatus_idat, lestatus_nptr,
}
use le_forum.Security.{Entropy, rand_uint64_t, rand_string}
use le_forum.Forum.{
  LeThread, LeMessage, LeAuthor, lethread_message_count, leauthor_create, token_size,
}
use le_forum.Disk.{Disk, get_lefile, fread_text, rb, file_lemessages, file_leauthor, read_file}
use le_forum.ForumIo.{lemessages_load, leauthor_load, fread_over}
use le_forum.Server.{Server, load_missing_messages, load_missing_author, is_empty, has_author}
use le_forum.Server.Sound.{IsKept}
use le_forum.Server.Sound.Threads.{IsKept-refl}

-- Messages that are added.
pub IsKept-messages :
    (t t' : LeThread) (ms : List LeMessage)
    → record t { messages = t.messages ++ ms } ≡ t'
    → IsKept t t'
IsKept-messages t t' ms e =
    rw (← e)
      (record { id = refl; topic = refl; first = refl; added = (ms, refl); author = inr refl })

-- The thread with messages behind its own.
abbrev pub Loads : LeThread → LeThread → Type 0
Loads t t' = (ms : List LeMessage) × (record t { messages = t.messages ++ ms } ≡ t')

Loads-refl : (t : LeThread) → Loads t t
Loads-refl t =
    ([], ap (λ (ms : List LeMessage). record t { messages = ms }) (append-nil t.messages))

abbrev with_loaded : LeThread → Outcome (List LeMessage) → Outcome (LeStatus × LeThread)
with_loaded t o = do loaded ← o; ok (lestatus_ok, record t { messages = t.messages ++ loaded })

lemessages_loaded :
    (t t' : LeThread) (status : LeStatus) (o : Outcome (List LeMessage))
    → with_loaded t o ≡ ok (status, t')
    → Loads t t'
lemessages_loaded t t' status o h =
    let (ms, e, h1) = >>=-eq-ok o _ h in
    let p : record t { messages = t.messages ++ ms } ≡ t' = cc in (ms, p)

not_loaded :
    (t t' : LeThread) (s status : LeStatus)
    → ◌≡◌ {A = Outcome (LeStatus × LeThread)} (ok (s, t)) (ok (status, t'))
    → Loads t t'
not_loaded t t' s status h = let p : t ≡ t' = cc in rw (← p) (Loads-refl t)

lemessages_load-Loads :
    (t t' : LeThread) (d : Disk) (status opened : LeStatus)
    → (get_lefile t.id rb file_lemessages false d).0 ≡ opened
    → lemessages_load t d ≡ ok (status, t')
    → Loads t t'
unfolding lemessages_load
lemessages_load-Loads t t' d status lestatus_nsfd e h =
    not_loaded t t' lestatus_nsfd status (rw (lemessages_load, e) at h)
lemessages_load-Loads t t' d status lestatus_nptr e h =
    not_loaded t t' lestatus_nptr status (rw (lemessages_load, e) at h)
lemessages_load-Loads t t' d status lestatus_ok e h =
    lemessages_loaded t t' status _ (rw (lemessages_load, e) at h)
lemessages_load-Loads t t' d status lestatus_clib e h =
    lemessages_loaded t t' status _ (rw (lemessages_load, e) at h)
lemessages_load-Loads t t' d status lestatus_exst e h =
    lemessages_loaded t t' status _ (rw (lemessages_load, e) at h)
lemessages_load-Loads t t' d status lestatus_nfnd e h =
    lemessages_loaded t t' status _ (rw (lemessages_load, e) at h)
lemessages_load-Loads t t' d status lestatus_isyn e h =
    lemessages_loaded t t' status _ (rw (lemessages_load, e) at h)
lemessages_load-Loads t t' d status lestatus_idat e h =
    lemessages_loaded t t' status _ (rw (lemessages_load, e) at h)

pub load_missing_messages-Loads :
    (t t' : LeThread) (s : Server) → load_missing_messages t s ≡ ok t' → Loads t t'
unfolding load_missing_messages
load_missing_messages-Loads t t' s h =
    elim (Bool-cases (is_empty t.messages && not (lethread_message_count t == 0))) [
      | inl b ↦
          let ((status, t1), e, h1) =
            >>=-eq-ok (lemessages_load t s.disk) _ (rw (load_missing_messages, b) at h) in
          let p : t1 ≡ t' = cc in rw (← p) (lemessages_load-Loads t t1 s.disk status _ refl e)
      | inr b ↦
          let h1 : Outcome.ok t ≡ ok t' = rw (load_missing_messages, b) at h in
          let p : t ≡ t' = cc in rw (← p) (Loads-refl t)
    ]

pub leauthor_create_lem :
    (t t' : LeThread) (b : Bool) (e e' : Entropy) (a : LeAuthor)
    → leauthor_create t b e ≡ ok (t', a, e')
    → record t { author = some a } ≡ t'
unfolding leauthor_create
leauthor_create_lem t t' b e e' a h =
    let ((r, e1), h0, h1) = >>=-eq-ok (rand_uint64_t e) _ h in
    let ((token, e2), h2, h3) =
      >>=-eq-ok (if b then rand_string token_size e1 else ok (replicate (token_size + 1) 0, e1)) _
        h1 in
    cc

-- What `leauthor_load` does once the file is open.
abbrev read_author : LeThread → Disk → Entropy → Outcome (LeStatus × LeThread × Entropy)
read_author t d e = do
  (lethread, leauthor, e) ← leauthor_create t false e
  let file = read_file lethread.id file_leauthor d
  id ← fread_over leauthor.id file
  let token = fread_text token_size (drop 8 file) ++ (0 ∷ [])
  let loaded : LeAuthor = record { id = id; token = token }
  ok (lestatus_ok, record lethread { author = some loaded }, e)

pub IsKept-author :
    (t t' : LeThread) (a : LeAuthor)
    → t.author ≡ none
    → record t { author = some a } ≡ t'
    → IsKept t t'
IsKept-author t t' a unknown e = rw (← e) (record {
  id = refl;
  topic = refl;
  first = refl;
  added = ([], sym (append-nil t.messages));
  author = inl unknown;
})

read_author-IsKept :
    (t t' : LeThread) (d : Disk) (status : LeStatus) (e e' : Entropy)
    → t.author ≡ none
    → read_author t d e ≡ ok (status, t', e')
    → IsKept t t'
read_author-IsKept t t' d status e e' unknown h =
    let ((t1, a, e1), made, h1) = >>=-eq-ok (leauthor_create t false e) _ h in
    let file = read_file t1.id file_leauthor d in
    let (id, got, h2) = >>=-eq-ok (fread_over a.id file) _ h1 in
    let token = fread_text token_size (drop 8 file) ++ (0 ∷ []) in
    let loaded : LeAuthor = record { id = id; token = token } in
    let p : record t1 { author = some loaded } ≡ t' = cc in
    let q : record t { author = some loaded } ≡ t' =
      ap (λ (x : LeThread). record x { author = some loaded })
        (leauthor_create_lem t t1 false e e1 a made)
      ∙ p in
    IsKept-author t t' loaded unknown q

leauthor_load-IsKept :
    (t t' : LeThread) (d : Disk) (status opened : LeStatus) (e e' : Entropy)
    → t.author ≡ none
    → (get_lefile t.id rb file_leauthor false d).0 ≡ opened
    → leauthor_load t d e ≡ ok (status, t', e')
    → IsKept t t'
unfolding leauthor_load
leauthor_load-IsKept t t' d status lestatus_nsfd e e' unknown o h =
    let h1 = rw (leauthor_load, o) at h in let p : t ≡ t' = cc in rw (← p) (IsKept-refl t)
leauthor_load-IsKept t t' d status lestatus_ok e e' unknown o h =
    read_author-IsKept t t' (get_lefile t.id rb file_leauthor false d).1 status e e' unknown
      (rw (leauthor_load, o) at h)
leauthor_load-IsKept t t' d status lestatus_clib e e' unknown o h =
    read_author-IsKept t t' (get_lefile t.id rb file_leauthor false d).1 status e e' unknown
      (rw (leauthor_load, o) at h)
leauthor_load-IsKept t t' d status lestatus_exst e e' unknown o h =
    read_author-IsKept t t' (get_lefile t.id rb file_leauthor false d).1 status e e' unknown
      (rw (leauthor_load, o) at h)
leauthor_load-IsKept t t' d status lestatus_nfnd e e' unknown o h =
    read_author-IsKept t t' (get_lefile t.id rb file_leauthor false d).1 status e e' unknown
      (rw (leauthor_load, o) at h)
leauthor_load-IsKept t t' d status lestatus_isyn e e' unknown o h =
    read_author-IsKept t t' (get_lefile t.id rb file_leauthor false d).1 status e e' unknown
      (rw (leauthor_load, o) at h)
leauthor_load-IsKept t t' d status lestatus_idat e e' unknown o h =
    read_author-IsKept t t' (get_lefile t.id rb file_leauthor false d).1 status e e' unknown
      (rw (leauthor_load, o) at h)
leauthor_load-IsKept t t' d status lestatus_nptr e e' unknown o h =
    read_author-IsKept t t' (get_lefile t.id rb file_leauthor false d).1 status e e' unknown
      (rw (leauthor_load, o) at h)

has_author_lem : (t : LeThread) → has_author t ≡ false → t.author ≡ none
has_author_lem t h = elim (Option-cases t.author) [
  | inl unknown ↦ unknown
  | inr (a, known) ↦ absurd (let bad : true ≡ false = rw known at h in cc)
]

pub load_missing_author-IsKept :
    (t t' : LeThread) (s : Server) (e : Entropy)
    → load_missing_author t s ≡ ok (t', e)
    → IsKept t t'
unfolding load_missing_author
load_missing_author-IsKept t t' s e h = elim (Bool-cases (has_author t)) [
  | inl b ↦
      let h1 = rw (load_missing_author, b) at h in let p : t ≡ t' = cc in rw (← p) (IsKept-refl t)
  | inr b ↦
      let h1 = rw (load_missing_author, b) at h in
      let ((status, t1, e1), e2, h2) = >>=-eq-ok (leauthor_load t s.disk s.entropy) _ h1 in
      let p : t1 ≡ t' = cc in
      rw (← p) (leauthor_load-IsKept t t1 s.disk status _ s.entropy e1 (has_author_lem t b) refl e2)
]

pub load_missing_author_known :
    (t t' : LeThread) (a : LeAuthor) (s : Server) (e : Entropy)
    → t.author ≡ some a
    → load_missing_author t s ≡ ok (t', e)
    → t ≡ t'
unfolding load_missing_author
load_missing_author_known t t' a s e known h = let h1 = rw (load_missing_author, known) at h in cc

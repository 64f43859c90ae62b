-- ===== src/Exchange/Find.antt =====
-- Which threads `lethread_find` finds.
use le_forum.Common.{◌≡◌, List, [], ◌∷◌, ◌++◌, true, Bool-cases, inl, inr, ok}
use le_forum.Clib.Strings.{Bytes, IsText, is_infix}
use le_forum.Clib.Text.{before_nul}
use le_forum.Clib.Infix.{is_infix_iff}
use le_forum.Forum.{LeThread}
use le_forum.Server.{lethread_find}
use le_forum.Server.Response.Search.{HaveTopics}
use le_forum.Exchange.Search.{matching, lethread_find_lem}

-- The text `u` occurs in the topic.
abbrev pub Contains : Bytes → LeThread → Type 0
Contains u t = (a : Bytes) × (b : Bytes) × (before_nul t.topic ≡ a ++ (u ++ b))

-- The second list is the first without the threads that do not have the property.
pub data Selected (P : LeThread → Type 0) : List LeThread → List LeThread → Type 0 where
  nothing : Selected P [] []
  keep :
      {t : LeThread} {ts us : List LeThread} → P t → Selected P ts us → Selected P (t ∷ ts) (t ∷ us)
  leave :
      {t : LeThread} {ts us : List LeThread} → (P t → ⊥) → Selected P ts us → Selected P (t ∷ ts) us

matching-Selected : (u : Bytes) (ts : List LeThread) → Selected (Contains u) ts (matching u ts)
matching-Selected u [] = nothing
matching-Selected u (t ∷ ts) =
    let (there, back) = is_infix_iff u (before_nul t.topic) in
    elim (Bool-cases (is_infix u (before_nul t.topic))) [
      | inl e ↦ rw e (keep (there e) (matching-Selected u ts))
      | inr e ↦ rw e (
          leave (λ c. let e' : is_infix u (before_nul t.topic) ≡ true = back c in cc)
            (matching-Selected u ts))
    ]

-- For a text and threads with terminated topics, `lethread_find` succeeds, and what it returns is
-- the list of threads without those whose topic does not contain the text: no other is left out,
-- and the order is kept.
pub lethread_find_selects :
    (u : Bytes) (ts : List LeThread)
    → IsText u
    → HaveTopics ts
    → (us : List LeThread) × (lethread_find (u ++ (0 ∷ [])) ts ≡ ok us)
      × Selected (Contains u) ts us
lethread_find_selects u ts h strs =
    (matching u ts, lethread_find_lem u ts h strs, matching-Selected u ts)

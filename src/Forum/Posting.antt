-- ===== src/Forum/Posting.antt =====
-- Creating messages: numbering, and the messages that are refused.
use le_forum.Common.Result.{>>=-eq-ok}
use le_forum.Common.{
  Option, Bool-cases, ltb, ◌||◌, subst, ℕ, ◌+◌, ◌%◌, ◌≤◌, ◌<◌, ◌≡◌, [], ◌∷◌, ◌++◌, arith, some,
  none, ok, length, ◌⊎◌, inl, inr, le→ltb, lt→ltb, length-append,
}
use le_forum.Clib.Strings.{Bytes, strlen, strncpy}
use le_forum.Clib.Text.{before_nul, IsString, strlen-before_nul, strncpy-before_nul}
use le_forum.Clib.Words.{u64_mod}
use le_forum.Conf.{LeStatus, lestatus_ok, lestatus_idat, min_message_size, max_message_size}
use le_forum.Forum.{LeThread, LeMessage, lemessage_create, lethread_message_count}

module _ (t : LeThread) (p : Bytes) (by_author : ℕ) where
  -- The message that is posted with the text of `p`.
  abbrev pub new_lemessage : LeMessage
  new_lemessage = record {
    id = t.next_message_id;
    text = before_nul p ++ (0 ∷ []);
    by_lethread_author = by_author;
    lethread = some t.id;
  }

  abbrev pub with_lemessage : LeThread
  with_lemessage = record t {
    next_message_id = (t.next_message_id + 1) % u64_mod;
    messages = t.messages ++ (new_lemessage ∷ []);
  }

  module _ (str : IsString p) where
    -- For a terminated text of 3 to 512 characters `lemessage_create` succeeds, and the message
    -- with the text up to its terminator becomes the last of the thread, under the next number.
    pub lemessage_create_accepted :
        min_message_size ≤ length (before_nul p)
        → length (before_nul p) ≤ max_message_size
        → lemessage_create t p by_author ≡ ok (lestatus_ok, some new_lemessage, with_lemessage)
    unfolding lemessage_create
    lemessage_create_accepted lo hi =
        rw (strlen-before_nul p str, le→ltb lo, le→ltb hi, strncpy-before_nul p)

    -- For a terminated text of fewer than 3 or more than 512 characters `lemessage_create` returns
    -- IDAT, writes no message and leaves the thread as it is.
    pub lemessage_create_refused :
        (length (before_nul p) < min_message_size) ⊎ (max_message_size < length (before_nul p))
        → lemessage_create t p by_author ≡ ok (lestatus_idat, none, t)
    unfolding lemessage_create
    lemessage_create_refused (inl short) = rw (strlen-before_nul p str, lt→ltb short)
    lemessage_create_refused (inr long) = rw (strlen-before_nul p str, lt→ltb long) (ground arith)

-- The ids are those of a 64-bit counter, and the count that they give is that of the messages.
pub record IsCounted (t : LeThread) : Type 0 where
  pub first_fits : t.first_message_id < u64_mod
  pub next_fits : t.next_message_id < u64_mod
  pub counted : lethread_message_count t ≡ length t.messages

IsCounted-one_more :
    (t : LeThread) (m : LeMessage)
    → IsCounted t
    → length t.messages + 1 < u64_mod
    → IsCounted (record t {
      next_message_id = (t.next_message_id + 1) % u64_mod;
      messages = t.messages ++ (m ∷ []);
    })
unfolding lethread_message_count
IsCounted-one_more t m c room = record {
  first_fits = c.first_fits;
  next_fits = omega arith;
  counted = omega (arith, c.counted, length-append t.messages (m ∷ []));
}

-- If the counters of a thread count its messages (`IsCounted`), and there will be fewer than 2 ^
-- 64, they still do after `lemessage_create` returns, with any status, also where the 64-bit ids
-- wrap around.
pub lemessage_create-IsCounted :
    (t t' : LeThread) (p : Bytes) (by_author : ℕ) (status : LeStatus) (created : Option LeMessage)
    → IsCounted t
    → length t.messages + 1 < u64_mod
    → lemessage_create t p by_author ≡ ok (status, created, t')
    → IsCounted t'
unfolding lemessage_create
lemessage_create-IsCounted t t' p by_author status created c room h =
    let (size, e, h1) = >>=-eq-ok (strlen p) _ h in
    elim (Bool-cases (ltb size min_message_size || ltb max_message_size size)) [
      | inl b ↦ let h2 = rw b at h1 in let q : t ≡ t' = cc in rw (← q) c
      | inr b ↦
          let (copy, e1, h3) = >>=-eq-ok (strncpy p size) _ (rw b at h1) in
          let m : LeMessage = record {
            id = t.next_message_id;
            text = copy ++ (0 ∷ []);
            by_lethread_author = by_author;
            lethread = some t.id;
          } in
          let u : LeThread = record t {
            next_message_id = (t.next_message_id + 1) % u64_mod;
            messages = t.messages ++ (m ∷ []);
          } in
          let q : u ≡ t' = cc in subst IsCounted q (IsCounted-one_more t m c room)
    ]

-- ===== src/Server/Sound/Requests.antt =====
-- Requests, whatever their bytes are, keep the state of the server sound, and its threads.
use le_forum.Common.{
  ℕ, Option-cases, inl, inr, ◌≡◌, refl, ◌∷◌, ◌++◌, [], arith, none, some, true, not, ◌||◌, ltb,
  if◌then◌else◌, length, get_elem?, set, drop, ok,
}
use le_forum.Common.Command.{Run}
use le_forum.Common.Ends.{
  Ends, ends_done, ends_exit, ends_fault, ends_hang, Ends-bind, Ends-step, Ends-lift, Stays,
  Stays-lift, Ends-weaken,
}
use le_forum.Clib.Strings.{Bytes, strncpy}
use le_forum.Conf.{
  LeStatus, lestatus_isyn, lestatus_idat, max_topic_size, min_topic_size, max_message_size,
  min_message_size,
}
use le_forum.Security.{Entropy, rand_uint64_t}
use le_forum.Forum.{LeThread, LeAuthor, leauthor_create, is_token_valid}
use le_forum.Protocol.{chars, has_word, thrid, tpcpsz, tpcp, txtsz, txt, tkn}
use le_forum.Server.{Server, s_lethread_create, lethread_find, get_lethread_count, get_version}
use le_forum.Server.Response.{Junk, gthr_response, cthr_response, fthr_response, meta_response}
use le_forum.Server.Query.{
  found_lethread, cmd_lethread_get, cmd_lethread_find, author_flag, post_message,
  cmd_lemessage_create, cmd_meta, cmd_alive, spend_random, create_lethread, create_author,
  answer_cthr,
}
use le_forum.Server.Sound.{IsSound, Reaches}
use le_forum.Server.Sound.Lookup.{Reaches-refl}
use le_forum.Server.Sound.Effects.{
  Reaches-trans, Reaches-le, Stays-require, Stays-expect, Stays-read_int, found_lethread-Ends,
  spent,
}
use le_forum.Server.Sound.Posting.{post_message-Ends}

-- A handler that ends in a state that `s` reaches while it creates a thread at most.
abbrev pub Safe : {A : Type 0} → Server → Run LeStatus Server A → Type 0
Safe {A} s r = Ends (λ (a : A) s'. Reaches 1 s s') (λ s'. Reaches 1 s s') r

module _ (s : Server) where
  pub Safe-Stays : {A : Type 0} (r : Run LeStatus Server A) → IsSound s → Stays s r → Safe s r
  Safe-Stays _ sound (ends_done a s' same) =
      ends_done a s' (rw same (Reaches-le (omega arith) (Reaches-refl s sound)))
  Safe-Stays _ sound (ends_exit e s' same) =
      ends_exit e s' (rw same (Reaches-le (omega arith) (Reaches-refl s sound)))
  Safe-Stays _ sound ends_fault = ends_fault
  Safe-Stays _ sound ends_hang = ends_hang

module _ (s : Server) (sound : IsSound s) where
  here : Reaches 1 s s
  here = Reaches-le (omega arith) (Reaches-refl s sound)

  found_lethread-Safe :
      (id : ℕ)
      → Ends
          (λ (pt : ℕ × LeThread) s'. Reaches 0 s s' × (get_elem? s'.lethreads pt.0 ≡ some pt.1))
          (λ s'. Reaches 1 s s')
          (found_lethread id s)
  found_lethread-Safe id =
      Ends-weaken (λ pt s' h. h) (λ s' r. Reaches-le (omega arith) r)
        (found_lethread-Ends s sound id)

  pub cmd_lethread_get-Safe :
      (junk : Junk) (p : Bytes) (size : ℕ) → Safe s (cmd_lethread_get junk p size s)
  unfolding cmd_lethread_get
  cmd_lethread_get-Safe junk p size =
      Ends-step s _ _ (Stays-require s (not (ltb size 13)) lestatus_isyn) here (λ _.
        Ends-step s _ _ (Stays-expect s lestatus_isyn thrid p) here (λ p.
          Ends-step s _ _ (Stays-read_int s 8 p) here (λ id.
            Ends-bind (found_lethread id.0 s) _ (found_lethread-Safe id.0) (λ pt s' h.
              Ends-lift s' (gthr_response junk id.0 pt.1) _
                (λ response _. ends_done (some response) s' (Reaches-le (omega arith) h.0))))))

  pub cmd_lethread_find-Safe : (p : Bytes) (size : ℕ) → Safe s (cmd_lethread_find p size s)
  unfolding cmd_lethread_find
  cmd_lethread_find-Safe p size = Ends-step s _ _ (Stays-expect s lestatus_isyn tpcpsz p) here (λ p.
      Ends-step s _ _ (Stays-read_int s 8 p) here (λ n.
        Ends-step s _ _
          (Stays-require s (not (ltb max_topic_size n.0 || ltb n.0 min_topic_size)) lestatus_idat)
          here
          (λ _. Ends-step s _ _ (Stays-expect s lestatus_isyn tpcp n.1) here (λ p.
            Ends-lift s (strncpy p n.0) _ (λ part _.
              Ends-lift s (lethread_find (part ++ (0 ∷ [])) s.lethreads) _ (λ ts _.
                Ends-lift s (fthr_response ts) _
                  (λ response _. ends_done (some response) s here)))))))

  pub cmd_meta-Safe : (p : Bytes) (size : ℕ) → Safe s (cmd_meta p size s)
  unfolding cmd_meta
  cmd_meta-Safe p size =
      Ends-lift s (meta_response (get_lethread_count s) (get_version ++ (0 ∷ []))) _
        (λ response _. ends_done (some response) s here)

  pub cmd_alive-Safe : (p : Bytes) (size : ℕ) → Safe s (cmd_alive p size s)
  unfolding cmd_alive
  cmd_alive-Safe p size = ends_done none s here

pub Stays-author_flag : (s : Server) (t : LeThread) (p : Bytes) → Stays s (author_flag t p s)
unfolding author_flag
Stays-author_flag s t p = Ends-lift s (has_word tkn p) _ (λ given _.
    Stays-lift s (if given then is_token_valid t (drop (length (chars tkn)) p) else ok 0))

module _ (s : Server) (sound : IsSound s) where
  pub cmd_lemessage_create-Safe : (p : Bytes) (size : ℕ) → Safe s (cmd_lemessage_create p size s)
  unfolding cmd_lemessage_create
  cmd_lemessage_create-Safe p size =
      let at_start : Reaches 1 s s = Reaches-le (omega arith) (Reaches-refl s sound) in
      Ends-step s _ _ (Stays-require s (not (ltb size 29)) lestatus_isyn) at_start (λ _.
        Ends-step s _ _ (Stays-expect s lestatus_isyn thrid p) at_start (λ p.
          Ends-step s _ _ (Stays-read_int s 8 p) at_start (λ id.
            Ends-bind (found_lethread id.0 s) _ (found_lethread-Safe s sound id.0) (λ pt u h.
              let there : Reaches 1 s u = Reaches-le (omega arith) h.0 in
              Ends-step u _ _ (Stays-expect u lestatus_isyn txtsz id.1) there (λ p.
                Ends-step u _ _ (Stays-read_int u 8 p) there (λ n.
                  Ends-step u _ _
                    (Stays-require u (not (ltb max_message_size n.0 || ltb n.0 min_message_size))
                      lestatus_idat)
                    there
                    (λ _. Ends-step u _ _ (Stays-expect u lestatus_isyn txt n.1) there (λ p.
                      Ends-lift u (strncpy p n.0) _ (λ text _.
                        Ends-step u _ _ (Stays-author_flag u pt.1 (drop n.0 p)) there (λ flag.
                          Ends-bind (post_message pt.0 pt.1 (text ++ (0 ∷ [])) flag u) _
                            (Ends-weaken
                              (λ _ v r. Reaches-le {n = 1} (omega arith) (Reaches-trans h.0 r))
                              (λ v r. Reaches-le (omega arith) (Reaches-trans h.0 r))
                              (post_message-Ends u h.0.moves.sound pt.0 pt.1 (text ++ (0 ∷ [])) flag
                                h.1))
                            (λ _ v r. ends_done none v r)))))))))))

module _ (s : Server) where
  pub spend_random-Ends :
      IsSound s
      → {P : Server → Type 0} → Ends (λ (u : Unit {0}) s'. Reaches 0 s s') P (spend_random s)
  unfolding spend_random
  spend_random-Ends sound =
      Ends-lift s (rand_uint64_t s.entropy) _ (λ r _. ends_done tt _ (spent s sound r.1))

  -- These two steps do not keep the state sound each on its own.
  pub create_lethread-Ends :
      (topic : Bytes) {P : Server → Type 0}
      → Ends
          (λ (pt : ℕ × LeThread) s'. s_lethread_create topic s ≡ ok (pt.0, pt.1, s'))
          P
          (create_lethread topic s)
  unfolding create_lethread
  create_lethread-Ends topic =
      Ends-lift s (s_lethread_create topic s) _ (λ r e. ends_done (r.0, r.1) r.2 e)

  pub create_author-Ends :
      (place : ℕ) (t : LeThread) {P : Server → Type 0}
      → Ends
          (λ (t' : LeThread) s'.
            (a : LeAuthor) × (e : Entropy) × (leauthor_create t true s.entropy ≡ ok (t', a, e))
            × (record s { lethreads = set s.lethreads place t'; entropy = e } ≡ s'))
          P
          (create_author place t s)
  unfolding create_author
  create_author-Ends place t =
      Ends-lift s (leauthor_create t true s.entropy) _ (λ r e. ends_done r.0 _ (r.1, r.2, e, refl))

pub Stays-answer_cthr : (junk : Junk) (s : Server) (t : LeThread) → Stays s (answer_cthr junk t s)
unfolding answer_cthr
Stays-answer_cthr junk s t = elim (Option-cases t.author) [
  | inl unknown ↦ rw (answer_cthr, unknown) ends_fault
  | inr (a, known) ↦
      rw (answer_cthr, known)
        (Ends-lift s (cthr_response junk t.id a) _ (λ response _. ends_done (some response) s refl))
]

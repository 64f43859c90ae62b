-- ===== src/Server/Query/Handlers.antt =====
-- What each handler leaves where it refuses the request.
use le_forum.Common.{
  ℕ, ◌≡◌, ◌⊎◌, inl, inr, refl, [], ◌∷◌, ◌++◌, Option, none, some, true, not, ◌||◌, ltb, drop,
  Outcome, ok, Option-cases,
}
use le_forum.Common.Result.{>>=-eq-ok}
use le_forum.Common.Command.{Run, done, exit}
use le_forum.Common.Ends.{
  Ends, ends_done, ends_exit, ends_fault, ends_hang, Ends-bind, Ends-step, Ends-lift,
}
use le_forum.Clib.Strings.{Bytes, strncpy}
use le_forum.Conf.{
  LeStatus, lestatus_isyn, lestatus_idat, lestatus_nfnd, max_topic_size, min_topic_size,
  max_message_size, min_message_size,
}
use le_forum.Security.{rand_uint64_t}
use le_forum.Forum.{LeThread, LeMessage, leauthor_create, lemessage_create}
use le_forum.Protocol.{thrid, tpcsz, tpc, tpcpsz, tpcp, txtsz, txt}
use le_forum.Server.{
  Server, lethread_get_by_id, place_of, load_missing_messages, load_missing_author, lethread_find,
  s_lethread_create, s_lethread_save, s_leauthor_save,
}
use le_forum.Server.Response.{Junk, gthr_response, cthr_response, fthr_response}
use le_forum.Server.Query.{
  found_lethread, cmd_lethread_get, cmd_lethread_create, cmd_lethread_find, post_message,
  save_created, cmd_lemessage_create, spend_random, create_lethread, create_author, answer_cthr,
}
use le_forum.Server.Sound.Effects.{Stays-require, Stays-expect, Stays-read_int}
use le_forum.Server.Sound.Requests.{Stays-author_flag}

-- The server is as before, but for what the lookup of a thread loaded from disk.
abbrev pub Unchanged : Server → Server → Type 0
Unchanged s s' =
    (s' ≡ s)
    ⊎ ((id : ℕ) × (place : ℕ) × (t : LeThread) × (lethread_get_by_id id s
          ≡ ok (some (place, t), s')))

-- Where the handler leaves early, the server is unchanged.
abbrev pub Refuses : {A : Type 0} → Server → Run LeStatus Server A → Type 0
Refuses {A} s r = Ends (λ (a : A) (s' : Server). Unit {0}) (λ s'. Unchanged s s') r

lethread_get_by_id-none :
    (id : ℕ) (s s' : Server) → lethread_get_by_id id s ≡ ok (none, s') → s' ≡ s
unfolding lethread_get_by_id
lethread_get_by_id-none id s s' h = elim (Option-cases (place_of id s.lethreads)) [
  | inl nowhere ↦ let h1 = rw (lethread_get_by_id, nowhere) at h in cc
  | inr ((i, t), place) ↦
      let h1 = rw (lethread_get_by_id, place) at h in
      let (t1, e1, h2) = >>=-eq-ok (load_missing_messages t s) _ h1 in
      let ((t2, e), e2, h3) = >>=-eq-ok (load_missing_author t1 s) _ h2 in cc
]

module _ (s : Server) where
  pub same : Unchanged s s
  same = inl refl

  found_lethread-Refuses :
      (id : ℕ)
      → Ends (λ (pt : ℕ × LeThread) s'. Unchanged s s') (λ s'. Unchanged s s') (found_lethread id s)
  unfolding found_lethread
  found_lethread-Refuses id = elim_found (lethread_get_by_id id s) refl
    where
      elim_found :
          (o : Outcome (Option (ℕ × LeThread) × Server))
          → lethread_get_by_id id s ≡ o
          → Ends
              (λ (pt : ℕ × LeThread) s'. Unchanged s s')
              (λ s'. Unchanged s s')
              (elim o [
                | ok (none, s') ↦ exit lestatus_nfnd s'
                | ok (some t, s') ↦ done t s'
                | Outcome.fault ↦ Run.fault
                | Outcome.hang ↦ Run.hang
              ])
      elim_found (ok (none, s')) e =
          ends_exit lestatus_nfnd s' (inl (lethread_get_by_id-none id s s' e))
      elim_found (ok (some (i, t), s')) e = ends_done (i, t) s' (inr (id, i, t, e))
      elim_found Outcome.fault e = ends_fault
      elim_found Outcome.hang e = ends_hang

  pub cmd_lethread_get-Refuses :
      (junk : Junk) (p : Bytes) (size : ℕ) → Refuses s (cmd_lethread_get junk p size s)
  unfolding cmd_lethread_get
  cmd_lethread_get-Refuses junk p size =
      Ends-step s _ _ (Stays-require s (not (ltb size 13)) lestatus_isyn) same (λ _.
        Ends-step s _ _ (Stays-expect s lestatus_isyn thrid p) same (λ p.
          Ends-step s _ _ (Stays-read_int s 8 p) same (λ id.
            Ends-bind (found_lethread id.0 s) _ (found_lethread-Refuses id.0) (λ pt s' h.
              Ends-lift s' (gthr_response junk id.0 pt.1) _
                (λ response _. ends_done (some response) s' tt)))))

  pub cmd_lethread_find-Refuses : (p : Bytes) (size : ℕ) → Refuses s (cmd_lethread_find p size s)
  unfolding cmd_lethread_find
  cmd_lethread_find-Refuses p size =
      Ends-step s _ _ (Stays-expect s lestatus_isyn tpcpsz p) same (λ p.
        Ends-step s _ _ (Stays-read_int s 8 p) same (λ n.
          Ends-step s _ _
            (Stays-require s (not (ltb max_topic_size n.0 || ltb n.0 min_topic_size)) lestatus_idat)
            same
            (λ _. Ends-step s _ _ (Stays-expect s lestatus_isyn tpcp n.1) same (λ p.
              Ends-lift s (strncpy p n.0) _ (λ part _.
                Ends-lift s (lethread_find (part ++ (0 ∷ [])) s.lethreads) _ (λ ts _.
                  Ends-lift s (fthr_response ts) _
                    (λ response _. ends_done (some response) s tt)))))))

  save_created-Refuses :
      (place : ℕ) (t : LeThread) (created : Option LeMessage) (u : Server)
      → Refuses s (save_created place t created u)
  save_created-Refuses place t none u = ends_fault
  save_created-Refuses place t (some m) u = ends_done tt _ tt

  post_message-Refuses :
      (place : ℕ) (t : LeThread) (text : Bytes) (flag : ℕ) (u : Server)
      → Refuses s (post_message place t text flag u)
  unfolding post_message
  post_message-Refuses place t text flag u =
      Ends-lift u (lemessage_create t text flag) _ (λ r _. save_created-Refuses place r.2 r.1 u)

  pub cmd_lemessage_create-Refuses :
      (p : Bytes) (size : ℕ) → Refuses s (cmd_lemessage_create p size s)
  unfolding cmd_lemessage_create
  cmd_lemessage_create-Refuses p size =
      Ends-step s _ _ (Stays-require s (not (ltb size 29)) lestatus_isyn) same (λ _.
        Ends-step s _ _ (Stays-expect s lestatus_isyn thrid p) same (λ p.
          Ends-step s _ _ (Stays-read_int s 8 p) same (λ id.
            Ends-bind (found_lethread id.0 s) _ (found_lethread-Refuses id.0) (λ pt u there.
              Ends-step u _ _ (Stays-expect u lestatus_isyn txtsz id.1) there (λ p.
                Ends-step u _ _ (Stays-read_int u 8 p) there (λ n.
                  Ends-step u _ _
                    (Stays-require u (not (ltb max_message_size n.0 || ltb n.0 min_message_size))
                      lestatus_idat)
                    there
                    (λ _. Ends-step u _ _ (Stays-expect u lestatus_isyn txt n.1) there (λ p.
                      Ends-lift u (strncpy p n.0) _ (λ text _.
                        Ends-step u _ _ (Stays-author_flag u pt.1 (drop n.0 p)) there (λ flag.
                          Ends-bind (post_message pt.0 pt.1 (text ++ (0 ∷ [])) flag u) _
                            (post_message-Refuses pt.0 pt.1 (text ++ (0 ∷ [])) flag u)
                            (λ _ v _. ends_done none v tt)))))))))))

  -- From here on nothing is refused.
  spend_random-Accepts : (u : Server) → Refuses s (spend_random u)
  unfolding spend_random
  spend_random-Accepts u = Ends-lift u (rand_uint64_t u.entropy) _ (λ r _. ends_done tt _ tt)

  create_lethread-Accepts : (topic : Bytes) (u : Server) → Refuses s (create_lethread topic u)
  unfolding create_lethread
  create_lethread-Accepts topic u =
      Ends-lift u (s_lethread_create topic u) _ (λ r _. ends_done (r.0, r.1) r.2 tt)

  create_author-Accepts :
      (place : ℕ) (t : LeThread) (u : Server) → Refuses s (create_author place t u)
  unfolding create_author
  create_author-Accepts place t u =
      Ends-lift u (leauthor_create t true u.entropy) _ (λ r _. ends_done r.0 _ tt)

  answer_cthr-Accepts : (junk : Junk) (t : LeThread) (u : Server) → Refuses s (answer_cthr junk t u)
  unfolding answer_cthr
  answer_cthr-Accepts junk t u = elim (Option-cases t.author) [
    | inl unknown ↦ rw (answer_cthr, unknown) ends_fault
    | inr (a, known) ↦
        rw (answer_cthr, known)
          (Ends-lift u (cthr_response junk t.id a) _ (λ response _. ends_done (some response) u tt))
  ]

  pub cmd_lethread_create-Refuses :
      (junk : Junk) (p : Bytes) (size : ℕ) → Refuses s (cmd_lethread_create junk p size s)
  unfolding cmd_lethread_create spend_random create_lethread create_author
  cmd_lethread_create-Refuses junk p size =
      Ends-step s _ _ (Stays-require s (not (ltb size 16)) lestatus_isyn) same (λ _.
        Ends-step s _ _ (Stays-expect s lestatus_isyn tpcsz p) same (λ p.
          Ends-step s _ _ (Stays-read_int s 8 p) same (λ n.
            Ends-step s _ _
              (Stays-require s (not (ltb max_topic_size n.0 || ltb n.0 min_topic_size))
                lestatus_idat)
              same
              (λ _. Ends-step s _ _ (Stays-expect s lestatus_isyn tpc n.1) same (λ p.
                Ends-bind (spend_random s) _ (spend_random-Accepts s) (λ _ u _.
                  Ends-bind (create_lethread p u) _ (create_lethread-Accepts p u) (λ pt v _.
                    Ends-bind (create_author pt.0 pt.1 v) _ (create_author-Accepts pt.0 pt.1 v)
                      (λ t w _.
                        let x = s_leauthor_save pt.0 (s_lethread_save pt.0 w) in
                        answer_cthr-Accepts junk t x))))))))

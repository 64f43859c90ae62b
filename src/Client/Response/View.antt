-- ===== src/Client/Response/View.antt =====
-- What of the server's messages the client keeps.
use le_forum.Common.{
  ℕ, zero, suc, ◌+◌, ◌%◌, ◌≡◌, sym, ◌∙◌, List, [], ◌∷◌, ◌++◌, arith, length, append-nil,
  append_assoc, map,
}
use mathlib.Core.List.{map-append}
use le_forum.Clib.Strings.{Bytes}
use le_forum.Clib.Text.{before_nul, before_nul-IsText, before_nul-text}
use le_forum.Clib.Words.{u64_mod}
use le_forum.Forum.{LeThread, LeMessage}
use le_forum.Server.Response.{Junk}
use le_forum.Server.Response.Layout.{text_size}
use le_forum.Client.Response.Thread.{receive, receive_all}

abbrev pub texts : List LeMessage → List Bytes
texts ms = map (λ (m : LeMessage). before_nul m.text) ms

abbrev pub ids : List LeMessage → List ℕ
ids ms = map (λ (m : LeMessage). m.id) ms

abbrev pub flags : List LeMessage → List ℕ
flags ms = map (λ (m : LeMessage). m.by_lethread_author) ms

-- `n` ids of a 64-bit counter, from `k` on.
unfoldable pub ids_from : ℕ → ℕ → List ℕ
ids_from k zero = []
ids_from k (suc n) = k ∷ ids_from ((k + 1) % u64_mod) n

-- The texts are those of the server.
pub texts-receive_all :
    (junk : Junk) (ms : List LeMessage) (n : ℕ) (c : LeThread)
    → texts (receive_all junk n c ms).messages ≡ texts c.messages ++ texts ms
unfolding receive_all
texts-receive_all junk [] n c = sym (append-nil (texts c.messages))
texts-receive_all junk (m ∷ ms) n c =
    let b = before_nul-text (before_nul m.text) [] (before_nul-IsText m.text) in
    texts-receive_all junk ms (n + (29 + text_size m)) (receive junk n c m)
    ∙ simp (map-append, append_assoc, b)

-- The ids are not: they go on from the client's own counter.
pub ids-receive_all :
    (junk : Junk) (ms : List LeMessage) (n : ℕ) (c : LeThread)
    → ids (receive_all junk n c ms).messages
      ≡ ids c.messages ++ ids_from c.next_message_id (length ms)
unfolding receive_all ids_from
ids-receive_all junk [] n c = sym (append-nil (ids c.messages))
ids-receive_all junk (m ∷ ms) n c =
    ids-receive_all junk ms (n + (29 + text_size m)) (receive junk n c m)
    ∙ simp (map-append, append_assoc)

-- Where the server's memory happened to be zero, the flags are the server's, cut to a byte.
pub flags-receive_all :
    (ms : List LeMessage) (n : ℕ) (c : LeThread)
    → flags (receive_all (λ _. 0) n c ms).messages
      ≡ flags c.messages ++ map (λ (m : LeMessage). m.by_lethread_author % 256) ms
unfolding receive_all
flags-receive_all [] n c = sym (append-nil (flags c.messages))
flags-receive_all (m ∷ ms) n c =
    let z : m.by_lethread_author % 256 + 0 ≡ m.by_lethread_author % 256 = omega arith in
    flags-receive_all ms (n + (29 + text_size m)) (receive (λ _. 0) n c m)
    ∙ simp (map-append, append_assoc, z)

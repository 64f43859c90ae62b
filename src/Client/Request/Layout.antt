-- ===== src/Client/Request/Layout.antt =====
-- What the requests are, and that none is written past its allocation.
use mathlib.Core.List.{flatten}
use le_forum.Common.{
  ℕ, ◌+◌, ◌-◌, ◌≡◌, ◌∙◌, List, [], ◌∷◌, ◌++◌, arith, length, length-append, append-nil, ok, some,
  none, replicate,
}
use le_forum.Clib.Strings.{Bytes, IsText, strncpy-text, strncpy}
use le_forum.Clib.Words.{le_bytes, length-le_bytes}
use le_forum.Clib.Writer.{write_all-ok}
use le_forum.Forum.{token_size}
use le_forum.Protocol.{
  chars, gthr, cthr, fthr, cmsg, thrid, tpcsz, tpc, tkn, tpcpsz, tpcp, txtsz, txt,
}
use le_forum.Client.Request.{
  request, gen_query_gthr, gen_query_cthr, gen_query_fthr, gen_query_cmsg,
}

replicate_none : (n m : ℕ) → n ≡ m → replicate {A = ℕ} (m - n) 0 ≡ []
replicate_none n m e = let z : m - n ≡ 0 = omega arith in rw z

request-exact :
    (size : ℕ) (parts : List Bytes)
    → length (flatten parts) ≡ size
    → request size parts ≡ ok (flatten parts)
unfolding request
request-exact size parts e = rw (
  write_all-ok parts [] size (omega arith),
  replicate_none (length (flatten parts)) size e,
  append-nil,
)

module _ (id : ℕ) where
  -- The request of `gen_query_GTHR` fills its allocation exactly.
  pub gen_query_gthr_lem : gen_query_gthr id ≡ ok (chars gthr ++ (chars thrid ++ le_bytes 8 id))
  unfolding gen_query_gthr chars flatten
  gen_query_gthr_lem =
      request-exact 17 (chars gthr ∷ chars thrid ∷ le_bytes 8 id ∷ [])
        (omega (arith, length-append {0}, length-le_bytes))
      ∙ rw append-nil

module _ (t r : Bytes) (h : IsText t) where
  -- Of the memory behind the pointer only the text is copied.
  pub gen_query_cthr_lem :
      gen_query_cthr (t ++ r) (length t)
      ≡ ok (chars cthr ++ (chars tpcsz ++ (le_bytes 8 (length t) ++ (chars tpc ++ t))))
  unfolding gen_query_cthr chars flatten
  gen_query_cthr_lem = rw (strncpy-text t r h) (
      request-exact (20 + length t)
        (chars cthr ∷ chars tpcsz ∷ le_bytes 8 (length t) ∷ chars tpc ∷ t ∷ [])
        (omega (arith, length-append {0}, length-le_bytes))
      ∙ rw append-nil)

  pub gen_query_fthr_lem :
      gen_query_fthr (t ++ r) (length t)
      ≡ ok (chars fthr ++ (chars tpcpsz ++ (le_bytes 8 (length t) ++ (chars tpcp ++ t))))
  unfolding gen_query_fthr chars flatten
  gen_query_fthr_lem = rw (strncpy-text t r h) (
      request-exact (22 + length t)
        (chars fthr ∷ chars tpcpsz ∷ le_bytes 8 (length t) ∷ chars tpcp ∷ t ∷ [])
        (omega (arith, length-append {0}, length-le_bytes))
      ∙ rw append-nil)

  pub gen_query_cmsg_anonymous :
      (id : ℕ)
      → gen_query_cmsg id (t ++ r) (length t) none
        ≡ ok (
            chars cmsg
            ++ (chars thrid
                ++ (le_bytes 8 id ++ (chars txtsz ++ (le_bytes 8 (length t) ++ (chars txt ++ t))))))
  unfolding gen_query_cmsg chars flatten
  gen_query_cmsg_anonymous id = rw (strncpy-text t r h) (
      request-exact (33 + length t + 0)
        (chars cmsg
          ∷ chars thrid
          ∷ le_bytes 8 id
          ∷ chars txtsz
          ∷ le_bytes 8 (length t)
          ∷ chars txt
          ∷ t
          ∷ [])
        (omega (arith, length-append {0}, length-le_bytes))
      ∙ rw append-nil)

  -- The token of a request is the first `TOKEN_SIZE` bytes that the pointer points to.
  pub gen_query_cmsg_signed :
      (id : ℕ) (token u : Bytes)
      → IsText token
      → length token ≡ token_size
      → gen_query_cmsg id (t ++ r) (length t) (some (token ++ u))
        ≡ ok (
            chars cmsg
            ++ (chars thrid
                ++ (le_bytes 8 id
                    ++ (chars txtsz
                        ++ (le_bytes 8 (length t) ++ (chars txt ++ (t ++ (chars tkn ++ token))))))))
  unfolding gen_query_cmsg chars flatten
  gen_query_cmsg_signed id token u hk e =
      let copied : strncpy (token ++ u) token_size ≡ ok token =
        rw (← e) (strncpy-text token u hk) in
      rw (strncpy-text t r h, copied)
        (request-exact (33 + length t + 27)
            (chars cmsg
              ∷ chars thrid
              ∷ le_bytes 8 id
              ∷ chars txtsz
              ∷ le_bytes 8 (length t)
              ∷ chars txt
              ∷ t
              ∷ chars tkn
              ∷ token
              ∷ [])
            (omega (arith, length-append {0}, length-le_bytes))
          ∙ rw append-nil)

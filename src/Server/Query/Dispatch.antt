-- ===== src/Server/Query/Dispatch.antt =====
-- `query_process` finds the handler by the first four letters.
use le_forum.Common.{ℕ, ◌+◌, ◌-◌, ◌%◌, ◌<◌, ◌^◌, ◌≡◌, refl, ◌++◌, arith, some, ok}
use le_forum.Clib.Strings.{Bytes, strncmp_eq}
use le_forum.Clib.Words.{u64_mod}
use le_forum.Protocol.{chars, has_word, gthr, cthr, fthr, cmsg, meta, live}
use le_forum.Server.{Server}
use le_forum.Server.Response.{Junk}
use le_forum.Server.Query.{find_cmd, cmds, query_process, process, result_of}

module _ (p : Bytes) where
  find_cmd-gthr : find_cmd cmds (chars gthr ++ p) ≡ ok (some gthr)
  unfolding find_cmd has_word chars strncmp_eq
  find_cmd-gthr = refl

  find_cmd-cthr : find_cmd cmds (chars cthr ++ p) ≡ ok (some cthr)
  unfolding find_cmd has_word chars strncmp_eq
  find_cmd-cthr = refl

  find_cmd-fthr : find_cmd cmds (chars fthr ++ p) ≡ ok (some fthr)
  unfolding find_cmd has_word chars strncmp_eq
  find_cmd-fthr = refl

  find_cmd-cmsg : find_cmd cmds (chars cmsg ++ p) ≡ ok (some cmsg)
  unfolding find_cmd has_word chars strncmp_eq
  find_cmd-cmsg = refl

  find_cmd-meta : find_cmd cmds (chars meta ++ p) ≡ ok (some meta)
  unfolding find_cmd has_word chars strncmp_eq
  find_cmd-meta = refl

  find_cmd-live : find_cmd cmds (chars live ++ p) ≡ ok (some live)
  unfolding find_cmd has_word chars strncmp_eq
  find_cmd-live = refl

module _ (junk : Junk) (p : Bytes) (size : ℕ) (s : Server) (small : size < 2 ^ 62) where
  pub query_process-gthr :
      query_process junk (some (chars gthr ++ p)) (4 + size) s
      ≡ result_of (process junk gthr p size s)
  unfolding query_process
  query_process-gthr =
      let e : (4 + size + u64_mod - 4) % u64_mod ≡ size = omega arith in
      rw (query_process, find_cmd-gthr p) (unfold chars in rw e)

  pub query_process-cthr :
      query_process junk (some (chars cthr ++ p)) (4 + size) s
      ≡ result_of (process junk cthr p size s)
  unfolding query_process
  query_process-cthr =
      let e : (4 + size + u64_mod - 4) % u64_mod ≡ size = omega arith in
      rw (query_process, find_cmd-cthr p) (unfold chars in rw e)

  pub query_process-fthr :
      query_process junk (some (chars fthr ++ p)) (4 + size) s
      ≡ result_of (process junk fthr p size s)
  unfolding query_process
  query_process-fthr =
      let e : (4 + size + u64_mod - 4) % u64_mod ≡ size = omega arith in
      rw (query_process, find_cmd-fthr p) (unfold chars in rw e)

  pub query_process-cmsg :
      query_process junk (some (chars cmsg ++ p)) (4 + size) s
      ≡ result_of (process junk cmsg p size s)
  unfolding query_process
  query_process-cmsg =
      let e : (4 + size + u64_mod - 4) % u64_mod ≡ size = omega arith in
      rw (query_process, find_cmd-cmsg p) (unfold chars in rw e)

  pub query_process-meta :
      query_process junk (some (chars meta ++ p)) (4 + size) s
      ≡ result_of (process junk meta p size s)
  unfolding query_process
  query_process-meta =
      let e : (4 + size + u64_mod - 4) % u64_mod ≡ size = omega arith in
      rw (query_process, find_cmd-meta p) (unfold chars in rw e)

  pub query_process-live :
      query_process junk (some (chars live ++ p)) (4 + size) s
      ≡ result_of (process junk live p size s)
  unfolding query_process
  query_process-live =
      let e : (4 + size + u64_mod - 4) % u64_mod ≡ size = omega arith in
      rw (query_process, find_cmd-live p) (unfold chars in rw e)

-- ===== src/Server/Query/Get.antt =====
-- GTHR: what the server does with a request for a thread.
use le_forum.Common.{ℕ, ◌≤◌, ◌<◌, ◌^◌, ◌≡◌, ◌++◌, some, none, ok, length, le→ltb}
use le_forum.Common.Command.{done, exit}
use le_forum.Clib.Strings.{Bytes}
use le_forum.Clib.Words.{le_bytes}
use le_forum.Conf.{lestatus_nfnd}
use le_forum.Forum.{LeThread}
use le_forum.Protocol.{chars, thrid}
use le_forum.Protocol.Words.{expect-chars, read_int-le_bytes}
use le_forum.Server.{Server, lethread_get_by_id}
use le_forum.Server.Response.{Junk}
use le_forum.Server.Response.Layout.{gthr_answer, gthr_response_lem, HasStrings}
use le_forum.Server.Query.{cmd_lethread_get, found_lethread}

module _ (junk : Junk) (s s' : Server) (id size : ℕ) (p : Bytes) (fits : id < 256 ^ 8)
    (enough : 13 ≤ size) where
  pub cmd_lethread_get_found :
      (place : ℕ) (t : LeThread)
      → lethread_get_by_id id s ≡ ok (some (place, t), s')
      → HasStrings t
      → length (gthr_answer junk id t) < 2 ^ 61
      → cmd_lethread_get junk (chars thrid ++ (le_bytes 8 id ++ p)) size s
        ≡ done (some (gthr_answer junk id t)) s'
  unfolding cmd_lethread_get found_lethread
  cmd_lethread_get_found place t found strs bound = rw (
    cmd_lethread_get,
    le→ltb enough,
    expect-chars _ thrid,
    read_int-le_bytes 8 id,
    found_lethread,
    found,
    gthr_response_lem junk id t strs bound,
  )

  pub cmd_lethread_get_missing :
      lethread_get_by_id id s ≡ ok (none, s')
      → cmd_lethread_get junk (chars thrid ++ (le_bytes 8 id ++ p)) size s ≡ exit lestatus_nfnd s'
  unfolding cmd_lethread_get found_lethread
  cmd_lethread_get_missing missing = rw (
    cmd_lethread_get,
    le→ltb enough,
    expect-chars _ thrid,
    read_int-le_bytes 8 id,
    found_lethread,
    missing,
  )

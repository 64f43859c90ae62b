-- ===== src/Tests/Network.antt =====
-- Packets, connections, a restart and lines, at concrete values.
use le_forum.Common.{ℕ, ◌≡◌, refl, List, [], ◌∷◌, ◌++◌, arith, some, ok, drop, replicate}
use le_forum.Clib.Strings.{Bytes, codes, IsText}
use le_forum.Clib.Text.{before_nul, before_nul-IsText}
use le_forum.Clib.Words.{le_bytes}
use le_forum.Conf.{lestatus_ok}
use le_forum.Communication.{arrived, timeout, recv, s_recv, s_send, recv_loop}
use le_forum.Communication.Packets.{deliver, carried, s_recv-s_send}
use le_forum.Disk.{Disk, write_file, file_leauthor, file_lethread}
use le_forum.ForumIo.Authors.{leauthor_bytes}
use le_forum.ForumIo.RoundTrip.{lethread_bytes}
use le_forum.Protocol.{chars, has_word}
use le_forum.Server.{Server}
use le_forum.Server.Query.{query_process, status_result, find_cmd, process, cmd_alive}
use le_forum.Server.Connection.{Connection, handle_client, reply}
use le_forum.Server.Connection.Session.{
  Arrive, over, request, Answered, none_left, answered, session,
}
use le_forum.Util.{le_strcat, le_strncat}
use le_forum.Util.Joining.{le_strcat_lem, le_strncat_lem}
use le_forum.Tests.Samples.{server, news, author, empty_disk}

s_recv-s_send_example :
    (w' : List le_forum.Communication.Event) × (s_recv 5
        (deliver (s_send (codes "hello") (2 ∷ 1 ∷ 9 ∷ [])) ++ (timeout ∷ []))
      ≡ (codes "hello", w'))
    × (carried w' ≡ [])
s_recv-s_send_example =
    s_recv-s_send (codes "hello") (2 ∷ 1 ∷ 9 ∷ []) (timeout ∷ [])
      (omega arith, (omega arith, (omega arith, tt))) (omega arith)

abbrev pub junk : ℕ → ℕ
junk _ = 9

-- A client that says LIVE, in two pieces, and closes the connection.
arrive_live :
    Arrive
      (arrived (le_bytes 8 4) ∷ arrived (codes "LI") ∷ arrived (codes "VE") ∷ [])
      (codes "LIVE" ∷ [])
unfolding le_bytes recv s_recv recv_loop
arrive_live = request (codes "LIVE") (omega arith) (omega arith) refl refl over

answered_live :
    Answered junk server (codes "LIVE" ∷ []) (reply (status_result lestatus_ok) ++ []) server
unfolding query_process find_cmd has_word chars process cmd_alive le_forum.Clib.Strings.strncmp_eq
answered_live = answered (codes "LIVE") (status_result lestatus_ok) (λ behind. refl) none_left

session_example :
    (c : Connection) × (handle_client 2 junk
        (record {
          wire = arrived (le_bytes 8 4) ∷ arrived (codes "LI") ∷ arrived (codes "VE") ∷ [];
          sent = [];
          buffer = [];
        })
        server
      ≡ ok (c, server))
    × (c.wire ≡ [])
    × (c.sent ≡ [] ++ (reply (status_result lestatus_ok) ++ []))
session_example = session junk [] [] arrive_live answered_live

stored_disk : Disk
stored_disk =
    record (write_file 0 file_leauthor (leauthor_bytes author)
      (write_file 0 file_lethread (lethread_bytes news author) empty_disk)) {
        lemeta = some (le_bytes 8 1);
      }

nice-IsText : IsText (codes "nice")
unfolding before_nul
nice-IsText = before_nul-IsText (codes "nice")

le_strcat_lem_example :
    le_strcat (codes "nice" ++ (0 ∷ replicate 6 7)) (codes "nice" ++ (0 ∷ []))
    ≡ ok (8, codes "nice" ++ (codes "nice" ++ (0 ∷ drop 4 (replicate 6 7))))
le_strcat_lem_example =
    le_strcat_lem (codes "nice") (codes "nice") [] (replicate 6 7) nice-IsText nice-IsText
      (omega arith)

le_strncat_lem_example :
    le_strncat (codes "nice" ++ (0 ∷ replicate 6 7)) (codes "nice" ++ (0 ∷ [])) 2
    ≡ ok (6, codes "nice" ++ (codes "ni" ++ (0 ∷ drop 2 (replicate 6 7))))
le_strncat_lem_example =
    le_strncat_lem (codes "nice") (codes "nice") [] (replicate 6 7) 2 nice-IsText nice-IsText
      (omega arith)

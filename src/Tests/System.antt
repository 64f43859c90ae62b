-- ===== src/Tests/System.antt =====
-- A server with a thread, on which a client creates another one.
use mathlib.Core.List.{Memᴰ}
use le_forum.Server.Startup.{folder, startup}
use le_forum.Conf.{lestatus_nfnd}
use le_forum.Server.Query.Handlers.{Unchanged}
use le_forum.Server.Query.Refused.{refused_lem}
use le_forum.Server.{lethread_get_by_id}
use le_forum.Server.Query.{LeCommandResult, status_result, cmd_lethread_get, found_lethread}
use le_forum.Common.{
  none, Outcome, inl, suc, zero, subst, ◌≡◌, ◌%◌, refl, [], ◌∷◌, ◌++◌, arith, some, true, ok,
  replicate,
}
use le_forum.Clib.Strings.{Bytes, codes, strlen, strncpy, strncmp_eq}
use le_forum.Clib.Text.{has_nul}
use le_forum.Clib.Words.{le_bytes, le_value}
use le_forum.Security.{rand_uint64_t, rand_string}
use le_forum.Communication.{arrived, recv, s_recv, recv_loop}
use le_forum.Forum.{LeThread, lethread_create, leauthor_create}
use le_forum.Protocol.{chars, has_word, expect, read_int}
use le_forum.Server.{
  Server, lemeta_load, place_of, s_lethread_create, next_lethread_id, lemeta_save,
}
use le_forum.Server.Query.{
  query_process, find_cmd, process, cmd_lethread_create, spend_random, create_lethread,
  create_author, answer_cthr,
}
use le_forum.Server.Response.{cthr_response}
use le_forum.Server.Connection.{Connection, handle_round, answer_round, recv_size, reply}
use le_forum.Server.Sound.{IsSound, IsSynced, SyncedAt, IsKept, Reaches}
use le_forum.System.{
  leauthor_saver, lethread_saver, save_round, save_rounds, Serves, finish, answer,
}
use le_forum.System.Reach.{Serves-Reaches}
use le_forum.System.Kept.{lethread_found_again}
use le_forum.System.Written.{Wrote, savers_write}
use le_forum.Tests.Samples.{random, author, server, news, empty_disk}
use le_forum.Tests.Network.{junk}

abbrev first : Server
first = record server {
  lethread_queries = 0 ∷ [];
  leauthor_queries = 0 ∷ [];
  disk = record empty_disk { lemeta = some (le_bytes 8 1) };
}

first-IsSound : IsSound first
unfolding has_nul
first-IsSound = record {
  given = (record { topic = refl; id = omega arith }, tt);
  distinct = (tt, tt);
  fits = omega arith;
  stored = refl;
  lethread_places = (omega arith, tt);
  leauthor_places = (omega arith, tt);
  ready = tt;
}

abbrev cthr_open : Bytes
cthr_open = codes "CTHRTPCSZ" ++ (le_bytes 8 4 ++ (codes "TPC" ++ codes "open"))

abbrev caller : Connection
caller = record { wire = arrived (le_bytes 8 24) ∷ arrived cthr_open ∷ []; sent = []; buffer = [] }

abbrev opened : LeThread
opened = record {
  id = 1;
  first_message_id = 0x0101_0101_0101_0101 % 0xffff_ffff;
  next_message_id = 0x0101_0101_0101_0101 % 0xffff_ffff;
  topic = codes "open" ++ (0 ∷ []);
  messages = [];
  author = some (record { id = 0x0101_0101_0101_0101 % 0xffff_ffff; token = replicate 24 73 });
}

abbrev second : Server
second = record first {
  lethreads = news ∷ opened ∷ [];
  next_lethread_id_value = 2;
  lethread_queries = 0 ∷ 1 ∷ [];
  leauthor_queries = 0 ∷ 1 ∷ [];
  disk = record empty_disk { lemeta = some (le_bytes 8 2) };
  entropy = [];
}

abbrev replied : Bytes
replied = codes "THRID" ++ (le_bytes 8 1 ++ (codes "TKN" ++ (replicate 24 73 ++ (9 ∷ 9 ∷ []))))

abbrev told : Connection
told = record { wire = []; sent = le_bytes 8 42 ++ replied; buffer = replicate 25 0 }

run : Serves 1 first second
unfolding le_value handle_round answer_round recv_size recv s_recv recv_loop query_process find_cmd
    has_word chars strncmp_eq process cmd_lethread_create spend_random create_lethread create_author
    answer_cthr s_lethread_create next_lethread_id lemeta_save expect read_int strlen strncpy
    rand_uint64_t rand_string lethread_create leauthor_create cthr_response le_bytes
    le_forum.Clib.Writer.write_all reply le_forum.Server.Response.junk_bytes
run = answer {s = first} {s' = second} junk true caller told refl finish

Serves-Reaches_example : Reaches 1 first second
Serves-Reaches_example = Serves-Reaches first-IsSound (omega arith) run

lethread_found_again_example :
    (t : LeThread) × (place_of 0 second.lethreads ≡ some (0, t)) × IsKept news t
lethread_found_again_example = lethread_found_again first-IsSound (omega arith) run 0 news refl

first-IsSynced : IsSynced first
first-IsSynced zero t there =
    subst (λ (x : LeThread). SyncedAt first 0 x) (let p : news ≡ t = cc in p)
      (record {
        author = author;
        known = refl;
        fits = record {
          id = omega arith;
          author_id = omega arith;
          first = omega arith;
          next = omega arith;
        };
        long = refl;
        lethread_file = inl (Memᴰ.head refl);
        leauthor_file = inl (Memᴰ.head refl);
      })
first-IsSynced (suc i) t there = cc

savers_write_example :
    (s : Server) × (save_round lethread_saver second ≡ ok s)
    × IsSound s
    × IsSynced s
    × Wrote lethread_saver second s
savers_write_example = savers_write first-IsSound first-IsSynced (omega arith) run lethread_saver

-- The queues are emptied, and the server starts again.
abbrev Stopped : Type 0
Stopped =
    (u : Server) × (v : Server) × (r : Server) × (save_rounds lethread_saver 2 second ≡ ok u)
    × (save_rounds leauthor_saver 2 u ≡ ok v)
    × (startup (folder 0 ∷ folder 1 ∷ []) v.disk random ≡ ok (2, r))

gthr_nine : Outcome (LeCommandResult × Server)
gthr_nine = query_process junk (some (codes "GTHRTHRID" ++ le_bytes 8 9)) 17 second

gthr_nine-nfnd : gthr_nine ≡ ok (status_result lestatus_nfnd, second)
unfolding le_bytes le_value query_process find_cmd has_word chars strncmp_eq process
    cmd_lethread_get expect read_int found_lethread lethread_get_by_id place_of gthr_nine
gthr_nine-nfnd = refl

refused_lem_example :
    ((status_result lestatus_nfnd).response ≡ none)
    × ((status_result lestatus_nfnd).size ≡ 0)
    × Unchanged second second
unfolding gthr_nine
refused_lem_example =
    refused_lem second junk (codes "GTHRTHRID" ++ le_bytes 8 9) 17 (status_result lestatus_nfnd)
      second gthr_nine-nfnd (λ e. cc)

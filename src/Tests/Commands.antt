-- ===== src/Tests/Commands.antt =====
-- The client's commands and files, at concrete values.
use le_forum.Common.{◌≡◌, refl, [], ◌∷◌, ◌++◌, arith, some, true, drop, replicate}
use le_forum.Common.Command.{Run, done}
use le_forum.Clib.Strings.{Bytes, codes}
use le_forum.Clib.Words.{le_value}
use le_forum.Conf.{lestatus_ok}
use le_forum.Security.{rand_uint64_t}
use le_forum.Server.Query.Post.{with_post}
use le_forum.Server.Connection.{Connection}
use le_forum.Util.{newline}
use le_forum.Client.State.{LeClient, Files}
use le_forum.Client.Files.{token_save, token_load, get_leclient_file, same_text}
use le_forum.Client.Files.Tokens.{with_active, token_load-token_save}
use le_forum.Client.Files.Lines.{lines_of, IsAddress}
use le_forum.Client.Files.History.{Saves, somewhere, server_addr_save_lem}
use le_forum.Client.Menus.{leclient_loop_process}
use le_forum.Client.Commands.{print_menu_main}
use le_forum.Client.Menus.Overrun.{leclient_loop_process_overruns}
use le_forum.Client.Service.{Peer, served_by}
use le_forum.Client.Service.Posting.{IsReady, send_message_anonymous, send_message_signed}
use le_forum.Client.Service.Reading.{history, cmd_thread_message_history_lem}
use le_forum.Client.Threads.{cmd_thread_send_message, cmd_thread_message_history}
use le_forum.Client.Response.View.{texts}
use le_forum.Clib.Strings.{is_infix, is_prefix}
use le_forum.Clib.Text.{before_nul, has_nul}
use le_forum.Clib.Words.{le_bytes}
use le_forum.Clib.Decimal.{print_u64, digits}
use le_forum.Protocol.{chars}
use le_forum.Server.Response.Search.{all_found_bytes, found_bytes}
use le_forum.Security.{Entropy}
use le_forum.Client.State.{listed}
use le_forum.Client.Threads.{cmd_thread_find}
use le_forum.Client.Service.Finding.{CanSearch, cmd_thread_find_lem, listing}
use le_forum.Exchange.Read.{view}
use le_forum.Tests.Exchanges.{junk, number, found_news, news-IsThread, answer_bound, token-IsText}
use le_forum.Tests.Samples.{server, news, author, token, random}

abbrev connection : Connection
connection = record { wire = []; sent = []; buffer = [] }

-- A client with thread 0 of the server chosen, where `typed` is typed.
abbrev client : Files → Bytes → LeClient Peer
client files typed = record {
  connected = true;
  meta = record {
    min_message_size = 3;
    max_message_size = 512;
    min_topic_size = 3;
    max_topic_size = 64;
    version = codes "v" ++ (0 ∷ []);
    version_size = 1;
    thread_count = 1;
  };
  haddr = record { addr = codes "127.0.0.1"; port = 40000 };
  active_thread_exists = true;
  active_thread_id = 0;
  files = files;
  stdin = typed;
  output = [];
  entropy = random;
  wire = [];
  peer = (connection, server);
}

token-IsLine : le_forum.Util.Lines.IsLine token
token-IsLine = ground arith

token_load-token_save_example :
    (c' : LeClient Peer) × (token_save (token ++ (0 ∷ [])) (with_active 3 (client [] []))
      ≡ (lestatus_ok, c'))
    × (token_load c' ≡ (lestatus_ok, some (token ++ (0 ∷ []))))
    × (token_load (with_active 4 c') ≡ token_load (with_active 4 (client [] [])))
token_load-token_save_example =
    token_load-token_save (client [] []) 3 4 token [] token-IsLine refl (omega arith) (omega arith)
      (omega arith)

abbrev home : le_forum.Client.State.HAddress
home = record { addr = codes "127.0.0.1"; port = 40000 }

abbrev away : le_forum.Client.State.HAddress
away = record { addr = codes "10.0.0.7"; port = 80 }

home-IsAddress : IsAddress home
home-IsAddress = record {
  word = ground arith;
  there = omega arith;
  short = omega arith;
  port = omega arith;
}

away-IsAddress : IsAddress away
away-IsAddress = record {
  word = ground arith;
  there = omega arith;
  short = omega arith;
  port = omega arith;
}

server_addr_save_lem_example : Saves away (home ∷ []) ((codes "servers", lines_of (home ∷ [])) ∷ [])
unfolding get_leclient_file same_text
server_addr_save_lem_example =
    server_addr_save_lem away away-IsAddress (home ∷ [])
      ((codes "servers", lines_of (home ∷ [])) ∷ []) (home-IsAddress, tt)
      (somewhere (home ∷ []) refl)

leclient_loop_process_overruns_example :
    leclient_loop_process print_menu_main (client [] (replicate 200 49 ++ (newline ∷ [])))
    ≡ Run.fault
leclient_loop_process_overruns_example =
    leclient_loop_process_overruns (client [] (replicate 200 49 ++ (newline ∷ []))) print_menu_main
      (replicate 200 49) [] refl (ground arith) (omega arith)

-- A server that takes longer topics than messages.
abbrev narrow : LeClient Peer
narrow = record (client [] (codes "good day" ++ (newline ∷ []))) {
  meta = record (client [] []).meta { max_message_size = 5 };
}

abbrev greeting : Bytes
greeting = codes "good day"

ready : (files : Files) → IsReady (client files (greeting ++ (newline ∷ []))) greeting []
ready files = record {
  on = refl;
  quiet = refl;
  active = refl;
  typed = refl;
  text = ground arith;
  some_limit = omega arith;
  long = omega arith;
  short = omega arith;
  room = omega arith;
  lo = omega arith;
  hi = omega arith;
}

send_message_anonymous_example :
    (conn' : Connection) × (cmd_thread_send_message
        (served_by junk)
        (client [] (greeting ++ (newline ∷ [])))
      ≡ done tt (record (client [] []) {
        peer = (conn', with_post server 0 news (greeting ++ (0 ∷ [])) 0);
      }))
unfolding token_load get_leclient_file
send_message_anonymous_example =
    send_message_anonymous junk (client [] (greeting ++ (newline ∷ []))) connection server server 0
      news greeting [] (ready []) refl (omega arith) found_news refl

abbrev kept : Files
kept = (codes "0", token) ∷ []

kept_token :
    token_load (client kept (greeting ++ (newline ∷ []))) ≡ (lestatus_ok, some (token ++ (0 ∷ [])))
unfolding token_load get_leclient_file same_text le_forum.Clib.Decimal.print_u64
    le_forum.Clib.Decimal.digits le_forum.Util.s_fgets le_forum.Util.fgets le_forum.Util.read_line
    le_forum.Util.before_newline le_forum.Clib.Text.before_nul
kept_token = refl

send_message_signed_example :
    (conn' : Connection) × (cmd_thread_send_message
        (served_by junk)
        (client kept (greeting ++ (newline ∷ [])))
      ≡ done tt (record (client kept []) {
        peer = (conn', with_post server 0 news (greeting ++ (0 ∷ [])) 1);
      }))
send_message_signed_example =
    send_message_signed junk (client kept (greeting ++ (newline ∷ []))) connection server server 0
      news greeting [] (ready kept) refl (omega arith) found_news author refl token-IsText refl
      kept_token

cmd_thread_message_history_lem_example :
    (conn' : Connection) × (cmd_thread_message_history (served_by junk) (client [] [])
      ≡ done tt (record (client [] []) {
        output = history (view junk 0 news number).messages;
        peer = (conn', server);
        entropy = drop 8 random;
      }))
    × (texts (view junk 0 news number).messages ≡ texts news.messages)
unfolding rand_uint64_t le_value
cmd_thread_message_history_lem_example =
    cmd_thread_message_history_lem junk (client [] []) connection server server 0 number news
      (drop 8 random) refl refl refl (omega arith) found_news news-IsThread answer_bound refl refl

abbrev searching : LeClient Peer
searching = client [] (codes "new" ++ (newline ∷ (codes "1" ++ (newline ∷ []))))

searching-CanSearch : CanSearch searching connection server (codes "new")
unfolding is_infix is_prefix before_nul has_nul all_found_bytes found_bytes chars le_bytes
searching-CanSearch = record {
  peer = refl;
  on = refl;
  quiet = refl;
  text = ground arith;
  some_limit = omega arith;
  long = omega arith;
  short = omega arith;
  lo = omega arith;
  hi = omega arith;
  ends = (refl, tt);
  bound = omega arith;
  small = (record { id = omega arith; topic = omega arith }, tt);
  enough = omega arith;
}

cmd_thread_find_lem_example :
    (conn' : Connection) × (e' : Entropy) × (cmd_thread_find (served_by junk) searching
      ≡ done tt (record (client [] []) {
        output = listed 1 (codes "news") ∷ [];
        peer = (conn', server);
        entropy = e';
      }))
unfolding is_infix is_prefix before_nul listing print_u64 digits
cmd_thread_find_lem_example =
    cmd_thread_find_lem junk searching connection server (codes "new") [] 0 news searching-CanSearch
      refl (omega arith) refl

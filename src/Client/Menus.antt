-- ===== src/Client/Menus.antt =====
-- The menus of src/client/client.c: a number is read, and its command runs. Each loop has a bound on its
-- rounds; a round takes a byte of the input at least, since a menu at the end of the input is a fault.
pub mod Overrun
use le_forum.Common.{
  ℕ, zero, suc, List, [], ◌∷◌, get_elem?, Option, none, some, Bool, true, false, if◌then◌else◌,
  Outcome, ok, fault, length,
}
use le_forum.Common.Command.{Run, done, ◌>>=◌, get, put, lift, pure}
use le_forum.Clib.Strings.{Bytes, codes}
use le_forum.Clib.Decimal.{atoi}
use le_forum.Communication.{Wire}
use le_forum.Client.State.{LeClient, ClientCmd, Shown, said, show, show_all}
use le_forum.Client.Commands.{
  MainCmd, mcid_server, mcid_thread, mcid_settings, mcid_exit, ServerCmd, scid_connect_disconnect,
  scid_info, scid_history, scid_back, ThreadCmd, tcid_create, tcid_find, tcid_info, tcid_messages,
  tcid_send_message, tcid_back, SettingsCmd, stgcid_back, main_cmd, server_cmd, thread_cmd,
  settings_cmd, print_menu_main, print_menu_server, print_menu_thread, print_menu_settings,
}
use le_forum.Client.Input.{get_line}
use le_forum.Client.Loop.{server_disconnect}
use le_forum.Client.Threads.{
  cmd_thread_create, cmd_thread_find, cmd_thread_info, cmd_thread_message_history,
  cmd_thread_send_message,
}
use le_forum.Client.Servers.{
  Dial, cmd_server_info, cmd_server_connect, cmd_server_disconnect, cmd_server_history,
}

module _ {P : Type 0} where
  -- The buffer has 64 bytes, and the call allows 128.
  unfoldable pub leclient_loop_process : List Shown → ClientCmd P ℕ
  leclient_loop_process print_menu = do
    _ ← show_all print_menu
    tmp ← get_line 64 128
    lift (atoi tmp)

  abbrev pub not_found : ClientCmd P (Unit {0})
  not_found = show (said (codes "Command not found."))

  unfoldable pub cmd_settings : ℕ → ClientCmd P (Unit {0})
  unfolding leclient_loop_process
  cmd_settings zero c = Run.hang
  cmd_settings (suc fuel) c =
      let again = (do _ ← not_found; cmd_settings fuel) in
      (leclient_loop_process print_menu_settings >>= λ id. elim (settings_cmd id) [
        | none ↦ again
        | some stgcid_back ↦ pure tt
      ])
        c

  -- `cleanup`, but for the queue, which is freed.
  unfoldable pub cleanup : LeClient P → LeClient P
  cleanup c = if c.connected then server_disconnect c else c

module _ {P : Type 0} (serve : Bytes → P → Option (Wire × P)) (dial : Bytes → ℕ → Dial P) where
  unfoldable pub run_server_cmd : ServerCmd → ClientCmd P (Unit {0})
  run_server_cmd scid_connect_disconnect c =
      (if c.connected then cmd_server_disconnect else cmd_server_connect serve dial) c
  run_server_cmd scid_info c = cmd_server_info c
  run_server_cmd scid_history c = cmd_server_history serve dial c
  run_server_cmd scid_back c = pure tt c

  unfoldable pub run_thread_cmd : ThreadCmd → ClientCmd P (Unit {0})
  run_thread_cmd tcid_create c = cmd_thread_create serve c
  run_thread_cmd tcid_find c = cmd_thread_find serve c
  run_thread_cmd tcid_info c = cmd_thread_info serve c
  run_thread_cmd tcid_messages c = cmd_thread_message_history serve c
  run_thread_cmd tcid_send_message c = cmd_thread_send_message serve c
  run_thread_cmd tcid_back c = pure tt c

  unfoldable pub cmd_server : ℕ → ClientCmd P (Unit {0})
  unfolding leclient_loop_process run_server_cmd
  cmd_server zero c = Run.hang
  cmd_server (suc fuel) c =
      let again = cmd_server fuel in
      (leclient_loop_process (print_menu_server c.connected) >>= λ id. elim (server_cmd id) [
        | none ↦ not_found >>= (λ _. again)
        | some scid_back ↦ pure tt
        | some cmd ↦ run_server_cmd cmd >>= (λ _. again)
      ])
        c

  unfoldable pub thread_loop : ℕ → ClientCmd P (Unit {0})
  unfolding leclient_loop_process run_thread_cmd
  thread_loop zero c = Run.hang
  thread_loop (suc fuel) c =
      let again = thread_loop fuel in
      (leclient_loop_process print_menu_thread >>= λ id. elim (thread_cmd id) [
        | none ↦ not_found >>= (λ _. again)
        | some tcid_back ↦ pure tt
        | some cmd ↦ run_thread_cmd cmd >>= (λ _. again)
      ])
        c

  unfoldable pub cmd_thread : ℕ → ClientCmd P (Unit {0})
  unfolding thread_loop
  cmd_thread fuel = do
    c ← get
    if c.connected
        then thread_loop fuel
        else show (said (codes "To see threads, connect to some server first!"))

  -- The loop of `main`: it ends with the command that leaves the program.
  unfoldable pub main_loop : ℕ → ClientCmd P (Unit {0})
  unfolding leclient_loop_process cmd_server cmd_thread cmd_settings cleanup
  main_loop zero c = Run.hang
  main_loop (suc fuel) c =
      let again = main_loop fuel in
      (leclient_loop_process print_menu_main >>= λ id. elim (main_cmd id) [
        | none ↦ again
        | some mcid_server ↦ cmd_server fuel >>= (λ _. again)
        | some mcid_thread ↦ cmd_thread fuel >>= (λ _. again)
        | some mcid_settings ↦ cmd_settings fuel >>= (λ _. again)
        | some mcid_exit ↦ (do c ← get; _ ← put (cleanup c); show (said (codes "Bye!")))
      ])
        c

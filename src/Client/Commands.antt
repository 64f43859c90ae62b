-- ===== src/Client/Commands.antt =====
-- The commands of the menus of src/client/client.c, their numbers and their names.
use le_forum.Common.{none, ℕ, zero, suc, List, [], ◌∷◌, get_elem?, Option, Bool, if◌then◌else◌}
use le_forum.Clib.Strings.{Bytes, codes}
use le_forum.Client.State.{Shown, said, listed}

pub data MainCmd : Type 0 where
  mcid_server mcid_thread mcid_settings mcid_exit : MainCmd

pub data ServerCmd : Type 0 where
  scid_connect_disconnect scid_info scid_history scid_back : ServerCmd

pub data ThreadCmd : Type 0 where
  tcid_create tcid_find tcid_info tcid_messages tcid_send_message tcid_back : ThreadCmd

pub data SettingsCmd : Type 0 where
  stgcid_back : SettingsCmd

-- The commands by their numbers, which start at 1.
abbrev pub menu_entry : {A : Type 0} → List A → ℕ → Option A
menu_entry cmds zero = none
menu_entry cmds (suc i) = get_elem? cmds i

abbrev pub main_cmds : List MainCmd
main_cmds = mcid_server ∷ mcid_thread ∷ mcid_settings ∷ mcid_exit ∷ []

abbrev pub main_cmd : ℕ → Option MainCmd
main_cmd id = menu_entry main_cmds id

abbrev pub server_cmds : List ServerCmd
server_cmds = scid_connect_disconnect ∷ scid_info ∷ scid_history ∷ scid_back ∷ []

abbrev pub server_cmd : ℕ → Option ServerCmd
server_cmd id = menu_entry server_cmds id

abbrev pub thread_cmds : List ThreadCmd
thread_cmds =
    tcid_create ∷ tcid_find ∷ tcid_info ∷ tcid_messages ∷ tcid_send_message ∷ tcid_back ∷ []

abbrev pub thread_cmd : ℕ → Option ThreadCmd
thread_cmd id = menu_entry thread_cmds id

abbrev pub settings_cmds : List SettingsCmd
settings_cmds = stgcid_back ∷ []

abbrev pub settings_cmd : ℕ → Option SettingsCmd
settings_cmd id = menu_entry settings_cmds id

unfoldable pub main_cmd_repr : MainCmd → Bytes
main_cmd_repr mcid_server = codes "Server"
main_cmd_repr mcid_thread = codes "Thread"
main_cmd_repr mcid_settings = codes "Settings"
main_cmd_repr mcid_exit = codes "Exit"

-- The name of the first command depends on `g_server_connected`.
unfoldable pub server_cmd_repr : Bool → ServerCmd → Bytes
server_cmd_repr connected scid_connect_disconnect =
    if connected then codes "Disconnect" else codes "Connect"
server_cmd_repr connected scid_info = codes "Server information"
server_cmd_repr connected scid_history = codes "Server history"
server_cmd_repr connected scid_back = codes "Back"

unfoldable pub thread_cmd_repr : ThreadCmd → Bytes
thread_cmd_repr tcid_create = codes "Create thread"
thread_cmd_repr tcid_find = codes "Find thread"
thread_cmd_repr tcid_info = codes "Thread info"
thread_cmd_repr tcid_messages = codes "Message history"
thread_cmd_repr tcid_send_message = codes "Post message"
thread_cmd_repr tcid_back = codes "Back"

unfoldable pub settings_cmd_repr : SettingsCmd → Bytes
settings_cmd_repr stgcid_back = codes "Back"

-- The loop that prints `"%d - %s"` for each command, from the number `n` on.
unfoldable pub menu_lines : {A : Type 0} → ℕ → (A → Bytes) → List A → List Shown
menu_lines n repr [] = []
menu_lines n repr (cmd ∷ cmds) = listed n (repr cmd) ∷ menu_lines (suc n) repr cmds

abbrev pub print_menu_main : List Shown
print_menu_main = said (codes "Available commands:") ∷ menu_lines 1 main_cmd_repr main_cmds

abbrev pub print_menu_server : Bool → List Shown
print_menu_server connected =
    said (codes "Available server commands:") ∷ menu_lines 1 (server_cmd_repr connected) server_cmds

abbrev pub print_menu_thread : List Shown
print_menu_thread =
    said (codes "Available thread commands:") ∷ menu_lines 1 thread_cmd_repr thread_cmds

abbrev pub print_menu_settings : List Shown
print_menu_settings =
    said (codes "Available settings commands:") ∷ menu_lines 1 settings_cmd_repr settings_cmds

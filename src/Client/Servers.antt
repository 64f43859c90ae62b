-- ===== src/Client/Servers.antt =====
-- The commands on servers of src/client/client.c.
use le_forum.Common.{
  ℕ, suc, ◌-◌, ◌%◌, ◌^◌, List, [], ◌∷◌, Option, none, some, true, ◌||◌, ltb, if◌then◌else◌, length,
  get_elem?,
}
use le_forum.Common.Command.{Run, ◌>>=◌, get, put, lift, pure}
use le_forum.Clib.Strings.{Bytes, codes, text_of}
use le_forum.Clib.Decimal.{strtoull, atoi}
use le_forum.Conf.{LeStatus, lestatus_ok, lestatus_clib, lestatus_exst, lestatus_idat}
use le_forum.Forum.{LeMeta}
use le_forum.Communication.{Wire}
use le_forum.Client.Request.{gen_query_meta}
use le_forum.Client.State.{
  ClientCmd, HAddress, said, shown_server, shown_address, shown_version, shown_count, show,
}
use le_forum.Client.Input.{get_line}
use le_forum.Client.Files.{server_addr_save, server_addr_history_load}
use le_forum.Client.Loop.{
  Parsed, parsed_thread, parsed_info, parsed_found, parsed_meta, parse_meta, ask, server_disconnect,
}

-- What `socket`, `inet_pton` and `connect` give for an address and a port.
pub data Dial (P : Type 0) : Type 0 where
  no_socket : Dial P
  invalid_addr : Dial P
  refused : Dial P
  reached : P → Dial P

module _ {P : Type 0} where
  abbrev pub answered_meta : Option Parsed → ClientCmd P LeMeta
  answered_meta none c = Run.fault
  answered_meta (some (parsed_meta m)) c = pure m c
  answered_meta (some (parsed_info info)) c = Run.fault
  answered_meta (some (parsed_thread t)) c = Run.fault
  answered_meta (some (parsed_found ts)) c = Run.fault

  unfoldable pub cmd_server_info : ClientCmd P (Unit {0})
  cmd_server_info = do
    c ← get
    if c.connected
        then (do
          _ ← show (shown_address c.haddr)
          version ← lift (text_of c.meta.version)
          _ ← show (shown_version version)
          show (shown_count c.meta.thread_count))
        else show (said (codes "Can't get any information - you are not connected to any server."))

  unfoldable pub cmd_server_disconnect : ClientCmd P (Unit {0})
  cmd_server_disconnect = do
    _ ← show (said (codes "Disconnected."))
    c ← get
    put (server_disconnect c)

  unfoldable pub list_servers : ℕ → List HAddress → ClientCmd P (Unit {0})
  list_servers i [] = pure tt
  list_servers i (h ∷ hs) = do _ ← show (shown_server i h); list_servers (suc i) hs

module _ {P : Type 0} (serve : Bytes → P → Option (Wire × P)) (dial : Bytes → ℕ → Dial P) where
  -- `__server_connect` once the connection is made.
  unfoldable pub connected_to : Bytes → ℕ → P → ClientCmd P LeStatus
  unfolding server_addr_save
  connected_to addr port peer = do
    c ← get
    (saved, files) ← lift (server_addr_save addr port c.files)
    _ ← put (record c { files = files; connected = true; wire = []; peer = peer })
    request ← lift gen_query_meta
    parsed_data ← ask serve parse_meta request
    lemeta ← answered_meta parsed_data
    c ← get
    _ ← put (record c {
      haddr = record { addr = addr; port = port };
      meta = record lemeta { version_size = c.meta.version_size };
    })
    pure lestatus_ok

  unfoldable pub server_connect : Bytes → ℕ → ClientCmd P LeStatus
  unfolding connected_to
  server_connect addr port = do
    c ← get
    if c.connected then pure lestatus_exst else elim (dial addr port) [
      | no_socket ↦ pure lestatus_clib
      | invalid_addr ↦ do
        _ ← show (said (codes "Invalid addr is provided. Aborted."))
        pure lestatus_idat
      | refused ↦ pure lestatus_clib
      | reached peer ↦ connected_to addr port peer
    ]

  abbrev pub when_ok : ClientCmd P (Unit {0}) → LeStatus → ClientCmd P (Unit {0})
  when_ok next lestatus_ok = next
  when_ok next status = pure tt

  unfoldable pub cmd_server_connect : ClientCmd P (Unit {0})
  unfolding server_connect
  cmd_server_connect = do
    h_addr ← get_line 32 32
    port ← get_line 32 32
    n ← lift (atoi port)
    status ← server_connect h_addr (n % 2 ^ 16)
    when_ok (show (said (codes "Connected."))) status

  -- The choice of a server: any number but those in the list changes nothing.
  unfoldable pub choose_server : List HAddress → ClientCmd P (Unit {0})
  unfolding server_connect
  choose_server hs = do
    buf ← get_line 32 32
    let choice = strtoull buf
    if ltb choice 1 || ltb (length hs) choice then pure tt else elim (get_elem? hs (choice - 1)) [
      | none ↦ (λ _. Run.fault)
      | some h ↦ do
        c ← get
        _ ← put (server_disconnect c)
        status ← server_connect h.addr h.port
        when_ok (show (shown_address h)) status
    ]

  unfoldable pub cmd_server_history : ClientCmd P (Unit {0})
  unfolding server_addr_history_load list_servers choose_server
  cmd_server_history = do
    c ← get
    history ← lift (server_addr_history_load c.files)
    elim history [
      | none ↦ show (said (codes "You haven't connected to any server yet."))
      | some hs ↦ do _ ← list_servers 1 hs; choose_server hs
    ]

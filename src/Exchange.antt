-- ===== src/Exchange.antt =====
-- A request of the client, answered by the server and read by the client: src/client/query.c with
-- src/server/query.c, over a connection that delivers what is sent.
pub mod Create
pub mod Read
pub mod Post
pub mod Meta
pub mod Search
pub mod Find
use le_forum.Common.{[], ◌∷◌, ◌++◌, Option, some, none, Bool, if◌then◌else◌, length}
use le_forum.Clib.Strings.{Bytes}
use le_forum.Conf.{LeStatus, lestatus_ok}
use le_forum.Server.Query.{LeCommandResult}

-- The receive buffer of `handle_client`: the request, the terminator, and what the buffer holds
-- behind it.
abbrev pub packet : Bytes → Bytes → Option Bytes
packet request behind = some (request ++ (0 ∷ behind))

-- The buffer of `query_loop` in the client: the response and the zero of `calloc`.
abbrev pub received : Bytes → Bytes
received response = response ++ (0 ∷ [])

abbrev pub answer : Bytes → LeCommandResult
answer bytes = record { response = some bytes; size = length bytes; status = lestatus_ok }

-- A response with no data: `handle_client` sends the name of the status.
abbrev pub status_only : LeStatus → LeCommandResult
status_only status = record { response = none; size = 0; status = status }

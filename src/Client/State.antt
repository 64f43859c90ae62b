-- ===== src/Client/State.antt =====
-- The state of the client program: the global variables of src/client/client.c, its folder, and what
-- is typed and shown.
use le_forum.Common.{ℕ, List, Bool, ◌++◌, [], ◌∷◌}
use le_forum.Common.Command.{Cmd, get, put, ◌>>=◌}
use le_forum.Clib.Strings.{Bytes}
use le_forum.Conf.{LeStatus}
use le_forum.Security.{Entropy}
use le_forum.Forum.{LeMeta}
use le_forum.Communication.{Wire}

pub record HAddress : Type 0 where
  pub addr : Bytes
  pub port : ℕ

-- What is printed, but for prompts and empty lines.
pub data Shown : Type 0 where
  said : Bytes → Shown
  listed : ℕ → Bytes → Shown
  shown_topic : Bytes → Shown
  shown_id : ℕ → Shown
  shown_count : ℕ → Shown
  shown_message : (id : ℕ) (op : Bool) (text : Bytes) → Shown
  shown_server : ℕ → HAddress → Shown
  shown_address : HAddress → Shown
  shown_version : Bytes → Shown

-- The folder of the client: the files by their names.
abbrev pub Files : Type 0
Files = List (Bytes × Bytes)

-- `peer` is what is behind the socket, and `wire` what has arrived from there.
pub record LeClient (P : Type 0) : Type 0 where
  pub connected : Bool
  pub meta : LeMeta
  pub haddr : HAddress
  pub active_thread_exists : Bool
  pub active_thread_id : ℕ
  pub files : Files
  pub stdin : Bytes
  pub output : List Shown
  pub entropy : Entropy
  pub wire : Wire
  pub peer : P

abbrev pub ClientCmd : Type 0 → Type 0 → Type 0
ClientCmd P A = Cmd LeStatus (LeClient P) A

module _ {P : Type 0} where
  abbrev pub show : Shown → ClientCmd P (Unit {0})
  show x = do c ← get; put (record c { output = c.output ++ (x ∷ []) })

  abbrev pub show_all : List Shown → ClientCmd P (Unit {0})
  show_all xs = do c ← get; put (record c { output = c.output ++ xs })

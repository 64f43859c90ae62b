-- ===== src/Protocol.antt =====
-- The words of the protocol, which src/server/query.c and src/client/query.c spell as literals, and
-- the steps by which both read a packet.
pub mod Words
use le_forum.Common.{
  ℕ, ◌%◌, ◌^◌, List, [], ◌∷◌, ◌++◌, Bool, true, false, if◌then◌else◌, drop, length, Outcome, ok,
}
use le_forum.Common.Command.{Cmd, ◌>>=◌, lift, pure, exit, done}
use le_forum.Clib.Strings.{Bytes, codes, strncmp_eq}
use le_forum.Clib.Words.{le_value}
use le_forum.Conf.{LeStatus}

pub data Word : Type 0 where
  gthr cthr fthr cmsg meta live : Word
  thrid tpcsz tpc msgcnt msg msgend tkn tpcpsz tpcp txtsz txt nfnd okay : Word
  mintpcsz maxtpcsz minmsgsz maxmsgsz thrn versz ver : Word

unfoldable pub chars : Word → Bytes
chars gthr = codes "GTHR"
chars cthr = codes "CTHR"
chars fthr = codes "FTHR"
chars cmsg = codes "CMSG"
chars meta = codes "META"
chars live = codes "LIVE"
chars thrid = codes "THRID"
chars tpcsz = codes "TPCSZ"
chars tpc = codes "TPC"
chars msgcnt = codes "MSGCNT"
chars msg = codes "MSG"
chars msgend = codes "MSGEND"
chars tkn = codes "TKN"
chars tpcpsz = codes "TPCPSZ"
chars tpcp = codes "TPCP"
chars txtsz = codes "TXTSZ"
chars txt = codes "TXT"
chars nfnd = codes "NFND"
chars okay = codes "OK"
chars mintpcsz = codes "MINTPCSZ"
chars maxtpcsz = codes "MAXTPCSZ"
chars minmsgsz = codes "MINMSGSZ"
chars maxmsgsz = codes "MAXMSGSZ"
chars thrn = codes "THRN"
chars versz = codes "VERSZ"
chars ver = codes "VER"

-- `strncmp(p, "WORD", strlen("WORD")) == 0`
unfoldable pub has_word : Word → Bytes → Outcome Bool
has_word w p = strncmp_eq p (chars w ++ (0 ∷ [])) (length (chars w))

module _ {S : Type 0} where
  -- `if (!test) { result.status = -e; return result; }`
  abbrev pub require : Bool → LeStatus → Cmd LeStatus S (Unit {0})
  require b e s = if b then done tt s else exit e s

  -- `if (strncmp(p, "WORD", …) != 0) return -e; p += strlen("WORD");`
  unfoldable pub expect : LeStatus → Word → Bytes → Cmd LeStatus S Bytes
  unfolding has_word
  expect e w p = do same ← lift (has_word w p); _ ← require same e; pure (drop (length (chars w)) p)

  -- `v = *(uint64_t *)p; p += sizeof(v);` and the like for `k` bytes.
  unfoldable pub read_int : ℕ → Bytes → Cmd LeStatus S (ℕ × Bytes)
  read_int k p = do v ← lift (le_value k p); pure (v, drop k p)

-- ===== src/Conf.antt =====
-- Limits and status codes: src/global/conf.h, src/lib/status.h and src/lib/status.c.
use le_forum.Common.{ℕ}
use le_forum.Clib.Strings.{Bytes, codes}

abbrev pub min_message_size : ℕ
min_message_size = 3

abbrev pub max_message_size : ℕ
max_message_size = 512

abbrev pub min_topic_size : ℕ
min_topic_size = 3

abbrev pub max_topic_size : ℕ
max_topic_size = 64

-- The status codes; a function returns `LESTATUS_OK` or the negative of another.
pub data LeStatus : Type 0 where
  lestatus_ok lestatus_clib lestatus_nsfd lestatus_exst : LeStatus
  lestatus_nfnd lestatus_isyn lestatus_idat lestatus_nptr : LeStatus

unfoldable pub get_lestatus_string_repr : LeStatus → Bytes
get_lestatus_string_repr lestatus_ok = codes "OK"
get_lestatus_string_repr lestatus_clib = codes "CLIB"
get_lestatus_string_repr lestatus_nsfd = codes "NSFD"
get_lestatus_string_repr lestatus_exst = codes "EXST"
get_lestatus_string_repr lestatus_nfnd = codes "NFND"
get_lestatus_string_repr lestatus_isyn = codes "ISYN"
get_lestatus_string_repr lestatus_idat = codes "IDAT"
get_lestatus_string_repr lestatus_nptr = codes "NPTR"

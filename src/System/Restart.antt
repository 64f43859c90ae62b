-- ===== src/System/Restart.antt =====
-- The server before and after a restart.
use le_forum.Server.{Server}

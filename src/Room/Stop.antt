-- ===== src/Room/Stop.antt =====
-- Whose broadcasts a client can stop.
use simple_screen_share.Base.Map.{nat_key}
use simple_screen_share.Room.State.{Room}

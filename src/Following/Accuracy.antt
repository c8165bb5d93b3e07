-- ===== src/Following/Accuracy.antt =====
-- What a client of a room of server/src/rtp_server/room.rs has heard when its web socket has taken
-- all that server/src/rtp_server/client.rs put on its channel.
use simple_screen_share.Base.{◌≡◌, true, String, Option, List}
use simple_screen_share.Base.Map.{nat_key}
use simple_screen_share.Messages.{ClientId, S2CMessage}
use simple_screen_share.Room.State.{Room}
use simple_screen_share.Room.View.{View}
use simple_screen_share.Room.View.Session.{Session}
use simple_screen_share.Signaling.{Message}
use simple_screen_share.Signaling.Writing.{Socket, open_socket, is_connected, Run}
use simple_screen_share.Following.{follow}

module _ (to_lowercase : String → String) (serialize : S2CMessage → Option String)
    (parse : String → Option S2CMessage) (c : ClientId) (v : View) where
  -- What was put on the channel, which tells a connected client all that it was sent.
  abbrev Followed : Room → Socket → Type 0
  Followed r s =
      (log : List Message) × Run (open_socket c) log s
      × (is_connected s.client.connection ≡ true → Session to_lowercase c r (follow parse v log))

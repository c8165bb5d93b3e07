-- ===== src/Room/State.antt =====
-- The state of `Room` of server/src/rtp_server/room.rs, what its methods do to the outside, and the
-- entries that clients are shown. A method returns the room, its effects in order, and its response.
-- Messages go to clients by reference: what a client's connection makes of them is `Signaling`. The
-- room's `weak_ref` is the room itself.
use simple_screen_share.Base.{ℕ, List, [], ◌∷◌, unwrap_or}
use simple_screen_share.Base.Map.{Map, nat_key, lookup}
use simple_screen_share.Messages.{
  ClientId, UserId, RoomId, BroadcastId, UserEntry, BroadcastEntry, S2CNotify, S2CMessage, notify,
}
use simple_screen_share.Broadcast.{
  ClientRef, ClientBroadcast, RoomBroadcastSource, RoomBroadcastTarget,
}

-- A registered `RoomSubscriber`, by what identifies it.
abbrev pub RoomSubscriber : Type 0
RoomSubscriber = ℕ

pub record Room : Type 0 where
  pub id : RoomId
  pub subscriber : List RoomSubscriber
  pub clients : Map ClientId ClientRef
  pub client_user_ids : Map ClientId UserId
  pub client_broadcasts : Map ClientId (List BroadcastId)
  pub broadcasts : Map BroadcastId ClientBroadcast

pub data Effect : Type 0 where
  -- `send_message` to a client.
  send : ClientRef → S2CMessage → Effect
  client_joined client_left : RoomSubscriber → ClientId → ClientRef → Effect
  client_broadcast_started client_broadcast_ended : RoomSubscriber → ClientId → BroadcastId → Effect
  -- The task that polls a broadcast is started, or woken.
  spawn_broadcast wake_broadcast : BroadcastId → Effect
  -- A stream that a client handed over goes out of scope.
  drop_source : RoomBroadcastSource → Effect
  drop_target : RoomBroadcastTarget → Effect

unfoldable pub new : RoomId → Room
new id = record {
  id = id;
  subscriber = [];
  clients = [];
  client_user_ids = [];
  client_broadcasts = [];
  broadcasts = [];
}

-- One message to each of the clients.
unfoldable pub send_all : S2CNotify → List ClientRef → List Effect
send_all n [] = []
send_all n (client ∷ clients) = send client (notify n) ∷ send_all n clients

unfoldable pub user_entry : Room → ClientId → UserEntry
user_entry room client_id = record {
  client_id = client_id;
  user_id = unwrap_or (lookup client_id room.client_user_ids) 0;
}

unfoldable pub broadcast_entry : ClientBroadcast → BroadcastEntry
broadcast_entry b = record {
  client_id = b.client_id;
  broadcast_id = b.id;
  name = b.name;
  kind = b.kind;
}

-- ===== src/Server/State.antt =====
-- The state of `RtpServer` of server/src/rtp_server/server.rs, and what it needs of an `RtpClient`.
-- Instants and durations are natural numbers. The address and the request handler, which are
-- written once, are left out, and so is `weak_ref`: the server is there for as long as it is used.
use simple_screen_share.Base.{ℕ, ◌-◌, Bool, false, String, Option, List, [], ltb}
use simple_screen_share.Base.Map.{Map}
use simple_screen_share.Base.Result.{Result}
use simple_screen_share.Messages.{ClientId, UserId, RoomId, BroadcastKind, IceCandidate}
use simple_screen_share.Broadcast.{ClientRef, RoomBroadcastSource, RoomBroadcastTarget}
use simple_screen_share.Room.State.{Room}

pub record RoomToken : Type 0 where
  pub user_id : UserId
  pub target_room : RoomId
  pub issued_at : ℕ
  pub expires_after : ℕ

-- `elapsed` is zero before `issued_at`.
unfoldable pub is_expired : ℕ → RoomToken → Bool
is_expired now token = ltb token.expires_after (now - token.issued_at)

-- The calls of a client's `RtpClient`; errors are their texts. A call may change the client.
pub record RtpCalls (Rtp : Type 0) : Type 0 where
  pub new : ClientId → Result Rtp String
  pub apply_offer : Rtp → String → Rtp × Result String String
  pub apply_answer : Rtp → String → Rtp × Option String
  pub apply_ice_candidates : Rtp → List IceCandidate → Rtp × Option String
  pub apply_ice_candidates_finished : Rtp → Rtp × Option String
  pub create_broadcast_source : Rtp → String → BroadcastKind → Rtp × RoomBroadcastSource
  pub create_broadcast_target : Rtp → BroadcastKind → Rtp × String × RoomBroadcastTarget

-- `shutdown_accept` and `shutdown_tick` are whether the sender is there. `clients` has the
-- connections and `rtp_clients` the `RtpClient` objects that all handlers of a client share.
pub record RtpServer (Rtp : Type 0) : Type 0 where
  pub client_id_index : ClientId
  pub clients : Map ClientId ClientRef
  pub client_rooms : Map ClientId RoomId
  pub rtp_clients : Map ClientId Rtp
  pub shutdown_accept : Bool
  pub shutdown_tick : Bool
  pub tokens : Map String RoomToken
  pub room_id_index : RoomId
  pub rooms : Map RoomId Room

-- The server before its first room.
unfoldable pub blank : {Rtp : Type 0} → RtpServer Rtp
blank = record {
  client_id_index = 0;
  clients = [];
  client_rooms = [];
  rtp_clients = [];
  shutdown_accept = false;
  shutdown_tick = false;
  tokens = [];
  room_id_index = 0;
  rooms = [];
}

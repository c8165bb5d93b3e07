-- ===== src/Server/Rooms.antt =====
-- The rooms and join tokens of `RtpServer` (its `RtpRoomManager`), its ticks, and how connections
-- come and go.
use simple_screen_share.Base.{
  ℕ, ◌+◌, ◌%◌, ◌^◌, Bool, true, not, String, Option, none, some, List, [], ◌∷◌, ◌++◌, if◌then◌else◌,
}
use simple_screen_share.Base.Map.{nat_key, lookup, contains_key, insert, remove, update, retain}
use simple_screen_share.Base.Result.{Result, ok, err, string_key}
use simple_screen_share.Messages.{ClientId, UserId, RoomId}
use simple_screen_share.Broadcast.{ClientRef}
use simple_screen_share.Room.State.{Effect, new as new_room}
use simple_screen_share.Room.Clients.{remove_client}
use simple_screen_share.Server.State.{RoomToken, is_expired, RtpServer, blank}

-- `wrapping_add(1)` on u64.
unfoldable pub next_index : ℕ → ℕ
next_index i = (i + 1) % 2 ^ 64

pub record RoomJoinToken : Type 0 where
  pub server_url : String
  pub token : String

pub data JoinTokenError : Type 0 where
  room_does_not_exist : JoinTokenError

-- The tasks that the end of a connection spawns.
pub data Task (Rtp : Type 0) : Type 0 where
  leave_room : RoomId → ClientId → Task Rtp
  close_rtp : Rtp → Task Rtp

module _ {Rtp : Type 0} where
  unfoldable pub create_room : RtpServer Rtp → UserId → RtpServer Rtp × RoomId
  unfolding next_index new_room
  create_room server owner_id =
      let room_id = next_index server.room_id_index in
      (
        record server {
          room_id_index = room_id;
          rooms = insert room_id (new_room room_id) server.rooms;
        },
        room_id,
      )

  unfoldable pub new : RtpServer Rtp
  unfolding blank create_room
  new = (create_room blank 3165431348352514738).0

  unfoldable pub delete_room : RtpServer Rtp → RoomId → RtpServer Rtp × Bool
  delete_room server room_id =
      (record server { rooms = remove room_id server.rooms }, contains_key room_id server.rooms)

  -- `token` is the text of 30 characters that the random generator gives.
  unfoldable pub create_join_token :
      ℕ
      → String
      → RtpServer Rtp
      → UserId
      → RoomId
      → ℕ
      → RtpServer Rtp × Result RoomJoinToken JoinTokenError
  create_join_token now token server user_id room_id expires_after =
      let info : RoomToken = record {
        user_id = user_id;
        target_room = room_id;
        issued_at = now;
        expires_after = expires_after;
      } in
      if contains_key room_id server.rooms
      then (
        record server { tokens = insert token info server.tokens },
        ok (record { server_url = "ws://localhost:8088"; token = token }),
      )
      else (server, err room_does_not_exist)

  unfoldable pub tick : ℕ → RtpServer Rtp → RtpServer Rtp
  unfolding is_expired
  tick now server = record server {
    tokens = retain (λ token info. not (is_expired now info)) server.tokens;
  }

  unfoldable pub spawn_tick : RtpServer Rtp → RtpServer Rtp × Option String
  spawn_tick server =
      if server.shutdown_tick
      then (server, some "server ticking is already running")
      else (record server { shutdown_tick = true }, none)

  -- `bind` is the error of `TcpListener::bind`, if it fails.
  unfoldable pub start_server : Option String → RtpServer Rtp → RtpServer Rtp × Option String
  start_server bind server =
      if server.shutdown_accept
      then (server, some "server already running")
      else (record server { shutdown_accept = true }, bind)

  -- A round of the accept loop: the new client gets the next id. `object` is the new connection.
  unfoldable pub accept : ℕ → RtpServer Rtp → RtpServer Rtp × ClientRef
  unfolding next_index
  accept object server =
      let client_id = next_index server.client_id_index in
      let client : ClientRef = record { object = object; client_id = client_id } in
      (
        record server {
          client_id_index = client_id;
          clients = insert client_id client server.clients;
        },
        client,
      )

  -- The task that `ServerClientSubscriber::connection_closed` spawns.
  unfoldable pub connection_closed : ClientId → RtpServer Rtp → RtpServer Rtp × List (Task Rtp)
  connection_closed client_id server =
      let leave : List (Task Rtp) = elim (lookup client_id server.client_rooms) [
        | none ↦ []
        | some room_id ↦
            if contains_key room_id server.rooms then leave_room room_id client_id ∷ [] else []
      ] in
      let close : List (Task Rtp) = elim (lookup client_id server.rtp_clients) [
        | none ↦ []
        | some rtp ↦ close_rtp rtp ∷ []
      ] in
      (
        record server {
          clients = remove client_id server.clients;
          client_rooms = remove client_id server.client_rooms;
          rtp_clients = remove client_id server.rtp_clients;
        },
        leave ++ close,
      )

  -- A spawned task runs. A room that was deleted meanwhile is not the server's any more.
  unfoldable pub run_task : Task Rtp → RtpServer Rtp → RtpServer Rtp × List Effect
  unfolding remove_client
  run_task (leave_room room_id client_id) server = elim (lookup room_id server.rooms) [
    | none ↦ (server, [])
    | some room ↦ (
      record server { rooms = update room_id (λ r. (remove_client room client_id).0) server.rooms },
      (remove_client room client_id).1,
    )
  ]
  run_task (close_rtp rtp) server = (server, [])

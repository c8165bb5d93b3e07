-- ===== src/Server/Late.antt =====
-- A client of server/src/rtp_server/server.rs whose connection ends while its session is starting.
use simple_screen_share.Base.{ℕ, ◌≡◌, refl, true, false, String, none, some, arith, ap, ◌∙◌}
use simple_screen_share.Base.Map.{
  nat_key, lookup, contains_key, lookup-insert_same, lookup-update, lookup-remove_same,
}
use simple_screen_share.Messages.{session_initialize_success}
use simple_screen_share.Broadcast.{ClientRef}
use simple_screen_share.Room.State.{Room}
use simple_screen_share.Room.Clients.{add_client}
use simple_screen_share.Server.State.{RtpCalls, RtpServer, RoomToken}
use simple_screen_share.Server.Rooms.{connection_closed, run_task}
use simple_screen_share.Server.Sessions.{join_room, put_room}
use simple_screen_share.Server.Closing.{closed, run_tasks}
use simple_screen_share.Server.Joining.{add_client-member}
use simple_screen_share.Server.Phases.{Progress, joining, answered, join_phase, advance}

-- The last part of the handler, behind the end of the connection.
abbrev pub late :
    {Rtp : Type 0}
    → RtpCalls Rtp
    → ℕ
    → ClientRef
    → RtpServer Rtp
    → RoomToken
    → (sdp_answer : String) → Progress Rtp
late calls now client s info sdp_answer =
    advance calls now client (closed client.client_id s) (joining info sdp_answer)

module _ {Rtp : Type 0} (calls : RtpCalls Rtp) (now : ℕ) (client : ClientRef) (s : RtpServer Rtp)
    (info : RoomToken) (sdp_answer : String) (room : Room)
    (there : lookup info.target_room s.rooms ≡ some room)
    (outside : lookup client.client_id s.client_rooms ≡ none) where
  closed-same_rooms :
      ((closed client.client_id s).rooms ≡ s.rooms)
      × (contains_key client.client_id (closed client.client_id s).clients ≡ false)
  unfolding closed connection_closed run_task run_tasks
  closed-same_rooms = ground (arith, lookup-remove_same client.client_id s.clients)

  -- The connection of a client ends, and the tasks that remove it have run, while its handler is
  -- between the offer and the last part: the handler still adds the client to the room and registers
  -- it there, and answers with success, though the client is not among the server's clients.
  pub joins_late :
      ((late calls now client s info sdp_answer).phase
        ≡ answered (session_initialize_success sdp_answer client.client_id info.user_id))
      × (contains_key client.client_id (late calls now client s info sdp_answer).server.clients
          ≡ false)
      × (lookup client.client_id (late calls now client s info sdp_answer).server.client_rooms
          ≡ some room.id)
      × (lookup info.target_room (late calls now client s info sdp_answer).server.rooms
          ≡ some (add_client room client info.user_id).0)
      × (contains_key client.client_id (add_client room client info.user_id).0.clients ≡ true)
  unfolding advance join_phase join_room put_room
  joins_late =
      let t = closed client.client_id s in
      let same = closed-same_rooms in
      let found : lookup info.target_room t.rooms ≡ some room =
        ap (lookup info.target_room) same.0 ∙ there in
      let joined = (add_client room client info.user_id).0 in
      rw (found, join_room)
        (
          refl,
          same.1,
          lookup-insert_same client.client_id room.id t.client_rooms,
          ground (arith, lookup-update info.target_room info.target_room (λ old. joined) t.rooms),
          add_client-member room client info.user_id,
        )

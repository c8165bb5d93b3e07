-- ===== src/Server/Sessions.antt =====
-- The start of a session, the first branch of `ServerClientHandler::handle_request` of
-- server/src/rtp_server/server.rs. Texts of errors are put together as `format!` does.
use Prim.Native.String.{◌++◌ as text_append}
use simple_screen_share.Base.{ℕ, ◌==◌, String, Option, none, some, List, [], if◌then◌else◌}
use simple_screen_share.Base.Map.{nat_key, lookup, contains_key, insert, remove, update}
use simple_screen_share.Base.Result.{Result, ok, err, string_key}
use simple_screen_share.Messages.{
  ClientId, RoomId, RequestInitializeSession, S2CResponse, internal_error,
  session_initialize_success, session_already_initialized, session_invalid_token,
  session_room_closed, session_unsupported_version,
}
use simple_screen_share.Broadcast.{ClientRef}
use simple_screen_share.Room.State.{Room, Effect}
use simple_screen_share.Room.Clients.{add_client}
use simple_screen_share.Room.Broadcasts.{Started}
use simple_screen_share.Server.State.{RoomToken, is_expired, RtpCalls, RtpServer}

abbrev pub server_request_version : ℕ
server_request_version = 1

pub record Handled (Rtp : Type 0) : Type 0 where
  pub server : RtpServer Rtp
  pub effects : List Effect
  pub response : S2CResponse

module _ {Rtp : Type 0} where
  -- A response without effects.
  unfoldable pub respond : RtpServer Rtp → S2CResponse → Handled Rtp
  respond server response = record { server = server; effects = []; response = response }

  unfoldable pub put_rtp : ClientId → Rtp → RtpServer Rtp → RtpServer Rtp
  put_rtp client_id rtp server = record server {
    rtp_clients = update client_id (λ old. rtp) server.rtp_clients;
  }

  unfoldable pub put_room : RoomId → Room → RtpServer Rtp → RtpServer Rtp
  put_room room_id room server = record server { rooms = update room_id (λ old. room) server.rooms }

  -- The room changed and answered.
  unfoldable pub answer : RtpServer Rtp → RoomId → Started → Handled Rtp
  unfolding put_room
  answer server room_id started = record {
    server = put_room room_id started.room server;
    effects = started.effects;
    response = started.response;
  }

  -- `handler_get_current_room`, with the room's place in the map.
  unfoldable pub current_room : RtpServer Rtp → ClientId → Option (RoomId × Room)
  current_room server client_id = elim (lookup client_id server.client_rooms) [
    | none ↦ none
    | some room_id ↦ elim (lookup room_id server.rooms) [
      | none ↦ none
      | some room ↦ some (room_id, room)
    ]
  ]

  unfoldable pub take_token :
      ℕ → RtpServer Rtp → String → RtpServer Rtp × Result RoomToken S2CResponse
  unfolding is_expired
  take_token now server token =
      let taken = record server { tokens = remove token server.tokens } in
      if contains_key 0 server.client_rooms
      then (server, err session_already_initialized)
      else elim (lookup token server.tokens) [
        | none ↦ (server, err session_invalid_token)
        | some info ↦
            if is_expired now info then (taken, err session_invalid_token) else (taken, ok info)
      ]

  -- The last part of a session's start: the client joins the token's room.
  unfoldable pub join_room : RtpServer Rtp → ClientRef → RoomToken → String → Handled Rtp
  unfolding respond put_room add_client
  join_room server client info sdp_answer = elim (lookup info.target_room server.rooms) [
    | none ↦ respond server session_room_closed
    | some room ↦
        let joined = add_client room client info.user_id in
        let server' = put_room info.target_room joined.0 server in
        record {
          server = record server' {
            client_rooms = insert client.client_id room.id server'.client_rooms;
          };
          effects = joined.1;
          response = session_initialize_success sdp_answer client.client_id info.user_id;
        }
  ]

  module _ (calls : RtpCalls Rtp) where
    unfoldable pub obtain_rtp : RtpServer Rtp → ClientId → RtpServer Rtp × Result Rtp S2CResponse
    obtain_rtp server client_id = elim (lookup client_id server.rtp_clients) [
      | some rtp ↦ (server, ok rtp)
      | none ↦ elim (calls.new client_id) [
        | err error ↦
            (server, err (internal_error (text_append "failed to create rtp client: " error)))
        | ok rtp ↦ (record server { rtp_clients = insert client_id rtp server.rtp_clients }, ok rtp)
      ]
    ]

    unfoldable pub offer_and_join :
        RtpServer Rtp → ClientRef → RoomToken → String → Rtp → Handled Rtp
    unfolding respond put_rtp join_room
    offer_and_join server client info offer rtp =
        let (rtp', applied) = calls.apply_offer rtp offer in
        let server' = put_rtp client.client_id rtp' server in
        elim applied [
          | err error ↦
              respond server' (internal_error (text_append "failed to apply offer: " error))
          | ok sdp_answer ↦ join_room server' client info sdp_answer
        ]

    unfoldable pub connect : RtpServer Rtp → ClientRef → String → RoomToken → Handled Rtp
    unfolding respond obtain_rtp offer_and_join
    connect server client offer info =
        let (server', obtained) = obtain_rtp server client.client_id in
        elim obtained [
          | err response ↦ respond server' response
          | ok rtp ↦ offer_and_join server' client info offer rtp
        ]

    unfoldable pub initialize_session :
        ℕ → RtpServer Rtp → ClientRef → RequestInitializeSession → Handled Rtp
    unfolding respond take_token connect
    initialize_session now server client payload =
        let (server', taken) = take_token now server payload.token in
        if payload.version == server_request_version
        then elim taken [
          | err response ↦ respond server' response
          | ok info ↦ connect server' client payload.offer info
        ]
        else respond server (session_unsupported_version server_request_version)

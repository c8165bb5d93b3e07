-- ===== src/Rest/Joining.antt =====
-- From the route that gives a join token, of server/src/rest_controller/routes/room.rs, to the
-- session that is started with it.
use simple_screen_share.Base.{ℕ, ◌+◌, ◌≤◌, ◌≡◌, true, false, String, none, some}
use simple_screen_share.Base.Map.{nat_key, lookup, contains_key}
use simple_screen_share.Base.Result.{ok}
use simple_screen_share.Messages.{
  UserId, RoomId, BroadcastId, initialize_sesstion, RequestInitializeSession,
  session_initialize_success,
}
use simple_screen_share.Broadcast.{ClientRef}
use simple_screen_share.Server.State.{RtpCalls, RtpServer}
use simple_screen_share.Server.Rooms.{create_join_token}
use simple_screen_share.Server.Requests.{handle_request}
use simple_screen_share.Server.Issuing.{create_join_token-lets_in}
use simple_screen_share.Rest.{JwtClaims}
use simple_screen_share.Rest.Parsing.{user_id}
use simple_screen_share.Rest.Rooms.{room_join, expires_after, join_response, post_room_join}

module _ {Rtp : Type 0} (at : ℕ) (s : RtpServer Rtp) (claims : JwtClaims) (id : RoomId)
    (user : UserId) (parsed : user_id claims ≡ some user)
    (room : contains_key id s.rooms ≡ true) where
  post_room_join-created :
      (token : String)
      → post_room_join at token s claims id
        ≡ some (
          (create_join_token at token s user id expires_after).0,
          room_join "ws://localhost:8088" token 120000,
        )
  unfolding post_room_join create_join_token join_response
  post_room_join-created token = rw (parsed, post_room_join) (rw room)

  -- Who asks for a room that exists gets a token with which a client starts a session there, as the
  -- user of the request's claims, during the 120 seconds that the answer names: if no session is
  -- registered for client 0, the client has no RTP client yet, and a new one takes the offer.
  pub post_room_join-lets_in :
      (calls : RtpCalls Rtp) (to_lowercase : String → String) (rng : ℕ → BroadcastId) (now : ℕ)
      (client : ClientRef) (payload : RequestInitializeSession) (sdp : String) (rtp : Rtp)
      → contains_key 0 s.client_rooms ≡ false
      → now ≤ at + expires_after
      → payload.version ≡ 1
      → lookup client.client_id s.rtp_clients ≡ none
      → calls.new client.client_id ≡ ok rtp
      → (calls.apply_offer rtp payload.offer).1 ≡ ok sdp
      → (s' : RtpServer Rtp) × (post_room_join at payload.token s claims id
          ≡ some (s', room_join "ws://localhost:8088" payload.token 120000))
        × ((handle_request calls to_lowercase rng now s' client
              (initialize_sesstion payload)).response
            ≡ session_initialize_success sdp client.client_id user)
  post_room_join-lets_in calls to_lowercase rng now client payload sdp rtp zero early v fresh made
        applied =
      (
        (create_join_token at payload.token s user id expires_after).0,
        post_room_join-created payload.token,
        create_join_token-lets_in calls to_lowercase rng now at s user id expires_after client
            payload sdp rtp room zero early v fresh made applied,
      )

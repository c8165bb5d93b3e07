-- ===== src/Server/Issuing.antt =====
-- What a join token is good for that server/src/rtp_server/server.rs has issued.
use simple_screen_share.Base.{ℕ, ◌+◌, ◌≤◌, ◌≡◌, ap, ◌∙◌, true, false, String, none, arith}
use simple_screen_share.Base.Map.{nat_key, lookup, contains_key, lookup-insert_same}
use simple_screen_share.Base.Result.{ok, string_key}
use simple_screen_share.Messages.{
  UserId, RoomId, BroadcastId, initialize_sesstion, RequestInitializeSession,
  session_initialize_success,
}
use simple_screen_share.Broadcast.{ClientRef}
use simple_screen_share.Server.State.{RtpCalls, RtpServer, RoomToken}
use simple_screen_share.Server.Rooms.{create_join_token}
use simple_screen_share.Server.Sessions.{
  respond, put_rtp, put_room, take_token, join_room, obtain_rtp, offer_and_join, connect,
  initialize_session,
}
use simple_screen_share.Server.Requests.{handle_request}

module _ {Rtp : Type 0} (calls : RtpCalls Rtp) (to_lowercase : String → String)
    (rng : ℕ → BroadcastId) (now : ℕ) where
  take_token-issued :
      (at : ℕ) (token : String) (s : RtpServer Rtp) (user : UserId) (id : RoomId) (lasts : ℕ)
      → contains_key id s.rooms ≡ true
      → contains_key 0 s.client_rooms ≡ false
      → now ≤ at + lasts
      → (take_token now (create_join_token at token s user id lasts).0 token).1
        ≡ ok (record { user_id = user; target_room = id; issued_at = at; expires_after = lasts })
  unfolding take_token create_join_token
  take_token-issued at token s user id lasts room zero early =
      let info : RoomToken = record {
        user_id = user;
        target_room = id;
        issued_at = at;
        expires_after = lasts;
      } in
      ground (arith, lookup-insert_same token info s.tokens)

  take_token-keeps :
      (at : ℕ) (token : String) (s : RtpServer Rtp) (user : UserId) (id : RoomId) (lasts : ℕ)
      → ((take_token now (create_join_token at token s user id lasts).0 token).0.rooms ≡ s.rooms)
        × ((take_token now (create_join_token at token s user id lasts).0 token).0.rtp_clients
            ≡ s.rtp_clients)
  unfolding take_token create_join_token
  take_token-keeps at token s user id lasts = ground arith

  connect-opens :
      (t : RtpServer Rtp) (client : ClientRef) (info : RoomToken) (offer sdp : String) (rtp : Rtp)
      → contains_key info.target_room t.rooms ≡ true
      → lookup client.client_id t.rtp_clients ≡ none
      → calls.new client.client_id ≡ ok rtp
      → (calls.apply_offer rtp offer).1 ≡ ok sdp
      → (connect calls t client offer info).response
        ≡ session_initialize_success sdp client.client_id info.user_id
  unfolding connect respond obtain_rtp offer_and_join put_rtp join_room put_room
  connect-opens t client info offer sdp rtp room fresh made applied = ground arith

  -- A token that was issued for a room lets its user in until it expires: the start of a session
  -- with it succeeds if the room exists, no session is registered for client 0, the client has no
  -- RTP client yet, and a new one takes the offer.
  pub create_join_token-lets_in :
      (at : ℕ) (s : RtpServer Rtp) (user : UserId) (id : RoomId) (lasts : ℕ) (client : ClientRef)
      (payload : RequestInitializeSession) (sdp : String) (rtp : Rtp)
      → contains_key id s.rooms ≡ true
      → contains_key 0 s.client_rooms ≡ false
      → now ≤ at + lasts
      → payload.version ≡ 1
      → lookup client.client_id s.rtp_clients ≡ none
      → calls.new client.client_id ≡ ok rtp
      → (calls.apply_offer rtp payload.offer).1 ≡ ok sdp
      → (handle_request calls to_lowercase rng now
          (create_join_token at payload.token s user id lasts).0
          client
          (initialize_sesstion payload)).response
        ≡ session_initialize_success sdp client.client_id user
  unfolding handle_request initialize_session respond
  create_join_token-lets_in at s user id lasts client payload sdp rtp room zero early v fresh made
        applied =
      let issued = (create_join_token at payload.token s user id lasts).0 in
      let taken = take_token now issued payload.token in
      let info : RoomToken = record {
        user_id = user;
        target_room = id;
        issued_at = at;
        expires_after = lasts;
      } in
      let kept = take_token-keeps at payload.token s user id lasts in
      rw (v, initialize_session)
        (rw (take_token-issued at payload.token s user id lasts room zero early, initialize_session)
          (connect-opens taken.0 client info payload.offer sdp rtp
            (ap (contains_key id) kept.0 ∙ room) (ap (lookup client.client_id) kept.1 ∙ fresh) made
            applied))

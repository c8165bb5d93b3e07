-- ===== src/Server/Joining.antt =====
-- Whom the start of a session of server/src/rtp_server/server.rs lets in.
use simple_screen_share.Base.{
  ℕ, ◌≡◌, ap, sym, ◌∙◌, Bool, true, false, Bool-cases, Option-cases, inl, inr, String, some, arith,
  ◌==◌,
}
use simple_screen_share.Base.Map.{nat_key, lookup, contains_key, lookup-insert_same, lookup-update}
use simple_screen_share.Base.Result.{ok, err, Result-cases, string_key}
use simple_screen_share.Messages.{
  ClientId, UserId, BroadcastId, initialize_sesstion, RequestInitializeSession,
  session_initialize_success, S2CResponse,
}
use simple_screen_share.Broadcast.{ClientRef}
use simple_screen_share.Room.State.{Room}
use simple_screen_share.Room.Clients.{add_client}
use simple_screen_share.Server.State.{RtpCalls, RtpServer, RoomToken, is_expired}
use simple_screen_share.Server.Sessions.{
  Handled, respond, put_rtp, put_room, take_token, join_room, obtain_rtp, offer_and_join, connect,
  initialize_session,
}
use simple_screen_share.Server.Requests.{handle_request}

abbrev starts_session : S2CResponse → Bool
starts_session (session_initialize_success _ _ _) = true
starts_session _ = false

pub add_client-member :
    (r : Room) (client : ClientRef) (user : UserId)
    → contains_key client.client_id (add_client r client user).0.clients ≡ true
unfolding add_client
add_client-member r client user =
    ground (arith, lookup-insert_same client.client_id client r.clients)

module _ {Rtp : Type 0} (calls : RtpCalls Rtp) (to_lowercase : String → String)
    (rng : ℕ → BroadcastId) (now : ℕ) where
  -- The client is in the room of the token and the session is for the token's user.
  pub record Joined (h : Handled Rtp) (client : ClientRef) (info : RoomToken)
      (own_client : ClientId) (own_user : UserId) : Type 0 where
    pub room : Room
    pub same_user : own_user ≡ info.user_id
    pub same_client : own_client ≡ client.client_id
    pub there : lookup info.target_room h.server.rooms ≡ some room
    pub member : contains_key client.client_id room.clients ≡ true
    pub registered : lookup client.client_id h.server.client_rooms ≡ some room.id

  add_client-id :
      (r : Room) (client : ClientRef) (user : UserId) → (add_client r client user).0.id ≡ r.id
  unfolding add_client
  add_client-id r client user = ground arith

  join_room-Joined :
      (t : RtpServer Rtp) (client : ClientRef) (info : RoomToken) (sdp sdp_answer : String)
      (own_client : ClientId) (own_user : UserId)
      → (join_room t client info sdp).response
        ≡ session_initialize_success sdp_answer own_client own_user
      → Joined (join_room t client info sdp) client info own_client own_user
  unfolding join_room respond put_room
  join_room-Joined t client info sdp sdp_answer own_client own_user e =
      elim (Option-cases (lookup info.target_room t.rooms)) [
        | inl missing ↦ ground arith
        | inr (room, found) ↦
            let joined = (add_client room client info.user_id).0 in
            rw (found, join_room)
              (record {
                room = joined;
                same_user = ground arith;
                same_client = ground arith;
                there = ground (
                  arith,
                  lookup-update info.target_room info.target_room (λ old. joined) t.rooms,
                );
                member = add_client-member room client info.user_id;
                registered =
                    lookup-insert_same client.client_id room.id t.client_rooms
                    ∙ ap some (sym (add_client-id room client info.user_id));
              })
      ]

  offer_and_join-Joined :
      (t : RtpServer Rtp) (client : ClientRef) (info : RoomToken) (offer : String) (rtp : Rtp)
      (sdp_answer : String) (own_client : ClientId) (own_user : UserId)
      → (offer_and_join calls t client info offer rtp).response
        ≡ session_initialize_success sdp_answer own_client own_user
      → Joined (offer_and_join calls t client info offer rtp) client info own_client own_user
  unfolding offer_and_join respond
  offer_and_join-Joined t client info offer rtp sdp_answer own_client own_user e =
      let applied = calls.apply_offer rtp offer in
      elim (Result-cases applied.1) [
        | inl (sdp, f) ↦
            rw (f, offer_and_join)
              (join_room-Joined (put_rtp client.client_id applied.0 t) client info sdp sdp_answer
                own_client own_user (rw (f, offer_and_join) at e))
        | inr (error, f) ↦ ground arith
      ]

  obtain_rtp-refuses :
      (t : RtpServer Rtp) (c : ClientId) (response : S2CResponse)
      → (obtain_rtp calls t c).1 ≡ err response
      → starts_session response ≡ false
  unfolding obtain_rtp
  obtain_rtp-refuses t c response e = ground arith

  connect-Joined :
      (t : RtpServer Rtp) (client : ClientRef) (offer : String) (info : RoomToken)
      (sdp_answer : String) (own_client : ClientId) (own_user : UserId)
      → (connect calls t client offer info).response
        ≡ session_initialize_success sdp_answer own_client own_user
      → Joined (connect calls t client offer info) client info own_client own_user
  unfolding connect respond
  connect-Joined t client offer info sdp_answer own_client own_user e =
      let obtained = obtain_rtp calls t client.client_id in
      elim (Result-cases obtained.1) [
        | inl (rtp, f) ↦
            rw (f, connect)
              (offer_and_join-Joined obtained.0 client info offer rtp sdp_answer own_client own_user
                (rw (f, connect) at e))
        | inr (response, f) ↦ ground (arith, obtain_rtp-refuses t client.client_id response f)
      ]

  take_token-refuses :
      (s : RtpServer Rtp) (token : String) (response : S2CResponse)
      → (take_token now s token).1 ≡ err response
      → starts_session response ≡ false
  unfolding take_token
  take_token-refuses s token response e = ground arith

  take_token-gives :
      (s : RtpServer Rtp) (token : String) (info : RoomToken)
      → (take_token now s token).1 ≡ ok info
      → (lookup token s.tokens ≡ some info) × (is_expired now info ≡ false)
  unfolding take_token
  take_token-gives s token info e = ground arith

  -- If the start of a session succeeds, the token was there and had not expired, the session is for
  -- the token's user and the client's own id, and the client is registered for, and in, the token's
  -- room.
  pub initialize_success :
      (s : RtpServer Rtp) (client : ClientRef) (payload : RequestInitializeSession)
      (sdp_answer : String) (own_client : ClientId) (own_user : UserId)
      → (handle_request calls to_lowercase rng now s client (initialize_sesstion payload)).response
        ≡ session_initialize_success sdp_answer own_client own_user
      → (info : RoomToken) × (lookup payload.token s.tokens ≡ some info)
        × (is_expired now info ≡ false)
        × Joined
            (handle_request calls to_lowercase rng now s client (initialize_sesstion payload))
            client
            info
            own_client
            own_user
  unfolding handle_request initialize_session respond
  initialize_success s client payload sdp_answer own_client own_user e =
      let taken = take_token now s payload.token in
      elim (Bool-cases (payload.version == 1)) [
        | inr old ↦ ground arith
        | inl v ↦ elim (Result-cases taken.1) [
          | inr (response, f) ↦ ground (arith, take_token-refuses s payload.token response f)
          | inl (info, f) ↦
              let (issued, valid) = take_token-gives s payload.token info f in
              (
                info,
                issued,
                valid,
                rw (v, initialize_session)
                    (rw (f, initialize_session)
                      (connect-Joined taken.0 client payload.offer info sdp_answer own_client
                        own_user (rw (v, initialize_session, f) at e))),
              )
        ]
      ]

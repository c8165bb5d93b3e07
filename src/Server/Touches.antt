-- ===== src/Server/Touches.antt =====
-- What a request to server/src/rtp_server/server.rs does to the rooms.
use simple_screen_share.Base.{
  ℕ, ◌≡◌, ◌≢◌, refl, ap, ◌∙◌, subst, Bool-cases, Option-cases, inl, inr, String, some, [], arith,
  ◌==◌,
}
use simple_screen_share.Base.Map.{nat_key, lookup, update, lookup-insert, lookup-update}
use simple_screen_share.Base.Result.{Result-cases}
use simple_screen_share.Messages.{
  ClientId, RoomId, BroadcastId, C2SRequest, initialize_sesstion, ice_candidates, negotiation_offer,
  negotiation_answer, broadcast_start, broadcast_stop, broadcast_subscribe, broadcast_unsubscribe,
  RequestInitializeSession, RequestIceCandidates, RequestBroadcastStart,
}
use simple_screen_share.Broadcast.{ClientRef}
use simple_screen_share.Room.State.{Room}
use simple_screen_share.Room.Clients.{add_client}
use simple_screen_share.Room.Broadcasts.{
  broadcast_kind, client_broadcast_start, client_broadcast_subscribe, client_broadcast_unsubscribe,
  client_broadcast_stop,
}
use simple_screen_share.Room.Steps.{Step, joins, starts, stops, subscribes, unsubscribes}
use simple_screen_share.Server.State.{RoomToken, RtpCalls, RtpServer}
use simple_screen_share.Server.Sessions.{
  Handled, respond, put_rtp, put_room, answer, current_room, take_token, join_room, obtain_rtp,
  offer_and_join, connect, initialize_session,
}
use simple_screen_share.Server.Requests.{
  with_rtp, with_room, handle_offer, handle_answer, finish_candidates, handle_candidates,
  handle_start, handle_subscribe, handle_request,
}

-- Every room stands under its own id.
abbrev pub RoomsNamed : {Rtp : Type 0} → RtpServer Rtp → Type 0
RoomsNamed s = (id : RoomId) (r : Room) → lookup id s.rooms ≡ some r → r.id ≡ id

-- The rooms are as before and nothing is sent, or the room that the client is then in has made one
-- step, whose effects are the request's.
pub data Touches {Rtp : Type 0} (to_lowercase : String → String) (s : RtpServer Rtp) (c : ClientId)
    (h : Handled Rtp) : Type 0 where
  untouched : h.server.rooms ≡ s.rooms → h.effects ≡ [] → Touches to_lowercase s c h
  stepped :
      (id : RoomId) (room room' : Room)
      → lookup id s.rooms ≡ some room
      → lookup c h.server.client_rooms ≡ some id
      → Step to_lowercase room h.effects room'
      → h.server.rooms ≡ update id (λ old. room') s.rooms
      → Touches to_lowercase s c h

-- Every room but the one that the client is then in is as it was.
pub Touches-elsewhere :
    {Rtp : Type 0} (to_lowercase : String → String) (s : RtpServer Rtp) (c : ClientId)
    (h : Handled Rtp) (id other : RoomId)
    → Touches to_lowercase s c h
    → lookup c h.server.client_rooms ≡ some id
    → id ≢ other
    → lookup other h.server.rooms ≡ lookup other s.rooms
Touches-elsewhere to_lowercase s c h id other (untouched same quiet) here apart =
    ap (lookup other) same
Touches-elsewhere to_lowercase s c h id other (stepped i room room' there member step moved) here
      apart =
    ground (arith, lookup-update i other (λ old. room') s.rooms)

module _ {Rtp : Type 0} (to_lowercase : String → String) (s : RtpServer Rtp) (c : ClientId) where
  current_room-found :
      (id : RoomId) (room : Room)
      → current_room s c ≡ some (id, room)
      → (lookup c s.client_rooms ≡ some id) × (lookup id s.rooms ≡ some room)
  unfolding current_room
  current_room-found id room e = ground arith

  with_room-Touches :
      (f : RoomId → Room → Handled Rtp)
      → ((id : RoomId) (room : Room)
          → lookup c s.client_rooms ≡ some id
          → lookup id s.rooms ≡ some room
          → Touches to_lowercase s c (f id room))
      → Touches to_lowercase s c (with_room s c f)
  unfolding with_room respond
  with_room-Touches f each = elim (Option-cases (current_room s c)) [
    | inl e ↦ rw (e, with_room) (untouched refl refl)
    | inr ((id, room), e) ↦
        let found = current_room-found id room e in rw (e, with_room) (each id room found.0 found.1)
  ]

  with_rtp-Touches :
      (f : Rtp → Handled Rtp)
      → ((rtp : Rtp) → Touches to_lowercase s c (f rtp))
      → Touches to_lowercase s c (with_rtp s c f)
  unfolding with_rtp respond
  with_rtp-Touches f each = elim (Option-cases (lookup c s.rtp_clients)) [
    | inl e ↦ rw (e, with_rtp) (untouched refl refl)
    | inr (rtp, e) ↦ rw (e, with_rtp) (each rtp)
  ]

module _ {Rtp : Type 0} (calls : RtpCalls Rtp) (to_lowercase : String → String) (s : RtpServer Rtp)
    (c : ClientId) where
  handle_offer-Touches : (offer : String) → Touches to_lowercase s c (handle_offer calls s c offer)
  unfolding handle_offer put_rtp respond
  handle_offer-Touches offer =
      with_rtp-Touches to_lowercase s c _ (λ rtp. untouched (ground arith) (ground arith))

  handle_answer-Touches :
      (payload : String) → Touches to_lowercase s c (handle_answer calls s c payload)
  unfolding handle_answer put_rtp respond
  handle_answer-Touches payload =
      with_rtp-Touches to_lowercase s c _ (λ rtp. untouched (ground arith) (ground arith))

  handle_candidates-Touches :
      (payload : RequestIceCandidates)
      → Touches to_lowercase s c (handle_candidates calls s c payload)
  unfolding handle_candidates finish_candidates put_rtp respond
  handle_candidates-Touches payload =
      with_rtp-Touches to_lowercase s c _ (λ rtp. untouched (ground arith) (ground arith))

  handle_start-Touches :
      (rng : ℕ → BroadcastId) (payload : RequestBroadcastStart)
      → Touches to_lowercase s c (handle_start calls to_lowercase rng s c payload)
  unfolding handle_start put_rtp answer put_room
  handle_start-Touches rng payload = with_rtp-Touches to_lowercase s c _ (λ rtp.
      with_room-Touches to_lowercase s c _ (λ id room here there.
        let source = (calls.create_broadcast_source rtp payload.source payload.kind).1 in
        stepped id room (client_broadcast_start to_lowercase rng room c payload.name source).room
          there here (starts room rng c payload.name source) refl))

  handle_subscribe-Touches :
      (b : BroadcastId) → Touches to_lowercase s c (handle_subscribe calls s c b)
  unfolding handle_subscribe put_rtp answer put_room respond
  handle_subscribe-Touches b = with_room-Touches to_lowercase s c _ (λ id room here there.
      with_rtp-Touches to_lowercase s c _ (λ rtp. elim (Option-cases (broadcast_kind room b)) [
        | inl e ↦ rw (e, handle_subscribe) (untouched refl refl)
        | inr (kind, e) ↦
            let target = (calls.create_broadcast_target rtp kind).2 in
            rw (e, handle_subscribe)
              (stepped id room (client_broadcast_subscribe room c b target).room there here
                (subscribes room c b target) refl)
      ]))

module _ {Rtp : Type 0} (to_lowercase : String → String) (s : RtpServer Rtp) (named : RoomsNamed s)
    (client : ClientRef) where
  pub join_room-Touches :
      (t : RtpServer Rtp) (info : RoomToken) (sdp_answer : String)
      → t.rooms ≡ s.rooms
      → Touches to_lowercase s client.client_id (join_room t client info sdp_answer)
  unfolding join_room put_room respond
  join_room-Touches t info sdp_answer same = elim (Option-cases (lookup info.target_room t.rooms)) [
    | inl e ↦ rw (e, join_room) (untouched same refl)
    | inr (room, e) ↦
        let there = subst (λ m. lookup info.target_room m ≡ some room) same e in
        rw (e, join_room)
          (stepped info.target_room room (add_client room client info.user_id).0 there
            (ground (
              arith,
              named info.target_room room there,
              lookup-insert client.client_id client.client_id room.id t.client_rooms,
            ))
            (joins room client info.user_id)
            (ap (update info.target_room (λ old. (add_client room client info.user_id).0)) same))
  ]

  module _ (calls : RtpCalls Rtp) where
    offer_and_join-Touches :
        (t : RtpServer Rtp) (info : RoomToken) (offer : String) (rtp : Rtp)
        → t.rooms ≡ s.rooms
        → Touches to_lowercase s client.client_id (offer_and_join calls t client info offer rtp)
    unfolding offer_and_join put_rtp respond
    offer_and_join-Touches t info offer rtp same =
        let applied = (calls.apply_offer rtp offer).1 in
        elim (Result-cases applied) [
          | inl (sdp, e) ↦
              rw (e, offer_and_join)
                (join_room-Touches (put_rtp client.client_id (calls.apply_offer rtp offer).0 t) info
                  sdp same)
          | inr (error, e) ↦ rw (e, offer_and_join) (untouched same refl)
        ]

    obtain_rtp-rooms : (t : RtpServer Rtp) → (obtain_rtp calls t client.client_id).0.rooms ≡ t.rooms
    unfolding obtain_rtp
    obtain_rtp-rooms t = ground arith

    connect-Touches :
        (t : RtpServer Rtp) (offer : String) (info : RoomToken)
        → t.rooms ≡ s.rooms
        → Touches to_lowercase s client.client_id (connect calls t client offer info)
    unfolding connect respond
    connect-Touches t offer info same =
        let obtained = obtain_rtp calls t client.client_id in
        let same' = obtain_rtp-rooms t ∙ same in
        elim (Result-cases obtained.1) [
          | inl (rtp, e) ↦ rw (e, connect) (offer_and_join-Touches obtained.0 info offer rtp same')
          | inr (response, e) ↦ rw (e, connect) (untouched same' refl)
        ]

    take_token-rooms :
        (now : ℕ) (t : RtpServer Rtp) (token : String) → (take_token now t token).0.rooms ≡ t.rooms
    unfolding take_token
    take_token-rooms now t token = ground arith

    initialize_session-Touches :
        (now : ℕ) (payload : RequestInitializeSession)
        → Touches to_lowercase s client.client_id (initialize_session calls now s client payload)
    unfolding initialize_session respond
    initialize_session-Touches now payload =
        let taken = take_token now s payload.token in
        let same = take_token-rooms now s payload.token in
        elim (Bool-cases (payload.version == 1)) [
          | inr e ↦ rw (e, initialize_session) (untouched refl refl)
          | inl e ↦
              rw (e, initialize_session)
                (elim (Result-cases taken.1) [
                  | inl (info, f) ↦
                      rw (f, initialize_session) (connect-Touches taken.0 payload.offer info same)
                  | inr (response, f) ↦ rw (f, initialize_session) (untouched same refl)
                ])
        ]

    -- In a server whose rooms stand under their ids, a request changes no room and sends nothing, or
    -- the client is in a room afterwards, and that room alone has made one step, with the effects
    -- that the request has.
    pub handle_request-Touches :
        (rng : ℕ → BroadcastId) (now : ℕ) (request : C2SRequest)
        → Touches to_lowercase s client.client_id
            (handle_request calls to_lowercase rng now s client request)
    unfolding handle_request answer put_room
    handle_request-Touches rng now (initialize_sesstion payload) =
        initialize_session-Touches now payload
    handle_request-Touches rng now (ice_candidates payload) =
        handle_candidates-Touches calls to_lowercase s client.client_id payload
    handle_request-Touches rng now (negotiation_offer payload) =
        handle_offer-Touches calls to_lowercase s client.client_id payload.offer
    handle_request-Touches rng now (negotiation_answer payload) =
        handle_answer-Touches calls to_lowercase s client.client_id payload.answer
    handle_request-Touches rng now (broadcast_start payload) =
        handle_start-Touches calls to_lowercase s client.client_id rng payload
    handle_request-Touches rng now (broadcast_stop b) =
        with_room-Touches to_lowercase s client.client_id _ (λ id room here there.
          stepped id room (client_broadcast_stop room client.client_id b).room there here
            (stops room client.client_id b) refl)
    handle_request-Touches rng now (broadcast_subscribe b) =
        handle_subscribe-Touches calls to_lowercase s client.client_id b
    handle_request-Touches rng now (broadcast_unsubscribe b) =
        with_room-Touches to_lowercase s client.client_id _ (λ id room here there.
          stepped id room (client_broadcast_unsubscribe room client.client_id b).room there here
            (unsubscribes room client.client_id b) refl)

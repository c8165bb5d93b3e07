-- ===== src/Server/Tokens.antt =====
-- How often a join token of server/src/rtp_server/server.rs can be used, and what a tick and a failed
-- start leave.
use simple_screen_share.Base.{
  not, Bool, Option, some, ℕ, ◌≡◌, ap, ◌∙◌, false, Option-cases, inl, inr, String, arith,
}
use simple_screen_share.Base.Map.{
  retain-keeps, retain-holds, nat_key, lookup, contains_key, lookup-remove_same,
}
use simple_screen_share.Base.Result.{Result-cases, string_key}
use simple_screen_share.Messages.{
  ClientId, BroadcastId, initialize_sesstion, RequestInitializeSession, session_invalid_token,
}
use simple_screen_share.Broadcast.{ClientRef}
use simple_screen_share.Server.State.{is_expired, RtpCalls, RtpServer, RoomToken}
use simple_screen_share.Server.Rooms.{tick, start_server}
use simple_screen_share.Server.Sessions.{
  respond, put_rtp, put_room, take_token, join_room, obtain_rtp, offer_and_join, connect,
  initialize_session,
}
use simple_screen_share.Server.Requests.{handle_request}

module _ {Rtp : Type 0} (calls : RtpCalls Rtp) (s : RtpServer Rtp) where
  obtain_rtp-tokens : (c : ClientId) → (obtain_rtp calls s c).0.tokens ≡ s.tokens
  unfolding obtain_rtp
  obtain_rtp-tokens c = ground arith

  offer_and_join-tokens :
      (client : ClientRef) (info : RoomToken) (offer : String) (rtp : Rtp)
      → (offer_and_join calls s client info offer rtp).server.tokens ≡ s.tokens
  unfolding offer_and_join join_room respond put_rtp put_room
  offer_and_join-tokens client info offer rtp = ground arith

module _ {Rtp : Type 0} (calls : RtpCalls Rtp) (to_lowercase : String → String)
    (rng : ℕ → BroadcastId) (now : ℕ) where
  connect-tokens :
      (s : RtpServer Rtp) (client : ClientRef) (offer : String) (info : RoomToken)
      → (connect calls s client offer info).server.tokens ≡ s.tokens
  unfolding connect respond
  connect-tokens s client offer info =
      let obtained = obtain_rtp calls s client.client_id in
      let same = obtain_rtp-tokens calls s client.client_id in
      elim (Result-cases obtained.1) [
        | inl (rtp, e) ↦
            rw (e, connect) (offer_and_join-tokens calls obtained.0 client info offer rtp ∙ same)
        | inr (response, e) ↦ rw (e, connect) same
      ]

  take_token-spent :
      (s : RtpServer Rtp) (token : String)
      → contains_key 0 s.client_rooms ≡ false
      → contains_key token (take_token now s token).0.tokens ≡ false
  unfolding take_token
  take_token-spent s token e = ground (arith, lookup-remove_same token s.tokens)

  -- While no session is registered for client 0, a request of the right version to start a session
  -- uses its token up, whatever comes of the request.
  pub token_spent :
      (s : RtpServer Rtp) (client : ClientRef) (payload : RequestInitializeSession)
      → payload.version ≡ 1
      → contains_key 0 s.client_rooms ≡ false
      → contains_key payload.token
          (handle_request calls to_lowercase rng now s client
            (initialize_sesstion payload)).server.tokens
        ≡ false
  unfolding handle_request initialize_session respond
  token_spent s client payload v zero =
      let taken = take_token now s payload.token in
      let spent = take_token-spent s payload.token zero in
      rw (v, initialize_session)
        (elim (Result-cases taken.1) [
          | inl (info, f) ↦
              rw (f, initialize_session)
                (ap (contains_key payload.token) (connect-tokens taken.0 client payload.offer info)
                  ∙ spent)
          | inr (response, f) ↦ rw (f, initialize_session) spent
        ])

  unknown_token :
      (s : RtpServer Rtp) (client : ClientRef) (payload : RequestInitializeSession)
      → payload.version ≡ 1
      → contains_key 0 s.client_rooms ≡ false
      → contains_key payload.token s.tokens ≡ false
      → (handle_request calls to_lowercase rng now s client (initialize_sesstion payload)).response
        ≡ session_invalid_token
  unfolding handle_request initialize_session respond take_token
  unknown_token s client payload v zero unknown =
      elim (Option-cases (lookup payload.token s.tokens)) [
        | inl e ↦ rw (v, initialize_session) (rw (zero, take_token) (rw (e, take_token)))
        | inr (info, e) ↦ ground arith
      ]

  -- A second request to start a session with a token is refused: after a first request with the
  -- token, while no session is registered for client 0.
  pub token_once :
      (s : RtpServer Rtp) (client client' : ClientRef) (payload payload' : RequestInitializeSession)
      → payload.version ≡ 1
      → payload'.version ≡ 1
      → payload'.token ≡ payload.token
      → contains_key 0 s.client_rooms ≡ false
      → contains_key 0
          (handle_request calls to_lowercase rng now s client
            (initialize_sesstion payload)).server.client_rooms
        ≡ false
      → (handle_request calls to_lowercase rng now
          (handle_request calls to_lowercase rng now s client (initialize_sesstion payload)).server
          client'
          (initialize_sesstion payload')).response
        ≡ session_invalid_token
  token_once s client client' payload payload' v v' same zero zero' =
      let s' =
        (handle_request calls to_lowercase rng now s client (initialize_sesstion payload)).server in
      let spent = token_spent s client payload v zero in
      unknown_token s' client' payload' v' zero' (ap (λ t. contains_key t s'.tokens) same ∙ spent)

module _ {Rtp : Type 0} where
  -- A tick loses no token that is still valid, and leaves none that has expired.
  pub tick-valid :
      (now : ℕ) (s : RtpServer Rtp) (token : String) (info : RoomToken)
      → (lookup token s.tokens ≡ some info
          → is_expired now info ≡ false
          → lookup token (tick now s).tokens ≡ some info)
        × (lookup token (tick now s).tokens ≡ some info → is_expired now info ≡ false)
  unfolding tick
  tick-valid now s token info =
      let p : String → RoomToken → Bool = λ t i. not (is_expired now i) in
      (
        λ e valid. retain-keeps p token info s.tokens e (ap not valid),
        λ e. ground (arith, retain-holds p token info s.tokens e),
      )

  -- If the port cannot be bound, the server does not start, and no later call starts it: each is
  -- told that the server is running already.
  pub start_server_stuck :
      (s : RtpServer Rtp) (error : String) (bind : Option String)
      → s.shutdown_accept ≡ false
      → ((start_server (some error) s).1 ≡ some error)
        × ((start_server bind (start_server (some error) s).0).1 ≡ some "server already running")
  unfolding start_server
  start_server_stuck s error bind e = ground arith

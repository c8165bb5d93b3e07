-- ===== src/Server/Closing.antt =====
-- What the end of a connection does to the server of server/src/rtp_server/server.rs and to the
-- client's room.
use simple_screen_share.Base.{
  ℕ, ◌≡◌, ◌≢◌, ap, sym, ◌∙◌, subst, true, false, Option-cases, inl, inr, String, some, List, [],
  ◌∷◌, arith,
}
use simple_screen_share.Base.Map.{nat_key, lookup, contains_key, lookup-remove_same, lookup-update}
use simple_screen_share.Base.Result.{string_key}
use simple_screen_share.Messages.{
  ClientId, UserId, RoomId, BroadcastId, initialize_sesstion, RequestInitializeSession,
  session_initialize_success,
}
use simple_screen_share.Broadcast.{ClientRef, ClientBroadcast, ready}
use simple_screen_share.Room.State.{Room}
use simple_screen_share.Room.Clients.{remove_client}
use simple_screen_share.Room.Broadcasts.{poll_broadcast}
use simple_screen_share.Room.Leave.{leave_ends_broadcasts, remove_client-absent_after}
use simple_screen_share.Server.State.{RtpCalls, RtpServer, RoomToken}
use simple_screen_share.Server.Rooms.{connection_closed, Task, run_task}
use simple_screen_share.Server.Requests.{handle_request}
use simple_screen_share.Server.Touches.{Touches-elsewhere, handle_request-Touches}
use simple_screen_share.Server.Joining.{initialize_success}
use simple_screen_share.Server.Steps.{requests, Reach, next, Reach-RoomsReached}

module _ {Rtp : Type 0} where
  -- The spawned tasks, each run to its end.
  unfoldable pub run_tasks : List (Task Rtp) → RtpServer Rtp → RtpServer Rtp
  run_tasks [] s = s
  run_tasks (task ∷ tasks) s = run_tasks tasks (run_task task s).0

  -- The connection's end, with what it spawns.
  unfoldable pub closed : ClientId → RtpServer Rtp → RtpServer Rtp
  unfolding run_tasks
  closed c s = run_tasks (connection_closed c s).1 (connection_closed c s).0

  closed-unregistered :
      (c : ClientId) (s : RtpServer Rtp)
      → (contains_key c (closed c s).clients ≡ false)
        × (contains_key c (closed c s).client_rooms ≡ false)
        × (contains_key c (closed c s).rtp_clients ≡ false)
  unfolding closed connection_closed run_task
  closed-unregistered c s = ground (
    arith,
    lookup-remove_same c s.clients,
    lookup-remove_same c s.client_rooms,
    lookup-remove_same c s.rtp_clients,
  )

  closed-room :
      (c : ClientId) (s : RtpServer Rtp) (id : RoomId) (r : Room)
      → lookup c s.client_rooms ≡ some id
      → lookup id s.rooms ≡ some r
      → lookup id (closed c s).rooms ≡ some (remove_client r c).0
  unfolding closed connection_closed run_task
  closed-room c s id r here there =
      ground (arith, lookup-update id id (λ old. (remove_client r c).0) s.rooms)

  closed-other_room :
      (c : ClientId) (s : RtpServer Rtp) (id other : RoomId) (r : Room)
      → lookup c s.client_rooms ≡ some id
      → lookup id s.rooms ≡ some r
      → id ≢ other
      → lookup other (closed c s).rooms ≡ lookup other s.rooms
  unfolding closed connection_closed run_task
  closed-other_room c s id other r here there apart =
      ground (arith, lookup-update id other (λ old. (remove_client r c).0) s.rooms)

module _ {Rtp : Type 0} (calls : RtpCalls Rtp) (to_lowercase : String → String) where
  -- When the connection of a client that is in its room ends in a reachable server, and the spawned
  -- tasks have run, the client is in none of the server's maps and not in the room, and the next
  -- poll of each of its broadcasts that is still there ends that broadcast.
  pub closed-leaves :
      (s : RtpServer Rtp) (c : ClientId) (id : RoomId) (r : Room)
      → Reach calls to_lowercase s
      → lookup c s.client_rooms ≡ some id
      → lookup id s.rooms ≡ some r
      → contains_key c r.clients ≡ true
      → (contains_key c (closed c s).clients ≡ false)
        × (contains_key c (closed c s).client_rooms ≡ false)
        × (contains_key c (closed c s).rtp_clients ≡ false)
        × (r' : Room) × (lookup id (closed c s).rooms ≡ some r')
        × (contains_key c r'.clients ≡ false)
        × ((b : BroadcastId) (x : ClientBroadcast)
            → lookup b r'.broadcasts ≡ some x
            → x.client_id ≡ c
            → (poll_broadcast r' b).poll ≡ ready)
  closed-leaves s c id r reach here there member =
      let (clients, rooms, rtp) = closed-unregistered c s in
      elim (Option-cases (lookup c r.clients)) [
        | inl missing ↦ ground arith
        | inr (h, known) ↦ (
          clients,
          rooms,
          rtp,
          (remove_client r c).0,
          closed-room c s id r here there,
          (remove_client-absent_after r c h known).0,
          λ b x e own.
              leave_ends_broadcasts to_lowercase r c b x
                (Reach-RoomsReached calls to_lowercase s reach id r there).0 member e own,
        )
      ]

  module _ (rng : ℕ → BroadcastId) (now : ℕ) where
    -- A room that a client was in when it started a session in another room is not left when the
    -- connection ends: in a reachable server where the second start succeeds, every room but the one
    -- of its token is after the connection's end as it was before the start, whoever is in it.
    pub stays_behind :
        (s : RtpServer Rtp) (client : ClientRef) (payload : RequestInitializeSession)
        (sdp_answer : String) (own_client : ClientId) (own_user : UserId) (info : RoomToken)
        (a : RoomId)
        → Reach calls to_lowercase s
        → (handle_request calls to_lowercase rng now s client
            (initialize_sesstion payload)).response
          ≡ session_initialize_success sdp_answer own_client own_user
        → lookup payload.token s.tokens ≡ some info
        → info.target_room ≢ a
        → lookup a
            (closed client.client_id
              (handle_request calls to_lowercase rng now s client
                (initialize_sesstion payload)).server).rooms
          ≡ lookup a s.rooms
    stays_behind s client payload sdp_answer own_client own_user info a reach success token other =
        let h = handle_request calls to_lowercase rng now s client (initialize_sesstion payload) in
        let (info', found, valid, joined) =
          initialize_success calls to_lowercase rng now s client payload sdp_answer own_client
            own_user success in
        let reach' = next reach (requests s rng now client (initialize_sesstion payload)) in
        let named = Reach-RoomsReached calls to_lowercase h.server reach' in
        let here =
          joined.registered ∙ ap some (named info'.target_room joined.room joined.there).1 in
        let same_info : info' ≡ info = ground arith in
        let apart : info'.target_room ≢ a =
          subst (λ (i : RoomToken). i.target_room ≢ a) (sym same_info) other in
        closed-other_room client.client_id h.server info'.target_room a joined.room here
          joined.there apart
        ∙ Touches-elsewhere to_lowercase s client.client_id h info'.target_room a
            (handle_request-Touches to_lowercase s
              (λ id r e. (Reach-RoomsReached calls to_lowercase s reach id r e).1) client calls rng
              now (initialize_sesstion payload))
            here apart

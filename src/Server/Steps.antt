-- ===== src/Server/Steps.antt =====
-- The server of server/src/rtp_server/server.rs under any calls, in any order.
use simple_screen_share.Base.{
  ℕ, ◌≡◌, refl, ◌∙◌, subst, Bool-cases, Option-cases, inl, inr, String, Option, some, List, arith,
  ◌==◌,
}
use simple_screen_share.Base.Map.{
  nat_key, lookup, update, lookup-insert, lookup-remove, lookup-update,
}
use simple_screen_share.Messages.{ClientId, UserId, RoomId, BroadcastId, C2SRequest}
use simple_screen_share.Broadcast.{ClientRef}
use simple_screen_share.Room.State.{Room, Effect}
use simple_screen_share.Room.State
use simple_screen_share.Room.Clients.{remove_client}
use simple_screen_share.Room.Steps as RoomSteps
use simple_screen_share.Room.Steps.{
  joins, leaves, starts, stops, subscribes, unsubscribes, polls, ends, streams,
}
use simple_screen_share.Room.Identity.{Step-id}
use simple_screen_share.Server.State.{RtpCalls, RtpServer, blank}
use simple_screen_share.Server.Rooms.{
  create_room, new, delete_room, create_join_token, tick, spawn_tick, start_server, accept,
  connection_closed, next_index, Task, leave_room, close_rtp, run_task,
}
use simple_screen_share.Server.Sessions.{Handled}
use simple_screen_share.Server.Requests.{handle_request}
use simple_screen_share.Server.Touches.{Touches, untouched, stepped, handle_request-Touches}

module _ {Rtp : Type 0} (calls : RtpCalls Rtp) (to_lowercase : String → String) where
  -- `room_moves` is any step of a room, by its tasks, its streams or its methods.
  pub data Step : RtpServer Rtp → RtpServer Rtp → Type 0 where
    requests :
        (s : RtpServer Rtp) (rng : ℕ → BroadcastId) (now : ℕ) (client : ClientRef)
        (request : C2SRequest)
        → Step s (handle_request calls to_lowercase rng now s client request).server
    creates : (s : RtpServer Rtp) (owner : UserId) → Step s (create_room s owner).0
    deletes : (s : RtpServer Rtp) (id : RoomId) → Step s (delete_room s id).0
    issues :
        (s : RtpServer Rtp) (now : ℕ) (token : String) (user : UserId) (id : RoomId)
        (expires_after : ℕ)
        → Step s (create_join_token now token s user id expires_after).0
    ticks : (s : RtpServer Rtp) (now : ℕ) → Step s (tick now s)
    spawns_tick : (s : RtpServer Rtp) → Step s (spawn_tick s).0
    starts_server : (s : RtpServer Rtp) (bind : Option String) → Step s (start_server bind s).0
    accepts : (s : RtpServer Rtp) (object : ℕ) → Step s (accept object s).0
    closes : (s : RtpServer Rtp) (c : ClientId) → Step s (connection_closed c s).0
    runs : (s : RtpServer Rtp) (task : Task Rtp) → Step s (run_task task s).0
    room_moves :
        (s : RtpServer Rtp) (id : RoomId) (room room' : Room) (es : List Effect)
        → lookup id s.rooms ≡ some room
        → RoomSteps.Step to_lowercase room es room'
        → Step s (record s { rooms = update id (λ old. room') s.rooms })

  pub data Reach : RtpServer Rtp → Type 0 where
    created : Reach new
    next : {s s' : RtpServer Rtp} → Reach s → Step s s' → Reach s'

  -- Every room is reached by the methods of `Room`, and stands under its id.
  abbrev pub RoomsReached : RtpServer Rtp → Type 0
  RoomsReached s =
      (id : RoomId) (r : Room)
      → lookup id s.rooms ≡ some r
      → RoomSteps.Reach to_lowercase r × (r.id ≡ id)

module _ {Rtp : Type 0} (calls : RtpCalls Rtp) (to_lowercase : String → String) where
  -- One room moved, the others as they are.
  moved-RoomsReached :
      (s t : RtpServer Rtp) (id : RoomId) (room room' : Room) (es : List Effect)
      → RoomsReached calls to_lowercase s
      → lookup id s.rooms ≡ some room
      → RoomSteps.Step to_lowercase room es room'
      → t.rooms ≡ update id (λ old. room') s.rooms
      → RoomsReached calls to_lowercase t
  moved-RoomsReached s t id room room' es reached there step moved j r e =
      let at = lookup-update id j (λ old. room') s.rooms in
      elim (Bool-cases (id == j)) [
        | inl same ↦
            let here : id ≡ j = ground arith in
            let moved_room : room' ≡ r = ground (arith, at) in
            let before = reached id room there in
            subst (λ (x : Room). RoomSteps.Reach to_lowercase x × (x.id ≡ j)) moved_room
              (RoomSteps.next before.0 step, Step-id step ∙ (before.1 ∙ here))
        | inr other ↦ reached j r (ground (arith, at))
      ]

  pub same-RoomsReached :
      (s t : RtpServer Rtp)
      → RoomsReached calls to_lowercase s
      → t.rooms ≡ s.rooms
      → RoomsReached calls to_lowercase t
  same-RoomsReached s t reached same j r e = reached j r (subst (λ m. lookup j m ≡ some r) same e)

  pub touched-RoomsReached :
      (s : RtpServer Rtp) (c : ClientId) (h : Handled Rtp)
      → RoomsReached calls to_lowercase s
      → Touches to_lowercase s c h
      → RoomsReached calls to_lowercase h.server
  touched-RoomsReached s c h reached (untouched same quiet) =
      same-RoomsReached s h.server reached same
  touched-RoomsReached s c h reached (stepped id room room' there member step moved) =
      moved-RoomsReached s h.server id room room' h.effects reached there step moved

  pub create_room-RoomsReached :
      (s : RtpServer Rtp) (owner : UserId)
      → RoomsReached calls to_lowercase s
      → RoomsReached calls to_lowercase (create_room s owner).0
  unfolding create_room
  create_room-RoomsReached s owner reached j r e =
      let id = next_index s.room_id_index in
      let at = lookup-insert id j (State.new id) s.rooms in
      elim (Bool-cases (id == j)) [
        | inl same ↦
            let here : id ≡ j = ground arith in
            let new_room : State.new id ≡ r = ground (arith, at) in
            subst (λ (x : Room). RoomSteps.Reach to_lowercase x × (x.id ≡ j)) new_room
              (RoomSteps.created id, here)
        | inr other ↦ reached j r (ground (arith, at))
      ]

  run_task-RoomsReached :
      (s : RtpServer Rtp) (task : Task Rtp)
      → RoomsReached calls to_lowercase s
      → RoomsReached calls to_lowercase (run_task task s).0
  unfolding run_task
  run_task-RoomsReached s (close_rtp rtp) reached = reached
  run_task-RoomsReached s (leave_room id c) reached = elim (Option-cases (lookup id s.rooms)) [
    | inl e ↦ rw (e, run_task) reached
    | inr (room, e) ↦
        rw (e, run_task)
          (moved-RoomsReached s
            (record s { rooms = update id (λ old. (remove_client room c).0) s.rooms }) id room
            (remove_client room c).0 (remove_client room c).1 reached e (leaves room c) refl)
  ]

  pub Step-RoomsReached :
      {s s' : RtpServer Rtp}
      → Step calls to_lowercase s s'
      → RoomsReached calls to_lowercase s
      → RoomsReached calls to_lowercase s'
  unfolding delete_room create_join_token tick spawn_tick start_server accept connection_closed
  Step-RoomsReached (requests s rng now client request) reached =
      touched-RoomsReached s client.client_id
        (handle_request calls to_lowercase rng now s client request) reached
        (handle_request-Touches to_lowercase s (λ id r e. (reached id r e).1) client calls rng now
          request)
  Step-RoomsReached (creates s owner) reached = create_room-RoomsReached s owner reached
  Step-RoomsReached (deletes s id) reached =
      λ j r e. reached j r (ground (arith, lookup-remove id j s.rooms))
  Step-RoomsReached (issues s now token user id expires_after) reached =
      same-RoomsReached s (create_join_token now token s user id expires_after).0 reached
        (ground arith)
  Step-RoomsReached (ticks s now) reached = reached
  Step-RoomsReached (spawns_tick s) reached =
      same-RoomsReached s (spawn_tick s).0 reached (ground arith)
  Step-RoomsReached (starts_server s bind) reached =
      same-RoomsReached s (start_server bind s).0 reached (ground arith)
  Step-RoomsReached (accepts s object) reached = reached
  Step-RoomsReached (closes s c) reached = reached
  Step-RoomsReached (runs s task) reached = run_task-RoomsReached s task reached
  Step-RoomsReached (room_moves s id room room' es there step) reached =
      moved-RoomsReached s (record s { rooms = update id (λ old. room') s.rooms }) id room room' es
        reached there step refl

  pub blank-RoomsReached : RoomsReached calls to_lowercase (blank {Rtp = Rtp})
  unfolding blank lookup
  blank-RoomsReached j r e = ground arith

  -- In every state that calls in any order take a new server to, each room stands under its own id
  -- and is one that the methods of `Room` reach from a new room.
  pub Reach-RoomsReached :
      (s : RtpServer Rtp) → Reach calls to_lowercase s → RoomsReached calls to_lowercase s
  unfolding new
  Reach-RoomsReached s created =
      create_room-RoomsReached blank 3165431348352514738 blank-RoomsReached
  Reach-RoomsReached s (next before step) = Step-RoomsReached step (Reach-RoomsReached _ before)

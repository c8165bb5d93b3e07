-- ===== src/Server/InterleavingTests.antt =====
-- Two handlers of server/src/rtp_server/server.rs that start a session with one token at once.
use simple_screen_share.Base.{◌≤◌, ◌≡◌, refl, true, false, String, some, none, [], ◌∷◌}
use simple_screen_share.Base.Map.{nat_key, lookup, contains_key, insert, remove}
use simple_screen_share.Base.Result.{ok, string_key}
use simple_screen_share.Messages.{RequestInitializeSession, session_initialize_success}
use simple_screen_share.Broadcast.{ClientRef}
use simple_screen_share.Room.State.{Room}
use simple_screen_share.Room.State
use simple_screen_share.Room.Clients.{add_client}
use simple_screen_share.Server.State.{RtpCalls, RtpServer, RoomToken, blank, is_expired}
use simple_screen_share.Server.Rooms.{new, create_room, create_join_token}
use simple_screen_share.Server.Sessions.{take_token}
use simple_screen_share.Server.Steps.{RoomsReached}
use simple_screen_share.Server.Phases.{starting, answered, Progress, start_phase, advance}
use simple_screen_share.Server.Interleaving.{
  Serving, issued, took, takes, begins, advances, issues_token, Run, created, then_step,
}
use simple_screen_share.Server.InterleavedRooms.{Run-RoomsReached}
use simple_screen_share.Server.Admissions.{count_issued, count_taken, count_taken-le-count_issued}
use simple_screen_share.Server.Late.{late, joins_late}

abbrev calls : RtpCalls String
calls = record {
  new = λ c. ok "";
  apply_offer = λ rtp offer. (offer, ok "answer");
  apply_answer = λ rtp answer. (rtp, none);
  apply_ice_candidates = λ rtp cs. (rtp, none);
  apply_ice_candidates_finished = λ rtp. (rtp, none);
  create_broadcast_source =
      λ rtp id kind. (rtp, record { kind = kind; events = []; ended = false; plis = 0 });
  create_broadcast_target = λ rtp kind.
      (rtp, "stream", record { track = "track"; events = []; ended = false; sent = [] });
}

abbrev alice : ClientRef
alice = record { object = 0; client_id = 1 }

abbrev bob : ClientRef
bob = record { object = 1; client_id = 2 }

abbrev lower : String → String
lower s = s

abbrev payload : RequestInitializeSession
payload = record { version = 1; token = "token"; offer = "offer" }

-- The token is issued, both handlers begin, and both take their first part.
abbrev info : RoomToken
info = record { user_id = 7; target_room = 1; issued_at = 0; expires_after = 120 }

abbrev with_token : RtpServer String
with_token = (create_join_token 0 "token" new 7 1 120).0

abbrev alice_started : Progress String
alice_started = advance calls 5 alice with_token (starting payload)

abbrev bob_started : Progress String
bob_started = advance calls 5 bob alice_started.server (starting payload)

abbrev both : Serving String
both = record {
  server = bob_started.server;
  sessions = (alice, alice_started.phase) ∷ (bob, bob_started.phase) ∷ [];
}

both-Run : Run calls lower (issued "token" ∷ took "token" ∷ []) both
unfolding takes advance start_phase take_token create_join_token create_room new blank lookup
    is_expired insert remove
both-Run =
    then_step
      (then_step
        (then_step
          (then_step (then_step created (issues_token 0 "token" 7 1 120)) (begins alice payload))
          (begins bob payload))
        (advances 5 [] ((bob, starting payload) ∷ []) alice (starting payload) refl))
      (advances 5 ((alice, alice_started.phase) ∷ []) [] bob (starting payload) refl)

count_taken-le-count_issued_example :
    count_taken "token" (issued "token" ∷ took "token" ∷ [])
    ≤ count_issued "token" (issued "token" ∷ took "token" ∷ [])
count_taken-le-count_issued_example = count_taken-le-count_issued calls lower "token" both-Run

Run-RoomsReached_example : RoomsReached calls lower both.server
Run-RoomsReached_example = Run-RoomsReached calls lower both-Run

abbrev hall : Room
hall = State.new 1

abbrev one_room : RtpServer String
one_room = record blank { rooms = (1, hall) ∷ [] }

joins_late_example :
    ((late calls 5 alice one_room info "answer").phase
      ≡ answered (session_initialize_success "answer" 1 7))
    × (contains_key 1 (late calls 5 alice one_room info "answer").server.clients ≡ false)
    × (lookup 1 (late calls 5 alice one_room info "answer").server.client_rooms ≡ some 1)
    × (lookup 1 (late calls 5 alice one_room info "answer").server.rooms
        ≡ some (add_client hall alice 7).0)
    × (contains_key 1 (add_client hall alice 7).0.clients ≡ true)
unfolding State.new blank lookup
joins_late_example = joins_late calls 5 alice one_room info "answer" hall refl refl

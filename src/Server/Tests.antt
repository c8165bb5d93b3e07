-- ===== src/Server/Tests.antt =====
-- A small server, and the theorems of `Server` and its parts at it.
use simple_screen_share.Base.{ℕ, ◌≡◌, refl, false, String, none, some, [], arith}
use simple_screen_share.Base.Map.{nat_key, lookup, contains_key, insert, remove, update}
use simple_screen_share.Base.Result.{ok, string_key}
use simple_screen_share.Messages.{
  video, BroadcastId, initialize_sesstion, broadcast_start, RequestInitializeSession,
  session_initialize_success, RequestBroadcastStart,
}
use simple_screen_share.Broadcast.{ClientRef, ClientBroadcast, ready}
use simple_screen_share.Room.State.{Room}
use simple_screen_share.Room.State
use simple_screen_share.Room.Clients.{add_client}
use simple_screen_share.Room.Broadcasts.{client_broadcast_start, draw_id, poll_broadcast}
use simple_screen_share.Server.State.{RtpCalls, RtpServer, RoomToken, is_expired, blank}
use simple_screen_share.Server.Rooms.{new, create_room, create_join_token}
use simple_screen_share.Server.Requests.{handle_request}
use simple_screen_share.Server.Touches.{Touches, handle_request-Touches}
use simple_screen_share.Server.Steps.{
  requests, creates, issues, Reach, created, next, Reach-RoomsReached,
}
use simple_screen_share.Server.Joining.{Joined, initialize_success}
use simple_screen_share.Server.Issuing.{create_join_token-lets_in}
use simple_screen_share.Server.Closing.{closed, closed-leaves, stays_behind}

-- A client that takes every offer; its state is the last one.
abbrev calls : RtpCalls String
calls = record {
  new = λ c. ok "";
  apply_offer = λ rtp offer. (offer, ok "answer");
  apply_answer = λ rtp answer. (rtp, none);
  apply_ice_candidates = λ rtp cs. (rtp, none);
  apply_ice_candidates_finished = λ rtp. (rtp, none);
  create_broadcast_source =
      λ rtp id kind. (rtp, record { kind = kind; events = []; ended = false; plis = 0 });
  create_broadcast_target = λ rtp kind.
      (rtp, "stream", record { track = "track"; events = []; ended = false; sent = [] });
}

abbrev alice : ClientRef
alice = record { object = 0; client_id = 1 }

abbrev screen : RequestBroadcastStart
screen = record { name = "screen"; source = "source"; kind = video }

abbrev to_lowercase : String → String
to_lowercase s = s

abbrev rng : ℕ → BroadcastId
rng i = 500

abbrev payload : String → RequestInitializeSession
payload token = record { version = 1; token = token; offer = "offer" }

-- Two rooms, and a token for each of them.
abbrev rooms : RtpServer String
rooms = (create_room new 7).0

abbrev one_token : RtpServer String
one_token = (create_join_token 100 "first" rooms 70 1 30).0

abbrev two_tokens : RtpServer String
two_tokens = (create_join_token 100 "second" one_token 70 2 30).0

abbrev in_first : RtpServer String
in_first =
    (handle_request calls to_lowercase rng 110 two_tokens alice
      (initialize_sesstion (payload "first"))).server

in_first-Reach : Reach calls to_lowercase in_first
in_first-Reach =
    next
      (next (next (next created (creates new 7)) (issues rooms 100 "first" 70 1 30))
        (issues one_token 100 "second" 70 2 30))
      (requests two_tokens rng 110 alice (initialize_sesstion (payload "first")))

abbrev one_room : Room
one_room = (add_client (State.new 1) alice 70).0

create_join_token-lets_in_example :
    (handle_request calls to_lowercase rng 130 one_token alice
      (initialize_sesstion (payload "first"))).response
    ≡ session_initialize_success "answer" 1 70
unfolding new blank create_room lookup insert
create_join_token-lets_in_example =
    create_join_token-lets_in calls to_lowercase rng 130 100 rooms 70 1 30 alice (payload "first")
      "answer" "" refl refl (omega arith) refl refl refl refl

abbrev first : RoomToken
first = record { user_id = 70; target_room = 1; issued_at = 100; expires_after = 30 }

abbrev second : RoomToken
second = record { user_id = 70; target_room = 2; issued_at = 100; expires_after = 30 }

initialize_success_example :
    (info : RoomToken) × (lookup "first" two_tokens.tokens ≡ some info)
    × (is_expired 110 info ≡ false)
    × Joined calls to_lowercase rng 110
        (handle_request calls to_lowercase rng 110 two_tokens alice
          (initialize_sesstion (payload "first")))
        alice
        info
        1
        70
unfolding new blank create_room create_join_token lookup insert remove handle_request
initialize_success_example =
    initialize_success calls to_lowercase rng 110 two_tokens alice (payload "first") "answer" 1 70
      refl

handle_request-Touches_example :
    Touches to_lowercase in_first 1
      (handle_request calls to_lowercase rng 110 in_first alice (broadcast_start screen))
handle_request-Touches_example =
    handle_request-Touches to_lowercase in_first
      (λ id r e. (Reach-RoomsReached calls to_lowercase in_first in_first-Reach id r e).1) alice
      calls rng 110 (broadcast_start screen)

abbrev sharing : RtpServer String
sharing = (handle_request calls to_lowercase rng 110 in_first alice (broadcast_start screen)).server

sharing-Reach : Reach calls to_lowercase sharing
sharing-Reach = next in_first-Reach (requests in_first rng 110 alice (broadcast_start screen))

abbrev shared_room : Room
shared_room =
    (client_broadcast_start to_lowercase rng one_room 1 "screen"
      (record { kind = video; events = []; ended = false; plis = 0 })).room

closed-leaves_example :
    (contains_key 1 (closed 1 sharing).clients ≡ false)
    × (contains_key 1 (closed 1 sharing).client_rooms ≡ false)
    × (contains_key 1 (closed 1 sharing).rtp_clients ≡ false)
    × (r' : Room) × (lookup 1 (closed 1 sharing).rooms ≡ some r')
    × (contains_key 1 r'.clients ≡ false)
    × ((b : BroadcastId) (x : ClientBroadcast)
        → lookup b r'.broadcasts ≡ some x
        → x.client_id ≡ 1
        → (poll_broadcast r' b).poll ≡ ready)
unfolding new blank create_room create_join_token lookup insert remove update handle_request
    add_client client_broadcast_start draw_id
closed-leaves_example =
    closed-leaves calls to_lowercase sharing 1 1 shared_room sharing-Reach refl refl refl

stays_behind_example :
    lookup 1
      (closed 1
        (handle_request calls to_lowercase rng 110 in_first alice
          (initialize_sesstion (payload "second"))).server).rooms
    ≡ lookup 1 in_first.rooms
unfolding new blank create_room create_join_token lookup insert remove update handle_request
    add_client
stays_behind_example =
    stays_behind calls to_lowercase rng 110 in_first alice (payload "second") "answer" 1 70 second 1
      in_first-Reach refl refl (λ e. omega arith)

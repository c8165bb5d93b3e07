-- ===== src/Rest/Tests.antt =====
-- A registered user, and the theorems of `Rest` at it.
use simple_screen_share.Base.{arith, ◌≡◌, refl, true, false, String, Option, none, some, [], ◌∷◌}
use simple_screen_share.Base.Result.{Result, ok, err}
use simple_screen_share.Rest.{
  JwtClaims, Decode, expired_signature, User, PayloadAuthenticate, post_authenticate,
  UserRegistration,
}
use simple_screen_share.Base.Map.{lookup, insert}
use simple_screen_share.Messages.{
  initialize_sesstion, RequestInitializeSession, session_initialize_success,
}
use simple_screen_share.Server.State.{RtpCalls, RtpServer, blank}
use simple_screen_share.Server.Rooms.{new, create_room}
use simple_screen_share.Server.Requests.{handle_request}
use simple_screen_share.Rest.Parsing.{user_id}
use simple_screen_share.Rest.Rooms.{room_join, post_room_join}
use simple_screen_share.Rest.Joining.{post_room_join-lets_in}
use simple_screen_share.Rest.Splitting.{split_space}
use simple_screen_share.Rest.Outcomes.{authenticated_same_user}

abbrev claims : JwtClaims
claims = record { user_id = "7"; user_registered = true; exp = 10; iat = 5 }

abbrev registration : UserRegistration
registration = record { username = "alice"; password = "secret" }

abbrev alice : User
alice = record { user_id = 7; registration = some registration }

abbrev decode : Decode
decode true token = err (expired_signature "expired")
decode false token = ok claims

abbrev payload : PayloadAuthenticate
payload = record { credentials = none; create_account = false }

abbrev find_user : String → Result (Option User) String
find_user user_id = ok (some alice)

abbrev encode : JwtClaims → Result String String
encode c = ok "signed"

split : split_space "Bearer a b" ≡ ("Bearer", "a" ∷ "b" ∷ [])
unfolding split_space
split = refl

authenticated_same_user_example :
    ("7" ≡ claims.user_id)
    × (true ≡ claims.user_registered)
    × (signed : JwtClaims) × (encode signed ≡ ok "signed")
    × (signed.user_id ≡ claims.user_id)
    × (signed.user_registered ≡ claims.user_registered)
    × (signed.iat ≡ 100)
unfolding post_authenticate
authenticated_same_user_example =
    authenticated_same_user find_user (ok claims) encode 100 payload claims "7" "signed" true refl

parsed : user_id claims ≡ some 7
unfolding user_id
parsed = refl

-- A client that takes every offer; its state is the last one.
abbrev calls : RtpCalls String
calls = record {
  new = λ c. ok "";
  apply_offer = λ rtp offer. (offer, ok "answer");
  apply_answer = λ rtp answer. (rtp, none);
  apply_ice_candidates = λ rtp cs. (rtp, none);
  apply_ice_candidates_finished = λ rtp. (rtp, none);
  create_broadcast_source =
      λ rtp id kind. (rtp, record { kind = kind; events = []; ended = false; plis = 0 });
  create_broadcast_target = λ rtp kind.
      (rtp, "stream", record { track = "track"; events = []; ended = false; sent = [] });
}

abbrev joining : RequestInitializeSession
joining = record { version = 1; token = "token"; offer = "offer" }

post_room_join-lets_in_example :
    (s' : RtpServer String) × (post_room_join 100 "token" new claims 1
      ≡ some (s', room_join "ws://localhost:8088" "token" 120000))
    × ((handle_request calls
          (λ t. t)
          (λ i. 500)
          101
          s'
          (record { object = 0; client_id = 3 })
          (initialize_sesstion joining)).response
        ≡ session_initialize_success "answer" 3 7)
unfolding user_id new blank create_room lookup insert
post_room_join-lets_in_example =
    post_room_join-lets_in 100 new claims 1 7 refl refl calls (λ t. t) (λ i. 500) 101
      (record { object = 0; client_id = 3 }) joining "answer" "" refl (omega arith) refl refl refl
      refl

-- ===== src/Rest/Rooms.antt =====
-- The routes of server/src/rest_controller/routes/room.rs. A claim whose user id is no number makes
-- the request panic, which is `none`. Durations are nanoseconds here.
use simple_screen_share.Base.{ℕ, ◌*◌, ◌^◌, String, Option, none, some}
use simple_screen_share.Base.Result.{Result, ok, err}
use simple_screen_share.Messages.{RoomId}
use simple_screen_share.Server.State.{RtpServer}
use simple_screen_share.Server.Rooms.{
  create_room, create_join_token, RoomJoinToken, JoinTokenError, room_does_not_exist,
}
use simple_screen_share.Rest.{JwtClaims}
use simple_screen_share.Rest.Parsing.{user_id}

pub data ResponseRoomCreate : Type 0 where
  room_created : (room_id : RoomId) → ResponseRoomCreate
  create_error : (message : String) → ResponseRoomCreate

pub data ResponseRoomJoin : Type 0 where
  room_join : (server_url client_token : String) (client_token_valid_ms : ℕ) → ResponseRoomJoin
  room_not_found : ResponseRoomJoin
  join_error : (message : String) → ResponseRoomJoin

-- `Duration::from_secs(120)`.
abbrev pub expires_after : ℕ
expires_after = 120 * 10 ^ 9

unfoldable pub join_response : Result RoomJoinToken JoinTokenError → ResponseRoomJoin
join_response (ok token) = room_join token.server_url token.token 120000
join_response (err room_does_not_exist) = room_not_found

module _ {Rtp : Type 0} where
  unfoldable pub post_room_create :
      RtpServer Rtp → JwtClaims → Option (RtpServer Rtp × ResponseRoomCreate)
  unfolding user_id create_room
  post_room_create manager jwt_token = elim (user_id jwt_token) [
    | none ↦ none
    | some user ↦
        let (manager', room_id) = create_room manager user in some (manager', room_created room_id)
  ]

  -- `token` is the text that the random generator gives.
  unfoldable pub post_room_join :
      ℕ → String → RtpServer Rtp → JwtClaims → RoomId → Option (RtpServer Rtp × ResponseRoomJoin)
  unfolding user_id create_join_token join_response
  post_room_join now token manager jwt_token room_id = elim (user_id jwt_token) [
    | none ↦ none
    | some user ↦
        let (manager', created) = create_join_token now token manager user room_id expires_after in
        some (manager', join_response created)
  ]

-- ===== src/Messages.antt =====
-- server/src/rtp_server/messages.rs: requests, responses and notifications, with the id types of
-- room.rs, client.rs and rest_controller/auth.rs that they carry. The integers are unbounded here:
-- their widths matter only where ids are generated, in `Room` and `Server`.
use simple_screen_share.Base.{ℕ, Bool, String, List}

abbrev pub ClientId : Type 0
ClientId = ℕ

abbrev pub UserId : Type 0
UserId = ℕ

abbrev pub RoomId : Type 0
RoomId = ℕ

abbrev pub BroadcastId : Type 0
BroadcastId = ℕ

pub data BroadcastKind : Type 0 where
  audio video : BroadcastKind

pub record IceCandidate : Type 0 where
  pub candidate : String
  pub ufrag : String

pub record RequestInitializeSession : Type 0 where
  pub version : ℕ
  pub token : String
  pub offer : String

pub record RequestNegotiationOffer : Type 0 where
  pub offer : String

pub record RequestNegotiationAnswer : Type 0 where
  pub answer : String

pub record RequestIceCandidates : Type 0 where
  pub candidates : List IceCandidate
  pub finished : Bool

pub record RequestBroadcastStart : Type 0 where
  pub name : String
  pub source : String
  pub kind : BroadcastKind

pub data C2SRequest : Type 0 where
  initialize_sesstion : RequestInitializeSession → C2SRequest
  ice_candidates : RequestIceCandidates → C2SRequest
  negotiation_offer : RequestNegotiationOffer → C2SRequest
  negotiation_answer : RequestNegotiationAnswer → C2SRequest
  broadcast_start : RequestBroadcastStart → C2SRequest
  broadcast_stop : BroadcastId → C2SRequest
  broadcast_subscribe : BroadcastId → C2SRequest
  broadcast_unsubscribe : BroadcastId → C2SRequest

pub data C2SMessage : Type 0 where
  request : (request_id : ℕ) → C2SRequest → C2SMessage

pub data S2CResponse : Type 0 where
  success invalid_request unknown_request not_implemented room_not_joined : S2CResponse
  connection_closed request_timeout : S2CResponse
  internal_error : (message : String) → S2CResponse
  rtp_not_initialized session_not_initialized : S2CResponse
  session_initialize_success :
      (answer : String) (own_client_id : ClientId) (own_user_id : UserId) → S2CResponse
  session_already_initialized session_invalid_token session_room_closed : S2CResponse
  session_unsupported_version : (server_version : ℕ) → S2CResponse
  negotiation_offer_success : (answer : String) → S2CResponse
  negotiation_server_offer_pending : S2CResponse
  broadcast_source_unknown_id broadcast_already_subscribed : S2CResponse
  broadcast_already_running broadcast_started : (broadcast_id : BroadcastId) → S2CResponse
  broadcast_unknown_id : S2CResponse
  broadcast_subscribed : (stream_id : String) → S2CResponse

pub record UserEntry : Type 0 where
  pub client_id : ClientId
  pub user_id : UserId

pub record BroadcastEntry : Type 0 where
  pub client_id : ClientId
  pub broadcast_id : BroadcastId
  pub name : String
  pub kind : BroadcastKind

pub data S2CNotify : Type 0 where
  notify_negotiation_offer : String → S2CNotify
  notify_ice_candidate : IceCandidate → S2CNotify
  notify_ice_candidate_finished : S2CNotify
  notify_users : List UserEntry → S2CNotify
  notify_broadcasts : List BroadcastEntry → S2CNotify
  notify_user_joined : UserEntry → S2CNotify
  notify_user_left : ClientId → S2CNotify
  notify_broadcast_started : BroadcastEntry → S2CNotify
  notify_broadcast_ended : BroadcastId → S2CNotify

pub data S2CMessage : Type 0 where
  response : (request_id : ℕ) → S2CResponse → S2CMessage
  notify : S2CNotify → S2CMessage

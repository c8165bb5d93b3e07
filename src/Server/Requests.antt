-- ===== src/Server/Requests.antt =====
-- `ServerClientHandler::handle_request` of server/src/rtp_server/server.rs. One request is one step:
-- the texts of errors are put together as `format!` does.
use Prim.Native.String.{◌++◌ as text_append}
use simple_screen_share.Base.{ℕ, String, none, some, if◌then◌else◌}
use simple_screen_share.Base.Map.{nat_key, lookup}
use simple_screen_share.Base.Result.{ok, err, string_key}
use simple_screen_share.Messages.{
  ClientId, RoomId, BroadcastId, C2SRequest, initialize_sesstion, ice_candidates, negotiation_offer,
  negotiation_answer, broadcast_start, broadcast_stop, broadcast_subscribe, broadcast_unsubscribe,
  RequestIceCandidates, RequestBroadcastStart, S2CResponse, success, internal_error,
  rtp_not_initialized, session_not_initialized, negotiation_offer_success, broadcast_unknown_id,
  broadcast_subscribed,
}
use simple_screen_share.Broadcast.{ClientRef}
use simple_screen_share.Room.State.{Room}
use simple_screen_share.Room.Broadcasts.{
  broadcast_kind, client_broadcast_start, client_broadcast_stop, client_broadcast_subscribe,
  client_broadcast_unsubscribe,
}
use simple_screen_share.Server.State.{RtpCalls, RtpServer}
use simple_screen_share.Server.Sessions.{
  Handled, respond, put_rtp, answer, current_room, initialize_session,
}

-- `Success` is answered with the id of the stream.
unfoldable pub subscribed : String → S2CResponse → S2CResponse
subscribed stream_id success = broadcast_subscribed stream_id
subscribed stream_id response = response

module _ {Rtp : Type 0} where
  -- A request for the client's `RtpClient`.
  unfoldable pub with_rtp : RtpServer Rtp → ClientId → (Rtp → Handled Rtp) → Handled Rtp
  unfolding respond
  with_rtp server client_id f = elim (lookup client_id server.rtp_clients) [
    | none ↦ respond server rtp_not_initialized
    | some rtp ↦ f rtp
  ]

  -- A request for the client's room.
  unfoldable pub with_room : RtpServer Rtp → ClientId → (RoomId → Room → Handled Rtp) → Handled Rtp
  unfolding respond current_room
  with_room server client_id f = elim (current_room server client_id) [
    | none ↦ respond server session_not_initialized
    | some (room_id, room) ↦ f room_id room
  ]

module _ {Rtp : Type 0} (calls : RtpCalls Rtp) where
  unfoldable pub handle_offer : RtpServer Rtp → ClientId → String → Handled Rtp
  unfolding respond put_rtp with_rtp
  handle_offer server client_id offer = with_rtp server client_id (λ rtp.
      let (rtp', applied) = calls.apply_offer rtp offer in
      let server' = put_rtp client_id rtp' server in
      elim applied [
        | err error ↦
            respond server' (internal_error (text_append "failed to create offer: " error))
        | ok sdp_answer ↦ respond server' (negotiation_offer_success sdp_answer)
      ])

  unfoldable pub handle_answer : RtpServer Rtp → ClientId → String → Handled Rtp
  unfolding respond put_rtp with_rtp
  handle_answer server client_id payload = with_rtp server client_id (λ rtp.
      let (rtp', applied) = calls.apply_answer rtp payload in
      let server' = put_rtp client_id rtp' server in
      elim applied [
        | some error ↦
            respond server' (internal_error (text_append "failed to apply answer: " error))
        | none ↦ respond server' success
      ])

  unfoldable pub finish_candidates : RtpServer Rtp → ClientId → Rtp → Handled Rtp
  unfolding respond put_rtp
  finish_candidates server client_id rtp =
      let (rtp', finished) = calls.apply_ice_candidates_finished rtp in
      let server' = put_rtp client_id rtp' server in
      elim finished [
        | some error ↦
            respond server'
              (internal_error (text_append "failed to apply ice candidate finish: " error))
        | none ↦ respond server' success
      ]

  unfoldable pub handle_candidates : RtpServer Rtp → ClientId → RequestIceCandidates → Handled Rtp
  unfolding respond put_rtp with_rtp finish_candidates
  handle_candidates server client_id payload = with_rtp server client_id (λ rtp.
      let (rtp', applied) = calls.apply_ice_candidates rtp payload.candidates in
      let server' = put_rtp client_id rtp' server in
      elim applied [
        | some error ↦
            respond server' (internal_error (text_append "failed to apply ice candidates: " error))
        | none ↦
            if payload.finished
            then finish_candidates server' client_id rtp'
            else respond server' success
      ])

  unfoldable pub handle_start :
      (String → String)
      → (ℕ → BroadcastId)
      → RtpServer Rtp
      → ClientId
      → RequestBroadcastStart
      → Handled Rtp
  unfolding put_rtp answer with_rtp with_room client_broadcast_start
  handle_start to_lowercase rng server client_id payload = with_rtp server client_id (λ rtp.
      with_room server client_id (λ room_id room.
        let (rtp', source) = calls.create_broadcast_source rtp payload.source payload.kind in
        answer (put_rtp client_id rtp' server) room_id
          (client_broadcast_start to_lowercase rng room client_id payload.name source)))

  unfoldable pub handle_subscribe : RtpServer Rtp → ClientId → BroadcastId → Handled Rtp
  unfolding respond put_rtp answer with_rtp with_room subscribed broadcast_kind
      client_broadcast_subscribe
  handle_subscribe server client_id broadcast_id = with_room server client_id (λ room_id room.
      with_rtp server client_id (λ rtp. elim (broadcast_kind room broadcast_id) [
        | none ↦ respond server broadcast_unknown_id
        | some kind ↦
            let (rtp', stream_id, target) = calls.create_broadcast_target rtp kind in
            let handled =
              answer (put_rtp client_id rtp' server) room_id
                (client_broadcast_subscribe room client_id broadcast_id target) in
            record handled { response = subscribed stream_id handled.response }
      ]))

  unfoldable pub handle_request :
      (String → String)
      → (ℕ → BroadcastId)
      → ℕ
      → RtpServer Rtp
      → ClientRef
      → C2SRequest
      → Handled Rtp
  unfolding initialize_session handle_offer handle_answer handle_candidates handle_start
      handle_subscribe answer with_room client_broadcast_unsubscribe client_broadcast_stop
  handle_request to_lowercase rng now server client (initialize_sesstion payload) =
      initialize_session calls now server client payload
  handle_request to_lowercase rng now server client (negotiation_offer payload) =
      handle_offer server client.client_id payload.offer
  handle_request to_lowercase rng now server client (negotiation_answer payload) =
      handle_answer server client.client_id payload.answer
  handle_request to_lowercase rng now server client (ice_candidates payload) =
      handle_candidates server client.client_id payload
  handle_request to_lowercase rng now server client (broadcast_start payload) =
      handle_start to_lowercase rng server client.client_id payload
  handle_request to_lowercase rng now server client (broadcast_subscribe broadcast_id) =
      handle_subscribe server client.client_id broadcast_id
  handle_request to_lowercase rng now server client (broadcast_unsubscribe broadcast_id) =
      with_room server client.client_id (λ room_id room.
        answer server room_id (client_broadcast_unsubscribe room client.client_id broadcast_id))
  handle_request to_lowercase rng now server client (broadcast_stop broadcast_id) =
      with_room server client.client_id (λ room_id room.
        answer server room_id (client_broadcast_stop room client.client_id broadcast_id))

-- ===== src/Server/KeptTokens.antt =====
-- What in server/src/rtp_server/server.rs leaves the join tokens alone.
use simple_screen_share.Base.{
  ℕ, ◌≡◌, refl, Bool, true, false, String, Option-cases, inl, inr, arith,
}
use simple_screen_share.Base.Map.{nat_key, lookup}
use simple_screen_share.Messages.{
  ClientId, RoomId, BroadcastId, C2SRequest, initialize_sesstion, ice_candidates, negotiation_offer,
  negotiation_answer, broadcast_start, broadcast_stop, broadcast_subscribe, broadcast_unsubscribe,
  RequestIceCandidates, RequestBroadcastStart,
}
use simple_screen_share.Broadcast.{ClientRef}
use simple_screen_share.Room.State.{Room}
use simple_screen_share.Server.State.{RtpCalls, RtpServer}
use simple_screen_share.Server.Sessions.{Handled, respond, put_rtp, put_room, answer, current_room}
use simple_screen_share.Server.Requests.{
  with_rtp, with_room, handle_offer, handle_answer, finish_candidates, handle_candidates,
  handle_start, handle_subscribe, handle_request,
}

abbrev pub is_start : C2SRequest → Bool
is_start (initialize_sesstion payload) = true
is_start (ice_candidates payload) = false
is_start (negotiation_offer payload) = false
is_start (negotiation_answer payload) = false
is_start (broadcast_start payload) = false
is_start (broadcast_stop id) = false
is_start (broadcast_subscribe id) = false
is_start (broadcast_unsubscribe id) = false

module _ {Rtp : Type 0} (s : RtpServer Rtp) (c : ClientId) where
  with_rtp-tokens :
      (f : Rtp → Handled Rtp)
      → ((rtp : Rtp) → (f rtp).server.tokens ≡ s.tokens)
      → (with_rtp s c f).server.tokens ≡ s.tokens
  unfolding with_rtp respond
  with_rtp-tokens f each = elim (Option-cases (lookup c s.rtp_clients)) [
    | inl e ↦ rw (e, with_rtp)
    | inr (rtp, e) ↦ rw (e, with_rtp) (each rtp)
  ]

  with_room-tokens :
      (f : RoomId → Room → Handled Rtp)
      → ((id : RoomId) (room : Room) → (f id room).server.tokens ≡ s.tokens)
      → (with_room s c f).server.tokens ≡ s.tokens
  unfolding with_room respond
  with_room-tokens f each = elim (Option-cases (current_room s c)) [
    | inl e ↦ rw (e, with_room)
    | inr ((id, room), e) ↦ rw (e, with_room) (each id room)
  ]

module _ {Rtp : Type 0} (calls : RtpCalls Rtp) (to_lowercase : String → String) (s : RtpServer Rtp)
    (c : ClientId) where
  handle_offer-tokens : (offer : String) → (handle_offer calls s c offer).server.tokens ≡ s.tokens
  unfolding handle_offer put_rtp respond
  handle_offer-tokens offer = with_rtp-tokens s c _ (λ rtp. ground arith)

  handle_answer-tokens :
      (payload : String) → (handle_answer calls s c payload).server.tokens ≡ s.tokens
  unfolding handle_answer put_rtp respond
  handle_answer-tokens payload = with_rtp-tokens s c _ (λ rtp. ground arith)

  handle_candidates-tokens :
      (payload : RequestIceCandidates)
      → (handle_candidates calls s c payload).server.tokens ≡ s.tokens
  unfolding handle_candidates finish_candidates put_rtp respond
  handle_candidates-tokens payload = with_rtp-tokens s c _ (λ rtp. ground arith)

  handle_start-tokens :
      (rng : ℕ → BroadcastId) (payload : RequestBroadcastStart)
      → (handle_start calls to_lowercase rng s c payload).server.tokens ≡ s.tokens
  unfolding handle_start put_rtp answer put_room
  handle_start-tokens rng payload =
      with_rtp-tokens s c _ (λ rtp. with_room-tokens s c _ (λ id room. refl))

  handle_subscribe-tokens :
      (b : BroadcastId) → (handle_subscribe calls s c b).server.tokens ≡ s.tokens
  unfolding handle_subscribe put_rtp answer put_room respond
  handle_subscribe-tokens b =
      with_room-tokens s c _ (λ id room. with_rtp-tokens s c _ (λ rtp. ground arith))

-- A request that does not start a session leaves the tokens alone.
pub handle_request-tokens :
    {Rtp : Type 0} (calls : RtpCalls Rtp) (to_lowercase : String → String) (rng : ℕ → BroadcastId)
    (now : ℕ) (s : RtpServer Rtp) (client : ClientRef) (r : C2SRequest)
    → is_start r ≡ false
    → (handle_request calls to_lowercase rng now s client r).server.tokens ≡ s.tokens
unfolding handle_request answer put_room
handle_request-tokens calls to_lowercase rng now s client (initialize_sesstion payload) e =
    absurd (ground arith)
handle_request-tokens calls to_lowercase rng now s client (ice_candidates payload) e =
    handle_candidates-tokens calls to_lowercase s client.client_id payload
handle_request-tokens calls to_lowercase rng now s client (negotiation_offer payload) e =
    handle_offer-tokens calls to_lowercase s client.client_id payload.offer
handle_request-tokens calls to_lowercase rng now s client (negotiation_answer payload) e =
    handle_answer-tokens calls to_lowercase s client.client_id payload.answer
handle_request-tokens calls to_lowercase rng now s client (broadcast_start payload) e =
    handle_start-tokens calls to_lowercase s client.client_id rng payload
handle_request-tokens calls to_lowercase rng now s client (broadcast_stop id) e =
    with_room-tokens s client.client_id _ (λ room_id room. refl)
handle_request-tokens calls to_lowercase rng now s client (broadcast_subscribe id) e =
    handle_subscribe-tokens calls to_lowercase s client.client_id id
handle_request-tokens calls to_lowercase rng now s client (broadcast_unsubscribe id) e =
    with_room-tokens s client.client_id _ (λ room_id room. refl)

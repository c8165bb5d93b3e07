-- ===== src/Server/Phases.antt =====
-- The start of a session in server/src/rtp_server/server.rs as its handler runs it: it lets go of the
-- server's lock between its parts, so that other tasks run between them.
use simple_screen_share.Base.{ℕ, suc, zero, ◌==◌, String, List, [], ◌++◌, if◌then◌else◌, unwrap_or}
use simple_screen_share.Base.Map.{nat_key, lookup}
use simple_screen_share.Base.Result.{ok, err}
use simple_screen_share.Messages.{
  RequestInitializeSession, S2CResponse, internal_error, session_unsupported_version,
}
use simple_screen_share.Broadcast.{ClientRef}
use simple_screen_share.Room.State.{Effect}
use simple_screen_share.Server.State.{RoomToken, RtpCalls, RtpServer}
use simple_screen_share.Server.Sessions.{
  server_request_version, Handled, put_rtp, take_token, join_room, obtain_rtp,
}
use Prim.Native.String.{◌++◌ as text_append}

-- Where a handler is: what it does next, with what it has so far.
pub data Phase (Rtp : Type 0) : Type 0 where
  starting : RequestInitializeSession → Phase Rtp
  obtaining : RoomToken → (offer : String) → Phase Rtp
  offering : RoomToken → (offer : String) → Rtp → Phase Rtp
  joining : RoomToken → (sdp_answer : String) → Phase Rtp
  answered : S2CResponse → Phase Rtp

pub record Progress (Rtp : Type 0) : Type 0 where
  pub server : RtpServer Rtp
  pub effects : List Effect
  pub phase : Phase Rtp

module _ {Rtp : Type 0} where
  -- No room is touched.
  abbrev pub quiet : RtpServer Rtp → Phase Rtp → Progress Rtp
  quiet server phase = record { server = server; effects = []; phase = phase }

  abbrev pub finished : Handled Rtp → Progress Rtp
  finished h = record { server = h.server; effects = h.effects; phase = answered h.response }

module _ {Rtp : Type 0} (calls : RtpCalls Rtp) (now : ℕ) (client : ClientRef) where
  unfoldable pub start_phase : RtpServer Rtp → RequestInitializeSession → Progress Rtp
  unfolding take_token
  start_phase server payload =
      let (server', taken) = take_token now server payload.token in
      if payload.version == server_request_version
      then elim taken [
        | err response ↦ quiet server' (answered response)
        | ok info ↦ quiet server' (obtaining info payload.offer)
      ]
      else quiet server (answered (session_unsupported_version server_request_version))

  unfoldable pub obtain_phase : RtpServer Rtp → RoomToken → String → Progress Rtp
  unfolding obtain_rtp
  obtain_phase server info offer =
      let (server', obtained) = obtain_rtp calls server client.client_id in
      elim obtained [
        | err response ↦ quiet server' (answered response)
        | ok rtp ↦ quiet server' (offering info offer rtp)
      ]

  -- `rtp` is the object that the handler holds: its state is the server's as long as it is there.
  unfoldable pub offer_phase : RtpServer Rtp → RoomToken → String → Rtp → Progress Rtp
  unfolding put_rtp
  offer_phase server info offer rtp =
      let (rtp', applied) =
        calls.apply_offer (unwrap_or (lookup client.client_id server.rtp_clients) rtp) offer in
      let server' = put_rtp client.client_id rtp' server in
      elim applied [
        | err error ↦
            quiet server' (answered (internal_error (text_append "failed to apply offer: " error)))
        | ok sdp_answer ↦ quiet server' (joining info sdp_answer)
      ]

  unfoldable pub join_phase : RtpServer Rtp → RoomToken → String → Progress Rtp
  unfolding join_room
  join_phase server info sdp_answer =
      let handled = join_room server client info sdp_answer in
      record {
        server = handled.server;
        effects = handled.effects;
        phase = answered handled.response;
      }

  -- One part of the handler.
  unfoldable pub advance : RtpServer Rtp → Phase Rtp → Progress Rtp
  unfolding start_phase obtain_phase offer_phase join_phase
  advance server (starting payload) = start_phase server payload
  advance server (obtaining info offer) = obtain_phase server info offer
  advance server (offering info offer rtp) = offer_phase server info offer rtp
  advance server (joining info sdp_answer) = join_phase server info sdp_answer
  advance server (answered response) = quiet server (answered response)

  -- The parts one after the other, with nothing in between.
  unfoldable pub advance_all : ℕ → Progress Rtp → Progress Rtp
  unfolding advance
  advance_all zero p = p
  advance_all (suc n) p =
      let next = advance p.server p.phase in
      advance_all n (record next { effects = p.effects ++ next.effects })

-- ===== src/Server/Uninterrupted.antt =====
-- The parts of a handler of server/src/rtp_server/server.rs that starts a session, with nothing
-- between them.
use Prim.Native.String.{◌++◌ as text_append}
use simple_screen_share.Base.{ℕ, ◌==◌, ◌≡◌, true, false, String, some}
use simple_screen_share.Base.Map.{nat_key, lookup}
use simple_screen_share.Base.Result.{Result, ok, err}
use simple_screen_share.Messages.{
  RequestInitializeSession, S2CResponse, session_unsupported_version,
}
use simple_screen_share.Broadcast.{ClientRef}
use simple_screen_share.Server.State.{RoomToken, RtpCalls, RtpServer}
use simple_screen_share.Server.Sessions.{server_request_version, put_rtp, take_token}
use simple_screen_share.Server.Phases.{obtaining, answered, quiet, start_phase}

module _ {Rtp : Type 0} (calls : RtpCalls Rtp) (now : ℕ) (client : ClientRef) where
  module _ (server : RtpServer Rtp) (info : RoomToken) (offer : String) (rtp : Rtp)
      (there : lookup client.client_id server.rtp_clients ≡ some rtp) where
    abbrev applied_server : RtpServer Rtp
    applied_server = put_rtp client.client_id (calls.apply_offer rtp offer).0 server

  module _ (server : RtpServer Rtp) (payload : RequestInitializeSession) where
    abbrev taken : RtpServer Rtp × Result RoomToken S2CResponse
    taken = take_token now server payload.token

    module _ (v : (payload.version == server_request_version) ≡ true) where
      pub start_phase-ok :
          (info : RoomToken)
          → taken.1 ≡ ok info
          → start_phase calls now client server payload
            ≡ quiet taken.0 (obtaining info payload.offer)
      unfolding start_phase
      start_phase-ok info f = rw (v, f)

      pub start_phase-err :
          (response : S2CResponse)
          → taken.1 ≡ err response
          → start_phase calls now client server payload ≡ quiet taken.0 (answered response)
      unfolding start_phase
      start_phase-err response f = rw (v, f)

    pub start_phase-version :
        (payload.version == server_request_version) ≡ false
        → start_phase calls now client server payload
          ≡ quiet server (answered (session_unsupported_version server_request_version))
    unfolding start_phase
    start_phase-version v = rw v

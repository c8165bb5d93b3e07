-- ===== src/Server/InterleavedRooms.antt =====
-- The rooms of server/src/rtp_server/server.rs while several handlers start sessions at once.
use simple_screen_share.Base.{ℕ, refl, String, List, arith}
use simple_screen_share.Base.Map.{nat_key}
use simple_screen_share.Broadcast.{ClientRef}
use simple_screen_share.Server.State.{RtpCalls, RtpServer, blank}
use simple_screen_share.Server.Rooms.{new}
use simple_screen_share.Server.Sessions.{take_token, obtain_rtp, put_rtp, join_room}
use simple_screen_share.Server.Touches.{join_room-Touches}
use simple_screen_share.Server.Steps.{
  RoomsReached, same-RoomsReached, touched-RoomsReached, Step-RoomsReached, blank-RoomsReached,
  create_room-RoomsReached, issues,
}
use simple_screen_share.Server.Phases.{
  Phase, starting, obtaining, offering, joining, answered, start_phase, obtain_phase, offer_phase,
  join_phase, advance,
}
use simple_screen_share.Server.Interleaving.{
  Serving, TokenEvent, Step, begins, advances, issues_token, serves, Run, created, then_step,
}

module _ {Rtp : Type 0} (calls : RtpCalls Rtp) (to_lowercase : String → String) where
  module _ (now : ℕ) (client : ClientRef) (s : RtpServer Rtp)
      (reached : RoomsReached calls to_lowercase s) where
    advance-RoomsReached :
        (phase : Phase Rtp)
        → RoomsReached calls to_lowercase (advance calls now client s phase).server
    unfolding advance join_phase start_phase take_token obtain_phase obtain_rtp offer_phase put_rtp
    advance-RoomsReached (starting payload) =
        same-RoomsReached calls to_lowercase s (start_phase calls now client s payload).server
          reached (ground arith)
    advance-RoomsReached (obtaining info offer) =
        same-RoomsReached calls to_lowercase s (obtain_phase calls now client s info offer).server
          reached (ground arith)
    advance-RoomsReached (offering info offer rtp) =
        same-RoomsReached calls to_lowercase s
          (offer_phase calls now client s info offer rtp).server reached (ground arith)
    advance-RoomsReached (joining info sdp_answer) =
        touched-RoomsReached calls to_lowercase s client.client_id
          (join_room s client info sdp_answer) reached
          (join_room-Touches to_lowercase s (λ id r e. (reached id r e).1) client s info sdp_answer
            refl)
    advance-RoomsReached (answered response) = reached

  Step-RoomsReached_kept :
      {w w' : Serving Rtp} {more : List TokenEvent}
      → Step calls to_lowercase w more w'
      → RoomsReached calls to_lowercase w.server
      → RoomsReached calls to_lowercase w'.server
  Step-RoomsReached_kept (begins client payload) reached = reached
  Step-RoomsReached_kept {w} (advances now before after client phase e) reached =
      advance-RoomsReached now client w.server reached phase
  Step-RoomsReached_kept {w} (issues_token now token user id expires_after) reached =
      Step-RoomsReached calls to_lowercase (issues w.server now token user id expires_after) reached
  Step-RoomsReached_kept (serves step e) reached = Step-RoomsReached calls to_lowercase step reached

  -- Each room that the server has stands under its own id and is one that the methods of `Room`
  -- reach from a new room, however many handlers start sessions at once, and whatever runs between
  -- their parts.
  pub Run-RoomsReached :
      {log : List TokenEvent} {w : Serving Rtp}
      → Run calls to_lowercase log w
      → RoomsReached calls to_lowercase w.server
  unfolding new
  Run-RoomsReached created =
      create_room-RoomsReached calls to_lowercase blank 3165431348352514738
        (blank-RoomsReached calls to_lowercase)
  Run-RoomsReached (then_step run step) = Step-RoomsReached_kept step (Run-RoomsReached run)

-- ===== src/Server/Interleaving.antt =====
-- The server of server/src/rtp_server/server.rs with several handlers that start sessions at once,
-- each between two of its parts, while the server's other calls go on.
use simple_screen_share.Base.{ℕ, ◌≡◌, Bool, true, false, not, String, List, [], ◌∷◌, ◌++◌}
use simple_screen_share.Messages.{UserId, RoomId, RequestInitializeSession}
use simple_screen_share.Broadcast.{ClientRef}
use simple_screen_share.Server.State.{RtpCalls, RtpServer}
use simple_screen_share.Server.Rooms.{new, create_join_token}
use simple_screen_share.Server.Steps as ServerSteps
use simple_screen_share.Server.Steps.{
  requests, creates, deletes, issues, ticks, spawns_tick, starts_server, accepts, closes, runs,
  room_moves,
}
use simple_screen_share.Server.KeptTokens.{is_start}
use simple_screen_share.Server.Phases.{
  Phase, starting, obtaining, offering, joining, answered, advance,
}

-- The handlers that are on their way, each for its client.
pub record Serving (Rtp : Type 0) : Type 0 where
  pub server : RtpServer Rtp
  pub sessions : List (ClientRef × Phase Rtp)

-- A token is asked for, or lets a handler go on.
pub data TokenEvent : Type 0 where
  issued took : (token : String) → TokenEvent

module _ {Rtp : Type 0} (calls : RtpCalls Rtp) (to_lowercase : String → String) where
  -- The calls that are neither the start of a session nor the issue of a token.
  abbrev pub is_service : {s s' : RtpServer Rtp} → ServerSteps.Step calls to_lowercase s s' → Bool
  is_service (requests s rng now client request) = not (is_start request)
  is_service (creates s owner) = true
  is_service (deletes s id) = true
  is_service (issues s now token user id expires_after) = false
  is_service (ticks s now) = true
  is_service (spawns_tick s) = true
  is_service (starts_server s bind) = true
  is_service (accepts s object) = true
  is_service (closes s c) = true
  is_service (runs s task) = true
  is_service (room_moves s id room room' es there step) = true

  -- What a part of a handler does to its token: from one phase to the next.
  unfoldable pub takes : Phase Rtp → Phase Rtp → List TokenEvent
  takes (starting payload) (obtaining info offer) = took payload.token ∷ []
  takes (starting payload) (starting other) = []
  takes (starting payload) (offering info offer rtp) = []
  takes (starting payload) (joining info sdp_answer) = []
  takes (starting payload) (answered response) = []
  takes (obtaining info offer) after = []
  takes (offering info offer rtp) after = []
  takes (joining info sdp_answer) after = []
  takes (answered response) after = []

  pub data Step (w : Serving Rtp) : List TokenEvent → Serving Rtp → Type 0 where
    begins :
        (client : ClientRef) (payload : RequestInitializeSession)
        → Step w [] (record w { sessions = w.sessions ++ ((client, starting payload) ∷ []) })
    advances :
        (now : ℕ) (before after : List (ClientRef × Phase Rtp)) (client : ClientRef)
        (phase : Phase Rtp)
        → w.sessions ≡ before ++ ((client, phase) ∷ after)
        → Step w (takes phase (advance calls now client w.server phase).phase) (record {
          server = (advance calls now client w.server phase).server;
          sessions = before ++ ((client, (advance calls now client w.server phase).phase) ∷ after);
        })
    issues_token :
        (now : ℕ) (token : String) (user : UserId) (id : RoomId) (expires_after : ℕ)
        → Step w
            (issued token ∷ [])
            (record w { server = (create_join_token now token w.server user id expires_after).0 })
    serves :
        {s' : RtpServer Rtp} (step : ServerSteps.Step calls to_lowercase w.server s')
        → is_service step ≡ true
        → Step w [] (record w { server = s' })

  -- What happened to the tokens of a new server.
  pub data Run : List TokenEvent → Serving Rtp → Type 0 where
    created : Run [] (record { server = new; sessions = [] })
    then_step :
        {log more : List TokenEvent} {w w' : Serving Rtp}
        → Run log w
        → Step w more w'
        → Run (log ++ more) w'

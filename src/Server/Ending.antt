-- ===== src/Server/Ending.antt =====
-- The handlers of server/src/rtp_server/server.rs that start sessions come to an answer, whatever runs
-- between their parts.
use simple_screen_share.Base.{ℕ, ◌+◌, String, List, [], ◌∷◌}
use simple_screen_share.Broadcast.{ClientRef}
use simple_screen_share.Server.State.{RtpCalls}
use simple_screen_share.Server.Phases.{Phase, starting, obtaining, offering, joining, answered}
use simple_screen_share.Server.Interleaving.{
  Serving, TokenEvent, Step, begins, advances, issues_token, serves, Run, created, then_step,
}

module _ {Rtp : Type 0} where
  -- The parts that are left.
  abbrev pub parts_left : Phase Rtp → ℕ
  parts_left (starting payload) = 4
  parts_left (obtaining info offer) = 3
  parts_left (offering info offer rtp) = 2
  parts_left (joining info sdp_answer) = 1
  parts_left (answered response) = 0

  -- Whether a call of `advance` runs a part.
  abbrev pub parts_run : Phase Rtp → ℕ
  parts_run (answered response) = 0
  parts_run phase = 1

  abbrev pub all_left : List (ClientRef × Phase Rtp) → ℕ
  all_left [] = 0
  all_left ((client, phase) ∷ sessions) = parts_left phase + all_left sessions

module _ {Rtp : Type 0} (calls : RtpCalls Rtp) (to_lowercase : String → String) where
  -- The sessions that a step begins, and the parts that it runs.
  abbrev pub step_begins :
      {w w' : Serving Rtp} {log : List TokenEvent} → Step calls to_lowercase w log w' → ℕ
  step_begins (begins client payload) = 1
  step_begins (advances now before after client phase e) = 0
  step_begins (issues_token now token user id expires_after) = 0
  step_begins (serves step e) = 0

  abbrev pub step_runs :
      {w w' : Serving Rtp} {log : List TokenEvent} → Step calls to_lowercase w log w' → ℕ
  step_runs (begins client payload) = 0
  step_runs (advances now before after client phase e) = parts_run phase
  step_runs (issues_token now token user id expires_after) = 0
  step_runs (serves step e) = 0

  abbrev pub count_begun :
      {log : List TokenEvent} {w : Serving Rtp} → Run calls to_lowercase log w → ℕ
  count_begun created = 0
  count_begun (then_step run step) = count_begun run + step_begins step

  abbrev pub count_run :
      {log : List TokenEvent} {w : Serving Rtp} → Run calls to_lowercase log w → ℕ
  count_run created = 0
  count_run (then_step run step) = count_run run + step_runs step

-- ===== src/Server/FewerTokens.antt =====
-- What in server/src/rtp_server/server.rs takes join tokens away and brings none.
use simple_screen_share.Base.{ℕ, ◌+◌, ◌≤◌, ◌≡◌, refl, not, true, String, if◌then◌else◌, arith}
use text.Mathlib.Text.{◌==◌ as str_eq}
use text.Mathlib.TextEquality.{eq_iff}
use simple_screen_share.Base.Map.{nat_key, contains_key, update, lookup-remove, retain-shrinks}
use simple_screen_share.Base.Result.{ok, string_key}
use simple_screen_share.Server.State.{RtpCalls, RtpServer, RoomToken, is_expired}
use simple_screen_share.Server.Rooms.{
  create_room, delete_room, tick, spawn_tick, start_server, accept, connection_closed, run_task,
}
use simple_screen_share.Server.Sessions.{take_token}
use simple_screen_share.Server.Requests.{handle_request}
use simple_screen_share.Server.Steps as ServerSteps
use simple_screen_share.Server.Steps.{
  requests, creates, deletes, issues, ticks, spawns_tick, starts_server, accepts, closes, runs,
  room_moves,
}
use simple_screen_share.Server.KeptTokens.{handle_request-tokens}
use simple_screen_share.Server.Interleaving.{is_service}

module _ {Rtp : Type 0} where
  -- The token is there, which counts as one.
  abbrev pub held : String → RtpServer Rtp → ℕ
  held t s = if contains_key t s.tokens then 1 else 0

  -- No token came.
  abbrev pub Fewer : RtpServer Rtp → RtpServer Rtp → Type 0
  Fewer s s' = (t : String) → held t s' ≤ held t s

  same-Fewer : (s s' : RtpServer Rtp) → s'.tokens ≡ s.tokens → Fewer s s'
  same-Fewer s s' e t = rw e (omega arith)

  tick-Fewer : (s : RtpServer Rtp) (now : ℕ) → Fewer s (tick now s)
  unfolding tick
  tick-Fewer s now t =
      ground (arith, retain-shrinks (λ token info. not (is_expired now info)) t s.tokens)

  pub take_token-Fewer : (s : RtpServer Rtp) (now : ℕ) (u : String) → Fewer s (take_token now s u).0
  unfolding take_token
  take_token-Fewer s now u t = ground (arith, lookup-remove u t s.tokens)

  pub take_token-takes :
      (s : RtpServer Rtp) (now : ℕ) (u : String) (info : RoomToken)
      → (take_token now s u).1 ≡ ok info
      → (t : String) → (if str_eq u t then 1 else 0) + held t (take_token now s u).0 ≤ held t s
  unfolding take_token
  take_token-takes s now u info e t = ground (arith, lookup-remove u t s.tokens, eq_iff u t)

module _ {Rtp : Type 0} (calls : RtpCalls Rtp) (to_lowercase : String → String) where
  pub service-Fewer :
      {s s' : RtpServer Rtp} (step : ServerSteps.Step calls to_lowercase s s')
      → is_service calls to_lowercase step ≡ true
      → Fewer s s'
  unfolding create_room delete_room spawn_tick start_server accept connection_closed run_task
  service-Fewer (requests s rng now client request) e =
      same-Fewer s (handle_request calls to_lowercase rng now s client request).server
        (handle_request-tokens calls to_lowercase rng now s client request (ground arith))
  service-Fewer (creates s owner) e = same-Fewer s (create_room s owner).0 refl
  service-Fewer (deletes s id) e = same-Fewer s (delete_room s id).0 refl
  service-Fewer (issues s now token user id expires_after) e = absurd (ground arith)
  service-Fewer (ticks s now) e = tick-Fewer s now
  service-Fewer (spawns_tick s) e = same-Fewer s (spawn_tick s).0 (ground arith)
  service-Fewer (starts_server s bind) e = same-Fewer s (start_server bind s).0 (ground arith)
  service-Fewer (accepts s object) e = same-Fewer s (accept object s).0 refl
  service-Fewer (closes s c) e = same-Fewer s (connection_closed c s).0 refl
  service-Fewer (runs s task) e = same-Fewer s (run_task task s).0 (ground arith)
  service-Fewer (room_moves s id room room' es there step) e =
      same-Fewer s (record s { rooms = update id (λ old. room') s.rooms }) refl

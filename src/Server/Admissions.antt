-- ===== src/Server/Admissions.antt =====
-- How many sessions the join tokens of server/src/rtp_server/server.rs let in.
use simple_screen_share.Base.{
  ℕ, ◌+◌, ◌≤◌, ◌≡◌, subst, sym, ◌==◌, String, List, [], ◌∷◌, ◌++◌, Bool-cases, inl, inr,
  if◌then◌else◌, arith,
}
use text.Mathlib.Text.{◌==◌ as str_eq}
use text.Mathlib.TextEquality.{eq_iff}
use simple_screen_share.Base.Map.{nat_key, lookup, lookup-insert}
use simple_screen_share.Base.Result.{Result-cases, string_key}
use simple_screen_share.Messages.{RequestInitializeSession}
use simple_screen_share.Broadcast.{ClientRef}
use simple_screen_share.Server.State.{RtpCalls, RtpServer, RoomToken, blank}
use simple_screen_share.Server.Rooms.{new, create_room, create_join_token}
use simple_screen_share.Server.Sessions.{
  server_request_version, take_token, obtain_rtp, put_rtp, put_room, join_room, respond,
}
use simple_screen_share.Server.Phases.{
  Phase, starting, obtaining, offering, joining, answered, Progress, start_phase, obtain_phase,
  offer_phase, join_phase, advance,
}
use simple_screen_share.Server.Uninterrupted.{start_phase-ok, start_phase-err, start_phase-version}
use simple_screen_share.Server.FewerTokens.{
  held, Fewer, take_token-Fewer, take_token-takes, service-Fewer,
}
use simple_screen_share.Server.Interleaving.{
  Serving, TokenEvent, issued, took, takes, Step, begins, advances, issues_token, serves, Run,
  created, then_step,
}

-- How often a token was asked for, and how often it let a handler go on.
unfoldable pub count_issued : String → List TokenEvent → ℕ
count_issued t [] = 0
count_issued t (issued u ∷ log) = (if str_eq u t then 1 else 0) + count_issued t log
count_issued t (took u ∷ log) = count_issued t log

unfoldable pub count_taken : String → List TokenEvent → ℕ
count_taken t [] = 0
count_taken t (issued u ∷ log) = count_taken t log
count_taken t (took u ∷ log) = (if str_eq u t then 1 else 0) + count_taken t log

count_issued-append :
    (t : String) (xs ys : List TokenEvent)
    → count_issued t (xs ++ ys) ≡ count_issued t xs + count_issued t ys
unfolding count_issued
count_issued-append t [] ys = omega arith
count_issued-append t (issued u ∷ xs) ys = ground (arith, count_issued-append t xs ys)
count_issued-append t (took u ∷ xs) ys = count_issued-append t xs ys

count_taken-append :
    (t : String) (xs ys : List TokenEvent)
    → count_taken t (xs ++ ys) ≡ count_taken t xs + count_taken t ys
unfolding count_taken
count_taken-append t [] ys = omega arith
count_taken-append t (issued u ∷ xs) ys = count_taken-append t xs ys
count_taken-append t (took u ∷ xs) ys = ground (arith, count_taken-append t xs ys)

module _ {Rtp : Type 0} (calls : RtpCalls Rtp) (to_lowercase : String → String) where
  -- A step pays for each take with a token that was there or asked for.
  abbrev Paid : Serving Rtp → List TokenEvent → Serving Rtp → Type 0
  Paid w log w' =
      (t : String) → count_taken t log + held t w'.server ≤ count_issued t log + held t w.server

  Fewer-Paid : (w w' : Serving Rtp) → Fewer w.server w'.server → Paid w [] w'
  unfolding count_taken count_issued
  Fewer-Paid w w' fewer t = ground (arith, fewer t)

  module _ (now : ℕ) (client : ClientRef) (s : RtpServer Rtp) where
    obtain_phase-tokens :
        (info : RoomToken) (offer : String)
        → (obtain_phase calls now client s info offer).server.tokens ≡ s.tokens
    unfolding obtain_phase obtain_rtp
    obtain_phase-tokens info offer = ground arith

    offer_phase-tokens :
        (info : RoomToken) (offer : String) (rtp : Rtp)
        → (offer_phase calls now client s info offer rtp).server.tokens ≡ s.tokens
    unfolding offer_phase put_rtp
    offer_phase-tokens info offer rtp = ground arith

    join_phase-tokens :
        (info : RoomToken) (sdp_answer : String)
        → (join_phase calls now client s info sdp_answer).server.tokens ≡ s.tokens
    unfolding join_phase join_room put_room respond
    join_phase-tokens info sdp_answer = ground arith

    -- A part pays, from the phase before it.
    abbrev PartPaid : Phase Rtp → Progress Rtp → Type 0
    PartPaid phase p =
        (t : String)
        → count_taken t (takes calls to_lowercase phase p.phase) + held t p.server
          ≤ count_issued t (takes calls to_lowercase phase p.phase) + held t s

    start_phase-PartPaid :
        (payload : RequestInitializeSession)
        → PartPaid (starting payload) (start_phase calls now client s payload)
    unfolding takes count_taken count_issued
    start_phase-PartPaid payload =
        let taken = take_token now s payload.token in
        elim (Bool-cases (payload.version == server_request_version)) [
          | inl v ↦ elim (Result-cases taken.1) [
            | inl (info, f) ↦
                subst (PartPaid (starting payload))
                  (sym (start_phase-ok calls now client s payload v info f))
                  (λ t. ground (arith, take_token-takes s now payload.token info f t))
            | inr (response, f) ↦
                subst (PartPaid (starting payload))
                  (sym (start_phase-err calls now client s payload v response f))
                  (λ t. ground (arith, take_token-Fewer s now payload.token t))
          ]
          | inr v ↦
              subst (PartPaid (starting payload))
                (sym (start_phase-version calls now client s payload v)) (λ t. omega arith)
        ]

    advance-PartPaid : (phase : Phase Rtp) → PartPaid phase (advance calls now client s phase)
    unfolding advance takes count_taken count_issued
    advance-PartPaid (starting payload) t = start_phase-PartPaid payload t
    advance-PartPaid (obtaining info offer) t = ground (arith, obtain_phase-tokens info offer)
    advance-PartPaid (offering info offer rtp) t = ground (arith, offer_phase-tokens info offer rtp)
    advance-PartPaid (joining info sdp_answer) t = ground (arith, join_phase-tokens info sdp_answer)
    advance-PartPaid (answered response) t = omega arith

  Step-Paid :
      {w w' : Serving Rtp} {more : List TokenEvent}
      → Step calls to_lowercase w more w'
      → Paid w more w'
  unfolding create_join_token count_taken count_issued
  Step-Paid {w} {w'} (begins client payload) t = omega arith
  Step-Paid {w} (advances now before after client phase e) t =
      advance-PartPaid now client w.server phase t
  Step-Paid {w} (issues_token now token user id expires_after) t = ground (
    arith,
    lookup-insert token t
        (record {
          user_id = user;
          target_room = id;
          issued_at = now;
          expires_after = expires_after;
        })
        w.server.tokens,
    eq_iff token t,
  )
  Step-Paid {w} {w'} (serves step e) t = Fewer-Paid w w' (service-Fewer calls to_lowercase step e) t

  Run-Paid :
      {log : List TokenEvent} {w : Serving Rtp}
      → Run calls to_lowercase log w
      → (t : String) → count_taken t log + held t w.server ≤ count_issued t log
  unfolding new create_room blank count_taken count_issued lookup
  Run-Paid created t = ground arith
  Run-Paid (then_step {log = log} {more = more} run step) t = ground (
    arith,
    Run-Paid run t,
    Step-Paid step t,
    count_taken-append t log more,
    count_issued-append t log more,
  )

  -- A token lets at most as many sessions go on as it was asked for, however many handlers are at
  -- work at once and in whatever order their parts and the server's other calls run: a token that
  -- was issued once lets in one session at most.
  pub count_taken-le-count_issued :
      {log : List TokenEvent} {w : Serving Rtp} (t : String)
      → Run calls to_lowercase log w
      → count_taken t log ≤ count_issued t log
  count_taken-le-count_issued t run = ground (arith, Run-Paid run t)

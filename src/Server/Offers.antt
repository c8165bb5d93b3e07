-- ===== src/Server/Offers.antt =====
-- A negotiation offer in server/src/rtp_server/server.rs.
use Prim.Native.String.{◌++◌ as text_append}
use simple_screen_share.Base.{◌≡◌, ap, ◌∙◌, String, none, some, Option-cases, inl, inr, arith}
use simple_screen_share.Base.Map.{nat_key, lookup, lookup-update}
use simple_screen_share.Base.Result.{ok, err, Result-cases}
use simple_screen_share.Messages.{
  ClientId, internal_error, rtp_not_initialized, negotiation_offer_success,
}
use simple_screen_share.Server.State.{RtpCalls, RtpServer}
use simple_screen_share.Server.Sessions.{respond, put_rtp}
use simple_screen_share.Server.Requests.{with_rtp, handle_offer}

put_rtp-there :
    {Rtp : Type 0} (client_id : ClientId) (server : RtpServer Rtp) (c rtp : Rtp)
    → lookup client_id server.rtp_clients ≡ some c
    → lookup client_id (put_rtp client_id rtp server).rtp_clients ≡ some rtp
unfolding put_rtp
put_rtp-there client_id server c rtp e =
    ground (arith, lookup-update client_id client_id (λ old. rtp) server.rtp_clients)

module _ {Rtp : Type 0} (calls : RtpCalls Rtp) (server : RtpServer Rtp) (client_id : ClientId)
    (offer : String) where
  missing_rtp :
      lookup client_id server.rtp_clients ≡ none
      → handle_offer calls server client_id offer ≡ respond server rtp_not_initialized
  unfolding handle_offer
  missing_rtp e = rw (e, with_rtp)

  module _ (c : Rtp) (there : lookup client_id server.rtp_clients ≡ some c) where
    applied_offer :
        (sdp : String)
        → (calls.apply_offer c offer).1 ≡ ok sdp
        → handle_offer calls server client_id offer
          ≡ respond
              (put_rtp client_id (calls.apply_offer c offer).0 server)
              (negotiation_offer_success sdp)
    unfolding handle_offer
    applied_offer sdp e = rw (there, with_rtp, e)

    failed_offer :
        (error : String)
        → (calls.apply_offer c offer).1 ≡ err error
        → handle_offer calls server client_id offer
          ≡ respond
              (put_rtp client_id (calls.apply_offer c offer).0 server)
              (internal_error (text_append "failed to create offer: " error))
    unfolding handle_offer
    failed_offer error e = rw (there, with_rtp, e)

  -- A successful answer came from the client's `apply_offer`, and its new state is kept.
  pub answered_offer :
      (answer : String)
      → (handle_offer calls server client_id offer).response ≡ negotiation_offer_success answer
      → (c : Rtp) × (lookup client_id server.rtp_clients ≡ some c)
        × ((calls.apply_offer c offer).1 ≡ ok answer)
        × (lookup client_id (handle_offer calls server client_id offer).server.rtp_clients
            ≡ some (calls.apply_offer c offer).0)
  unfolding respond put_rtp
  answered_offer answer e = elim (Option-cases (lookup client_id server.rtp_clients)) [
    | inl missing ↦ absurd (ground (arith, missing_rtp missing))
    | inr (c, there) ↦ elim (Result-cases (calls.apply_offer c offer).1) [
      | inl (sdp, applied) ↦
          let k = applied_offer c there sdp applied in
          (
            c,
            there,
            ground (arith, k),
            ap (λ h. lookup client_id h.server.rtp_clients) k
                ∙ put_rtp-there client_id server c (calls.apply_offer c offer).0 there,
          )
      | inr (error, failed) ↦ absurd (ground (arith, failed_offer c there error failed))
    ]
  ]

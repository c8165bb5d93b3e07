-- ===== src/Peer/Renegotiation.antt =====
-- Offers that the server of server/src/rtp_server/client_rtp.rs makes by itself.
use simple_screen_share.Base.{◌≡◌, [], ◌∷◌, ◌++◌}
use simple_screen_share.Base.Result.{ok}
use simple_screen_share.Messages.{notify_negotiation_offer}
use simple_screen_share.Peer.Actions.{Action, ◌>>◌}
use simple_screen_share.Peer.Client.{
  SessionDescription, PeerCalls, RtpClient, call, signaling_notify,
}

module _ {Peer : Type 0} (calls : PeerCalls Peer) (c : RtpClient Peer) where
  -- The client that the callback leaves has told an offer, and the peer has it.
  abbrev pub Offered : RtpClient Peer → Type 0
  Offered after =
      (p1 p2 : Peer) × (offer : SessionDescription) × (calls.create_offer c.peer ≡ (p1, ok offer))
      × (calls.set_local_description offer p1 ≡ (p2, ok tt))
      × (after ≡ record c {
        peer = p2;
        notifying = c.notifying ++ (notify_negotiation_offer offer.sdp ∷ []);
      })

  -- Nothing but the peer has changed.
  abbrev pub Untold : RtpClient Peer → Type 0
  Untold after = after ≡ record c { peer = after.peer }

  abbrev tell : SessionDescription → Action (RtpClient Peer) (Unit {0})
  tell offer = signaling_notify (notify_negotiation_offer offer.sdp)

  abbrev set_offer : SessionDescription → Action (RtpClient Peer) (Unit {0})
  set_offer offer = call (calls.set_local_description offer) >> tell offer

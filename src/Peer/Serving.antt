-- ===== src/Peer/Serving.antt =====
-- `RtpServer` of server/src/rtp_server/server.rs with the `RtpClient` of client_rtp.rs in it. That
-- the peer connection takes each new track is the parameter `adds`: the program panics if it does
-- not. `create_peer` stands for the crate's connections, `fresh_id` for the random texts.
use simple_screen_share.Base.{
  ℕ, ◌≡◌, refl, ap, ◌∙◌, false, String, Option, none, some, [], Option-cases, inl, inr,
}
use simple_screen_share.Base.Map.{nat_key, lookup}
use simple_screen_share.Base.Result.{Result, ok, err}
use simple_screen_share.Messages.{
  BroadcastId, BroadcastKind, negotiation_offer, negotiation_offer_success,
}
use simple_screen_share.Broadcast.{ClientRef, RoomBroadcastSource, RoomBroadcastTarget}
use simple_screen_share.Server.State.{RtpCalls, RtpServer}
use simple_screen_share.Server.Requests.{handle_request}
use simple_screen_share.Server.Offers.{answered_offer}
use simple_screen_share.Tracks.Targets.{find_free, create_broadcast_target}
use simple_screen_share.Peer.Actions.{with_result, bind-returned}
use simple_screen_share.Peer.Client.{
  PeerCalls, RtpClient, new, apply_offer, apply_answer, apply_ice_candidates,
  apply_ice_candidates_finished, open_source, open_target, mount_target, add_free,
}
use simple_screen_share.Peer.Negotiation.{Answered, apply_offer_lem}

-- The error of a method that returns nothing.
abbrev failure : {S : Type 0} → S × Result (Unit {0}) String → S × Option String
failure (s, ok done) = (s, none)
failure (s, err error) = (s, some error)

module _ {Peer : Type 0} (calls : PeerCalls Peer) (create_peer : Result Peer String)
    (fresh_id : RtpClient Peer → String)
    (adds : (object : ℕ) (peer : Peer)
      → (after : Peer) × (calls.add_track object peer ≡ (after, ok tt))) where
  abbrev pub new_source : BroadcastKind → RoomBroadcastSource
  new_source kind = record { kind = kind; events = []; ended = false; plis = 0 }

  abbrev pub new_target : String → RoomBroadcastTarget
  new_target track = record { track = track; events = []; ended = false; sent = [] }

  abbrev with_track : RtpClient Peer → Peer
  with_track c = elim (find_free c.sender.sending_tracks) [
    | some track ↦ c.peer
    | none ↦ (adds c.sender.next_object c.peer).0
  ]

  -- `create_broadcast_target` where the peer takes the track.
  unfoldable pub opened_target :
      RtpClient Peer → BroadcastKind → RtpClient Peer × String × RoomBroadcastTarget
  unfolding create_broadcast_target
  opened_target c kind =
      let (sender, stream_id, target) = create_broadcast_target (fresh_id c) kind c.sender in
      (record c { peer = with_track c; sender = sender }, stream_id, new_target stream_id)

  unfoldable pub rtp_calls : RtpCalls (RtpClient Peer)
  unfolding new apply_offer apply_answer apply_ice_candidates apply_ice_candidates_finished
      open_source opened_target
  rtp_calls = record {
    new =
        λ client_id. elim create_peer [ ok peer ↦ ok (new client_id peer) | err error ↦ err error ];
    apply_offer = λ c offer. apply_offer calls offer c;
    apply_answer = λ c answer. failure (apply_answer calls answer c);
    apply_ice_candidates = λ c candidates. failure (apply_ice_candidates calls candidates c);
    apply_ice_candidates_finished = λ c. failure (apply_ice_candidates_finished calls c);
    create_broadcast_source =
        λ c stream_id kind. ((open_source stream_id kind c).0, new_source kind);
    create_broadcast_target = opened_target;
  }

  add_free_lem : (c : RtpClient Peer) → add_free calls c ≡ (record c { peer = with_track c }, ok tt)
  unfolding add_free
  add_free_lem c = elim (Option-cases (find_free c.sender.sending_tracks)) [
    | inl none_free ↦
        rw (none_free, add_free, with_track)
          (ap (λ x. (record c { peer = x.0 }, x.1)) (adds c.sender.next_object c.peer).1)
    | inr (track, free) ↦ rw (free, add_free, with_track) refl
  ]

  opened_target_lem :
      (c : RtpClient Peer) (kind : BroadcastKind)
      → open_target calls (fresh_id c) kind c ≡ (
        (opened_target c kind).0,
        ok ((opened_target c kind).1, (create_broadcast_target (fresh_id c) kind c.sender).2),
      )
  unfolding open_target opened_target mount_target
  opened_target_lem c kind =
      bind-returned (add_free calls) (λ d. mount_target (fresh_id c) kind) c
        (ap (λ x. x.1) (add_free_lem c))
      ∙ ap (λ x. mount_target (fresh_id c) kind x.0) (add_free_lem c)

  -- A negotiation offer of a client is answered with success only if the client's peer has taken the
  -- offer as its remote description, then made an answer, and then taken that answer as its local
  -- description: the response has this answer, and what the server keeps as the client's state has
  -- this peer and is otherwise as before.
  pub offer-Answered :
      (to_lowercase : String → String) (rng : ℕ → BroadcastId) (now : ℕ)
      (server : RtpServer (RtpClient Peer)) (client : ClientRef) (offer answer : String)
      → (handle_request rtp_calls to_lowercase rng now server client
          (negotiation_offer (record { offer = offer }))).response
        ≡ negotiation_offer_success answer
      → (c c' : RtpClient Peer) × (lookup client.client_id server.rtp_clients ≡ some c)
        × Answered calls c offer c' answer
        × (lookup client.client_id
              (handle_request rtp_calls to_lowercase rng now server client
                (negotiation_offer (record { offer = offer }))).server.rtp_clients
            ≡ some c')
  unfolding handle_request rtp_calls
  offer-Answered to_lowercase rng now server client offer answer e =
      let (c, there, applied, kept) =
        answered_offer rtp_calls server client.client_id offer answer e in
      (
        c,
        (apply_offer calls offer c).0,
        there,
        apply_offer_lem calls offer answer c (apply_offer calls offer c).0
            (with_result (apply_offer calls offer c) applied),
        kept,
      )

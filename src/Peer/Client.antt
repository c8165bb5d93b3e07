-- ===== src/Peer/Client.antt =====
-- The peer connection of `RtpClient` of server/src/rtp_server/client_rtp.rs. What the webrtc crate
-- does is the parameter `PeerCalls`: a call takes the connection and may change it, and its error is
-- a text. A method runs in `Action`, over the state of the client; an error keeps the state.
use simple_screen_share.Base.{
  ℕ, Bool, true, String, Option, none, some, List, [], ◌∷◌, ◌++◌, if◌then◌else◌,
}
use simple_screen_share.Base.Result.{Result, ok, err}
use simple_screen_share.Messages.{
  ClientId, IceCandidate, BroadcastKind, S2CNotify, notify_negotiation_offer, notify_ice_candidate,
  notify_ice_candidate_finished,
}
use simple_screen_share.Peer.Actions.{Action, pure, ◌>>=◌, ◌>>◌}
use simple_screen_share.Peer.Candidates.{IceCandidateInit, no_candidate, to_init, from_init}
use simple_screen_share.Tracks.Receiving.{
  RtpCodecType, ReceivingTrackBinding, RtcpPacket, ClientBroadcastSource, Receiver,
}
use simple_screen_share.Tracks.Handlers.{create_broadcast_source, on_track}
use simple_screen_share.Tracks.Targets.{
  ClientBroadcastTarget, Sender, find_free, create_broadcast_target,
}

-- `RTCSessionDescription`.
pub data SdpType : Type 0 where
  sdp_offer sdp_answer : SdpType

pub record SessionDescription : Type 0 where
  pub sdp_type : SdpType
  pub sdp : String

-- The calls of `RTCPeerConnection`; a local track and its `RTCRtpSender` are known by the number of
-- the track.
pub record PeerCalls (Peer : Type 0) : Type 0 where
  pub set_remote_description : SessionDescription → Peer → Peer × Result (Unit {0}) String
  pub set_local_description : SessionDescription → Peer → Peer × Result (Unit {0}) String
  pub create_answer : Peer → Peer × Result SessionDescription String
  pub create_offer : Peer → Peer × Result SessionDescription String
  pub add_ice_candidate : IceCandidateInit → Peer → Peer × Result (Unit {0}) String
  pub add_track : ℕ → Peer → Peer × Result (Unit {0}) String
  pub remove_track : ℕ → Peer → Peer × Result (Unit {0}) String
  pub write_rtcp : List RtcpPacket → Peer → Peer × Result (Unit {0}) String
  pub close : Peer → Peer × Result (Unit {0}) String

-- `signaling_client_ref` is whether the client is still there, `notifying` has the tasks of
-- `signaling_notify` that have not run, and `rtcp_channel` what the task of `new` has not read.
pub record RtpClient (Peer : Type 0) : Type 0 where
  pub signaling_client_ref : Bool
  pub client_id : ClientId
  pub peer : Peer
  pub receiver : Receiver
  pub sender : Sender
  pub notifying : List S2CNotify
  pub rtcp_channel : List (List RtcpPacket)

module _ {Peer : Type 0} where
  -- A call of the peer connection.
  abbrev pub call : {A : Type 0} → (Peer → Peer × Result A String) → Action (RtpClient Peer) A
  call f c = let (peer, r) = f c.peer in (record c { peer = peer }, r)

  unfoldable pub signaling_notify : S2CNotify → Action (RtpClient Peer) (Unit {0})
  signaling_notify n c = (
    if c.signaling_client_ref then record c { notifying = c.notifying ++ (n ∷ []) } else c,
    ok tt,
  )

  -- The new client: `peer` is what `create_peer` made. Its callbacks are the actions below.
  unfoldable pub new : ClientId → Peer → RtpClient Peer
  new client_id peer = record {
    signaling_client_ref = true;
    client_id = client_id;
    peer = peer;
    receiver = record { receiving_tracks = []; handlers = []; next_object = 0 };
    sender = record { sending_tracks = []; targets = []; next_object = 0 };
    notifying = [];
    rtcp_channel = [];
  }

  -- A target on a track without an event handler.
  unfoldable pub mount_target :
      String → BroadcastKind → Action (RtpClient Peer) (String × ClientBroadcastTarget)
  unfolding create_broadcast_target
  mount_target id kind c =
      let (sender, stream_id, target) = create_broadcast_target id kind c.sender in
      (record c { sender = sender }, ok (stream_id, target))

  module _ (calls : PeerCalls Peer) where
    unfoldable pub apply_offer : String → Action (RtpClient Peer) String
    apply_offer offer = do
      call (calls.set_remote_description (record { sdp_type = sdp_offer; sdp = offer }))
      local_desc ← call calls.create_answer
      call (calls.set_local_description local_desc)
      pure local_desc.sdp

    unfoldable pub apply_answer : String → Action (RtpClient Peer) (Unit {0})
    apply_answer answer =
        call (calls.set_remote_description (record { sdp_type = sdp_answer; sdp = answer }))

    unfoldable pub apply_ice_candidates : List IceCandidate → Action (RtpClient Peer) (Unit {0})
    unfolding to_init
    apply_ice_candidates [] = pure tt
    apply_ice_candidates (candidate ∷ candidates) = do
      call (calls.add_ice_candidate (to_init candidate))
      apply_ice_candidates candidates

    unfoldable pub apply_ice_candidates_finished : Action (RtpClient Peer) (Unit {0})
    unfolding no_candidate
    apply_ice_candidates_finished = call (calls.add_ice_candidate no_candidate)

    unfoldable pub execute_renegotiation : Action (RtpClient Peer) (Unit {0})
    unfolding signaling_notify
    execute_renegotiation = do
      offer ← call calls.create_offer
      call (calls.set_local_description offer)
      signaling_notify (notify_negotiation_offer offer.sdp)

    -- The callback `on_negotiation_needed`, which drops the error.
    unfoldable pub on_negotiation_needed : RtpClient Peer → RtpClient Peer
    unfolding execute_renegotiation
    on_negotiation_needed c = (execute_renegotiation c).0

    -- An error of the call is dropped.
    unfoldable pub close_peer : RtpClient Peer → RtpClient Peer
    close_peer c = record c { peer = (calls.close c.peer).0 }

    -- The task that `new` starts writes what waits on the channel, one after the other.
    unfoldable pub write_one : RtpClient Peer → RtpClient Peer
    write_one c = elim c.rtcp_channel [
      | [] ↦ c
      | packets ∷ rest ↦ record c {
        rtcp_channel = rest;
        peer = (calls.write_rtcp packets c.peer).0;
      }
    ]

    -- `create_sending_track`, where there is no free track.
    unfoldable pub add_free : Action (RtpClient Peer) (Unit {0})
    add_free c = elim (find_free c.sender.sending_tracks) [
      | some track ↦ pure tt c
      | none ↦ call (calls.add_track c.sender.next_object) c
    ]

    -- `create_broadcast_target`; its error is the panic of `unwrap`. `id` is the random text that a
    -- new track gets.
    unfoldable pub open_target :
        String → BroadcastKind → Action (RtpClient Peer) (String × ClientBroadcastTarget)
    unfolding add_free mount_target
    open_target id kind = do add_free; mount_target id kind

    -- The task behind the io loop of a sending track: `weak_ref` is there, and errors are dropped.
    unfoldable pub send_loop_ended : ℕ → RtpClient Peer → RtpClient Peer
    send_loop_ended object c = record c { peer = (calls.remove_track object c.peer).0 }

  -- The callback `on_ice_candidate`: `to_json` of the crate gives the candidate, or fails.
  unfoldable pub on_ice_candidate :
      Option (Result IceCandidateInit String) → Action (RtpClient Peer) (Unit {0})
  unfolding signaling_notify from_init
  on_ice_candidate none = signaling_notify notify_ice_candidate_finished
  on_ice_candidate (some (err error)) = pure tt
  on_ice_candidate (some (ok candidate)) =
      signaling_notify (notify_ice_candidate (from_init candidate))

  unfoldable pub open_source :
      String → BroadcastKind → Action (RtpClient Peer) ClientBroadcastSource
  unfolding create_broadcast_source
  open_source stream_id kind c =
      let (receiver, source) = create_broadcast_source stream_id kind c.receiver in
      (record c { receiver = receiver }, ok source)

  -- The callback `on_track`: the stream and the kind of a track, and its ssrc, where the event has a
  -- track and a receiver.
  unfoldable pub on_track_event :
      Option (String × RtpCodecType × ReceivingTrackBinding)
      → (receiver : Bool) → RtpClient Peer
      → RtpClient Peer
  unfolding on_track
  on_track_event none receiver c = c
  on_track_event (some (stream_id, kind, binding)) receiver c =
      if receiver then record c { receiver = on_track stream_id kind binding c.receiver } else c

-- ===== src/Peer/Reuse.antt =====
-- Sending tracks of server/src/rtp_server/client_rtp.rs that are used again.
use simple_screen_share.Base.{◌≡◌, ap, ◌∙◌, String, some}
use simple_screen_share.Base.Result.{ok}
use simple_screen_share.Messages.{BroadcastKind}
use simple_screen_share.Tracks.Sending.{RegisteredSendingTrack}
use simple_screen_share.Tracks.Targets.{
  ClientBroadcastTarget, find_free, create_broadcast_target, create_broadcast_target-any_kind,
}
use simple_screen_share.Peer.Actions.{bind-returned}
use simple_screen_share.Peer.Client.{
  PeerCalls, RtpClient, add_free, mount_target, open_target, send_loop_ended,
}

module _ {Peer : Type 0} (calls : PeerCalls Peer) (id : String) (kind : BroadcastKind) where
  add_free-free :
      (c : RtpClient Peer) (track : RegisteredSendingTrack)
      → find_free c.sender.sending_tracks ≡ some track
      → add_free calls c ≡ (c, ok tt)
  unfolding add_free
  add_free-free c track free = rw (free, add_free)

  open_target-free :
      (c : RtpClient Peer) (track : RegisteredSendingTrack)
      → find_free c.sender.sending_tracks ≡ some track
      → open_target calls id kind c ≡ mount_target id kind c
  unfolding open_target
  open_target-free c track free =
      let e = add_free-free c track free in
      bind-returned (add_free calls) (λ d. mount_target id kind) c (ap (λ x. x.1) e)
      ∙ ap (λ x. mount_target id kind x.0) e

  -- When the io loop of a free track has ended and its sender was taken from the peer, the next
  -- target still gets this track: it does not panic, the peer is not asked for another track, and the
  -- client is told the id of the track that nothing is sent on any more.
  pub open_target-ended_track :
      (c : RtpClient Peer) (track : RegisteredSendingTrack)
      → find_free c.sender.sending_tracks ≡ some track
      → let gone = send_loop_ended calls track.object c in
        (target : ClientBroadcastTarget) × (target.track ≡ track.object)
        × ((open_target calls id kind gone).1 ≡ ok (track.id, target))
        × ((open_target calls id kind gone).0.peer ≡ (calls.remove_track track.object c.peer).0)
  unfolding send_loop_ended mount_target
  open_target-ended_track c track free =
      let gone = send_loop_ended calls track.object c in
      let e = open_target-free gone track free in
      let k = create_broadcast_target-any_kind gone.sender id kind track free in
      let target = (create_broadcast_target id kind gone.sender).2 in
      (target, k.1, ap (λ x. x.1) e ∙ ap (λ s. ok (s, target)) k.0, ap (λ x. x.0.peer) e)

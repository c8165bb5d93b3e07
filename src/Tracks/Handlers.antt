-- ===== src/Tracks/Handlers.antt =====
-- What happens to the receiving tracks of a client: sources come and go, the remote track is bound,
-- packets arrive and the io loop ends.
use simple_screen_share.Base.{
  ℕ, suc, false, String, Option, none, some, List, [], ◌∷◌, ltb, if◌then◌else◌,
}
use simple_screen_share.Base.Map.{nat_key, lookup, insert}
use simple_screen_share.Messages.{BroadcastKind}
use simple_screen_share.Broadcast.{Packet}
use simple_screen_share.Tracks.Receiving.{
  RtpCodecType, codec_type, RtcpPacket, picture_loss_indication, ReceivingTrackBinding,
  ClientBroadcastSource, handle_rtp_packet, handle_rtcp_packet, handle_closed, handle_mount,
  with_handler, update_handler, remove_handler, Receiver, find_track, put_track, remove_track,
  obtain_track,
}

unfoldable pub create_broadcast_source :
    String → BroadcastKind → Receiver → Receiver × ClientBroadcastSource
unfolding obtain_track codec_type update_handler
create_broadcast_source stream_id kind r =
    let (r', track) = obtain_track stream_id (codec_type kind) r in
    let h = r'.next_object in
    let (track', handlers) =
      update_handler (some h) track (insert h (record { ssrc = 0; events = [] }) r'.handlers) in
    (
      record {
        receiving_tracks = put_track track' r'.receiving_tracks;
        handlers = handlers;
        next_object = suc h;
      },
      record { kind = kind; track = track.object; recv_handler = h },
    )

-- `Drop` of `ClientBroadcastSource`.
unfoldable pub drop_source : ClientBroadcastSource → Receiver → Receiver
unfolding remove_handler
drop_source source r = elim (find_track source.track r.receiving_tracks) [
  | none ↦ r
  | some track ↦
      let (track', handlers) = remove_handler source.recv_handler track r.handlers in
      record r { receiving_tracks = put_track track' r.receiving_tracks; handlers = handlers }
]

-- `send_pli` of a source: the packet that is sent, if one is.
unfoldable pub send_pli : ClientBroadcastSource → Receiver → Option RtcpPacket
send_pli source r = elim (lookup source.recv_handler r.handlers) [
  | none ↦ none
  | some handler ↦ if ltb 0 handler.ssrc then some (picture_loss_indication handler.ssrc) else none
]

-- `on_track`: the binding goes to the track's io loop, which mounts the handler that is there.
unfoldable pub on_track : String → RtpCodecType → ReceivingTrackBinding → Receiver → Receiver
unfolding obtain_track with_handler handle_mount
on_track stream_id kind binding r =
    let (r', track) = obtain_track stream_id kind r in
    if track.binding_tx
    then record r' {
      receiving_tracks = put_track (record track { binding_tx = false }) r'.receiving_tracks;
      handlers = with_handler (handle_mount binding) track.handler r'.handlers;
    }
    else r'

-- The io loop reads a packet.
unfoldable pub read_rtp : ℕ → Packet → Receiver → Receiver
unfolding with_handler handle_rtp_packet
read_rtp object packet r = elim (find_track object r.receiving_tracks) [
  | none ↦ r
  | some track ↦ record r {
    handlers = with_handler (handle_rtp_packet packet) track.handler r.handlers;
  }
]

unfoldable pub read_rtcp : ℕ → List RtcpPacket → Receiver → Receiver
unfolding with_handler handle_rtcp_packet
read_rtcp object [] r = r
read_rtcp object (packet ∷ packets) r = elim (find_track object r.receiving_tracks) [
  | none ↦ r
  | some track ↦
      read_rtcp object packets
        (record r { handlers = with_handler (handle_rtcp_packet packet) track.handler r.handlers })
]

-- The io loop ends: on an error, which no handler consumes, or without a binding in time.
unfoldable pub loop_ended : ℕ → Receiver → Receiver
unfolding with_handler handle_closed
loop_ended object r = elim (find_track object r.receiving_tracks) [
  | none ↦ r
  | some track ↦ record r {
    receiving_tracks = remove_track object r.receiving_tracks;
    handlers = with_handler handle_closed track.handler r.handlers;
  }
]

-- ===== src/Tracks/Receiving.antt =====
-- Receiving tracks of server/src/rtp_server/client_rtp.rs: their io loops, their handlers, and the
-- broadcast sources that read from them. `Arc`s are numbers: handlers stand in a store, since a
-- source and a track share them, and a track is known by its `object`. A channel is the queue of
-- what was sent and not yet read: a sender that waits for room is not modelled.
use text.Mathlib.Text.{◌==◌ as str_eq}
use simple_screen_share.Base.{
  ℕ, suc, Bool, true, false, String, Option, none, some, List, [], ◌∷◌, ◌++◌, contains, ◌==◌,
  if◌then◌else◌,
}
use simple_screen_share.Base.Map.{Map, nat_key, update}
use simple_screen_share.Messages.{BroadcastKind, audio, video}
use simple_screen_share.Broadcast.{Packet, BroadcastSourceEvent, media, end}

-- `RTPCodecType` of the webrtc crate.
pub data RtpCodecType : Type 0 where
  unspecified codec_audio codec_video : RtpCodecType

-- The RTCP packets that the program tells apart.
pub data RtcpPacket : Type 0 where
  sender_report source_description transport_layer_cc receiver_report : RtcpPacket
  transport_layer_nack receiver_estimated_maximum_bitrate other_rtcp : RtcpPacket
  goodbye : (sources : List ℕ) → RtcpPacket
  picture_loss_indication : (media_ssrc : ℕ) → RtcpPacket

unfoldable pub codec_type : BroadcastKind → RtpCodecType
codec_type video = codec_video
codec_type audio = codec_audio

-- `ReceivingTrackBinding`, by the ssrc of its track.
pub record ReceivingTrackBinding : Type 0 where
  pub ssrc : ℕ

-- `ReceivingTrackBroadcastHandler`: `events` is what its source has not read yet.
pub record ReceivingTrackBroadcastHandler : Type 0 where
  pub ssrc : ℕ
  pub events : List BroadcastSourceEvent

abbrev pub HandlerRef : Type 0
HandlerRef = ℕ

abbrev pub Handlers : Type 0
Handlers = Map HandlerRef ReceivingTrackBroadcastHandler

-- `binding_tx` is whether the sender is still there.
pub record RegisteredReceivingTrack : Type 0 where
  pub object : ℕ
  pub kind : RtpCodecType
  pub stream_id : String
  pub binding : Option ReceivingTrackBinding
  pub binding_tx : Bool
  pub handler : Option HandlerRef

-- `ClientBroadcastSource`.
pub record ClientBroadcastSource : Type 0 where
  pub kind : BroadcastKind
  pub track : ℕ
  pub recv_handler : HandlerRef

unfoldable pub put_event :
    BroadcastSourceEvent → ReceivingTrackBroadcastHandler → ReceivingTrackBroadcastHandler
put_event e handler = record handler { events = handler.events ++ (e ∷ []) }

unfoldable pub handle_rtp_packet :
    Packet → ReceivingTrackBroadcastHandler → ReceivingTrackBroadcastHandler
unfolding put_event
handle_rtp_packet packet = put_event (media packet)

unfoldable pub handle_rtcp_packet :
    RtcpPacket → ReceivingTrackBroadcastHandler → ReceivingTrackBroadcastHandler
unfolding put_event
handle_rtcp_packet (goodbye sources) handler =
    if contains handler.ssrc sources then put_event end handler else handler
handle_rtcp_packet _ handler = handler

unfoldable pub handle_unmount : ReceivingTrackBroadcastHandler → ReceivingTrackBroadcastHandler
unfolding put_event
handle_unmount = put_event end

unfoldable pub handle_closed : ReceivingTrackBroadcastHandler → ReceivingTrackBroadcastHandler
unfolding put_event
handle_closed = put_event end

unfoldable pub handle_mount :
    ReceivingTrackBinding → ReceivingTrackBroadcastHandler → ReceivingTrackBroadcastHandler
handle_mount binding handler = record handler { ssrc = binding.ssrc }

-- A call of the handler, if there is one.
unfoldable pub with_handler :
    (ReceivingTrackBroadcastHandler → ReceivingTrackBroadcastHandler)
    → Option HandlerRef
    → Handlers
    → Handlers
with_handler f none handlers = handlers
with_handler f (some h) handlers = update h f handlers

unfoldable pub update_handler :
    Option HandlerRef → RegisteredReceivingTrack → Handlers → RegisteredReceivingTrack × Handlers
unfolding with_handler handle_unmount handle_mount
update_handler new_handler track handlers =
    let unmounted = with_handler handle_unmount track.handler handlers in
    let mounted : Handlers = elim track.binding [
      | none ↦ unmounted
      | some binding ↦ with_handler (handle_mount binding) new_handler unmounted
    ] in
    (record track { handler = new_handler }, mounted)

-- `Arc::ptr_eq` with the track's handler.
unfoldable pub is_handler : HandlerRef → Option HandlerRef → Bool
is_handler h none = false
is_handler h (some current) = current == h

unfoldable pub remove_handler :
    HandlerRef → RegisteredReceivingTrack → Handlers → RegisteredReceivingTrack × Handlers
unfolding is_handler with_handler handle_unmount
remove_handler h track handlers =
    if is_handler h track.handler
    then (record track { handler = none }, with_handler handle_unmount track.handler handlers)
    else (track, handlers)

-- The part of `RtpClient` that its receiving tracks use; `next_object` is the next `Arc`.
pub record Receiver : Type 0 where
  pub receiving_tracks : List RegisteredReceivingTrack
  pub handlers : Handlers
  pub next_object : ℕ

unfoldable pub find_stream :
    String → List RegisteredReceivingTrack → Option RegisteredReceivingTrack
find_stream stream_id [] = none
find_stream stream_id (track ∷ tracks) =
    let rest = find_stream stream_id tracks in
    if str_eq track.stream_id stream_id then some track else rest

unfoldable pub find_track : ℕ → List RegisteredReceivingTrack → Option RegisteredReceivingTrack
find_track object [] = none
find_track object (track ∷ tracks) =
    let rest = find_track object tracks in if track.object == object then some track else rest

-- The shared track has changed.
unfoldable pub put_track :
    RegisteredReceivingTrack → List RegisteredReceivingTrack → List RegisteredReceivingTrack
put_track track [] = []
put_track track (old ∷ tracks) =
    let rest = put_track track tracks in
    if old.object == track.object then track ∷ rest else old ∷ rest

unfoldable pub remove_track : ℕ → List RegisteredReceivingTrack → List RegisteredReceivingTrack
remove_track object [] = []
remove_track object (old ∷ tracks) =
    let rest = remove_track object tracks in if old.object == object then tracks else old ∷ rest

unfoldable pub create_receiving_track :
    String → RtpCodecType → Receiver → Receiver × RegisteredReceivingTrack
create_receiving_track stream_id kind r =
    let track : RegisteredReceivingTrack = record {
      object = r.next_object;
      kind = kind;
      stream_id = stream_id;
      binding = none;
      binding_tx = true;
      handler = none;
    } in
    (
      record r {
        receiving_tracks = r.receiving_tracks ++ (track ∷ []);
        next_object = suc r.next_object;
      },
      track,
    )

-- The track of a stream, which is made if there is none.
unfoldable pub obtain_track : String → RtpCodecType → Receiver → Receiver × RegisteredReceivingTrack
unfolding create_receiving_track
obtain_track stream_id kind r = elim (find_stream stream_id r.receiving_tracks) [
  | some track ↦ (r, track)
  | none ↦ create_receiving_track stream_id kind r
]

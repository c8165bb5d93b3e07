-- ===== src/Tracks/Sending.antt =====
-- Sending tracks of server/src/rtp_server/client_rtp.rs: binding, the packets on their way to the
-- client, and its reports. What the io loop writes is a list of packets.
use text.Mathlib.Text.{◌==◌ as str_eq}
use simple_screen_share.Base.{
  ℕ, Bool, String, Option, none, some, List, [], ◌∷◌, ◌++◌, ltb, length, if◌then◌else◌,
}
use simple_screen_share.Base.Map.{Map, nat_key, update}
use simple_screen_share.Base.Result.{Result, ok, err}
use simple_screen_share.Broadcast.{Packet, BroadcastTargetEvent, request_pli}
use simple_screen_share.Sequence.{SequencePatcher, process}
use simple_screen_share.Tracks.Receiving.{
  RtpCodecType, codec_audio, RtcpPacket, picture_loss_indication,
}

-- `write_stream` is the other end of the io loop.
pub record SendingTrackBinding : Type 0 where
  pub id : String
  pub ssrc : ℕ
  pub payload_type : ℕ

-- The receiving end of a target's channel, `ClientBroadcastTarget::events`.
abbrev pub TargetRef : Type 0
TargetRef = ℕ

-- `rtp_send_channel` is what the io loop has not read yet.
pub record RegisteredSendingTrack : Type 0 where
  pub object : ℕ
  pub kind : RtpCodecType
  pub id : String
  pub binding : Option SendingTrackBinding
  pub shutdown_tx : Bool
  pub event_handler : Option TargetRef
  pub rtp_send_channel : List Packet

-- `RTCRtpCodecParameters` and `TrackLocalContext` of the webrtc crate, as far as they are read.
pub record CodecParameters : Type 0 where
  pub mime_type : String
  pub payload_type : ℕ

pub record TrackLocalContext : Type 0 where
  pub id : String
  pub ssrc : ℕ
  pub has_write_stream : Bool
  pub codec_parameters : List CodecParameters

pub data BindError : Type 0 where
  rtp_sender_track_nil codec_not_found : BindError

-- The mime types are constants of the webrtc crate.
module _ (mime_type_opus mime_type_vp8 : String) where
  unfoldable pub find_codec : RtpCodecType → List CodecParameters → Option CodecParameters
  find_codec kind [] = none
  find_codec codec_audio (p ∷ ps) =
      let rest = find_codec codec_audio ps in
      if str_eq p.mime_type mime_type_opus then some p else rest
  find_codec kind (p ∷ ps) =
      let rest = find_codec kind ps in if str_eq p.mime_type mime_type_vp8 then some p else rest

  unfoldable pub bind :
      TrackLocalContext
      → RegisteredSendingTrack
      → RegisteredSendingTrack × Result CodecParameters BindError
  unfolding find_codec
  bind ctx track =
      let found : RegisteredSendingTrack × Result CodecParameters BindError =
        elim (find_codec track.kind ctx.codec_parameters) [
          | none ↦ (track, err codec_not_found)
          | some codec ↦ (
            record track {
              binding =
                  some (record { id = ctx.id; ssrc = ctx.ssrc; payload_type = codec.payload_type });
            },
            ok codec,
          )
        ] in
      if ctx.has_write_stream then found else (track, err rtp_sender_track_nil)

unfoldable pub unbind : RegisteredSendingTrack → RegisteredSendingTrack
unbind track = record track { binding = none }

-- `send_rtp` of a target: `try_send` on a channel of 1024 packets, whose error is dropped.
unfoldable pub send_rtp : Packet → RegisteredSendingTrack → RegisteredSendingTrack
send_rtp packet track =
    if ltb (length track.rtp_send_channel) 1024
    then record track { rtp_send_channel = track.rtp_send_channel ++ (packet ∷ []) }
    else track

unfoldable pub put_event : List BroadcastTargetEvent → List BroadcastTargetEvent
put_event events = events ++ (request_pli ∷ [])

unfoldable pub handle_rtcp :
    RtcpPacket
    → RegisteredSendingTrack
    → Map TargetRef (List BroadcastTargetEvent)
    → Map TargetRef (List BroadcastTargetEvent)
unfolding put_event
handle_rtcp (picture_loss_indication media_ssrc) track targets = elim track.event_handler [
  | none ↦ targets
  | some handler ↦ update handler put_event targets
]
handle_rtcp _ track targets = targets

-- The variables of `registered_send_track_io_loop`.
pub record SendLoop : Type 0 where
  pub patcher_timestamp : SequencePatcher
  pub patcher_sequence : SequencePatcher

-- They start at two random numbers.
unfoldable pub start_loop : (timestamp : ℕ) (sequence : ℕ) → SendLoop
start_loop timestamp sequence = record {
  patcher_timestamp = record { current = timestamp; reference = none; max_gap = 10000 };
  patcher_sequence = record { current = sequence; reference = none; max_gap = 80 };
}

-- The branch for a packet: what is written, if the track is bound.
unfoldable pub send_packet :
    Option SendingTrackBinding → SendLoop → Packet → SendLoop × Option Packet
unfolding process
send_packet none state packet = (state, none)
send_packet (some binding) state packet =
    let (sequence, new_seq_no) = process 16 state.patcher_sequence packet.sequence_number in
    let (timestamp, new_timestamp) = process 32 state.patcher_timestamp packet.timestamp in
    (
      record { patcher_timestamp = timestamp; patcher_sequence = sequence },
      some (record packet {
        ssrc = binding.ssrc;
        payload_type = binding.payload_type;
        sequence_number = new_seq_no;
        timestamp = new_timestamp;
      }),
    )

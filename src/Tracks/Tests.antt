-- ===== src/Tracks/Tests.antt =====
-- A client with a track in each direction, and the theorems of `Tracks` at it.
use simple_screen_share.Base.{contains, List, ◌≡◌, refl, true, false, none, some, [], ◌∷◌}
use simple_screen_share.Base.Map.{nat_key, lookup, insert, update}
use simple_screen_share.Messages.{audio, video}
use simple_screen_share.Broadcast.{Packet, media, end, request_pli}
use simple_screen_share.Tracks.Receiving.{
  codec_video, goodbye, picture_loss_indication, RegisteredReceivingTrack, Receiver, find_stream,
  put_track,
}
use simple_screen_share.Tracks.Handlers.{create_broadcast_source, on_track, read_rtp}
use simple_screen_share.Tracks.Reachable.{empty, makes_source, binds, Reach, created, next}
use simple_screen_share.Tracks.Handover.{handover}
use simple_screen_share.Tracks.Sending.{SendingTrackBinding, start_loop, handle_rtcp, put_event}
use simple_screen_share.Tracks.Streams.{send_packets}
use simple_screen_share.Tracks.ReceiveIo.{rtp, rtcp, rtp_error, ReceiveIo, receive_task, At}
use simple_screen_share.Tracks.Heard.{receive_task-told}
use simple_screen_share.Tracks.SendIo.{
  LoopEvent, rtp_send, rtcp_receive, rtcp_receive_error, noop, SendIo, handle_all, run_loop,
  run_loop_lem,
}
use simple_screen_share.Tracks.Targets.{Sender, create_broadcast_target}
use simple_screen_share.Tracks.Live.{created as no_targets, makes, Apart}
use simple_screen_share.Tracks.Exclusive.{Live-Apart}

-- A source on a stream, whose track is then bound.
abbrev sourced : Receiver
sourced = (create_broadcast_source "cam" video empty).0

abbrev bound : Receiver
bound = on_track "cam" codec_video (record { ssrc = 77 }) sourced

bound-Reach : Reach bound
bound-Reach =
    next (next created (makes_source empty "cam" video))
      (binds sourced "cam" codec_video (record { ssrc = 77 }))

abbrev cam : RegisteredReceivingTrack
cam = record {
  object = 0;
  kind = codec_video;
  stream_id = "cam";
  binding = none;
  binding_tx = false;
  handler = some 1;
}

abbrev packet : Packet
packet = record {
  sequence_number = 5;
  timestamp = 50;
  ssrc = 77;
  payload_type = 96;
  payload = 1 ∷ [];
}

handover_example :
    (lookup 1 (read_rtp 0 packet (create_broadcast_source "cam" video bound).0).handlers
      ≡ some (record { ssrc = 77; events = end ∷ [] }))
    × (lookup 2 (read_rtp 0 packet (create_broadcast_source "cam" video bound).0).handlers
        ≡ some (record { ssrc = 0; events = media packet ∷ [] }))
unfolding create_broadcast_source on_track lookup insert update find_stream put_track
handover_example =
    handover bound bound-Reach "cam" video cam refl 1 (record { ssrc = 77; events = [] }) refl refl
      packet

abbrev binding : SendingTrackBinding
binding = record { id = "x"; ssrc = 900; payload_type = 100 }

abbrev after : Packet
after = record packet { sequence_number = 7; timestamp = 90 }

-- A target for sound, that is dropped; then one for a picture.
abbrev no_tracks : Sender
no_tracks = record { sending_tracks = []; targets = []; next_object = 0 }

abbrev sound : Sender
sound = (create_broadcast_target "sound" audio no_tracks).0

Live-Apart_example : Apart (
    (create_broadcast_target "picture" video sound).2
    ∷ (create_broadcast_target "sound" audio no_tracks).2
    ∷ [])
Live-Apart_example = Live-Apart (makes "picture" video (makes "sound" audio no_targets))

-- A loop that writes a packet, passes a report on, and does not come to a packet behind its end.
abbrev io : SendIo
io = record {
  track = record {
    object = 0;
    kind = codec_video;
    id = "track";
    binding = some binding;
    shutdown_tx = true;
    event_handler = some 4;
    rtp_send_channel = [];
  };
  state = start_loop 1000 65535;
  targets = (4, []) ∷ [];
  written = [];
  ended = false;
}

abbrev happenings : List LoopEvent
happenings =
    rtp_send packet
    ∷ rtcp_receive (picture_loss_indication 7 ∷ [])
    ∷ noop
    ∷ rtcp_receive_error "closed"
    ∷ rtp_send after
    ∷ []

run_loop_lem_example :
    ((run_loop happenings io).written
      ≡ send_packets (some binding) (start_loop 1000 65535) (packet ∷ []))
    × ((run_loop happenings io).targets ≡ (4, request_pli ∷ []) ∷ [])
    × ((run_loop happenings io).ended ≡ true)
unfolding handle_all handle_rtcp put_event update
run_loop_lem_example = run_loop_lem happenings io refl

-- A source that has not read a packet yet, whose track ends behind a goodbye.
abbrev reading : ReceiveIo
reading = record {
  handler = some 1;
  handlers = (1, record { ssrc = 0; events = media packet ∷ [] }) ∷ [];
  ended = false;
}

receive_task-told_example :
    At 1 77 (media packet ∷ end ∷ media packet ∷ end ∷ []) (
      receive_task
        (some (record { ssrc = 77 }))
        (rtcp (goodbye (77 ∷ []) ∷ []) ∷ rtp packet ∷ rtp_error ∷ rtp packet ∷ [])
        reading)
    × At 1 0 (media packet ∷ end ∷ []) (
        receive_task none
          (rtcp (goodbye (77 ∷ []) ∷ []) ∷ rtp packet ∷ rtp_error ∷ rtp packet ∷ [])
          reading)
unfolding lookup contains
receive_task-told_example =
    receive_task-told 1 0 (media packet ∷ []) reading (record { ssrc = 77 })
      (rtcp (goodbye (77 ∷ []) ∷ []) ∷ rtp packet ∷ rtp_error ∷ rtp packet ∷ []) refl (refl, refl)

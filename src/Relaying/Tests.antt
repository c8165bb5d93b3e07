-- ===== src/Relaying/Tests.antt =====
-- A screen with one viewer: a packet waits when it subscribes, another comes, and both are written.
use simple_screen_share.Base.{arith, inl, refl, true, false, some, [], ◌∷◌}
use simple_screen_share.Base.Map.{nat_key, lookup, update, map_values}
use simple_screen_share.Messages.{video}
use simple_screen_share.Broadcast.{
  Packet, media, RoomBroadcastTarget, ClientBroadcast, poll, drain_targets, poll_source,
  poll_target, send_pli, send_rtp,
}
use simple_screen_share.Tracks.Receiving.{codec_video}
use simple_screen_share.Tracks.Sending
use simple_screen_share.Tracks.Sending.{SendingTrackBinding, start_loop, send_packet}
use simple_screen_share.Tracks.SendIo.{SendIo, handle_event}
use simple_screen_share.Relaying.{
  Relay, poll_relay, take_packet, offer_all, Run, start, then_step, hears, polls, takes,
}
use simple_screen_share.Relaying.Streaming.{Shifted, Run-streams}
use simple_screen_share.Relaying.Accounting.{Relayed, Run-relays}

abbrev first : Packet
first = record { sequence_number = 5; timestamp = 50; ssrc = 9; payload_type = 1; payload = 1 ∷ [] }

abbrev second : Packet
second = record first { sequence_number = 6; timestamp = 60 }

abbrev viewer : RoomBroadcastTarget
viewer = record { track = "video"; events = []; ended = false; sent = first ∷ [] }

abbrev screen : ClientBroadcast
screen = record {
  kind = video;
  id = 500;
  name = "screen";
  client_id = 1;
  client = record { object = 0; client_id = 1 };
  waker = true;
  source = record { kind = video; events = media first ∷ []; ended = false; plis = 0 };
  targets = (2, viewer) ∷ [];
  shutdown_tx = true;
  shutdown_sent = false;
}

abbrev binding : SendingTrackBinding
binding = record { id = "binding"; ssrc = 77; payload_type = 96 }

abbrev io : SendIo
io = record {
  track = record {
    object = 0;
    kind = codec_video;
    id = "video";
    binding = some binding;
    shutdown_tx = true;
    event_handler = some 1;
    rtp_send_channel = [];
  };
  state = start_loop 1000 65535;
  targets = (1, []) ∷ [];
  written = [];
  ended = false;
}

abbrev subscribing : Relay
subscribing = record { broadcast = screen; over = false; io = io }

abbrev heard_more : Relay
heard_more = record subscribing {
  broadcast = record screen {
    source = record screen.source { events = media first ∷ media second ∷ [] };
  };
}

abbrev polled : Relay
polled = (poll_relay 2 heard_more).0

abbrev one_written : Relay
one_written = record polled { io = take_packet first (second ∷ []) polled.io }

one_written-Run : Run 2 subscribing (media second ∷ []) [] one_written
unfolding poll_relay poll drain_targets poll_target poll_source send_pli send_rtp map_values
    offer_all Sending.send_rtp update lookup
one_written-Run =
    then_step (then_step (then_step start (hears (media second))) (polls refl))
      (takes first (second ∷ []) refl)

Run-relays_example :
    Relayed 2
      (some binding)
      (start_loop 1000 65535)
      (media first ∷ media second ∷ [])
      []
      one_written
unfolding lookup
Run-relays_example = Run-relays 2 (viewer, refl, refl) refl refl one_written-Run

abbrev all_written : Relay
all_written = record one_written { io = take_packet second [] one_written.io }

all_written-Run : Run 2 subscribing (media second ∷ []) [] all_written
unfolding poll_relay poll drain_targets poll_target poll_source send_pli send_rtp map_values
    offer_all Sending.send_rtp update lookup take_packet handle_event send_packet
all_written-Run = then_step one_written-Run (takes second [] refl)

Run-streams_example : Shifted 1000 65535 first (second ∷ []) all_written.io.written
unfolding lookup poll_relay poll drain_targets poll_target poll_source send_pli send_rtp map_values
    offer_all Sending.send_rtp update take_packet handle_event send_packet
Run-streams_example =
    Run-streams 2 binding 1000 65535 first (second ∷ []) (viewer, refl, refl) refl refl refl refl
      all_written-Run refl refl refl (omega arith) (omega arith) (omega arith) (omega arith)
      (inl (omega arith), omega arith, tt) (inl (omega arith), omega arith, tt)

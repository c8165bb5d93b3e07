-- ===== src/Broadcast/Tests.antt =====
-- Polls of a small broadcast, and the theorems of `Broadcast.Relay` at it.
use simple_screen_share.Base.{ℕ, ◌≡◌, refl, true, false, [], ◌∷◌, ◌*◌}
use simple_screen_share.Base.Map.{nat_key, map_values}
use simple_screen_share.Messages.{video}
use simple_screen_share.Broadcast.{
  Packet, media, end, request_pli, RoomBroadcastTarget, ClientBroadcast, ready, poll, drain_targets,
  poll_source,
}

abbrev frame : ℕ → Packet
frame n = record {
  sequence_number = n;
  timestamp = 90 * n;
  ssrc = 1;
  payload_type = 96;
  payload = [];
}

abbrev viewer : RoomBroadcastTarget
viewer = record { track = "t"; events = request_pli ∷ []; ended = false; sent = [] }

abbrev gone_viewer : RoomBroadcastTarget
gone_viewer = record { track = "u"; events = []; ended = true; sent = [] }

abbrev shared : ClientBroadcast
shared = record {
  kind = video;
  id = 500;
  name = "screen";
  client_id = 1;
  client = record { object = 0; client_id = 1 };
  waker = false;
  source = record {
    kind = video;
    events = media (frame 1) ∷ media (frame 2) ∷ end ∷ media (frame 3) ∷ [];
    ended = false;
    plis = 0;
  };
  targets = (2, viewer) ∷ (3, gone_viewer) ∷ [];
  shutdown_tx = true;
  shutdown_sent = false;
}

shared_ends : (poll shared).poll ≡ ready
unfolding poll drain_targets poll_source map_values
shared_ends = refl

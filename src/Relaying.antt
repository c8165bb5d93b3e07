-- ===== src/Relaying.antt =====
-- A broadcast on its way to one subscriber: the broadcast's `poll` of server/src/rtp_server/room.rs,
-- the target, and the io loop of its track, both in server/src/rtp_server/client_rtp.rs.
pub mod Weaving
pub mod Polling
pub mod Accounting
pub mod Streaming
mod Tests
use simple_screen_share.Base.{
  ◌≡◌, Bool, true, false, none, some, Option, List, [], ◌∷◌, ◌++◌, ltb, length, if◌then◌else◌,
}
use simple_screen_share.Base.Map.{Map, nat_key, lookup, update}
use simple_screen_share.Messages.{ClientId}
use simple_screen_share.Broadcast
use simple_screen_share.Broadcast.{
  Packet, BroadcastSourceEvent, request_pli, RoomBroadcastTarget, ClientBroadcast, Poll, ready,
  pending, poll,
}
use simple_screen_share.Room.Clients.{signal_shutdown}
use simple_screen_share.Tracks.Receiving.{RtcpPacket}
use simple_screen_share.Tracks.Sending.{RegisteredSendingTrack, send_rtp}
use simple_screen_share.Tracks.SendIo.{SendIo, LoopEvent, rtp_send, rtcp_receive, handle_event}

-- The channel of the source is the broadcast's `source.events`. `over` is whether its task has ended,
-- `io` the loop of the subscriber's track.
pub record Relay : Type 0 where
  pub broadcast : ClientBroadcast
  pub over : Bool
  pub io : SendIo

-- The calls of `send_rtp`: the track with its channel, and the packets that had no room.
unfoldable pub offer_all :
    List Packet → RegisteredSendingTrack → RegisteredSendingTrack × List Packet
unfolding send_rtp
offer_all [] track = (track, [])
offer_all (packet ∷ packets) track =
    let (offered, lost) = offer_all packets (send_rtp packet track) in
    (offered, if ltb (length track.rtp_send_channel) 1024 then lost else packet ∷ lost)

-- Nothing is remembered of the calls before this poll.
abbrev pub forget : ClientId → ClientBroadcast → ClientBroadcast
forget c b = record b {
  targets = update c (λ (t : RoomBroadcastTarget). record t { sent = [] }) b.targets;
}

abbrev pub sent_to : Option RoomBroadcastTarget → List Packet
sent_to none = []
sent_to (some t) = t.sent

abbrev pub is_ready : Poll → Bool
is_ready ready = true
is_ready pending = false

abbrev pub with_channel : List Packet → RegisteredSendingTrack → RegisteredSendingTrack
with_channel packets track = record track { rtp_send_channel = packets }

-- The task polls the broadcast, and the subscriber's target puts what it is sent on the channel.
unfoldable pub poll_relay : ClientId → Relay → Relay × List Packet
unfolding poll offer_all
poll_relay c s =
    let polled = poll (forget c s.broadcast) in
    let (track, lost) = offer_all (sent_to (lookup c polled.broadcast.targets)) s.io.track in
    (
      record {
        broadcast = polled.broadcast;
        over = is_ready polled.poll;
        io = record s.io { track = track };
      },
      lost,
    )

-- The io loop takes a packet off the channel.
unfoldable pub take_packet : Packet → List Packet → SendIo → SendIo
unfolding handle_event
take_packet packet rest io =
    handle_event (rtp_send packet) (record io { track = with_channel rest io.track })

-- One step, while the client `c` stays subscribed and its track stays bound as it is: the events put
-- on the source's channel, and the packets lost.
pub data Step (c : ClientId) (s : Relay)
    : List BroadcastSourceEvent → List Packet → Relay → Type 0 where
  hears :
      (e : BroadcastSourceEvent)
      → Step c s (e ∷ []) [] (record s {
        broadcast = record s.broadcast {
          source = record s.broadcast.source { events = s.broadcast.source.events ++ (e ∷ []) };
        };
      })
  polls : s.over ≡ false → Step c s [] (poll_relay c s).1 (poll_relay c s).0
  takes :
      (packet : Packet) (rest : List Packet)
      → s.io.track.rtp_send_channel ≡ packet ∷ rest
      → Step c s [] [] (record s { io = take_packet packet rest s.io })
  reports :
      (packets : List RtcpPacket)
      → Step c s [] [] (record s { io = handle_event (rtcp_receive packets) s.io })
  -- The client asks for a picture; other clients subscribe, unsubscribe or ask.
  asks : Step c s [] [] (record s {
    broadcast = record s.broadcast {
      targets =
          update c
            (λ (t : RoomBroadcastTarget). record t { events = t.events ++ (request_pli ∷ []) })
            s.broadcast.targets;
    };
  })
  others :
      (targets : Map ClientId RoomBroadcastTarget)
      → lookup c targets ≡ lookup c s.broadcast.targets
      → Step c s [] [] (record s { broadcast = record s.broadcast { targets = targets } })
  source_closes : Step c s [] [] (record s {
    broadcast = record s.broadcast { source = record s.broadcast.source { ended = true } };
  })
  shuts : Step c s [] [] (record s { broadcast = signal_shutdown s.broadcast })

pub data Run (c : ClientId) (s : Relay)
    : List BroadcastSourceEvent → List Packet → Relay → Type 0 where
  start : Run c s [] [] s
  then_step :
      {heard new : List BroadcastSourceEvent} {lost dropped : List Packet} {t u : Relay}
      → Run c s heard lost t
      → Step c t new dropped u
      → Run c s (heard ++ new) (lost ++ dropped) u

-- ===== src/Tracks/ReceiveIo.antt =====
-- `registered_receive_track_io_loop` of server/src/rtp_server/client_rtp.rs and the task around it.
-- What its `select!` gives is a list of events; the track keeps its handler between them.
use simple_screen_share.Base.{
  ℕ, Bool, true, false, ◌≡◌, Option, some, none, List, [], ◌∷◌, ◌++◌, contains, if◌then◌else◌,
  arith,
}
use simple_screen_share.Base.Map.{nat_key, lookup, lookup-update}
use simple_screen_share.Broadcast.{Packet, BroadcastSourceEvent, media, end}
use simple_screen_share.Tracks.Receiving.{
  RtcpPacket, goodbye, ReceivingTrackBinding, ReceivingTrackBroadcastHandler, HandlerRef, Handlers,
  handle_rtp_packet, handle_rtcp_packet, handle_closed, handle_mount, with_handler,
}

pub data ReadEvent : Type 0 where
  rtp : Packet → ReadEvent
  rtcp : List RtcpPacket → ReadEvent
  rtp_error rtcp_error : ReadEvent

-- The handler of the track, and the store.
pub record ReceiveIo : Type 0 where
  pub handler : Option HandlerRef
  pub handlers : Handlers
  pub ended : Bool

-- A call of the handler.
unfoldable pub call_handler :
    (ReceivingTrackBroadcastHandler → ReceivingTrackBroadcastHandler) → ReceiveIo → ReceiveIo
unfolding with_handler
call_handler f io = record io { handlers = with_handler f io.handler io.handlers }

unfoldable pub hear_rtcp : List RtcpPacket → ReceiveIo → ReceiveIo
unfolding call_handler handle_rtcp_packet
hear_rtcp [] io = io
hear_rtcp (packet ∷ packets) io = hear_rtcp packets (call_handler (handle_rtcp_packet packet) io)

-- No handler consumes an error.
unfoldable pub handle_error : ReceiveIo → Bool
handle_error io = false

unfoldable pub read_event : ReadEvent → ReceiveIo → ReceiveIo
unfolding call_handler handle_rtp_packet hear_rtcp handle_error
read_event (rtp packet) io = call_handler (handle_rtp_packet packet) io
read_event (rtcp packets) io = hear_rtcp packets io
read_event rtp_error io = if handle_error io then io else record io { ended = true }
read_event rtcp_error io = if handle_error io then io else record io { ended = true }

unfoldable pub read_events : List ReadEvent → ReceiveIo → ReceiveIo
unfolding read_event
read_events [] io = io
read_events (event ∷ events) io =
    let next = read_event event io in
    let rest = read_events events next in if next.ended then next else rest

-- The loop; `none` is a binding that does not come in time.
unfoldable pub receive_loop : Option ReceivingTrackBinding → List ReadEvent → ReceiveIo → ReceiveIo
unfolding call_handler handle_mount read_events
receive_loop none events io = record io { ended = true }
receive_loop (some binding) events io = read_events events (call_handler (handle_mount binding) io)

-- The task: behind the loop, the handler is told that the track is closed.
unfoldable pub receive_task : Option ReceivingTrackBinding → List ReadEvent → ReceiveIo → ReceiveIo
unfolding receive_loop call_handler handle_closed
receive_task binding events io =
    let after = receive_loop binding events io in
    if after.ended then call_handler handle_closed after else after

-- What a handler tells its source of reports, of the events up to the first error, and behind it.
abbrev pub goodbyes : ℕ → List RtcpPacket → List BroadcastSourceEvent
goodbyes ssrc [] = []
goodbyes ssrc (goodbye sources ∷ packets) =
    if contains ssrc sources then end ∷ goodbyes ssrc packets else goodbyes ssrc packets
goodbyes ssrc (_ ∷ packets) = goodbyes ssrc packets

abbrev pub told : ℕ → List ReadEvent → List BroadcastSourceEvent
told ssrc [] = []
told ssrc (rtp packet ∷ events) = media packet ∷ told ssrc events
told ssrc (rtcp packets ∷ events) = goodbyes ssrc packets ++ told ssrc events
told ssrc (rtp_error ∷ events) = end ∷ []
told ssrc (rtcp_error ∷ events) = end ∷ []

-- The handler that stands at `h`.
abbrev pub At : HandlerRef → ℕ → List BroadcastSourceEvent → ReceiveIo → Type 0
At h ssrc events io =
    (io.handler ≡ some h) × (lookup h io.handlers ≡ some (record { ssrc = ssrc; events = events }))

pub call_handler-At :
    (f : ReceivingTrackBroadcastHandler → ReceivingTrackBroadcastHandler) (h : HandlerRef)
    (ssrc : ℕ) (events : List BroadcastSourceEvent) (io : ReceiveIo)
    → At h ssrc events io
    → (io.ended ≡ (call_handler f io).ended)
      × At h
          (f (record { ssrc = ssrc; events = events })).ssrc
          (f (record { ssrc = ssrc; events = events })).events
          (call_handler f io)
unfolding call_handler with_handler
call_handler-At f h ssrc events io (is, at) = ground (arith, lookup-update h h f io.handlers)

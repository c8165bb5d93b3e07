-- ===== src/Tracks/Heard.antt =====
-- What a source hears of the io loop of its track, in server/src/rtp_server/client_rtp.rs.
use mathlib.Core.List.{append_assoc, append-nil}
use simple_screen_share.Base.{
  ℕ, true, false, ◌≡◌, refl, sym, ap, subst, ◌∙◌, some, none, List, [], ◌∷◌, ◌++◌, if◌then◌else◌,
  arith,
}
use simple_screen_share.Base.Map.{nat_key}
use simple_screen_share.Broadcast.{BroadcastSourceEvent, media, end}
use simple_screen_share.Tracks.Receiving.{
  RtcpPacket, ReceivingTrackBinding, ReceivingTrackBroadcastHandler, HandlerRef, put_event,
  handle_rtp_packet, handle_rtcp_packet, handle_closed, handle_mount,
}
use simple_screen_share.Tracks.ReceiveIo.{
  ReadEvent, rtp, rtcp, rtp_error, rtcp_error, ReceiveIo, call_handler, hear_rtcp, handle_error,
  read_event, read_events, receive_loop, receive_task, goodbyes, told, At, call_handler-At,
}

abbrev StillAt : HandlerRef → ℕ → List BroadcastSourceEvent → ReceiveIo → Type 0
StillAt h ssrc events io = (io.ended ≡ false) × At h ssrc events io

module _ (h : HandlerRef) (ssrc : ℕ) where
  -- A call that puts events behind those that wait.
  called-StillAt :
      (f : ReceivingTrackBroadcastHandler → ReceivingTrackBroadcastHandler)
      (events more : List BroadcastSourceEvent) (io : ReceiveIo)
      → f (record { ssrc = ssrc; events = events })
        ≡ record { ssrc = ssrc; events = events ++ more }
      → StillAt h ssrc events io
      → StillAt h ssrc (events ++ more) (call_handler f io)
  called-StillAt f events more io e (on, at) =
      let k = call_handler-At f h ssrc events io at in
      (
        sym k.0 ∙ on,
        subst (λ (x : ReceivingTrackBroadcastHandler). At h x.ssrc x.events (call_handler f io)) e
            k.1,
      )

  -- A report that is no goodbye from the track says nothing.
  rtcp-heard :
      (packet : RtcpPacket) (events : List BroadcastSourceEvent)
      → handle_rtcp_packet packet (record { ssrc = ssrc; events = events })
        ≡ record { ssrc = ssrc; events = events ++ goodbyes ssrc (packet ∷ []) }
  unfolding handle_rtcp_packet put_event
  rtcp-heard packet events = ground (arith, append-nil events)

  goodbyes-cons :
      (packet : RtcpPacket) (packets : List RtcpPacket)
      → goodbyes ssrc (packet ∷ packets) ≡ goodbyes ssrc (packet ∷ []) ++ goodbyes ssrc packets
  goodbyes-cons packet packets = ground arith

  hear_rtcp-StillAt :
      (packets : List RtcpPacket) (events : List BroadcastSourceEvent) (io : ReceiveIo)
      → StillAt h ssrc events io
      → StillAt h ssrc (events ++ goodbyes ssrc packets) (hear_rtcp packets io)
  unfolding hear_rtcp
  hear_rtcp-StillAt [] events io k = subst (λ l. StillAt h ssrc l io) (sym (append-nil events)) k
  hear_rtcp-StillAt (packet ∷ packets) events io k =
      let first = goodbyes ssrc (packet ∷ []) in
      let next = call_handler (handle_rtcp_packet packet) io in
      let j =
        called-StillAt (handle_rtcp_packet packet) events first io (rtcp-heard packet events) k in
      subst (λ l. StillAt h ssrc l (hear_rtcp packets next))
        (append_assoc events first (goodbyes ssrc packets)
          ∙ ap (λ l. events ++ l) (sym (goodbyes-cons packet packets)))
        (hear_rtcp-StillAt packets (events ++ first) next j)

  -- The handler is told that the track is closed, if the loop has ended.
  abbrev close_ended : ReceiveIo → ReceiveIo
  close_ended io = if io.ended then call_handler handle_closed io else io

  -- An error ends the loop.
  ended-At :
      (events : List BroadcastSourceEvent) (io : ReceiveIo)
      → At h ssrc events io
      → At h ssrc (events ++ (end ∷ [])) (close_ended (record io { ended = true }))
  unfolding handle_closed put_event
  ended-At events io k =
      let j = call_handler-At handle_closed h ssrc events (record io { ended = true }) k in j.1

  reads_on :
      (event : ReadEvent) (events : List ReadEvent) (io : ReceiveIo)
      → (read_event event io).ended ≡ false
      → read_events (event ∷ events) io ≡ read_events events (read_event event io)
  unfolding read_events
  reads_on event events io e = rw e

  -- The rest of the loop, behind an event that told the source something.
  told-At :
      (event : ReadEvent) (rest : List ReadEvent) (events more : List BroadcastSourceEvent)
      (io : ReceiveIo)
      → (read_event event io).ended ≡ false
      → told ssrc (event ∷ rest) ≡ more ++ told ssrc rest
      → At h ssrc
          ((events ++ more) ++ told ssrc rest)
          (close_ended (read_events rest (read_event event io)))
      → At h ssrc (events ++ told ssrc (event ∷ rest)) (close_ended (read_events (event ∷ rest) io))
  told-At event rest events more io on e k =
      subst (λ i. At h ssrc (events ++ told ssrc (event ∷ rest)) (close_ended i))
        (sym (reads_on event rest io on))
        (subst (λ l. At h ssrc l (close_ended (read_events rest (read_event event io))))
          (append_assoc events more (told ssrc rest) ∙ ap (λ l. events ++ l) (sym e)) k)

  read_events-At :
      (reads : List ReadEvent) (events : List BroadcastSourceEvent) (io : ReceiveIo)
      → StillAt h ssrc events io
      → At h ssrc (events ++ told ssrc reads) (close_ended (read_events reads io))
  unfolding read_events read_event handle_error handle_rtp_packet put_event
  read_events-At [] events io (on, at) =
      subst (λ l. At h ssrc l (close_ended io)) (sym (append-nil events)) (rw on at)
  read_events-At (rtp packet ∷ rest) events io k =
      let j = called-StillAt (handle_rtp_packet packet) events (media packet ∷ []) io refl k in
      told-At (rtp packet) rest events (media packet ∷ []) io j.0 refl (
        read_events-At rest (events ++ (media packet ∷ []))
          (call_handler (handle_rtp_packet packet) io) j)
  read_events-At (rtcp packets ∷ rest) events io k =
      let j = hear_rtcp-StillAt packets events io k in
      told-At (rtcp packets) rest events (goodbyes ssrc packets) io j.0 refl
        (read_events-At rest (events ++ goodbyes ssrc packets) (hear_rtcp packets io) j)
  read_events-At (rtp_error ∷ rest) events io (on, at) = ended-At events io at
  read_events-At (rtcp_error ∷ rest) events io (on, at) = ended-At events io at

-- A source that stays on its track hears, behind what it has not read yet, each packet that the
-- track reads in turn and an end for each goodbye that names its ssrc, all up to the first error,
-- and then the end; on a track that is not bound in time it hears the end alone.
pub receive_task-told :
    (h : HandlerRef) (ssrc : ℕ) (events : List BroadcastSourceEvent) (io : ReceiveIo)
    (binding : ReceivingTrackBinding) (reads : List ReadEvent)
    → io.ended ≡ false
    → At h ssrc events io
    → At h binding.ssrc (events ++ told binding.ssrc reads) (receive_task (some binding) reads io)
      × At h ssrc (events ++ (end ∷ [])) (receive_task none reads io)
unfolding receive_task receive_loop handle_mount
receive_task-told h ssrc events io binding reads on at =
    let k = call_handler-At (handle_mount binding) h ssrc events io at in
    (
      read_events-At h binding.ssrc reads events (call_handler (handle_mount binding) io)
          (sym k.0 ∙ on, k.1),
      ended-At h ssrc events io at,
    )

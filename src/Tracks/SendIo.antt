-- ===== src/Tracks/SendIo.antt =====
-- `registered_send_track_io_loop` of server/src/rtp_server/client_rtp.rs. What its `select!` gives is
-- a list of events; the binding does not change between them.
use mathlib.Core.List.{append_assoc, append-nil}
use simple_screen_share.Base.{
  Bool, true, false, ◌≡◌, refl, sym, subst, ◌∙◌, String, Option, some, none, List, [], ◌∷◌, ◌++◌,
  if◌then◌else◌,
}
use simple_screen_share.Base.Map.{Map}
use simple_screen_share.Broadcast.{Packet, BroadcastTargetEvent}
use simple_screen_share.Tracks.Receiving.{RtcpPacket}
use simple_screen_share.Tracks.Sending.{
  TargetRef, SendingTrackBinding, RegisteredSendingTrack, handle_rtcp, SendLoop, send_packet,
}
use simple_screen_share.Tracks.Streams.{consed, send_packets}

pub data LoopEvent : Type 0 where
  shutdown : LoopEvent
  rtp_send : Packet → LoopEvent
  rtcp_receive : List RtcpPacket → LoopEvent
  rtcp_receive_error : (error : String) → LoopEvent
  noop : LoopEvent

abbrev pub Targets : Type 0
Targets = Map TargetRef (List BroadcastTargetEvent)

-- The loop: `written` is what the write stream took, `targets` has the channels of the targets.
pub record SendIo : Type 0 where
  pub track : RegisteredSendingTrack
  pub state : SendLoop
  pub targets : Targets
  pub written : List Packet
  pub ended : Bool

-- A loop that starts takes the shutdown of the track, and shuts an older loop down: the second part
-- is whether there was one.
unfoldable pub take_over : RegisteredSendingTrack → RegisteredSendingTrack × Bool
take_over track = (record track { shutdown_tx = true }, track.shutdown_tx)

unfoldable pub handle_all : List RtcpPacket → RegisteredSendingTrack → Targets → Targets
unfolding handle_rtcp
handle_all [] track targets = targets
handle_all (event ∷ events) track targets =
    handle_all events track (handle_rtcp event track targets)

-- `handle_rtcp_error` of the track: no error is consumed.
unfoldable pub handle_rtcp_error : (error : String) → Bool
handle_rtcp_error error = false

unfoldable pub handle_event : LoopEvent → SendIo → SendIo
unfolding handle_all handle_rtcp_error send_packet
handle_event shutdown io = record io { ended = true }
handle_event (rtp_send packet) io =
    let (state, sent) = send_packet io.track.binding io.state packet in
    record io { state = state; written = io.written ++ consed sent [] }
handle_event (rtcp_receive packets) io = record io {
  targets = handle_all packets io.track io.targets;
}
handle_event (rtcp_receive_error error) io =
    if handle_rtcp_error error then io else record io { ended = true }
handle_event noop io = io

unfoldable pub run_loop : List LoopEvent → SendIo → SendIo
unfolding handle_event
run_loop [] io = io
run_loop (event ∷ events) io =
    let next = handle_event event io in
    let rest = run_loop events next in if next.ended then next else rest

-- The packets and the reports before the first event that ends the loop, and whether there is one.
abbrev pub packets_until : List LoopEvent → List Packet
packets_until [] = []
packets_until (shutdown ∷ events) = []
packets_until (rtp_send packet ∷ events) = packet ∷ packets_until events
packets_until (rtcp_receive reports ∷ events) = packets_until events
packets_until (rtcp_receive_error error ∷ events) = []
packets_until (noop ∷ events) = packets_until events

abbrev pub reports_until : List LoopEvent → List RtcpPacket
reports_until [] = []
reports_until (shutdown ∷ events) = []
reports_until (rtp_send packet ∷ events) = reports_until events
reports_until (rtcp_receive reports ∷ events) = reports ++ reports_until events
reports_until (rtcp_receive_error error ∷ events) = []
reports_until (noop ∷ events) = reports_until events

abbrev pub ends : List LoopEvent → Bool
ends [] = false
ends (shutdown ∷ events) = true
ends (rtp_send packet ∷ events) = ends events
ends (rtcp_receive reports ∷ events) = ends events
ends (rtcp_receive_error error ∷ events) = true
ends (noop ∷ events) = ends events

handle_all-append :
    (xs ys : List RtcpPacket) (track : RegisteredSendingTrack) (targets : Targets)
    → handle_all (xs ++ ys) track targets ≡ handle_all ys track (handle_all xs track targets)
unfolding handle_all
handle_all-append [] ys track targets = refl
handle_all-append (x ∷ xs) ys track targets =
    handle_all-append xs ys track (handle_rtcp x track targets)

consed-written :
    (binding : Option SendingTrackBinding) (state : SendLoop) (written : List Packet) (p : Packet)
    (ps : List Packet)
    → (written ++ consed (send_packet binding state p).1 [])
        ++ send_packets binding (send_packet binding state p).0 ps
      ≡ written ++ send_packets binding state (p ∷ ps)
unfolding send_packets send_packet
consed-written none state written p ps = rw (append-nil written)
consed-written (some b) state written p ps =
    append_assoc written (consed (send_packet (some b) state p).1 [])
      (send_packets (some b) (send_packet (some b) state p).0 ps)

goes_on :
    (event : LoopEvent) (events : List LoopEvent) (io : SendIo)
    → (handle_event event io).ended ≡ false
    → run_loop (event ∷ events) io ≡ run_loop events (handle_event event io)
unfolding run_loop
goes_on event events io e = rw e

-- What the loop has done after the events, from their packets and reports.
abbrev pub Ran : List LoopEvent → SendIo → SendIo → Type 0
Ran events io after =
    (after.written ≡ io.written ++ send_packets io.track.binding io.state (packets_until events))
    × (after.targets ≡ handle_all (reports_until events) io.track io.targets)
    × (after.ended ≡ ends events)

-- Whatever the events are, the loop writes the packets that come before the first shutdown or error,
-- each renumbered in its turn if the track is bound, passes the reports that come before it to the
-- event handler, and has ended exactly if there is such an event.
pub run_loop_lem :
    (events : List LoopEvent) (io : SendIo) → io.ended ≡ false → Ran events io (run_loop events io)
unfolding run_loop handle_event handle_rtcp_error handle_all send_packets
run_loop_lem [] io e = (sym (append-nil io.written), refl, e)
run_loop_lem (shutdown ∷ events) io e = (sym (append-nil io.written), refl, refl)
run_loop_lem (rtp_send packet ∷ events) io e =
    let k = run_loop_lem events (handle_event (rtp_send packet) io) e in
    subst (Ran (rtp_send packet ∷ events) io) (sym (goes_on (rtp_send packet) events io e)) (
      k.0 ∙ consed-written io.track.binding io.state io.written packet (packets_until events),
      k.1,
      k.2,
    )
run_loop_lem (rtcp_receive reports ∷ events) io e =
    let k = run_loop_lem events (handle_event (rtcp_receive reports) io) e in
    subst (Ran (rtcp_receive reports ∷ events) io)
      (sym (goes_on (rtcp_receive reports) events io e))
      (k.0, k.1 ∙ sym (handle_all-append reports (reports_until events) io.track io.targets), k.2)
run_loop_lem (rtcp_receive_error error ∷ events) io e = (sym (append-nil io.written), refl, refl)
run_loop_lem (noop ∷ events) io e =
    subst (Ran (noop ∷ events) io) (sym (goes_on noop events io e)) (run_loop_lem events io e)

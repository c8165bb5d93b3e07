-- ===== src/Relaying/Streaming.antt =====
-- A whole stream, from the source of a broadcast of server/src/rtp_server/room.rs to what the io loop
-- of a subscriber's track in server/src/rtp_server/client_rtp.rs writes.
use mathlib.Core.List.{append-nil}
use simple_screen_share.Base.{
  ℕ, ◌<◌, ◌^◌, ◌≡◌, refl, sym, ap, subst, ◌∙◌, some, List, [], ◌∷◌, ◌++◌,
}
use simple_screen_share.Messages.{ClientId}
use simple_screen_share.Broadcast.{Packet, BroadcastSourceEvent}
use simple_screen_share.Broadcast.Relay.{media_of}
use simple_screen_share.Sequence.Distance.{ahead}
use simple_screen_share.Sequence.Stream.{Smooth, shift}
use simple_screen_share.Tracks.Sending.{SendingTrackBinding, start_loop}
use simple_screen_share.Tracks.Streams.{
  send_packets, sequence_numbers, timestamps, payloads, start_loop-shifts,
}
use simple_screen_share.Relaying.{Relay, Run}
use simple_screen_share.Relaying.Weaving.{Woven, woven_nil, left}
use simple_screen_share.Relaying.Polling.{Subscribed}
use simple_screen_share.Relaying.Accounting.{Run-relays}

Woven-whole {ℓ} : {A : Type ℓ} {xs zs : List A} → Woven xs [] zs → xs ≡ zs
Woven-whole woven_nil = refl
Woven-whole (left x w) = ap (λ l. x ∷ l) (Woven-whole w)

-- The packets are all written, with the same payloads and two offsets.
abbrev pub Shifted : ℕ → ℕ → Packet → List Packet → List Packet → Type 0
Shifted timestamp sequence p ps written =
    (payloads written ≡ payloads (p ∷ ps))
    × (sequence_numbers written
        ≡ shift 16 (ahead 16 p.sequence_number sequence) (sequence_numbers (p ∷ ps)))
    × (timestamps written ≡ shift 32 (ahead 32 p.timestamp timestamp) (timestamps (p ∷ ps)))

-- Once nothing waits, all that was heard is written.
all_written :
    (c : ClientId) (b : SendingTrackBinding) (timestamp sequence : ℕ) {s t : Relay}
    {heard : List BroadcastSourceEvent}
    → Subscribed c s.broadcast
    → s.io.track.rtp_send_channel ≡ []
    → s.io.written ≡ []
    → s.io.track.binding ≡ some b
    → s.io.state ≡ start_loop timestamp sequence
    → Run c s heard [] t
    → t.broadcast.source.events ≡ []
    → t.io.track.rtp_send_channel ≡ []
    → t.io.written
      ≡ send_packets
          (some b)
          (start_loop timestamp sequence)
          (media_of (s.broadcast.source.events ++ heard))
all_written c b timestamp sequence {s} {t} {heard} on empty fresh bound begun run quiet idle =
    let (polled, taken, split, woven, (keeps, written, at), was, goes) =
      Run-relays c on empty fresh run in
    let all : s.broadcast.source.events ++ heard ≡ polled =
      split ∙ ap (λ l. polled ++ l) quiet ∙ append-nil polled in
    let has : taken ≡ media_of polled =
      sym (append-nil taken) ∙ ap (λ l. taken ++ l) (sym idle) ∙ Woven-whole woven in
    written
    ∙ ap (λ binding. send_packets binding s.io.state taken) bound
    ∙ ap (λ state. send_packets (some b) state taken) begun
    ∙ ap (λ l. send_packets (some b) (start_loop timestamp sequence) l)
        (has ∙ ap media_of (sym all))

-- A client subscribes, and its bound track starts to send. When no packet was lost and none waits
-- any more, neither at the source nor on the track, the track has written the packets of the source,
-- up to its end, each once, in order and with its payload, with the sequence numbers shifted by one
-- offset and the timestamps by another, if they have no jumps.
pub Run-streams :
    (c : ClientId) (b : SendingTrackBinding) (timestamp sequence : ℕ) (p : Packet)
    (ps : List Packet) {s t : Relay} {heard : List BroadcastSourceEvent}
    → Subscribed c s.broadcast
    → s.io.track.rtp_send_channel ≡ []
    → s.io.written ≡ []
    → s.io.track.binding ≡ some b
    → s.io.state ≡ start_loop timestamp sequence
    → Run c s heard [] t
    → t.broadcast.source.events ≡ []
    → t.io.track.rtp_send_channel ≡ []
    → media_of (s.broadcast.source.events ++ heard) ≡ p ∷ ps
    → timestamp < 2 ^ 32
    → sequence < 2 ^ 16
    → p.timestamp < 2 ^ 32
    → p.sequence_number < 2 ^ 16
    → Smooth 32 10000 p.timestamp (timestamps ps)
    → Smooth 16 80 p.sequence_number (sequence_numbers ps)
    → Shifted timestamp sequence p ps t.io.written
Run-streams c b timestamp sequence p ps on empty fresh bound begun run quiet idle is ht hs hpt hps
      smooth_t smooth_s =
    subst (Shifted timestamp sequence p ps)
      (sym (
        all_written c b timestamp sequence on empty fresh bound begun run quiet idle
        ∙ ap (λ l. send_packets (some b) (start_loop timestamp sequence) l) is))
      (start_loop-shifts b timestamp sequence p ps ht hs hpt hps smooth_t smooth_s)

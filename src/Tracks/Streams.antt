-- ===== src/Tracks/Streams.antt =====
-- A stream of packets through the io loop of a sending track.
use simple_screen_share.Base.{
  ℕ, ◌<◌, ◌^◌, ◌≡◌, refl, ap, ◌∙◌, Option, none, some, List, [], ◌∷◌, map, arith,
}
use simple_screen_share.Broadcast.{Packet}
use simple_screen_share.Sequence.{process, process_all}
use simple_screen_share.Sequence.Distance.{ahead}
use simple_screen_share.Sequence.Stream.{Smooth, shift, process_all-shift}
use simple_screen_share.Tracks.Sending.{SendingTrackBinding, SendLoop, start_loop, send_packet}

abbrev pub consed : Option Packet → List Packet → List Packet
consed none ps = ps
consed (some p) ps = p ∷ ps

-- The packets that are written, while the binding stays.
unfoldable pub send_packets : Option SendingTrackBinding → SendLoop → List Packet → List Packet
send_packets binding state [] = []
send_packets binding state (p ∷ ps) =
    let (state', written) = send_packet binding state p in
    consed written (send_packets binding state' ps)

abbrev pub sequence_numbers : List Packet → List ℕ
sequence_numbers = map (λ (p : Packet). p.sequence_number)

abbrev pub timestamps : List Packet → List ℕ
timestamps = map (λ (p : Packet). p.timestamp)

abbrev pub payloads : List Packet → List (List ℕ)
payloads = map (λ (p : Packet). p.payload)

send_packets-sequence :
    (b : SendingTrackBinding) (state : SendLoop) (ps : List Packet)
    → sequence_numbers (send_packets (some b) state ps)
      ≡ (process_all 16 state.patcher_sequence (sequence_numbers ps)).1
unfolding send_packets send_packet process_all
send_packets-sequence b state [] = refl
send_packets-sequence b state (p ∷ ps) =
    ap (λ l. (process 16 state.patcher_sequence p.sequence_number).1 ∷ l)
      (send_packets-sequence b (send_packet (some b) state p).0 ps)

send_packets-timestamp :
    (b : SendingTrackBinding) (state : SendLoop) (ps : List Packet)
    → timestamps (send_packets (some b) state ps)
      ≡ (process_all 32 state.patcher_timestamp (timestamps ps)).1
unfolding send_packets send_packet process_all
send_packets-timestamp b state [] = refl
send_packets-timestamp b state (p ∷ ps) =
    ap (λ l. (process 32 state.patcher_timestamp p.timestamp).1 ∷ l)
      (send_packets-timestamp b (send_packet (some b) state p).0 ps)

send_packets-payload :
    (b : SendingTrackBinding) (state : SendLoop) (ps : List Packet)
    → payloads (send_packets (some b) state ps) ≡ payloads ps
unfolding send_packets send_packet
send_packets-payload b state [] = refl
send_packets-payload b state (p ∷ ps) =
    ap (λ l. p.payload ∷ l) (send_packets-payload b (send_packet (some b) state p).0 ps)

-- A bound track that starts to send writes every packet of a stream without jumps, in order and
-- with its payload, the sequence numbers shifted by one offset and the timestamps by another.
pub start_loop-shifts :
    (b : SendingTrackBinding) (timestamp sequence : ℕ) (p : Packet) (ps : List Packet)
    → timestamp < 2 ^ 32
    → sequence < 2 ^ 16
    → p.timestamp < 2 ^ 32
    → p.sequence_number < 2 ^ 16
    → Smooth 32 10000 p.timestamp (timestamps ps)
    → Smooth 16 80 p.sequence_number (sequence_numbers ps)
    → (payloads (send_packets (some b) (start_loop timestamp sequence) (p ∷ ps))
        ≡ payloads (p ∷ ps))
      × (sequence_numbers (send_packets (some b) (start_loop timestamp sequence) (p ∷ ps))
          ≡ shift 16 (ahead 16 p.sequence_number sequence) (sequence_numbers (p ∷ ps)))
      × (timestamps (send_packets (some b) (start_loop timestamp sequence) (p ∷ ps))
          ≡ shift 32 (ahead 32 p.timestamp timestamp) (timestamps (p ∷ ps)))
unfolding start_loop
start_loop-shifts b timestamp sequence p ps ht hs hpt hps smooth_t smooth_s =
    let state = start_loop timestamp sequence in
    (
      send_packets-payload b state (p ∷ ps),
      send_packets-sequence b state (p ∷ ps)
          ∙ process_all-shift 16 state.patcher_sequence p.sequence_number (sequence_numbers ps)
              (record { current_fits = hs; reference_fits = tt; gap_fits = omega arith }) refl hps
              smooth_s,
      send_packets-timestamp b state (p ∷ ps)
          ∙ process_all-shift 32 state.patcher_timestamp p.timestamp (timestamps ps)
              (record { current_fits = ht; reference_fits = tt; gap_fits = omega arith }) refl hpt
              smooth_t,
    )

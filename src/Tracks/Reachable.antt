-- ===== src/Tracks/Reachable.antt =====
-- The receiving tracks of server/src/rtp_server/client_rtp.rs under any calls, in any order.
use text.Mathlib.Text.{◌==◌ as str_eq}
use simple_screen_share.Base.{
  All, subst, false, ℕ, ◌<◌, ◌≡◌, refl, Bool-cases, Option-cases, inl, inr, String, none, some,
  List, [], ◌∷◌, ◌++◌, ◌==◌, arith, suc,
}
use simple_screen_share.Base.Map.{nat_key}
use simple_screen_share.Messages.{BroadcastKind}
use simple_screen_share.Broadcast.{Packet}
use simple_screen_share.Tracks.Receiving.{
  RtpCodecType, codec_type, RtcpPacket, ReceivingTrackBinding, HandlerRef, RegisteredReceivingTrack,
  ClientBroadcastSource, update_handler, remove_handler, with_handler, handle_rtcp_packet, Receiver,
  find_stream, find_track, put_track, remove_track, create_receiving_track, obtain_track,
}
use simple_screen_share.Tracks.Handlers.{
  create_broadcast_source, drop_source, on_track, read_rtp, read_rtcp, loop_ended,
}

abbrev pub empty : Receiver
empty = record { receiving_tracks = []; handlers = []; next_object = 0 }

pub data Step : Receiver → Receiver → Type 0 where
  makes_source :
      (r : Receiver) (stream_id : String) (kind : BroadcastKind)
      → Step r (create_broadcast_source stream_id kind r).0
  drops_source : (r : Receiver) (source : ClientBroadcastSource) → Step r (drop_source source r)
  binds :
      (r : Receiver) (stream_id : String) (kind : RtpCodecType) (binding : ReceivingTrackBinding)
      → Step r (on_track stream_id kind binding r)
  reads_rtp : (r : Receiver) (object : ℕ) (packet : Packet) → Step r (read_rtp object packet r)
  reads_rtcp :
      (r : Receiver) (object : ℕ) (packets : List RtcpPacket) → Step r (read_rtcp object packets r)
  ends : (r : Receiver) (object : ℕ) → Step r (loop_ended object r)

pub data Reach : Receiver → Type 0 where
  created : Reach empty
  next : {r r' : Receiver} → Reach r → Step r r' → Reach r'

-- The track does not know its binding, and its handler is one of the first `n` objects.
abbrev pub Sound : ℕ → RegisteredReceivingTrack → Type 0
Sound n t = (t.binding ≡ none) × ((h : HandlerRef) → t.handler ≡ some h → h < n)

module _ (n : ℕ) where
  Sound-suc : (ts : List RegisteredReceivingTrack) → All (Sound n) ts → All (Sound (suc n)) ts
  Sound-suc [] a = tt
  Sound-suc (t ∷ ts) a = ((a.0.0, λ h e. let below = a.0.1 h e in omega arith), Sound-suc ts a.1)

  Sound-append :
      (ts : List RegisteredReceivingTrack) (t : RegisteredReceivingTrack)
      → All (Sound n) ts
      → Sound n t
      → All (Sound n) (ts ++ (t ∷ []))
  Sound-append [] t a s = (s, tt)
  Sound-append (u ∷ ts) t a s = (a.0, Sound-append ts t a.1 s)

  Sound-put :
      (ts : List RegisteredReceivingTrack) (t : RegisteredReceivingTrack)
      → All (Sound n) ts
      → Sound n t
      → All (Sound n) (put_track t ts)
  unfolding put_track
  Sound-put [] t a s = tt
  Sound-put (u ∷ ts) t a s = elim (Bool-cases (u.object == t.object)) [
    | inl e ↦ rw e (s, Sound-put ts t a.1 s)
    | inr e ↦ rw e (a.0, Sound-put ts t a.1 s)
  ]

  Sound-remove :
      (ts : List RegisteredReceivingTrack) (o : ℕ)
      → All (Sound n) ts
      → All (Sound n) (remove_track o ts)
  unfolding remove_track
  Sound-remove [] o a = tt
  Sound-remove (u ∷ ts) o a = elim (Bool-cases (u.object == o)) [
    | inl e ↦ rw e a.1
    | inr e ↦ rw e (a.0, Sound-remove ts o a.1)
  ]

module _ (P : RegisteredReceivingTrack → Type 0) where
  pub find_stream-All :
      (ts : List RegisteredReceivingTrack) (s : String) (t : RegisteredReceivingTrack)
      → All P ts
      → find_stream s ts ≡ some t
      → P t
  unfolding find_stream
  find_stream-All [] s t a e = ground arith
  find_stream-All (u ∷ ts) s t a e = elim (Bool-cases (str_eq u.stream_id s)) [
    | inl f ↦ let same : u ≡ t = ground arith in subst P same a.0
    | inr f ↦ find_stream-All ts s t a.1 (ground arith)
  ]

  pub find_track-All :
      (ts : List RegisteredReceivingTrack) (o : ℕ) (t : RegisteredReceivingTrack)
      → All P ts
      → find_track o ts ≡ some t
      → P t
  unfolding find_track
  find_track-All [] o t a e = ground arith
  find_track-All (u ∷ ts) o t a e = elim (Bool-cases (u.object == o)) [
    | inl f ↦ let same : u ≡ t = ground arith in subst P same a.0
    | inr f ↦ find_track-All ts o t a.1 (ground arith)
  ]

abbrev pub AllSound : Receiver → Type 0
AllSound r = All (Sound r.next_object) r.receiving_tracks

obtain_track-AllSound :
    (r : Receiver) (s : String) (kind : RtpCodecType)
    → AllSound r
    → AllSound (obtain_track s kind r).0
      × Sound (obtain_track s kind r).0.next_object (obtain_track s kind r).1
unfolding obtain_track create_receiving_track
obtain_track-AllSound r s kind a = elim (Option-cases (find_stream s r.receiving_tracks)) [
  | inr (t, e) ↦
      rw (e, obtain_track) (a, find_stream-All (Sound r.next_object) r.receiving_tracks s t a e)
  | inl e ↦
      let new_sound : (h : HandlerRef) → none ≡ some h → h < suc r.next_object =
        λ h f. ground arith in
      rw (e, obtain_track)
        (
          Sound-append (suc r.next_object) r.receiving_tracks _
              (Sound-suc r.next_object r.receiving_tracks a) (refl, new_sound),
          (refl, new_sound),
        )
]

create_broadcast_source-AllSound :
    (r : Receiver) (s : String) (kind : BroadcastKind)
    → AllSound r
    → AllSound (create_broadcast_source s kind r).0
unfolding create_broadcast_source update_handler
create_broadcast_source-AllSound r s kind a =
    let (all, one) = obtain_track-AllSound r s (codec_type kind) a in
    let r' = (obtain_track s (codec_type kind) r).0 in
    Sound-put (suc r'.next_object) r'.receiving_tracks _
      (Sound-suc r'.next_object r'.receiving_tracks all) (one.0, λ h e. ground arith)

drop_source-AllSound :
    (r : Receiver) (source : ClientBroadcastSource) → AllSound r → AllSound (drop_source source r)
unfolding drop_source remove_handler
drop_source-AllSound r source a = elim (Option-cases (find_track source.track r.receiving_tracks)) [
  | inl e ↦ rw (e, drop_source) a
  | inr (t, e) ↦
      let sound = find_track-All (Sound r.next_object) r.receiving_tracks source.track t a e in
      rw (e, drop_source)
        (Sound-put r.next_object r.receiving_tracks
          (remove_handler source.recv_handler t r.handlers).0 a (ground arith))
]

on_track-AllSound :
    (r : Receiver) (s : String) (kind : RtpCodecType) (binding : ReceivingTrackBinding)
    → AllSound r
    → AllSound (on_track s kind binding r)
unfolding on_track
on_track-AllSound r s kind binding a =
    let (all, one) = obtain_track-AllSound r s kind a in
    let (r', t) = obtain_track s kind r in
    elim (Bool-cases t.binding_tx) [
      | inr e ↦ rw (e, on_track) all
      | inl e ↦
          rw (e, on_track)
            (Sound-put r'.next_object r'.receiving_tracks (record t { binding_tx = false }) all one)
    ]

read_rtp-AllSound :
    (r : Receiver) (o : ℕ) (packet : Packet) → AllSound r → AllSound (read_rtp o packet r)
unfolding read_rtp
read_rtp-AllSound r o packet a = elim (Option-cases (find_track o r.receiving_tracks)) [
  | inl e ↦ rw (e, read_rtp) a
  | inr (t, e) ↦ rw (e, read_rtp) a
]

read_rtcp-AllSound :
    (r : Receiver) (o : ℕ) (packets : List RtcpPacket)
    → AllSound r
    → AllSound (read_rtcp o packets r)
unfolding read_rtcp
read_rtcp-AllSound r o [] a = a
read_rtcp-AllSound r o (packet ∷ packets) a =
    elim (Option-cases (find_track o r.receiving_tracks)) [
      | inl e ↦ rw (e, read_rtcp) a
      | inr (t, e) ↦
          rw (e, read_rtcp)
            (read_rtcp-AllSound
              (record r {
                handlers = with_handler (handle_rtcp_packet packet) t.handler r.handlers;
              })
              o packets a)
    ]

loop_ended-AllSound : (r : Receiver) (o : ℕ) → AllSound r → AllSound (loop_ended o r)
unfolding loop_ended
loop_ended-AllSound r o a = elim (Option-cases (find_track o r.receiving_tracks)) [
  | inl e ↦ rw (e, loop_ended) a
  | inr (t, e) ↦ rw (e, loop_ended) (Sound-remove r.next_object r.receiving_tracks o a)
]

Step-AllSound : {r r' : Receiver} → Step r r' → AllSound r → AllSound r'
Step-AllSound (makes_source r s kind) a = create_broadcast_source-AllSound r s kind a
Step-AllSound (drops_source r source) a = drop_source-AllSound r source a
Step-AllSound (binds r s kind binding) a = on_track-AllSound r s kind binding a
Step-AllSound (reads_rtp r o packet) a = read_rtp-AllSound r o packet a
Step-AllSound (reads_rtcp r o packets) a = read_rtcp-AllSound r o packets a
Step-AllSound (ends r o) a = loop_ended-AllSound r o a

pub Reach-AllSound : {r : Receiver} → Reach r → AllSound r
Reach-AllSound created = tt
Reach-AllSound (next reach step) = Step-AllSound step (Reach-AllSound reach)

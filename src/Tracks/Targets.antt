-- ===== src/Tracks/Targets.antt =====
-- The sending tracks of a client, and the broadcast targets that use them.
use simple_screen_share.Base.{
  ℕ, suc, ◌≡◌, true, String, Option, none, some, List, [], ◌∷◌, ◌++◌, arith, is_some, ◌==◌,
  if◌then◌else◌,
}
use simple_screen_share.Base.Map.{Map, nat_key, insert}
use simple_screen_share.Messages.{BroadcastKind}
use simple_screen_share.Broadcast.{BroadcastTargetEvent}
use simple_screen_share.Tracks.Receiving.{RtpCodecType, codec_type}
use simple_screen_share.Tracks.Sending.{TargetRef, RegisteredSendingTrack}

-- `ClientBroadcastTarget`, by its track and its channel.
pub record ClientBroadcastTarget : Type 0 where
  pub track : ℕ
  pub events : TargetRef

-- The part of `RtpClient` that its sending tracks use; `targets` has the channels of the targets.
pub record Sender : Type 0 where
  pub sending_tracks : List RegisteredSendingTrack
  pub targets : Map TargetRef (List BroadcastTargetEvent)
  pub next_object : ℕ

-- The first track without an event handler.
unfoldable pub find_free : List RegisteredSendingTrack → Option RegisteredSendingTrack
find_free [] = none
find_free (track ∷ tracks) =
    let rest = find_free tracks in if is_some track.event_handler then rest else some track

unfoldable pub find_track : ℕ → List RegisteredSendingTrack → Option RegisteredSendingTrack
find_track object [] = none
find_track object (track ∷ tracks) =
    let rest = find_track object tracks in if track.object == object then some track else rest

-- The event handler of a shared track is written.
unfoldable pub set_handler :
    ℕ → Option TargetRef → List RegisteredSendingTrack → List RegisteredSendingTrack
set_handler object handler [] = []
set_handler object handler (track ∷ tracks) =
    let rest = set_handler object handler tracks in
    if track.object == object then record track { event_handler = handler } ∷ rest else track ∷ rest

-- `id` is the random text of 16 characters. The peer takes the track.
unfoldable pub create_sending_track :
    String → RtpCodecType → Sender → Sender × RegisteredSendingTrack
create_sending_track id kind s =
    let track : RegisteredSendingTrack = record {
      object = s.next_object;
      kind = kind;
      id = id;
      binding = none;
      shutdown_tx = true;
      event_handler = none;
      rtp_send_channel = [];
    } in
    (
      record s {
        sending_tracks = s.sending_tracks ++ (track ∷ []);
        next_object = suc s.next_object;
      },
      track,
    )

unfoldable pub obtain_free : String → RtpCodecType → Sender → Sender × RegisteredSendingTrack
unfolding create_sending_track
obtain_free id kind s = elim (find_free s.sending_tracks) [
  | some track ↦ (s, track)
  | none ↦ create_sending_track id kind s
]

unfoldable pub create_broadcast_target :
    String → BroadcastKind → Sender → Sender × String × ClientBroadcastTarget
unfolding obtain_free set_handler codec_type
create_broadcast_target id kind s =
    let (s', track) = obtain_free id (codec_type kind) s in
    let events = s'.next_object in
    (
      record {
        sending_tracks = set_handler track.object (some events) s'.sending_tracks;
        targets = insert events [] s'.targets;
        next_object = suc events;
      },
      track.id,
      record { track = track.object; events = events },
    )

-- `Drop` of `ClientBroadcastTarget`.
unfoldable pub drop_target : ClientBroadcastTarget → Sender → Sender
unfolding set_handler
drop_target target s = record s { sending_tracks = set_handler target.track none s.sending_tracks }

module _ (s : Sender) (id : String) (kind : BroadcastKind) (track : RegisteredSendingTrack)
    (free : find_free s.sending_tracks ≡ some track) where
  obtained : (codec : RtpCodecType) → obtain_free id codec s ≡ (s, track)
  unfolding obtain_free
  obtained codec = rw (free, obtain_free)

  -- The first free track is used whatever its kind, so that the target of a video broadcast can get
  -- a track for sound: the client is told that track's id, and the track is the target's.
  pub create_broadcast_target-any_kind :
      ((create_broadcast_target id kind s).1 ≡ track.id)
      × ((create_broadcast_target id kind s).2.track ≡ track.object)
      × ((create_broadcast_target id kind s).0.sending_tracks
          ≡ set_handler track.object (some s.next_object) s.sending_tracks)
  unfolding create_broadcast_target
  create_broadcast_target-any_kind = ground (arith, obtained (codec_type kind))

-- ===== src/Tracks/Exclusive.antt =====
-- The targets of a client's sending tracks, as server/src/rtp_server/client_rtp.rs makes and drops
-- them.
use simple_screen_share.Base.{
  All, ℕ, suc, ◌<◌, ◌≡◌, ◌≢◌, ap, sym, ◌∙◌, subst, true, Bool-cases, Option-cases, inl, inr, String,
  none, some, List, [], ◌∷◌, ◌++◌, arith, is_some,
}
use simple_screen_share.Messages.{BroadcastKind}
use simple_screen_share.Tracks.Receiving.{RtpCodecType, codec_type}
use simple_screen_share.Tracks.Sending.{RegisteredSendingTrack}
use simple_screen_share.Tracks.Targets.{
  ClientBroadcastTarget, Sender, find_free, set_handler, create_sending_track, obtain_free,
  create_broadcast_target, drop_target,
}
use simple_screen_share.Tracks.Live.{
  Live, created, makes, drops, Others, Apart, Busy, Below, Served, Inv, All-drop, Apart-drop,
  Busy-set, Busy-own, Busy-clear, Below-set, Below-suc,
}

find_free-Below :
    (n : ℕ) (tracks : List RegisteredSendingTrack) (t : RegisteredSendingTrack)
    → Below n tracks
    → find_free tracks ≡ some t
    → t.object < n
unfolding find_free
find_free-Below n [] t below e = ground arith
find_free-Below n (tr ∷ tracks) t below e = elim (Bool-cases (is_some tr.event_handler)) [
  | inl f ↦ find_free-Below n tracks t below.1 (ground arith)
  | inr f ↦
      let same : tr ≡ t = ground arith in
      subst (λ (x : RegisteredSendingTrack). x.object < n) same below.0
]

-- A free track is no live target's.
find_free-other :
    (tracks : List RegisteredSendingTrack) (t : RegisteredSendingTrack) (object : ℕ)
    → Busy tracks object
    → find_free tracks ≡ some t
    → object ≢ t.object
unfolding find_free
find_free-other [] t object busy e same = ground arith
find_free-other (tr ∷ tracks) t object busy e same = elim (Bool-cases (is_some tr.event_handler)) [
  | inl f ↦ find_free-other tracks t object busy.1 (ground arith) same
  | inr f ↦
      let here : tr ≡ t = ground arith in
      let used : is_some tr.event_handler ≡ true =
        busy.0 (ap (λ (x : RegisteredSendingTrack). x.object) here ∙ sym same) in
      ground arith
]

Busy-append :
    (tracks : List RegisteredSendingTrack) (t : RegisteredSendingTrack) (object : ℕ)
    → t.object ≢ object
    → Busy tracks object
    → Busy (tracks ++ (t ∷ [])) object
Busy-append [] t object apart busy = ((λ same. absurd (apart same)), tt)
Busy-append (tr ∷ tracks) t object apart busy = (busy.0, Busy-append tracks t object apart busy.1)

Below-append :
    (n : ℕ) (tracks : List RegisteredSendingTrack) (t : RegisteredSendingTrack)
    → t.object < n
    → Below n tracks
    → Below n (tracks ++ (t ∷ []))
Below-append n [] t small below = (small, tt)
Below-append n (tr ∷ tracks) t small below = (below.0, Below-append n tracks t small below.1)

-- The track that a new target gets.
record Obtained (s s' : Sender) (t : RegisteredSendingTrack) : Type 0 where
  below : Below s'.next_object s'.sending_tracks
  small : t.object < s'.next_object
  kept : (u : ClientBroadcastTarget) → Served s u → Served s' u × (u.track ≢ t.object)

obtain_free-Obtained :
    (id : String) (kind : RtpCodecType) (s : Sender)
    → Below s.next_object s.sending_tracks
    → Obtained s (obtain_free id kind s).0 (obtain_free id kind s).1
unfolding obtain_free create_sending_track
obtain_free-Obtained id kind s below = elim (Option-cases (find_free s.sending_tracks)) [
  | inr (t, e) ↦
      rw (e, obtain_free)
        (record {
          below = below;
          small = find_free-Below s.next_object s.sending_tracks t below e;
          kept = λ u served. (served, find_free-other s.sending_tracks t u.track served.1 e);
        })
  | inl e ↦
      rw (e, obtain_free)
        (record {
          below =
              Below-append (suc s.next_object) s.sending_tracks (create_sending_track id kind s).1
                (omega arith) (Below-suc s.next_object s.sending_tracks below);
          small = omega arith;
          kept = λ u served.
              let early : u.track < s.next_object = served.0 in
              (
                (
                  omega arith,
                  Busy-append s.sending_tracks (create_sending_track id kind s).1 u.track
                      (λ same. omega arith) served.1,
                ),
                (λ same. omega arith),
              );
        })
]

-- What holds of every live target, to what holds of it afterwards.
All-kept :
    {P Q : ClientBroadcastTarget → Type 0} (ts : List ClientBroadcastTarget)
    → ((u : ClientBroadcastTarget) → P u → Q u)
    → All P ts
    → All Q ts
All-kept [] f a = tt
All-kept (u ∷ ts) f a = (f u a.0, All-kept ts f a.1)

create_broadcast_target-Inv :
    (id : String) (kind : BroadcastKind) (s : Sender) (ts : List ClientBroadcastTarget)
    → Inv s ts
    → Inv (create_broadcast_target id kind s).0 ((create_broadcast_target id kind s).2 ∷ ts)
unfolding create_broadcast_target
create_broadcast_target-Inv id kind s ts inv =
    let (s', t) = obtain_free id (codec_type kind) s in
    let got = obtain_free-Obtained id (codec_type kind) s inv.below in
    record {
      below =
          Below-suc s'.next_object (set_handler t.object (some s'.next_object) s'.sending_tracks)
            (Below-set s'.next_object s'.sending_tracks t.object (some s'.next_object) got.below);
      apart = (All-kept ts (λ u served. (got.kept u served).1) inv.served, inv.apart);
      served = (
        (
          let small : t.object < s'.next_object = got.small in omega arith,
          Busy-own s'.sending_tracks t.object s'.next_object,
        ),
        All-kept ts
            (λ u served.
              let (early, busy) = (got.kept u served).0 in
              let early' : u.track < s'.next_object = early in
              (omega arith, Busy-set s'.sending_tracks t.object u.track s'.next_object busy))
            inv.served,
      );
    }

Served-drop :
    (s : Sender) (t : ClientBroadcastTarget) (ts : List ClientBroadcastTarget)
    → Others t.track ts
    → All (Served s) ts
    → All (Served (drop_target t s)) ts
unfolding drop_target
Served-drop s t [] others served = tt
Served-drop s t (u ∷ ts) others served = (
  (served.0.0, Busy-clear s.sending_tracks t.track u.track others.0 served.0.1),
  Served-drop s t ts others.1 served.1,
)

drop_target-Inv :
    (s : Sender) (before after : List ClientBroadcastTarget) (t : ClientBroadcastTarget)
    → Inv s (before ++ (t ∷ after))
    → Inv (drop_target t s) (before ++ after)
unfolding drop_target
drop_target-Inv s before after t inv =
    let (apart, others) = Apart-drop before after t inv.apart in
    record {
      below = Below-set s.next_object s.sending_tracks t.track none inv.below;
      apart = apart;
      served =
          Served-drop s t (before ++ after) others (All-drop (Served s) before after t inv.served);
    }

Live-Inv : {s : Sender} {ts : List ClientBroadcastTarget} → Live s ts → Inv s ts
Live-Inv created = record { below = tt; apart = tt; served = tt }
Live-Inv (makes {s} {ts} id kind live) = create_broadcast_target-Inv id kind s ts (Live-Inv live)
Live-Inv (drops {s} before after t live) = drop_target-Inv s before after t (Live-Inv live)

-- However a client's targets are made and dropped, those that have not been dropped have different
-- tracks: no track serves two targets at once.
pub Live-Apart : {s : Sender} {ts : List ClientBroadcastTarget} → Live s ts → Apart ts
Live-Apart live = (Live-Inv live).apart

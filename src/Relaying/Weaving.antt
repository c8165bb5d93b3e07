-- ===== src/Relaying/Weaving.antt =====
-- Lists put together from two, and the events of a source up to its end, for the broadcasts of
-- server/src/rtp_server/room.rs.
use mathlib.Core.List.{append_assoc, append-nil}
use simple_screen_share.Base.{
  ◌≡◌, refl, sym, ap, ◌∙◌, Bool, false, List, [], ◌∷◌, ◌++◌, ltb, length, Bool-cases, inl, inr,
}
use simple_screen_share.Broadcast.{Packet, BroadcastSourceEvent, media, end}
use simple_screen_share.Broadcast.Relay.{media_of, has_end}
use simple_screen_share.Tracks.Sending.{RegisteredSendingTrack, send_rtp}
use simple_screen_share.Relaying.{offer_all, with_channel}

-- The third list has the entries of the first and of the second, each in their order.
pub data Woven {ℓ} {A : Type ℓ} : List A → List A → List A → Type ℓ where
  woven_nil : Woven [] [] []
  left : {xs ys zs : List A} (x : A) → Woven xs ys zs → Woven (x ∷ xs) ys (x ∷ zs)
  right : {xs ys zs : List A} (y : A) → Woven xs ys zs → Woven xs (y ∷ ys) (y ∷ zs)

pub Woven-append {ℓ} :
    {A : Type ℓ} {xs ys zs xs' ys' zs' : List A}
    → Woven xs ys zs
    → Woven xs' ys' zs'
    → Woven (xs ++ xs') (ys ++ ys') (zs ++ zs')
Woven-append woven_nil w = w
Woven-append (left x v) w = left x (Woven-append v w)
Woven-append (right y v) w = right y (Woven-append v w)

-- What is offered to a track is put on its channel, or lost.
pub offer_all-Woven :
    (ps : List Packet) (track : RegisteredSendingTrack)
    → (kept : List Packet) × Woven kept (offer_all ps track).1 ps
      × ((offer_all ps track).0 ≡ with_channel (track.rtp_send_channel ++ kept) track)
unfolding offer_all send_rtp
offer_all-Woven [] track =
    ([], woven_nil, ap (λ l. with_channel l track) (sym (append-nil track.rtp_send_channel)))
offer_all-Woven (p ∷ ps) track = elim (Bool-cases (ltb (length track.rtp_send_channel) 1024)) [
  | inl room ↦
      let channel = track.rtp_send_channel ++ (p ∷ []) in
      let (kept, woven, e) = offer_all-Woven ps (with_channel channel track) in
      (
        p ∷ kept,
        rw (room, offer_all) (left p woven),
        rw (room, offer_all)
            (e
              ∙ ap (λ l. with_channel l track) (append_assoc track.rtp_send_channel (p ∷ []) kept)),
      )
  | inr full ↦
      let (kept, woven, e) = offer_all-Woven ps track in
      (kept, rw (full, offer_all) (right p woven), rw (full, offer_all) e)
]

-- The events that a poll takes, and the others.
abbrev pub upto_end : List BroadcastSourceEvent → List BroadcastSourceEvent
upto_end [] = []
upto_end (media p ∷ events) = media p ∷ upto_end events
upto_end (end ∷ events) = end ∷ []

abbrev pub after_end : List BroadcastSourceEvent → List BroadcastSourceEvent
after_end [] = []
after_end (media p ∷ events) = after_end events
after_end (end ∷ events) = events

pub upto_end-after_end :
    (events : List BroadcastSourceEvent) → upto_end events ++ after_end events ≡ events
upto_end-after_end [] = refl
upto_end-after_end (media p ∷ events) = ap (λ l. media p ∷ l) (upto_end-after_end events)
upto_end-after_end (end ∷ events) = refl

pub media_of-upto_end :
    (events : List BroadcastSourceEvent) → media_of (upto_end events) ≡ media_of events
media_of-upto_end [] = refl
media_of-upto_end (media p ∷ events) = ap (λ l. p ∷ l) (media_of-upto_end events)
media_of-upto_end (end ∷ events) = refl

pub media_of-append :
    (xs ys : List BroadcastSourceEvent)
    → has_end xs false ≡ false
    → media_of (xs ++ ys) ≡ media_of xs ++ media_of ys
media_of-append [] ys e = refl
media_of-append (media p ∷ xs) ys e = ap (λ l. p ∷ l) (media_of-append xs ys e)
media_of-append (end ∷ xs) ys e = cc

pub has_end-append :
    (xs ys : List BroadcastSourceEvent)
    → has_end xs false ≡ false
    → has_end (xs ++ ys) false ≡ has_end ys false
has_end-append [] ys e = refl
has_end-append (media p ∷ xs) ys e = has_end-append xs ys e
has_end-append (end ∷ xs) ys e = cc

pub has_end-upto_end :
    (events : List BroadcastSourceEvent) (ended : Bool)
    → has_end events ended ≡ false
    → has_end (upto_end events) false ≡ false
has_end-upto_end [] ended e = refl
has_end-upto_end (media p ∷ events) ended e = has_end-upto_end events ended e
has_end-upto_end (end ∷ events) ended e = cc

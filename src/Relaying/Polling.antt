-- ===== src/Relaying/Polling.antt =====
-- One poll of a broadcast of server/src/rtp_server/room.rs, and the channel of a subscriber's track.
use mathlib.Core.List.{append-nil}
use simple_screen_share.Base.{
  ◌≡◌, refl, sym, ap, subst, ◌∙◌, Bool, true, false, some, List, [], ◌∷◌, ◌++◌, Bool-cases, inl,
  inr, arith,
}
use simple_screen_share.Base.Map.{Map, nat_key, lookup, lookup-update}
use simple_screen_share.Messages.{ClientId}
use simple_screen_share.Broadcast.{
  Packet, BroadcastSourceEvent, media, end, RoomBroadcastTarget, ClientBroadcast, poll_source, poll,
  drain_targets, send_pli,
}
use simple_screen_share.Broadcast.Relay.{media_of, has_end, poll-sends, poll-ready}
use simple_screen_share.Relaying.{
  Relay, offer_all, forget, sent_to, is_ready, with_channel, poll_relay,
}
use simple_screen_share.Relaying.Weaving.{
  Woven, woven_nil, offer_all-Woven, upto_end, after_end, upto_end-after_end, media_of-upto_end,
  has_end-upto_end,
}

poll_source-rest :
    (events : List BroadcastSourceEvent) (ended : Bool) (m : Map ClientId RoomBroadcastTarget)
    → (poll_source events ended m).0 ≡ after_end events
unfolding poll_source
poll_source-rest [] ended m = refl
poll_source-rest (media p ∷ events) ended m = poll_source-rest events ended _
poll_source-rest (end ∷ events) ended m = refl

poll-rest :
    (b : ClientBroadcast)
    → b.shutdown_sent ≡ false
    → (poll b).broadcast.source.events ≡ after_end b.source.events
unfolding poll send_pli
poll-rest b s =
    ground
      (arith, poll_source-rest b.source.events b.source.ended (drain_targets b.targets false).0)

pending-open :
    (b : ClientBroadcast)
    → is_ready (poll b).poll ≡ false
    → has_end b.source.events b.source.ended ≡ false
pending-open b e = ground (arith, poll-ready b)

abbrev pub Subscribed : ClientId → ClientBroadcast → Type 0
Subscribed c b = (t : RoomBroadcastTarget) × (lookup c b.targets ≡ some t) × (t.ended ≡ false)

-- What a poll does: a part of the source's events is taken off, of whose packets some are kept on
-- the track's channel and the others lost.
abbrev pub PollDone : ClientId → Relay → List Packet → Relay → Type 0
PollDone c s lost after =
    (part : List BroadcastSourceEvent) × (kept : List Packet) × (s.broadcast.source.events
      ≡ part ++ after.broadcast.source.events)
    × Woven kept lost (media_of part)
    × (after.io
        ≡ record s.io { track = with_channel (s.io.track.rtp_send_channel ++ kept) s.io.track })
    × Subscribed c after.broadcast
    × (after.over ≡ false → has_end part false ≡ false)

forget-Subscribed :
    (c : ClientId) (b : ClientBroadcast)
    → Subscribed c b
    → (t : RoomBroadcastTarget) × (lookup c (forget c b).targets ≡ some t)
      × (t.ended ≡ false)
      × (t.sent ≡ [])
forget-Subscribed c b (t, at, on) = (
  record t { sent = [] },
  ground (arith, lookup-update c c (λ (t : RoomBroadcastTarget). record t { sent = [] }) b.targets),
  on,
  refl,
)

-- A broadcast that is shut down sends nothing more.
shut_relay :
    (c : ClientId) (s : Relay) (t : RoomBroadcastTarget)
    → s.broadcast.shutdown_sent ≡ true
    → lookup c (forget c s.broadcast).targets ≡ some t
    → t.sent ≡ []
    → poll_relay c s ≡ (record { broadcast = forget c s.broadcast; over = true; io = s.io }, [])
unfolding poll_relay poll offer_all
shut_relay c s t shut at none_sent = rw shut (rw at (rw none_sent refl))

polled_shut :
    (c : ClientId) (s : Relay)
    → s.broadcast.shutdown_sent ≡ true
    → Subscribed c s.broadcast
    → PollDone c s (poll_relay c s).1 (poll_relay c s).0
polled_shut c s shut k =
    let (t, at, on, none_sent) = forget-Subscribed c s.broadcast k in
    subst (λ (x : Relay × List Packet). PollDone c s x.1 x.0)
      (sym (shut_relay c s t shut at none_sent))
      (
        [],
        [],
        refl,
        woven_nil,
        ap (λ l. record s.io { track = with_channel l s.io.track })
            (sym (append-nil s.io.track.rtp_send_channel)),
        (t, at, on),
        λ over. cc,
      )

polled_open :
    (c : ClientId) (s : Relay)
    → s.broadcast.shutdown_sent ≡ false
    → Subscribed c s.broadcast
    → PollDone c s (poll_relay c s).1 (poll_relay c s).0
unfolding poll_relay
polled_open c s shut k =
    let (t, at, on, none_sent) = forget-Subscribed c s.broadcast k in
    let b = forget c s.broadcast in
    let events = s.broadcast.source.events in
    let at' = poll-sends b c t shut at on in
    let sent : sent_to (lookup c (poll b).broadcast.targets) ≡ media_of events =
      ap sent_to at' ∙ ap (λ l. l ++ media_of events) none_sent in
    let (kept, woven, offered) =
      offer_all-Woven (sent_to (lookup c (poll b).broadcast.targets)) s.io.track in
    (
      upto_end events,
      kept,
      sym (upto_end-after_end events) ∙ ap (λ l. upto_end events ++ l) (sym (poll-rest b shut)),
      subst
          (λ l.
            Woven kept (offer_all (sent_to (lookup c (poll b).broadcast.targets)) s.io.track).1 l)
          (sent ∙ sym (media_of-upto_end events)) woven,
      ap (λ track. record s.io { track = track }) offered,
      (record t { events = []; sent = t.sent ++ media_of events }, at', on),
      λ goes. has_end-upto_end events s.broadcast.source.ended (pending-open b goes),
    )

pub polls-PollDone :
    (c : ClientId) (s : Relay)
    → Subscribed c s.broadcast
    → PollDone c s (poll_relay c s).1 (poll_relay c s).0
polls-PollDone c s k = elim (Bool-cases s.broadcast.shutdown_sent) [
  | inl shut ↦ polled_shut c s shut k
  | inr goes ↦ polled_open c s goes k
]

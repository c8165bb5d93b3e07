-- ===== src/Broadcast/Relay.antt =====
-- One poll of a broadcast: what the targets are sent, what is asked of the source, when it ends.
use mathlib.Core.List.{append_assoc, append-nil}
use simple_screen_share.Base.{
  ◌+◌, ◌≡◌, refl, ap, sym, ◌∙◌, ◌↔◌, Bool, true, false, ◌||◌, some, List, [], ◌∷◌, ◌++◌,
  if◌then◌else◌, arith,
}
use simple_screen_share.Base.Map.{Map, nat_key, lookup, map_values, values}
use simple_screen_share.Messages.{ClientId}
use simple_screen_share.Broadcast.{
  Packet, BroadcastSourceEvent, media, end, BroadcastTargetEvent, request_pli, RoomBroadcastTarget,
  ClientBroadcast, poll_target, drain_targets, poll_source, send_rtp, send_pli, ready, poll,
}

-- The packets ahead of the first `End`.
abbrev pub media_of : List BroadcastSourceEvent → List Packet
media_of [] = []
media_of (media p ∷ events) = p ∷ media_of events
media_of (end ∷ events) = []

-- The source has reported its end, by an `End` or by closing.
abbrev pub has_end : List BroadcastSourceEvent → Bool → Bool
has_end [] ended = ended
has_end (media p ∷ events) ended = has_end events ended
has_end (end ∷ events) ended = true

abbrev pub is_nonempty {ℓ} : {A : Type ℓ} → List A → Bool
is_nonempty [] = false
is_nonempty (x ∷ xs) = true

-- Some target has asked for a picture.
abbrev pub requests_pli : List RoomBroadcastTarget → Bool
requests_pli [] = false
requests_pli (t ∷ ts) = is_nonempty t.events || requests_pli ts

poll_target_lem :
    (events : List BroadcastTargetEvent) (ended pli : Bool)
    → poll_target events ended pli ≡ (ended, is_nonempty events || pli)
unfolding poll_target
poll_target_lem [] ended pli = refl
poll_target_lem (request_pli ∷ events) ended pli = ground (arith, poll_target_lem events ended true)

drain_targets-pli :
    (m : Map ClientId RoomBroadcastTarget) (pli : Bool)
    → (drain_targets m pli).2 ≡ (requests_pli (values m) || pli)
unfolding drain_targets
drain_targets-pli [] pli = refl
drain_targets-pli ((c, t) ∷ m) pli = ground (
  arith,
  poll_target_lem t.events t.ended pli,
  drain_targets-pli m (poll_target t.events t.ended pli).1,
)

drain_targets-lookup :
    (m : Map ClientId RoomBroadcastTarget) (pli : Bool) (c : ClientId) (t : RoomBroadcastTarget)
    → lookup c m ≡ some t
    → t.ended ≡ false
    → lookup c (drain_targets m pli).0 ≡ some (record t { events = [] })
unfolding drain_targets lookup
drain_targets-lookup [] pli c t e h = cc
drain_targets-lookup ((k, s) ∷ m) pli c t e h = ground (
  arith,
  poll_target_lem s.events s.ended pli,
  drain_targets-lookup m (poll_target s.events s.ended pli).1 c t,
)

lookup-map_values :
    (f : RoomBroadcastTarget → RoomBroadcastTarget) (m : Map ClientId RoomBroadcastTarget)
    (c : ClientId) (t : RoomBroadcastTarget)
    → lookup c m ≡ some t
    → lookup c (map_values f m) ≡ some (f t)
unfolding lookup map_values
lookup-map_values f [] c t e = cc
lookup-map_values f ((k, s) ∷ m) c t e = ground (arith, lookup-map_values f m c t)

poll_source-sent :
    (events : List BroadcastSourceEvent) (ended : Bool) (m : Map ClientId RoomBroadcastTarget)
    (c : ClientId) (t : RoomBroadcastTarget)
    → lookup c m ≡ some t
    → lookup c (poll_source events ended m).1 ≡ some (record t { sent = t.sent ++ media_of events })
unfolding poll_source send_rtp
poll_source-sent [] ended m c t e =
    e ∙ ap (λ s. some (record t { sent = s })) (sym (append-nil t.sent))
poll_source-sent (media p ∷ events) ended m c t e =
    poll_source-sent events ended (map_values (send_rtp p) m) c (send_rtp p t)
      (lookup-map_values (send_rtp p) m c t e)
    ∙ ap (λ s. some (record t { sent = s })) (append_assoc t.sent (p ∷ []) (media_of events))
poll_source-sent (end ∷ events) ended m c t e =
    e ∙ ap (λ s. some (record t { sent = s })) (sym (append-nil t.sent))

poll_source-done :
    (events : List BroadcastSourceEvent) (ended : Bool) (m : Map ClientId RoomBroadcastTarget)
    → (poll_source events ended m).2 ≡ has_end events ended
unfolding poll_source
poll_source-done [] ended m = refl
poll_source-done (media p ∷ events) ended m =
    poll_source-done events ended (map_values (send_rtp p) m)
poll_source-done (end ∷ events) ended m = refl

-- A target whose stream goes on is sent the packets that are ready, in order, up to the source's
-- end; its own events are used up.
pub poll-sends :
    (b : ClientBroadcast) (c : ClientId) (t : RoomBroadcastTarget)
    → b.shutdown_sent ≡ false
    → lookup c b.targets ≡ some t
    → t.ended ≡ false
    → lookup c (poll b).broadcast.targets
      ≡ some (record t { events = []; sent = t.sent ++ media_of b.source.events })
unfolding poll send_pli
poll-sends b c t s e h = ground (
  arith,
  drain_targets-lookup b.targets false c t e h,
  poll_source-sent b.source.events b.source.ended (drain_targets b.targets false).0 c
      (record t { events = [] }),
)

-- The source is asked for a picture once if any target asked for one, however many did, and
-- otherwise not.
pub poll-plis :
    (b : ClientBroadcast)
    → b.shutdown_sent ≡ false
    → (poll b).broadcast.source.plis
      ≡ (if requests_pli (values b.targets) then b.source.plis + 1 else b.source.plis)
unfolding poll send_pli
poll-plis b s = ground (arith, drain_targets-pli b.targets false)

-- A broadcast ends exactly if its shutdown was signalled or its source has ended.
pub poll-ready :
    (b : ClientBroadcast)
    → ((poll b).poll ≡ ready) ↔ ((b.shutdown_sent || has_end b.source.events b.source.ended) ≡ true)
unfolding poll send_pli
poll-ready b =
    ground
      (arith, poll_source-done b.source.events b.source.ended (drain_targets b.targets false).0)

-- ===== src/Room/Names/Shrinking.antt =====
-- The methods of server/src/rtp_server/room.rs other than `client_broadcast_start`, and the broadcasts
-- that run.
use simple_screen_share.Base.{
  ℕ, ◌≡◌, refl, ap, sym, ◌∙◌, true, some, contains, Option-cases, Bool-cases, inl, inr, arith,
}
use simple_screen_share.Base.Map.{Map, nat_key, lookup, update, lookup-remove, lookup-update}
use simple_screen_share.Messages.{ClientId, BroadcastId}
use simple_screen_share.Broadcast
use simple_screen_share.Broadcast.{
  ClientRef, ClientBroadcast, RoomBroadcastSource, RoomBroadcastTarget,
}
use simple_screen_share.Room.State.{Room}
use simple_screen_share.Room.Clients.{add_client, remove_client}
use simple_screen_share.Room.Shutdown.{remove_client-gone, remove_client-absent}
use simple_screen_share.Room.Broadcasts.{
  client_broadcast_stop, client_broadcast_subscribe, client_broadcast_unsubscribe, broadcast_ended,
  poll_broadcast, add_target, remove_target,
}
use simple_screen_share.Room.Invariant.{listed}
use simple_screen_share.Room.Invariant.Members.{signal_all_running}
use simple_screen_share.Room.Names.{SameShow, Shrinks}
use simple_screen_share.Room.Steps.{with_streams}
use simple_screen_share.Room.Invariant.Streams.{client_broadcast_stop-stopped, update_running}

Shrinks-same : (r r' : Room) → r'.broadcasts ≡ r.broadcasts → Shrinks r r'
Shrinks-same r r' e = record {
  before = λ b x p. (x, (ap (lookup b) (sym e) ∙ p.0, p.1), (refl, refl, refl));
}

-- A change in place that keeps what shows of a broadcast and does not bring it back.
record IsQuiet (f : ClientBroadcast → ClientBroadcast) : Type 0 where
  shows : (x : ClientBroadcast) → SameShow (f x) x
  running : (x : ClientBroadcast) → (f x).shutdown_tx ≡ true → x.shutdown_tx ≡ true

Shrinks-update :
    (r r' : Room) (k : BroadcastId) (f : ClientBroadcast → ClientBroadcast)
    → IsQuiet f
    → r'.broadcasts ≡ update k f r.broadcasts
    → Shrinks r r'
Shrinks-update r r' k f quiet e = record {
  before = λ b x p.
      let found : lookup b (update k f r.broadcasts) ≡ some x = ap (lookup b) (sym e) ∙ p.0 in
      elim (Option-cases (lookup b r.broadcasts)) [
        | inl missing ↦ absurd (ground (arith, lookup-update k b f r.broadcasts))
        | inr (y, there) ↦ (
          y,
          (there, ground (arith, lookup-update k b f r.broadcasts, quiet.running y)),
          ground (arith, lookup-update k b f r.broadcasts, quiet.shows y),
        )
      ];
}

add_target-IsQuiet : (c : ClientId) (t : RoomBroadcastTarget) → IsQuiet (add_target c t)
unfolding add_target
add_target-IsQuiet c t = ground arith

remove_target-IsQuiet : (c : ClientId) → IsQuiet (remove_target c)
unfolding remove_target
remove_target-IsQuiet c = ground arith

poll-IsQuiet : IsQuiet (λ x. (Broadcast.poll x).broadcast)
unfolding Broadcast.poll
poll-IsQuiet = ground arith

pub add_client-Shrinks : (r : Room) (h : ClientRef) (u : ℕ) → Shrinks r (add_client r h u).0
unfolding add_client
add_client-Shrinks r h u = Shrinks-same r (add_client r h u).0 (ground arith)

pub remove_client-Shrinks : (r : Room) (c : ClientId) → Shrinks r (remove_client r c).0
remove_client-Shrinks r c = elim (Option-cases (lookup c r.clients)) [
  | inl e ↦ rw (remove_client-absent r c e) (Shrinks-same r r refl)
  | inr (h, e) ↦ rw (remove_client-gone r c h e) (record {
    before = λ b x p. (
      x,
      ((signal_all_running (listed r c) b r.broadcasts x p.0 p.1).1, p.1),
      (refl, refl, refl),
    );
  })
]

pub client_broadcast_stop-Shrinks :
    (r : Room) (c : ClientId) (b : BroadcastId) → Shrinks r (client_broadcast_stop r c b).room
unfolding client_broadcast_stop
client_broadcast_stop-Shrinks r c b = elim (Option-cases (lookup c r.client_broadcasts)) [
  | inl e ↦ rw (e, client_broadcast_stop) (Shrinks-same r r refl)
  | inr (ids, e) ↦ elim (Bool-cases (contains b ids)) [
    | inl h ↦ rw (client_broadcast_stop-stopped r c b ids e h) (record {
      before =
          λ b' x p. (x, ((update_running b b' r.broadcasts x p.0 p.1).1, p.1), (refl, refl, refl));
    })
    | inr h ↦ rw (e, h, client_broadcast_stop) (Shrinks-same r r refl)
  ]
]

pub client_broadcast_subscribe-Shrinks :
    (r : Room) (c : ClientId) (b : BroadcastId) (t : RoomBroadcastTarget)
    → Shrinks r (client_broadcast_subscribe r c b t).room
unfolding client_broadcast_subscribe
client_broadcast_subscribe-Shrinks r c b t = ground (
  arith,
  Shrinks-same r r refl,
  Shrinks-update r (record r { broadcasts = update b (add_target c t) r.broadcasts }) b
      (add_target c t) (add_target-IsQuiet c t) refl,
)

pub client_broadcast_unsubscribe-Shrinks :
    (r : Room) (c : ClientId) (b : BroadcastId)
    → Shrinks r (client_broadcast_unsubscribe r c b).room
unfolding client_broadcast_unsubscribe
client_broadcast_unsubscribe-Shrinks r c b = ground (
  arith,
  Shrinks-same r r refl,
  Shrinks-update r (record r { broadcasts = update b (remove_target c) r.broadcasts }) b
      (remove_target c) (remove_target-IsQuiet c) refl,
)

pub poll_broadcast-Shrinks : (r : Room) (b : BroadcastId) → Shrinks r (poll_broadcast r b).room
unfolding poll_broadcast
poll_broadcast-Shrinks r b = elim (Option-cases (lookup b r.broadcasts)) [
  | inl e ↦ rw (e, poll_broadcast) (Shrinks-same r r refl)
  | inr (x, e) ↦
      rw (e, poll_broadcast)
        (Shrinks-update r
          (record r { broadcasts = update b (λ y. (Broadcast.poll y).broadcast) r.broadcasts }) b
          (λ y. (Broadcast.poll y).broadcast) poll-IsQuiet refl)
]

pub broadcast_ended-Shrinks :
    (r : Room) (c : ClientId) (b : BroadcastId) → Shrinks r (broadcast_ended r c b).0
unfolding broadcast_ended
broadcast_ended-Shrinks r c b = record {
  before = λ b' x p.
      (x, (ground (arith, p.0, lookup-remove b b' r.broadcasts), p.1), (refl, refl, refl));
}

pub streams-Shrinks :
    (r : Room) (b : BroadcastId) (source : RoomBroadcastSource → RoomBroadcastSource)
    (targets : Map ClientId RoomBroadcastTarget → Map ClientId RoomBroadcastTarget)
    → Shrinks r (record r { broadcasts = update b (with_streams source targets) r.broadcasts })
streams-Shrinks r b source targets =
    Shrinks-update r (record r { broadcasts = update b (with_streams source targets) r.broadcasts })
      b (with_streams source targets) (ground arith) refl

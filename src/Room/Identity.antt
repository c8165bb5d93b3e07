-- ===== src/Room/Identity.antt =====
-- The id of a `Room` of server/src/rtp_server/room.rs under its methods.
use simple_screen_share.Base.{
  ◌≡◌, refl, ap, Option-cases, inl, inr, String, List, remove_first, arith,
}
use simple_screen_share.Base.Map.{nat_key, lookup, insert}
use simple_screen_share.Messages.{ClientId, BroadcastId}
use simple_screen_share.Room.State.{Room, Effect}
use simple_screen_share.Room.Clients.{add_client, remove_client}
use simple_screen_share.Room.Broadcasts.{
  client_broadcast_start, client_broadcast_subscribe, client_broadcast_unsubscribe,
  client_broadcast_stop, broadcast_ended, poll_broadcast, register_broadcast,
}
use simple_screen_share.Room.Shutdown.{
  remove_client-gone, remove_client-absent, shutdown_broadcast_lem,
}
use simple_screen_share.Room.Steps.{
  Step, joins, leaves, starts, stops, subscribes, unsubscribes, polls, ends, streams,
}

remove_client-id : (r : Room) (c : ClientId) → (remove_client r c).0.id ≡ r.id
remove_client-id r c = elim (Option-cases (lookup c r.clients)) [
  | inl e ↦ ap (λ (x : Room). x.id) (remove_client-absent r c e)
  | inr (h, e) ↦ ap (λ (x : Room). x.id) (remove_client-gone r c h e)
]

client_broadcast_stop-id :
    (r : Room) (c : ClientId) (b : BroadcastId) → (client_broadcast_stop r c b).room.id ≡ r.id
unfolding client_broadcast_stop
client_broadcast_stop-id r c b = elim (Option-cases (lookup c r.client_broadcasts)) [
  | inl e ↦ rw (e, client_broadcast_stop)
  | inr (ids, e) ↦ ground (
    arith,
    shutdown_broadcast_lem
        (record r { client_broadcasts = insert c (remove_first b ids) r.client_broadcasts }) b,
  )
]

-- No method changes the room's id.
pub Step-id :
    {to_lowercase : String → String} {r r' : Room} {es : List Effect}
    → Step to_lowercase r es r'
    → r'.id ≡ r.id
unfolding add_client client_broadcast_start register_broadcast client_broadcast_stop
    client_broadcast_subscribe client_broadcast_unsubscribe poll_broadcast broadcast_ended
Step-id (joins r client user) = ground arith
Step-id (leaves r c) = remove_client-id r c
Step-id {to_lowercase} (starts r rng c name source) = ground arith
Step-id (stops r c b) = client_broadcast_stop-id r c b
Step-id (subscribes r c b target) = ground arith
Step-id (unsubscribes r c b) = ground arith
Step-id (polls r b) = ground arith
Step-id (ends r c b) = refl
Step-id (streams r b source targets) = refl

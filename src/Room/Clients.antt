-- ===== src/Room/Clients.antt =====
-- `Room::add_client`, `remove_client` and `shutdown_broadcast` of server/src/rtp_server/room.rs.
use simple_screen_share.Base.{
  true, false, none, some, List, [], ◌∷◌, ◌++◌, map, unwrap_or, ◌==◌, if◌then◌else◌,
}
use simple_screen_share.Base.Map.{
  Map, nat_key, keys, values, lookup, contains_key, insert, remove, update,
}
use simple_screen_share.Messages.{
  ClientId, UserId, BroadcastId, S2CNotify, notify_users, notify_broadcasts, notify_user_joined,
  notify_user_left, notify,
}
use simple_screen_share.Broadcast.{ClientRef, ClientBroadcast}
use simple_screen_share.Room.State.{
  Room, Effect, send, client_joined, client_left, wake_broadcast, send_all, user_entry,
  broadcast_entry,
}

-- The loop over the clients that leaves out `client_id`.
unfoldable pub send_others : ClientId → S2CNotify → Map ClientId ClientRef → List Effect
send_others client_id n [] = []
send_others client_id n ((other_id, other) ∷ clients) =
    let rest = send_others client_id n clients in
    if other_id == client_id then rest else send other (notify n) ∷ rest

-- The body of `add_client` behind its guard, the new client registered.
unfoldable pub welcome : Room → ClientRef → UserId → List Effect
unfolding send_others user_entry broadcast_entry
welcome room client user_id =
    let client_id = client.client_id in
    map (λ s. client_joined s client_id client) room.subscriber
    ++ (send_others client_id
          (notify_user_joined (record { client_id = client_id; user_id = user_id })) room.clients
        ++ (send client (notify (notify_users (map (user_entry room) (keys room.clients))))
            ∷ send client
                (notify (notify_broadcasts (map broadcast_entry (values room.broadcasts))))
            ∷ []))

unfoldable pub add_client : Room → ClientRef → UserId → Room × List Effect
unfolding welcome
add_client room client user_id =
    let joined = record room {
      client_user_ids = insert client.client_id user_id room.client_user_ids;
      clients = insert client.client_id client room.clients;
    } in
    if contains_key client.client_id room.clients
    then (room, [])
    else (joined, welcome joined client user_id)

-- `shutdown_tx.take()` and the send.
unfoldable pub signal_shutdown : ClientBroadcast → ClientBroadcast
signal_shutdown b =
    if b.shutdown_tx then record b { shutdown_tx = false; shutdown_sent = true } else b

unfoldable pub shutdown_broadcast : Room → BroadcastId → Room × List Effect
unfolding signal_shutdown
shutdown_broadcast room broadcast_id = elim (lookup broadcast_id room.broadcasts) [
  | none ↦ (room, [])
  | some b ↦ (
    record room { broadcasts = update broadcast_id signal_shutdown room.broadcasts },
    if b.shutdown_tx then wake_broadcast broadcast_id ∷ [] else [],
  )
]

unfoldable pub shutdown_broadcasts : Room → List BroadcastId → Room × List Effect
unfolding shutdown_broadcast
shutdown_broadcasts room [] = (room, [])
shutdown_broadcasts room (broadcast_id ∷ broadcasts) =
    let (room', effects) = shutdown_broadcast room broadcast_id in
    let (room'', effects') = shutdown_broadcasts room' broadcasts in (room'', effects ++ effects')

unfoldable pub remove_client : Room → ClientId → Room × List Effect
unfolding shutdown_broadcasts send_all
remove_client room client_id = elim (lookup client_id room.clients) [
  | none ↦ (room, [])
  | some client ↦
      let broadcasts = unwrap_or (lookup client_id room.client_broadcasts) [] in
      let left = record room {
        clients = remove client_id room.clients;
        client_user_ids = remove client_id room.client_user_ids;
        client_broadcasts = remove client_id room.client_broadcasts;
      } in
      let (room', effects) = shutdown_broadcasts left broadcasts in
      (
        room',
        map (λ s. client_left s client_id client) room.subscriber
            ++ (effects ++ send_all (notify_user_left client_id) (values room'.clients)),
      )
]

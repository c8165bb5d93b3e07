-- ===== src/Room/Shutdown.antt =====
-- What `Room::shutdown_broadcast` of server/src/rtp_server/room.rs does to the room.
use simple_screen_share.Base.{
  ◌≡◌, refl, Bool, ◌||◌, Option, none, some, List, [], ◌∷◌, unwrap_or, contains, ◌==◌, arith,
}
use simple_screen_share.Base.Map.{
  Map, nat_key, lookup, remove, update, lookup-update, map_at, update-missing,
}
use simple_screen_share.Messages.{ClientId, BroadcastId}
use simple_screen_share.Broadcast.{ClientRef, ClientBroadcast}
use simple_screen_share.Room.State.{Room}
use simple_screen_share.Room.Clients.{
  remove_client, shutdown_broadcast, shutdown_broadcasts, signal_shutdown,
}

-- Every broadcast of the list signalled.
unfoldable pub signal_all :
    List BroadcastId → Map BroadcastId ClientBroadcast → Map BroadcastId ClientBroadcast
signal_all [] m = m
signal_all (b ∷ ids) m = signal_all ids (update b signal_shutdown m)

pub shutdown_broadcast_lem :
    (r : Room) (b : BroadcastId)
    → (shutdown_broadcast r b).0 ≡ record r { broadcasts = update b signal_shutdown r.broadcasts }
unfolding shutdown_broadcast
shutdown_broadcast_lem r b = ground (arith, update-missing b signal_shutdown r.broadcasts)

pub shutdown_broadcasts_lem :
    (r : Room) (ids : List BroadcastId)
    → (shutdown_broadcasts r ids).0 ≡ record r { broadcasts = signal_all ids r.broadcasts }
unfolding shutdown_broadcasts signal_all
shutdown_broadcasts_lem r [] = refl
shutdown_broadcasts_lem r (b ∷ ids) =
    rw (shutdown_broadcast_lem r b) (
      shutdown_broadcasts_lem (record r { broadcasts = update b signal_shutdown r.broadcasts }) ids)

signal_shutdown_twice :
    (x : ClientBroadcast) → signal_shutdown (signal_shutdown x) ≡ signal_shutdown x
unfolding signal_shutdown
signal_shutdown_twice x = ground arith

map_at_twice :
    (p q : Bool) (o : Option ClientBroadcast)
    → map_at p signal_shutdown (map_at q signal_shutdown o) ≡ map_at (q || p) signal_shutdown o
map_at_twice p q none = refl
map_at_twice p q (some x) = ground (arith, signal_shutdown_twice x)

pub lookup-signal_all :
    (ids : List BroadcastId) (b : BroadcastId) (m : Map BroadcastId ClientBroadcast)
    → lookup b (signal_all ids m) ≡ map_at (contains b ids) signal_shutdown (lookup b m)
unfolding signal_all contains
lookup-signal_all [] b m = ground arith
lookup-signal_all (i ∷ ids) b m =
    rw (lookup-signal_all ids b (update i signal_shutdown m), lookup-update i b signal_shutdown m)
      (map_at_twice (contains b ids) (i == b) (lookup b m))

-- The room without a client, whose broadcasts are signalled.
abbrev pub gone : Room → ClientId → Room
gone r c = record r {
  clients = remove c r.clients;
  client_user_ids = remove c r.client_user_ids;
  client_broadcasts = remove c r.client_broadcasts;
  broadcasts = signal_all (unwrap_or (lookup c r.client_broadcasts) []) r.broadcasts;
}

pub remove_client-absent :
    (r : Room) (c : ClientId) → lookup c r.clients ≡ none → (remove_client r c).0 ≡ r
unfolding remove_client
remove_client-absent r c e = rw (e, remove_client)

pub remove_client-gone :
    (r : Room) (c : ClientId) (h : ClientRef)
    → lookup c r.clients ≡ some h
    → (remove_client r c).0 ≡ gone r c
unfolding remove_client
remove_client-gone r c h e = ground (
  arith,
  shutdown_broadcasts_lem
      (record r {
        clients = remove c r.clients;
        client_user_ids = remove c r.client_user_ids;
        client_broadcasts = remove c r.client_broadcasts;
      })
      (unwrap_or (lookup c r.client_broadcasts) []),
)

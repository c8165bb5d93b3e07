-- ===== src/Room/Broadcasts.antt =====
-- The broadcasts of a `Room` of server/src/rtp_server/room.rs: start, stop, end, subscriptions.
use text.Mathlib.Text.{◌==◌ as str_eq}
use simple_screen_share.Base.{
  ℕ, zero, suc, Bool, true, false, ◌&&◌, String, Option, none, some, List, [], ◌∷◌, ◌++◌, map,
  unwrap_or, contains, remove_first, if◌then◌else◌,
}
use simple_screen_share.Base.Map.{
  Map, nat_key, values, lookup, contains_key, insert, remove, update,
}
use simple_screen_share.Messages.{
  ClientId, BroadcastId, BroadcastKind, audio, video, notify_broadcast_started,
  notify_broadcast_ended, S2CResponse, success, room_not_joined, internal_error,
  broadcast_already_running, broadcast_started, broadcast_unknown_id, broadcast_already_subscribed,
}
use simple_screen_share.Broadcast
use simple_screen_share.Broadcast.{
  Poll, ready, ClientRef, ClientBroadcast, RoomBroadcastSource, RoomBroadcastTarget,
}
use simple_screen_share.Room.State.{
  Room, Effect, client_broadcast_started, client_broadcast_ended, spawn_broadcast, wake_broadcast,
  drop_source, drop_target, send_all, broadcast_entry,
}
use simple_screen_share.Room.Clients.{shutdown_broadcast}

-- The loop `for _ in 1..1000` of `generate_broadcast_id`, with the rounds left and the number of the
-- next draw of the random generator.
unfoldable pub draw_id : (ℕ → BroadcastId) → Room → ℕ → ℕ → Option BroadcastId
draw_id rng room zero i = none
draw_id rng room (suc rounds) i = elim (contains_key (rng i) room.broadcasts) [
  | true ↦ draw_id rng room rounds (suc i)
  | false ↦ some (rng i)
]

unfoldable pub generate_broadcast_id : (ℕ → BroadcastId) → Room → Option BroadcastId
generate_broadcast_id rng room = draw_id rng room 999 0

unfoldable pub broadcast_kind : Room → BroadcastId → Option BroadcastKind
broadcast_kind room broadcast_id = elim (lookup broadcast_id room.broadcasts) [
  | none ↦ none
  | some b ↦ some b.kind
]

unfoldable pub same_kind : BroadcastKind → BroadcastKind → Bool
same_kind audio audio = true
same_kind video video = true
same_kind _ _ = false

-- The loop over the client's broadcasts: the id of one with the same kind and name.
unfoldable pub running_broadcast :
    (String → String)
    → Map BroadcastId ClientBroadcast
    → BroadcastKind
    → String
    → List BroadcastId
    → Option BroadcastId
unfolding same_kind
running_broadcast to_lowercase broadcasts kind name [] = none
running_broadcast to_lowercase broadcasts kind name (broadcast_id ∷ ids) =
    let rest = running_broadcast to_lowercase broadcasts kind name ids in
    elim (lookup broadcast_id broadcasts) [
      | none ↦ rest
      | some b ↦
          if same_kind b.kind kind && str_eq (to_lowercase b.name) (to_lowercase name)
          then some broadcast_id
          else rest
    ]

pub record Started : Type 0 where
  pub room : Room
  pub effects : List Effect
  pub response : S2CResponse

unfoldable pub new_broadcast :
    ClientRef → ClientId → BroadcastId → String → RoomBroadcastSource → ClientBroadcast
new_broadcast client client_id broadcast_id name source = record {
  kind = source.kind;
  id = broadcast_id;
  name = name;
  client_id = client_id;
  client = client;
  waker = false;
  source = source;
  targets = [];
  shutdown_tx = true;
  shutdown_sent = false;
}

-- The last part of `client_broadcast_start`: the broadcast is registered and announced.
unfoldable pub register_broadcast : Room → List BroadcastId → ClientId → ClientBroadcast → Started
unfolding send_all broadcast_entry
register_broadcast room ids client_id b =
    let started = record room {
      client_broadcasts = insert client_id (ids ++ (b.id ∷ [])) room.client_broadcasts;
      broadcasts = insert b.id b room.broadcasts;
    } in
    record {
      room = started;
      effects =
          spawn_broadcast b.id
          ∷ (map (λ s. client_broadcast_started s client_id b.id) room.subscriber
              ++ send_all (notify_broadcast_started (broadcast_entry b)) (values room.clients));
      response = broadcast_started b.id;
    }

unfoldable pub client_broadcast_start :
    (String → String) → (ℕ → BroadcastId) → Room → ClientId → String → RoomBroadcastSource → Started
unfolding generate_broadcast_id running_broadcast new_broadcast register_broadcast
client_broadcast_start to_lowercase rng room client_id name source =
    elim (lookup client_id room.clients) [
      | none ↦ record { room = room; effects = drop_source source ∷ []; response = room_not_joined }
      | some client ↦ elim (generate_broadcast_id rng room) [
        | none ↦ record {
          room = room;
          effects = drop_source source ∷ [];
          response = internal_error "failed to generate broadcast id";
        }
        | some broadcast_id ↦
            let ids = unwrap_or (lookup client_id room.client_broadcasts) [] in
            let entered = record room {
              client_broadcasts = insert client_id ids room.client_broadcasts;
            } in
            elim (running_broadcast to_lowercase room.broadcasts source.kind name ids) [
              | some running ↦ record {
                room = entered;
                effects = drop_source source ∷ [];
                response = broadcast_already_running running;
              }
              | none ↦
                  register_broadcast entered ids client_id
                    (new_broadcast client client_id broadcast_id name source)
            ]
      ]
    ]

unfoldable pub drop_targets : List RoomBroadcastTarget → List Effect
drop_targets [] = []
drop_targets (target ∷ targets) = drop_target target ∷ drop_targets targets

-- The last reference to a broadcast goes with its entry.
unfoldable pub drop_broadcast : Option ClientBroadcast → List Effect
unfolding drop_targets
drop_broadcast none = []
drop_broadcast (some b) = drop_source b.source ∷ drop_targets (values b.targets)

-- The end of the spawned task, when the broadcast's `poll` was ready.
unfoldable pub broadcast_ended : Room → ClientId → BroadcastId → Room × List Effect
unfolding send_all drop_broadcast
broadcast_ended room client_id broadcast_id = (
  record room { broadcasts = remove broadcast_id room.broadcasts },
  drop_broadcast (lookup broadcast_id room.broadcasts)
      ++ (send_all (notify_broadcast_ended broadcast_id) (values room.clients)
          ++ map (λ s. client_broadcast_ended s client_id broadcast_id) room.subscriber),
)

unfoldable pub client_broadcast_stop : Room → ClientId → BroadcastId → Started
unfolding shutdown_broadcast
client_broadcast_stop room client_id broadcast_id = elim (lookup client_id room.client_broadcasts) [
  | none ↦ record { room = room; effects = []; response = broadcast_unknown_id }
  | some ids ↦
      let room' = record room {
        client_broadcasts = insert client_id (remove_first broadcast_id ids) room.client_broadcasts;
      } in
      if contains broadcast_id ids
      then (let (stopped, effects) = shutdown_broadcast room' broadcast_id in
          record { room = stopped; effects = effects; response = success })
      else record { room = room; effects = []; response = broadcast_unknown_id }
]

unfoldable pub wakes : ClientBroadcast → List Effect
wakes b = if b.waker then wake_broadcast b.id ∷ [] else []

unfoldable pub add_target : ClientId → RoomBroadcastTarget → ClientBroadcast → ClientBroadcast
add_target client_id target b = record b { targets = insert client_id target b.targets }

unfoldable pub remove_target : ClientId → ClientBroadcast → ClientBroadcast
remove_target client_id b = record b { targets = remove client_id b.targets }

unfoldable pub client_broadcast_subscribe :
    Room → ClientId → BroadcastId → RoomBroadcastTarget → Started
unfolding wakes add_target
client_broadcast_subscribe room client_id broadcast_id target =
    elim (lookup broadcast_id room.broadcasts) [
      | none ↦ record {
        room = room;
        effects = drop_target target ∷ [];
        response = broadcast_unknown_id;
      }
      | some b ↦
          if contains_key client_id b.targets
          then record {
            room = room;
            effects = drop_target target ∷ [];
            response = broadcast_already_subscribed;
          }
          else record {
            room = record room {
              broadcasts = update broadcast_id (add_target client_id target) room.broadcasts;
            };
            effects = wakes b;
            response = success;
          }
    ]

unfoldable pub client_broadcast_unsubscribe : Room → ClientId → BroadcastId → Started
unfolding wakes remove_target
client_broadcast_unsubscribe room client_id broadcast_id =
    elim (lookup broadcast_id room.broadcasts) [
      | none ↦ record { room = room; effects = []; response = broadcast_unknown_id }
      | some b ↦ elim (lookup client_id b.targets) [
        | none ↦ record { room = room; effects = []; response = success }
        | some target ↦ record {
          room = record room {
            broadcasts = update broadcast_id (remove_target client_id) room.broadcasts;
          };
          effects = wakes b ++ (drop_target target ∷ []);
          response = success;
        }
      ]
    ]

pub record PolledRoom : Type 0 where
  pub room : Room
  pub effects : List Effect
  pub poll : Poll

-- One round of the spawned task: the broadcast is polled in place.
unfoldable pub poll_broadcast : Room → BroadcastId → PolledRoom
unfolding drop_targets
poll_broadcast room broadcast_id = elim (lookup broadcast_id room.broadcasts) [
  | none ↦ record { room = room; effects = []; poll = ready }
  | some b ↦ record {
    room = record room {
      broadcasts = update broadcast_id (λ b. (Broadcast.poll b).broadcast) room.broadcasts;
    };
    effects = drop_targets (Broadcast.poll b).dropped;
    poll = (Broadcast.poll b).poll;
  }
]

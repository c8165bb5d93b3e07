-- ===== src/Room/Tasks.antt =====
-- The task that `client_broadcast_start` of server/src/rtp_server/room.rs spawns for a broadcast, and
-- runs of several such tasks.
use simple_screen_share.Base.{◌≡◌, false, none, some, List, [], ◌∷◌, ◌++◌, ◌==◌, arith}
use simple_screen_share.Base.Map.{nat_key, lookup, lookup-remove, lookup-update}
use simple_screen_share.Messages.{BroadcastId}
use simple_screen_share.Broadcast
use simple_screen_share.Broadcast.{ClientBroadcast, Poll, ready, pending}
use simple_screen_share.Room.State.{Room, Effect}
use simple_screen_share.Room.Broadcasts.{PolledRoom, poll_broadcast, broadcast_ended}

-- A broadcast that is ready is taken out of the room.
unfoldable pub end_ready : BroadcastId → ClientBroadcast → PolledRoom → Room × List Effect
unfolding broadcast_ended
end_ready broadcast_id b polled =
    let (room, effects) = broadcast_ended polled.room b.client_id broadcast_id in
    elim polled.poll [
      | ready ↦ (room, polled.effects ++ effects)
      | pending ↦ (polled.room, polled.effects)
    ]

-- The task of a broadcast runs once. The task of a broadcast that has ended is gone.
unfoldable pub broadcast_task : BroadcastId → Room → Room × List Effect
unfolding poll_broadcast end_ready
broadcast_task broadcast_id room = elim (lookup broadcast_id room.broadcasts) [
  | none ↦ (room, [])
  | some b ↦ end_ready broadcast_id b (poll_broadcast room broadcast_id)
]

-- The tasks run one after another, in this order.
unfoldable pub broadcast_tasks : List BroadcastId → Room → Room × List Effect
unfolding broadcast_task
broadcast_tasks [] room = (room, [])
broadcast_tasks (broadcast_id ∷ ids) room =
    let (next, effects) = broadcast_task broadcast_id room in
    let (last, rest) = broadcast_tasks ids next in (last, effects ++ rest)

pub broadcast_task-clients :
    (b : BroadcastId) (r : Room) → (broadcast_task b r).0.clients ≡ r.clients
unfolding broadcast_task end_ready poll_broadcast broadcast_ended
broadcast_task-clients b r = ground arith

-- The other broadcasts stay as they are.
pub broadcast_task-others :
    (j b : BroadcastId) (r : Room)
    → (j == b) ≡ false
    → lookup b (broadcast_task j r).0.broadcasts ≡ lookup b r.broadcasts
unfolding broadcast_task end_ready poll_broadcast broadcast_ended
broadcast_task-others j b r e = ground (
  arith,
  lookup-update j b (λ x. (Broadcast.poll x).broadcast) r.broadcasts,
  lookup-remove j b r.broadcasts,
  lookup-remove j b (poll_broadcast r j).room.broadcasts,
)

pub broadcast_task-missing :
    (b : BroadcastId) (r : Room) → lookup b r.broadcasts ≡ none → broadcast_task b r ≡ (r, [])
unfolding broadcast_task
broadcast_task-missing b r e = rw (e, broadcast_task)

-- ===== src/Room/Settling.antt =====
-- What is left of a client's broadcasts in server/src/rtp_server/room.rs when it has left the room.
use mathlib.Core.List.{append_assoc}
use simple_screen_share.Base.{
  ◌≡◌, refl, sym, ap, subst, ◌∙◌, String, unwrap_or, true, false, none, some, List, [], ◌∷◌, ◌++◌,
  map, contains, ◌==◌, ==_iff, Bool-cases, inl, inr, if◌then◌else◌, arith,
}
use simple_screen_share.Base.Map.{nat_key, values, lookup, contains_key, lookup-remove_same}
use simple_screen_share.Messages.{ClientId, BroadcastId, notify_broadcast_ended}
use simple_screen_share.Broadcast
use simple_screen_share.Broadcast.{ClientRef, ClientBroadcast, Poll, ready, pending}
use simple_screen_share.Room.State.{Room, Effect, client_broadcast_ended, send_all}
use simple_screen_share.Room.Clients.{remove_client, signal_shutdown}
use simple_screen_share.Room.Broadcasts.{
  poll_broadcast, broadcast_ended, drop_broadcast, drop_targets,
}
use simple_screen_share.Room.Shutdown.{remove_client-gone, lookup-signal_all}
use simple_screen_share.Room.Steps.{leaves, Reach, next, Reach-Inv}
use simple_screen_share.Room.Leave.{absent_signalled, remove_client-absent_after}
use simple_screen_share.Room.Tasks.{
  end_ready, broadcast_task, broadcast_tasks, broadcast_task-clients, broadcast_task-others,
  broadcast_task-missing,
}

abbrev told : BroadcastId → Room → List Effect
told b r = send_all (notify_broadcast_ended b) (values r.clients)

-- A broadcast is gone after a run of tasks, and the run tells each client that it has ended.
abbrev pub Settled : BroadcastId → Room → Room × List Effect → Type 0
Settled b r run =
    (lookup b run.0.broadcasts ≡ none)
    × (before : List Effect) × (after : List Effect) × (run.1 ≡ before ++ (told b r ++ after))

-- A broadcast whose shutdown was signalled is ready, and nothing of it has changed.
signalled_ends :
    (b : BroadcastId) (x : ClientBroadcast) (r : Room)
    → lookup b r.broadcasts ≡ some x
    → x.shutdown_sent ≡ true
    → broadcast_task b r ≡ broadcast_ended (poll_broadcast r b).room x.client_id b
unfolding broadcast_task end_ready poll_broadcast Broadcast.poll drop_targets
signalled_ends b x r e s = ground arith

polled-clients : (b : BroadcastId) (r : Room) → (poll_broadcast r b).room.clients ≡ r.clients
unfolding poll_broadcast
polled-clients b r = ground arith

signalled_task :
    (b : BroadcastId) (x : ClientBroadcast) (r : Room)
    → lookup b r.broadcasts ≡ some x
    → x.shutdown_sent ≡ true
    → Settled b r (broadcast_task b r)
unfolding broadcast_ended
signalled_task b x r e s =
    let polled = (poll_broadcast r b).room in
    rw (signalled_ends b x r e s) (
      lookup-remove_same b polled.broadcasts,
      drop_broadcast (lookup b polled.broadcasts),
      map (λ t. client_broadcast_ended t x.client_id b) polled.subscriber,
      rw (polled-clients b r) refl,
    )

tasks-missing :
    (ids : List BroadcastId) (b : BroadcastId) (r : Room)
    → lookup b r.broadcasts ≡ none
    → lookup b (broadcast_tasks ids r).0.broadcasts ≡ none
unfolding broadcast_tasks
tasks-missing [] b r e = e
tasks-missing (j ∷ ids) b r e =
    tasks-missing ids b (broadcast_task j r).0 (elim (Bool-cases (j == b)) [
      | inl same ↦
          subst (λ k. lookup b (broadcast_task k r).0.broadcasts ≡ none) (sym ((==_iff j b).0 same))
            (rw (broadcast_task-missing b r e) e)
      | inr other ↦ broadcast_task-others j b r other ∙ e
    ])

abbrev after_task : BroadcastId → Room → List BroadcastId → Room × List Effect
after_task j r ids = broadcast_tasks ids (broadcast_task j r).0

first_task :
    (b : BroadcastId) (r : Room) (ids : List BroadcastId)
    → Settled b r (broadcast_task b r)
    → Settled b r (broadcast_tasks (b ∷ ids) r)
unfolding broadcast_tasks
first_task b r ids (gone, before, after, e) = (
  tasks-missing ids b (broadcast_task b r).0 gone,
  before,
  after ++ (after_task b r ids).1,
  ap (λ es. es ++ (after_task b r ids).1) e
      ∙ append_assoc before (told b r ++ after) (after_task b r ids).1
      ∙ ap (λ es. before ++ es) (append_assoc (told b r) after (after_task b r ids).1),
)

later_task :
    (j b : BroadcastId) (r : Room) (ids : List BroadcastId)
    → Settled b (broadcast_task j r).0 (after_task j r ids)
    → Settled b r (broadcast_tasks (j ∷ ids) r)
unfolding broadcast_tasks
later_task j b r ids (gone, before, after, e) = (
  gone,
  (broadcast_task j r).1 ++ before,
  after,
  ap (λ es. (broadcast_task j r).1 ++ es) e
      ∙ sym (append_assoc (broadcast_task j r).1 before (told b (broadcast_task j r).0 ++ after))
      ∙ ap
          (λ clients.
            ((broadcast_task j r).1 ++ before)
            ++ (send_all (notify_broadcast_ended b) (values clients) ++ after))
          (broadcast_task-clients j r),
)

tasks-Settled :
    (ids : List BroadcastId) (b : BroadcastId) (x : ClientBroadcast) (r : Room)
    → contains b ids ≡ true
    → lookup b r.broadcasts ≡ some x
    → x.shutdown_sent ≡ true
    → Settled b r (broadcast_tasks ids r)
unfolding contains
tasks-Settled [] b x r h e s = cc
tasks-Settled (j ∷ ids) b x r h e s = elim (Bool-cases (j == b)) [
  | inl same ↦
      subst (λ k. Settled b r (broadcast_tasks (k ∷ ids) r)) (sym ((==_iff j b).0 same))
        (first_task b r ids (signalled_task b x r e s))
  | inr other ↦ later_task j b r ids (
      tasks-Settled ids b x (broadcast_task j r).0 (ground arith)
        (broadcast_task-others j b r other ∙ e) s)
]

-- Leaving takes no broadcast out and changes no owner.
leave-keeps :
    (r : Room) (c : ClientId) (h : ClientRef) (b : BroadcastId) (x : ClientBroadcast)
    → lookup c r.clients ≡ some h
    → lookup b r.broadcasts ≡ some x
    → (y : ClientBroadcast) × (lookup b (remove_client r c).0.broadcasts ≡ some y)
      × (y.client_id ≡ x.client_id)
unfolding signal_shutdown
leave-keeps r c h b x there e =
    let ids = unwrap_or (lookup c r.client_broadcasts) [] in
    (
      if contains b ids then signal_shutdown x else x,
      rw (remove_client-gone r c h there) (ground (arith, lookup-signal_all ids b r.broadcasts)),
      ground arith,
    )

-- The broadcasts of a client that leaves are signalled.
leave-signalled :
    (to_lowercase : String → String) (r : Room) (c : ClientId) (h : ClientRef) (b : BroadcastId)
    (x : ClientBroadcast)
    → Reach to_lowercase r
    → lookup c r.clients ≡ some h
    → lookup b r.broadcasts ≡ some x
    → x.client_id ≡ c
    → (y : ClientBroadcast) × (lookup b (remove_client r c).0.broadcasts ≡ some y)
      × (y.shutdown_sent ≡ true)
leave-signalled to_lowercase r c h b x reach there e own =
    let (y, at, same) = leave-keeps r c h b x there e in
    let left = (remove_client r c).0 in
    (
      y,
      at,
      absent_signalled left b y (Reach-Inv (next reach (leaves r c)))
          (subst (λ k. contains_key k left.clients ≡ false) (sym (same ∙ own))
            (remove_client-absent_after r c h there).0)
          at,
    )

-- After a client has left a reachable room, in every run of the broadcasts' tasks, each broadcast of
-- its whose task has a turn is gone at the end, and each client that stayed is told that it ended.
pub leave-Settled :
    (to_lowercase : String → String) (r : Room) (c : ClientId) (h : ClientRef) (b : BroadcastId)
    (x : ClientBroadcast) (ids : List BroadcastId)
    → Reach to_lowercase r
    → lookup c r.clients ≡ some h
    → lookup b r.broadcasts ≡ some x
    → x.client_id ≡ c
    → contains b ids ≡ true
    → Settled b (remove_client r c).0 (broadcast_tasks ids (remove_client r c).0)
leave-Settled to_lowercase r c h b x ids reach there e own turn =
    let (y, at, signalled) = leave-signalled to_lowercase r c h b x reach there e own in
    tasks-Settled ids b y (remove_client r c).0 turn at signalled

-- ===== src/Room/Invariant/Updates.antt =====
-- The methods of server/src/rtp_server/room.rs that change one broadcast in place, and the invariant.
use simple_screen_share.Base.Entries.{All-update, All-remove}
use simple_screen_share.Base.{◌∙◌}
use simple_screen_share.Room.Invariant.{IsNamed}
use simple_screen_share.Base.{◌≡◌, true, not, Option-cases, inl, inr, arith}
use simple_screen_share.Base.Map.{nat_key, lookup, update, lookup-remove, lookup-update}
use simple_screen_share.Messages.{ClientId, BroadcastId}
use simple_screen_share.Broadcast
use simple_screen_share.Broadcast.{
  RoomBroadcastSource, RoomBroadcastTarget, ClientRef, ClientBroadcast,
}
use simple_screen_share.Room.State.{Room}
use simple_screen_share.Room.Clients.{signal_shutdown}
use simple_screen_share.Room.Broadcasts.{
  client_broadcast_subscribe, client_broadcast_unsubscribe, add_target, remove_target,
  broadcast_ended, poll_broadcast,
}
use simple_screen_share.Room.Invariant.{Inv}

-- A change of a broadcast in place that keeps who it is, and whose shutdown can only go forward.
pub record IsTame (f : ClientBroadcast → ClientBroadcast) : Type 0 where
  pub same_id : (x : ClientBroadcast) → (f x).id ≡ x.id
  pub same_owner : (x : ClientBroadcast) → (f x).client_id ≡ x.client_id
  pub running : (x : ClientBroadcast) → (f x).shutdown_tx ≡ true → x.shutdown_tx ≡ true
  pub signal :
      (x : ClientBroadcast)
      → x.shutdown_sent ≡ not x.shutdown_tx
      → (f x).shutdown_sent ≡ not (f x).shutdown_tx

pub update-Inv :
    (r : Room) (b : BroadcastId) (f : ClientBroadcast → ClientBroadcast)
    → IsTame f
    → Inv r
    → Inv (record r { broadcasts = update b f r.broadcasts })
update-Inv r b f tame inv = record {
  entries_named =
      All-update IsNamed b f r.broadcasts (λ j w e. tame.same_id w ∙ e) inv.entries_named;
  clients_named = inv.clients_named;
  users_known = inv.users_known;
  tracked = λ b' x e. elim (Option-cases (lookup b' r.broadcasts)) [
    | inl missing ↦ absurd (ground (arith, lookup-update b b' f r.broadcasts))
    | inr (y, found) ↦
        let t = inv.tracked b' y found in
        record {
          named = ground (arith, lookup-update b b' f r.broadcasts, t.named, tame.same_id y);
          signalled = ground (arith, lookup-update b b' f r.broadcasts, t.signalled, tame.signal y);
          owner_present = λ u. ground (
            arith,
            lookup-update b b' f r.broadcasts,
            t.owner_present,
            tame.running y,
            tame.same_owner y,
          );
          owner_listed = λ u. ground (
            arith,
            lookup-update b b' f r.broadcasts,
            t.owner_listed,
            tame.running y,
            tame.same_owner y,
          );
        }
  ];
}

add_target-IsTame : (c : ClientId) (target : RoomBroadcastTarget) → IsTame (add_target c target)
unfolding add_target
add_target-IsTame c target = ground arith

remove_target-IsTame : (c : ClientId) → IsTame (remove_target c)
unfolding remove_target
remove_target-IsTame c = ground arith

pub signal_shutdown-IsTame : IsTame signal_shutdown
unfolding signal_shutdown
signal_shutdown-IsTame = ground arith

poll-IsTame : IsTame (λ x. (Broadcast.poll x).broadcast)
unfolding Broadcast.poll
poll-IsTame = ground arith

pub client_broadcast_subscribe-Inv :
    (r : Room) (c : ClientId) (b : BroadcastId) (target : RoomBroadcastTarget)
    → Inv r
    → Inv (client_broadcast_subscribe r c b target).room
unfolding client_broadcast_subscribe
client_broadcast_subscribe-Inv r c b target inv =
    ground (arith, update-Inv r b (add_target c target) (add_target-IsTame c target) inv)

pub client_broadcast_unsubscribe-Inv :
    (r : Room) (c : ClientId) (b : BroadcastId)
    → Inv r
    → Inv (client_broadcast_unsubscribe r c b).room
unfolding client_broadcast_unsubscribe
client_broadcast_unsubscribe-Inv r c b inv =
    ground (arith, update-Inv r b (remove_target c) (remove_target-IsTame c) inv)

pub poll_broadcast-Inv : (r : Room) (b : BroadcastId) → Inv r → Inv (poll_broadcast r b).room
unfolding poll_broadcast
poll_broadcast-Inv r b inv = ground (arith, update-Inv r b _ poll-IsTame inv)

pub broadcast_ended-Inv :
    (r : Room) (c : ClientId) (b : BroadcastId) → Inv r → Inv (broadcast_ended r c b).0
unfolding broadcast_ended
broadcast_ended-Inv r c b inv = record {
  entries_named = All-remove IsNamed b r.broadcasts inv.entries_named;
  clients_named = inv.clients_named;
  users_known = inv.users_known;
  tracked = λ b' x e.
      let t = inv.tracked b' x (ground (arith, lookup-remove b b' r.broadcasts)) in
      record {
        named = t.named;
        signalled = t.signalled;
        owner_present = t.owner_present;
        owner_listed = t.owner_listed;
      };
}

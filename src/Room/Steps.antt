-- ===== src/Room/Steps.antt =====
-- A room under any calls of its methods, in any order: the steps are labelled with their effects.
use simple_screen_share.Base.{ℕ, String, List, [], arith}
use simple_screen_share.Base.Map.{Map, nat_key, update}
use simple_screen_share.Messages.{ClientId, UserId, RoomId, BroadcastId}
use simple_screen_share.Broadcast.{
  ClientRef, ClientBroadcast, RoomBroadcastSource, RoomBroadcastTarget,
}
use simple_screen_share.Room.State.{Room, Effect, new}
use simple_screen_share.Room.Clients.{add_client, remove_client}
use simple_screen_share.Room.Broadcasts.{
  client_broadcast_start, client_broadcast_stop, client_broadcast_subscribe,
  client_broadcast_unsubscribe, broadcast_ended, poll_broadcast,
}
use simple_screen_share.Room.Invariant.{Inv, new-Inv}
use simple_screen_share.Room.Invariant.Members.{add_client-Inv, remove_client-Inv}
use simple_screen_share.Room.Invariant.Updates.{
  IsTame, update-Inv, client_broadcast_subscribe-Inv, client_broadcast_unsubscribe-Inv,
  poll_broadcast-Inv, broadcast_ended-Inv,
}
use simple_screen_share.Room.Invariant.Streams.{
  client_broadcast_start-Inv, client_broadcast_stop-Inv,
}

-- What the streams of a broadcast do by themselves: events arrive, or they end.
abbrev pub with_streams :
    (RoomBroadcastSource → RoomBroadcastSource)
    → (Map ClientId RoomBroadcastTarget → Map ClientId RoomBroadcastTarget)
    → ClientBroadcast
    → ClientBroadcast
with_streams source targets b = record b { source = source b.source; targets = targets b.targets }

-- `to_lowercase` is the standard library's.
pub data Step (to_lowercase : String → String) : Room → List Effect → Room → Type 0 where
  joins :
      (r : Room) (client : ClientRef) (user : UserId)
      → Step to_lowercase r (add_client r client user).1 (add_client r client user).0
  leaves :
      (r : Room) (c : ClientId) → Step to_lowercase r (remove_client r c).1 (remove_client r c).0
  starts :
      (r : Room) (rng : ℕ → BroadcastId) (c : ClientId) (name : String)
      (source : RoomBroadcastSource)
      → Step to_lowercase r
          (client_broadcast_start to_lowercase rng r c name source).effects
          (client_broadcast_start to_lowercase rng r c name source).room
  stops :
      (r : Room) (c : ClientId) (b : BroadcastId)
      → Step to_lowercase r (client_broadcast_stop r c b).effects (client_broadcast_stop r c b).room
  subscribes :
      (r : Room) (c : ClientId) (b : BroadcastId) (target : RoomBroadcastTarget)
      → Step to_lowercase r
          (client_broadcast_subscribe r c b target).effects
          (client_broadcast_subscribe r c b target).room
  unsubscribes :
      (r : Room) (c : ClientId) (b : BroadcastId)
      → Step to_lowercase r
          (client_broadcast_unsubscribe r c b).effects
          (client_broadcast_unsubscribe r c b).room
  polls :
      (r : Room) (b : BroadcastId)
      → Step to_lowercase r (poll_broadcast r b).effects (poll_broadcast r b).room
  ends :
      (r : Room) (c : ClientId) (b : BroadcastId)
      → Step to_lowercase r (broadcast_ended r c b).1 (broadcast_ended r c b).0
  streams :
      (r : Room) (b : BroadcastId) (source : RoomBroadcastSource → RoomBroadcastSource)
      (targets : Map ClientId RoomBroadcastTarget → Map ClientId RoomBroadcastTarget)
      → Step to_lowercase r []
          (record r { broadcasts = update b (with_streams source targets) r.broadcasts })

pub data Reach (to_lowercase : String → String) : Room → Type 0 where
  created : (id : RoomId) → Reach to_lowercase (new id)
  next :
      {r r' : Room} {es : List Effect}
      → Reach to_lowercase r
      → Step to_lowercase r es r'
      → Reach to_lowercase r'

with_streams-IsTame :
    (source : RoomBroadcastSource → RoomBroadcastSource)
    (targets : Map ClientId RoomBroadcastTarget → Map ClientId RoomBroadcastTarget)
    → IsTame (with_streams source targets)
with_streams-IsTame source targets = ground arith

-- Every method, and whatever the streams do, keeps the room's invariant.
pub Step-Inv :
    {to_lowercase : String → String} {r r' : Room} {es : List Effect}
    → Step to_lowercase r es r'
    → Inv r
    → Inv r'
Step-Inv (joins r client user) inv = add_client-Inv r client user inv
Step-Inv (leaves r c) inv = remove_client-Inv r c inv
Step-Inv {to_lowercase} (starts r rng c name source) inv =
    client_broadcast_start-Inv to_lowercase rng r c name source inv
Step-Inv (stops r c b) inv = client_broadcast_stop-Inv r c b inv
Step-Inv (subscribes r c b target) inv = client_broadcast_subscribe-Inv r c b target inv
Step-Inv (unsubscribes r c b) inv = client_broadcast_unsubscribe-Inv r c b inv
Step-Inv (polls r b) inv = poll_broadcast-Inv r b inv
Step-Inv (ends r c b) inv = broadcast_ended-Inv r c b inv
Step-Inv (streams r b source targets) inv =
    update-Inv r b (with_streams source targets) (with_streams-IsTame source targets) inv

-- In every room that its methods can reach, clients stand under their own ids, exactly their users
-- are known, and each broadcast has its key as id and an owner in the room that has it on record,
-- unless its shutdown was signalled.
pub Reach-Inv : {to_lowercase : String → String} {r : Room} → Reach to_lowercase r → Inv r
Reach-Inv (created id) = new-Inv id
Reach-Inv (next reach step) = Step-Inv step (Reach-Inv reach)

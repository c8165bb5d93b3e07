-- ===== src/Room/Leave.antt =====
-- What leaving a room of server/src/rtp_server/room.rs does to the client's broadcasts.
use simple_screen_share.Base.{◌≡◌, true, false, some, String, Option-cases, inl, inr, arith}
use simple_screen_share.Base.Map.{nat_key, lookup, contains_key, lookup-remove}
use simple_screen_share.Messages.{ClientId, BroadcastId}
use simple_screen_share.Broadcast
use simple_screen_share.Broadcast.{ClientRef, ClientBroadcast, RoomBroadcastSource, Poll, ready}
use simple_screen_share.Room.State.{Room}
use simple_screen_share.Room.Clients.{remove_client}
use simple_screen_share.Room.Broadcasts.{poll_broadcast}
use simple_screen_share.Room.Shutdown.{remove_client-gone}
use simple_screen_share.Room.Invariant.{Inv}
use simple_screen_share.Room.Steps.{leaves, Reach, next, Reach-Inv}

-- The client is out of all of the room's maps.
pub remove_client-absent_after :
    (r : Room) (c : ClientId) (h : ClientRef)
    → lookup c r.clients ≡ some h
    → (contains_key c (remove_client r c).0.clients ≡ false)
      × (contains_key c (remove_client r c).0.client_user_ids ≡ false)
      × (contains_key c (remove_client r c).0.client_broadcasts ≡ false)
remove_client-absent_after r c h e = rw (remove_client-gone r c h e) (
    ground (
      arith,
      lookup-remove c c r.clients,
      lookup-remove c c r.client_user_ids,
      lookup-remove c c r.client_broadcasts,
    ))

signalled_poll :
    (r : Room) (b : BroadcastId) (x : ClientBroadcast)
    → lookup b r.broadcasts ≡ some x
    → x.shutdown_sent ≡ true
    → (poll_broadcast r b).poll ≡ ready
unfolding poll_broadcast Broadcast.poll
signalled_poll r b x e s = rw (e, poll_broadcast) (rw s)

pub absent_signalled :
    (r : Room) (b : BroadcastId) (x : ClientBroadcast)
    → Inv r
    → contains_key x.client_id r.clients ≡ false
    → lookup b r.broadcasts ≡ some x
    → x.shutdown_sent ≡ true
absent_signalled r b x inv absent e =
    let t = inv.tracked b x e in ground (arith, t.signalled, t.owner_present)

-- After a client has left a reachable room, the next poll of each broadcast of its that is still
-- there ends that broadcast.
pub leave_ends_broadcasts :
    (to_lowercase : String → String) (r : Room) (c : ClientId) (b : BroadcastId)
    (x : ClientBroadcast)
    → Reach to_lowercase r
    → contains_key c r.clients ≡ true
    → lookup b (remove_client r c).0.broadcasts ≡ some x
    → x.client_id ≡ c
    → (poll_broadcast (remove_client r c).0 b).poll ≡ ready
leave_ends_broadcasts to_lowercase r c b x reach member e own =
    elim (Option-cases (lookup c r.clients)) [
      | inl none_there ↦ cc
      | inr (h, there) ↦ signalled_poll (remove_client r c).0 b x e (
          absent_signalled (remove_client r c).0 b x (Reach-Inv (next reach (leaves r c)))
            (ground (arith, remove_client-absent_after r c h there)) e)
    ]

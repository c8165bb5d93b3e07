-- ===== src/Room/View/Session.antt =====
-- A client from its join on, through any steps of the room while it stays a member.
use simple_screen_share.Base.{String, ◌≡◌, sym, subst, true, false, some, List, arith}
use simple_screen_share.Base.Map.{nat_key, lookup, contains_key, lookup-insert}
use simple_screen_share.Messages.{ClientId, UserId}
use simple_screen_share.Broadcast.{ClientRef}
use simple_screen_share.Room.State.{Room, Effect}
use simple_screen_share.Room.Clients.{add_client}
use simple_screen_share.Room.Invariant.{Inv}
use simple_screen_share.Room.Invariant.Members.{add_client-Inv}
use simple_screen_share.Room.Steps.{
  Step, joins, leaves, starts, stops, subscribes, unsubscribes, polls, ends, streams, Reach,
  Step-Inv, Reach-Inv,
}
use simple_screen_share.Room.View.{View, IsAccurate, watch}
use simple_screen_share.Room.View.Membership.{add_client-IsAccurate, add_client-IsAccurate_new}
use simple_screen_share.Room.View.Departure.{remove_client-IsAccurate}
use simple_screen_share.Room.View.Silent.{
  client_broadcast_stop-IsAccurate, client_broadcast_subscribe-IsAccurate,
  client_broadcast_unsubscribe-IsAccurate, poll_broadcast-IsAccurate, streams-IsAccurate,
}
use simple_screen_share.Room.View.Announcements.{
  broadcast_ended-IsAccurate, client_broadcast_start-IsAccurate,
}

-- A step keeps the view of a client that is a member before and after it.
pub Step-IsAccurate :
    {to_lowercase : String → String} {r r' : Room} {es : List Effect}
    → Step to_lowercase r es r'
    → Inv r
    → (c : ClientId) (h h' : ClientRef) (v : View) → lookup c r.clients ≡ some h
    → lookup c r'.clients ≡ some h'
    → IsAccurate r v
    → IsAccurate r' (watch c v es)
Step-IsAccurate (joins r client user) inv c h h' v before after a =
    add_client-IsAccurate r client user c h v inv before a
Step-IsAccurate (leaves r k) inv c h h' v before after a =
    remove_client-IsAccurate r k c h' v inv after a
Step-IsAccurate {to_lowercase} (starts r rng k name source) inv c h h' v before after a =
    client_broadcast_start-IsAccurate to_lowercase rng r k name source c h v inv before a
Step-IsAccurate (stops r k b) inv c h h' v before after a =
    client_broadcast_stop-IsAccurate r c k b v a
Step-IsAccurate (subscribes r k b target) inv c h h' v before after a =
    client_broadcast_subscribe-IsAccurate r c k b v a target
Step-IsAccurate (unsubscribes r k b) inv c h h' v before after a =
    client_broadcast_unsubscribe-IsAccurate r c k b v a
Step-IsAccurate (polls r b) inv c h h' v before after a = poll_broadcast-IsAccurate r c c b v a
Step-IsAccurate (ends r k b) inv c h h' v before after a =
    broadcast_ended-IsAccurate r k b c h v inv before a
Step-IsAccurate (streams r b source targets) inv c h h' v before after a =
    streams-IsAccurate r c c b v a source targets

-- A client joins a reachable room and stays a member: the room, and what the client has made of the
-- messages since then.
pub data Session (to_lowercase : String → String) (c : ClientId) : Room → View → Type 0 where
  joined :
      (r : Room) (client : ClientRef) (user : UserId) (v : View)
      → Reach to_lowercase r
      → client.client_id ≡ c
      → contains_key c r.clients ≡ false
      → Session to_lowercase c (add_client r client user).0 (watch c v (add_client r client user).1)
  stayed :
      {r r' : Room} {es : List Effect} {v : View}
      → Session to_lowercase c r v
      → Step to_lowercase r es r'
      → contains_key c r'.clients ≡ true
      → Session to_lowercase c r' (watch c v es)

record Kept (c : ClientId) (r : Room) (v : View) : Type 0 where
  inv : Inv r
  member : contains_key c r.clients ≡ true
  accurate : IsAccurate r v

member-of :
    (c : ClientId) (r : Room)
    → contains_key c r.clients ≡ true
    → (h : ClientRef) × (lookup c r.clients ≡ some h)
member-of c r e = ground arith

add_client-Kept :
    (r : Room) (client : ClientRef) (user : UserId) (v : View)
    → Inv r
    → contains_key client.client_id r.clients ≡ false
    → Kept client.client_id
        (add_client r client user).0
        (watch client.client_id v (add_client r client user).1)
unfolding add_client
add_client-Kept r client user v inv absent = record {
  inv = add_client-Inv r client user inv;
  member = ground (arith, lookup-insert client.client_id client.client_id client r.clients);
  accurate = add_client-IsAccurate_new r client user v absent (add_client-Inv r client user inv);
}

Session-Kept :
    {to_lowercase : String → String} {c : ClientId} {r : Room} {v : View}
    → Session to_lowercase c r v
    → Kept c r v
Session-Kept (joined r client user v reach e absent) =
    subst (λ k. Kept k (add_client r client user).0 (watch k v (add_client r client user).1)) e
      (add_client-Kept r client user v (Reach-Inv reach)
        (subst (λ k. contains_key k r.clients ≡ false) (sym e) absent))
Session-Kept {c} (stayed {r} {r'} {es} {v} s step member) =
    let k = Session-Kept s in
    let (h, before) = member-of c r k.member in
    let (h', after) = member-of c r' member in
    record {
      inv = Step-Inv step k.inv;
      member = member;
      accurate = Step-IsAccurate step k.inv c h h' v before after k.accurate;
    }

-- From its join on, and through every step while it stays a member, a client that applies the
-- notifications it is sent knows exactly the users and the broadcasts of its room.
pub Session-IsAccurate :
    {to_lowercase : String → String} {c : ClientId} {r : Room} {v : View}
    → Session to_lowercase c r v
    → IsAccurate r v
Session-IsAccurate s = (Session-Kept s).accurate

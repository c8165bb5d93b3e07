-- ===== src/Room/View.antt =====
-- What a client that follows its notifications knows of the room: the specification of the messages
-- that `Room` of server/src/rtp_server/room.rs sends.
pub mod Watching
pub mod Membership
pub mod Departure
pub mod Silent
pub mod Announcements
pub mod Session
use simple_screen_share.Base.{ℕ, ◌≡◌, Bool, Option, none, some, List, [], ◌∷◌, ◌==◌, if◌then◌else◌}
use simple_screen_share.Base.Map.{Map, nat_key, lookup}
use simple_screen_share.Messages.{
  ClientId, UserId, BroadcastId, UserEntry, BroadcastEntry, S2CNotify, notify_users,
  notify_broadcasts, notify_user_joined, notify_user_left, notify_broadcast_started,
  notify_broadcast_ended, S2CMessage, notify, response,
}
use simple_screen_share.Broadcast.{ClientBroadcast}
use simple_screen_share.Room.State.{Room, Effect, send, broadcast_entry}

pub record View : Type 0 where
  pub users : ClientId → Option UserId
  pub broadcasts : BroadcastId → Option BroadcastEntry

unfoldable pub find_user : ClientId → List UserEntry → Option UserId
find_user c [] = none
find_user c (e ∷ es) = if e.client_id == c then some e.user_id else find_user c es

unfoldable pub find_broadcast : BroadcastId → List BroadcastEntry → Option BroadcastEntry
find_broadcast b [] = none
find_broadcast b (e ∷ es) = if e.broadcast_id == b then some e else find_broadcast b es

unfoldable pub apply_notify : View → S2CNotify → View
unfolding find_user find_broadcast
apply_notify v (notify_users es) = record v { users = λ c. find_user c es }
apply_notify v (notify_broadcasts es) = record v { broadcasts = λ b. find_broadcast b es }
apply_notify v (notify_user_joined e) = record v {
  users = λ c. if e.client_id == c then some e.user_id else v.users c;
}
apply_notify v (notify_user_left c) = record v {
  users = λ c'. if c == c' then none else v.users c';
}
apply_notify v (notify_broadcast_started e) = record v {
  broadcasts = λ b. if e.broadcast_id == b then some e else v.broadcasts b;
}
apply_notify v (notify_broadcast_ended b) = record v {
  broadcasts = λ b'. if b == b' then none else v.broadcasts b';
}
apply_notify v n = v

unfoldable pub receive : View → S2CMessage → View
receive v (notify n) = apply_notify v n
receive v (response id answer) = v

-- The messages among the effects that go to the client, in order.
unfoldable pub watch : ClientId → View → List Effect → View
unfolding receive
watch c v [] = v
watch c v (send h m ∷ es) = watch c (if h.client_id == c then receive v m else v) es
watch c v (e ∷ es) = watch c v es

abbrev pub entry_of : Option ClientBroadcast → Option BroadcastEntry
entry_of none = none
entry_of (some b) = some (broadcast_entry b)

-- The view names exactly the users and the broadcasts of the room.
pub record IsAccurate (r : Room) (v : View) : Type 0 where
  pub users_agree : (c : ClientId) → v.users c ≡ lookup c r.client_user_ids
  pub broadcasts_agree : (b : BroadcastId) → v.broadcasts b ≡ entry_of (lookup b r.broadcasts)

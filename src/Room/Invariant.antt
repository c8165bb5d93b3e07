-- ===== src/Room/Invariant.antt =====
-- What every method of `Room` keeps of the room's maps.
pub mod Members
pub mod Updates
pub mod Streams
use simple_screen_share.Base.{
  All, ℕ, ◌≡◌, refl, Bool, true, false, not, ◌&&◌, String, Option, none, some, List, [], ◌∷◌, ◌++◌,
  map, is_some, unwrap_or, contains, remove_first, contains-append, contains-remove_first_ne, ◌==◌,
  ==_iff, ==_refl, Option-cases, Bool-cases, inl, inr, ap, sym, ◌∙◌, subst, if◌then◌else◌, arith,
}
use simple_screen_share.Base.Map.{
  Map, nat_key, keys, values, lookup, contains_key, insert, remove, update, lookup-insert,
  lookup-remove, lookup-update, map_at,
}
use simple_screen_share.Messages.{ClientId, UserId, BroadcastId}
use simple_screen_share.Broadcast.{ClientRef, ClientBroadcast}
use simple_screen_share.Room.State.{Room, Effect, new}
use simple_screen_share.Room.Clients.{
  add_client, remove_client, shutdown_broadcast, shutdown_broadcasts, signal_shutdown,
}
use simple_screen_share.Room.Broadcasts.{
  client_broadcast_start, client_broadcast_stop, client_broadcast_subscribe,
  client_broadcast_unsubscribe, broadcast_ended, poll_broadcast, register_broadcast,
}

-- The broadcasts that the room has on record for a client.
abbrev pub listed : Room → ClientId → List BroadcastId
listed r c = unwrap_or (lookup c r.client_broadcasts) []

-- A broadcast has its own key as id, its shutdown is signalled exactly if the sender is used up,
-- and until then its owner is in the room and has it on record.
pub record Tracked (r : Room) (b : BroadcastId) (x : ClientBroadcast) : Type 0 where
  pub named : x.id ≡ b
  pub signalled : x.shutdown_sent ≡ not x.shutdown_tx
  pub owner_present : x.shutdown_tx ≡ true → contains_key x.client_id r.clients ≡ true
  pub owner_listed : x.shutdown_tx ≡ true → contains b (listed r x.client_id) ≡ true

-- An entry of the broadcast map has its key as id.
abbrev pub IsNamed : BroadcastId × ClientBroadcast → Type 0
IsNamed e = e.1.id ≡ e.0

pub record Inv (r : Room) : Type 0 where
  -- A client stands under its own id.
  pub clients_named : (c : ClientId) (h : ClientRef) → lookup c r.clients ≡ some h → h.client_id ≡ c
  -- The users of exactly the clients are known.
  pub users_known : (c : ClientId) → contains_key c r.client_user_ids ≡ contains_key c r.clients
  pub tracked :
      (b : BroadcastId) (x : ClientBroadcast) → lookup b r.broadcasts ≡ some x → Tracked r b x
  pub entries_named : All IsNamed r.broadcasts

pub new-Inv : (id : ℕ) → Inv (new id)
unfolding new lookup
new-Inv id = record {
  clients_named = λ c h e. cc;
  users_known = λ c. refl;
  tracked = λ b x e. cc;
  entries_named = tt;
}

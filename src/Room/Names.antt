-- ===== src/Room/Names.antt =====
-- The kinds and names of a client's running broadcasts, in `Room` of server/src/rtp_server/room.rs.
pub mod Shrinking
pub mod Unique
use text.Mathlib.TextEquality.{eq_iff}
use simple_screen_share.Base.{
  ℕ, ◌≡◌, ◌≢◌, refl, ap, sym, ◌∙◌, subst, Bool, true, false, not, Option, none, some, List, [], ◌∷◌,
  ◌++◌, contains, remove_first, String, Option-cases, Bool-cases, inl, inr, ==_iff, ==_refl,
  unwrap_or, is_some, ◌==◌, if◌then◌else◌, arith,
}
use simple_screen_share.Base.Map.{
  Map, nat_key, lookup, contains_key, insert, remove, update, lookup-insert, lookup-remove,
  lookup-update, map_at,
}
use simple_screen_share.Messages.{ClientId, BroadcastId, BroadcastKind, audio, video}
use simple_screen_share.Broadcast
use simple_screen_share.Broadcast.{
  ClientRef, ClientBroadcast, RoomBroadcastSource, RoomBroadcastTarget,
}
use simple_screen_share.Room.State.{Room, Effect}
use simple_screen_share.Room.Clients.{add_client, remove_client, signal_shutdown}
use simple_screen_share.Room.Shutdown.{gone, remove_client-gone, remove_client-absent}
use simple_screen_share.Room.Broadcasts.{
  client_broadcast_start, client_broadcast_stop, client_broadcast_subscribe,
  client_broadcast_unsubscribe, broadcast_ended, poll_broadcast, running_broadcast, same_kind,
  generate_broadcast_id, new_broadcast, register_broadcast, add_target, remove_target,
}
use simple_screen_share.Room.Start.{generate_broadcast_id-fresh}
use simple_screen_share.Room.Invariant.{Inv, listed}
use simple_screen_share.Room.Invariant.Members.{signal_all_running}
use simple_screen_share.Room.Invariant.Streams.{
  entered, stopped, client_broadcast_stop-stopped, update_running,
}

-- A broadcast of the room that was not told to shut down.
abbrev pub Runs : Room → BroadcastId → ClientBroadcast → Type 0
Runs r b x = (lookup b r.broadcasts ≡ some x) × (x.shutdown_tx ≡ true)

abbrev pub SameShow : ClientBroadcast → ClientBroadcast → Type 0
SameShow x y = (x.client_id ≡ y.client_id) × (x.kind ≡ y.kind) × (x.name ≡ y.name)

-- What runs after was running before.
pub record Shrinks (r r' : Room) : Type 0 where
  pub before :
      (b : BroadcastId) (x : ClientBroadcast)
      → Runs r' b x
      → (y : ClientBroadcast) × Runs r b y × SameShow x y

module _ (to_lowercase : String → String) where
  abbrev pub Alike : ClientBroadcast → ClientBroadcast → Type 0
  Alike x y =
      (x.client_id ≡ y.client_id) × (x.kind ≡ y.kind) × (to_lowercase x.name ≡ to_lowercase y.name)

  pub record IsUnique (r : Room) : Type 0 where
    pub unique :
        (b b' : BroadcastId) (x y : ClientBroadcast) → Runs r b x → Runs r b' y → Alike x y → b ≡ b'

  pub Shrinks-IsUnique : (r r' : Room) → Shrinks r r' → IsUnique r → IsUnique r'
  Shrinks-IsUnique r r' s u = record {
    unique = λ b b' x y p q like.
        let (x', p', sx) = s.before b x p in
        let (y', q', sy) = s.before b' y q in
        u.unique b b' x' y' p' q' (
          sym sx.0 ∙ (like.0 ∙ sy.0),
          sym sx.1 ∙ (like.1 ∙ sy.1),
          ap to_lowercase (sym sx.2) ∙ (like.2 ∙ ap to_lowercase sy.2),
        );
  }

  same_kind_refl : (k : BroadcastKind) → same_kind k k ≡ true
  unfolding same_kind
  same_kind_refl audio = refl
  same_kind_refl video = refl

  -- The search of `client_broadcast_start` overlooks nothing.
  running_broadcast-none :
      (m : Map BroadcastId ClientBroadcast) (kind : BroadcastKind) (name : String)
      (ids : List BroadcastId) (b : BroadcastId) (y : ClientBroadcast)
      → running_broadcast to_lowercase m kind name ids ≡ none
      → contains b ids ≡ true
      → lookup b m ≡ some y
      → y.kind ≡ kind
      → ¬ (to_lowercase y.name ≡ to_lowercase name)
  unfolding running_broadcast contains
  running_broadcast-none m kind name [] b y e c l k n = cc
  running_broadcast-none m kind name (i ∷ ids) b y e c l k n = ground (
    arith,
    running_broadcast-none m kind name ids b y,
    same_kind_refl kind,
    eq_iff (to_lowercase y.name) (to_lowercase name),
  )

-- ===== src/Room/Invariant/Streams.antt =====
-- `client_broadcast_start` and `client_broadcast_stop` of server/src/rtp_server/room.rs and the
-- invariant.
use simple_screen_share.Base.Entries.{All-insert}
use simple_screen_share.Room.Invariant.{IsNamed}
use simple_screen_share.Base.{
  ℕ, ◌≡◌, refl, true, false, not, String, some, List, [], ◌∷◌, ◌++◌, contains, remove_first,
  contains-append, contains-remove_first_ne, ◌==◌, ==_iff, Option-cases, Bool-cases, inl, inr,
  subst, arith,
}
use simple_screen_share.Base.Map.{
  Map, nat_key, lookup, insert, update, lookup-insert, lookup-update,
}
use simple_screen_share.Messages.{ClientId, BroadcastId}
use simple_screen_share.Broadcast.{RoomBroadcastSource, ClientRef, ClientBroadcast}
use simple_screen_share.Room.State.{Room}
use simple_screen_share.Room.Clients.{signal_shutdown}
use simple_screen_share.Room.Broadcasts.{
  client_broadcast_start, client_broadcast_stop, running_broadcast, generate_broadcast_id,
  new_broadcast, register_broadcast,
}
use simple_screen_share.Room.Invariant.{listed, Tracked, Inv}
use simple_screen_share.Room.Invariant.Updates.{update-Inv, signal_shutdown-IsTame}
use simple_screen_share.Room.Shutdown.{shutdown_broadcast_lem}

-- The room after a successful stop.
abbrev pub stopped : Room → ClientId → BroadcastId → List BroadcastId → Room
stopped r c b ids = record r {
  client_broadcasts = insert c (remove_first b ids) r.client_broadcasts;
  broadcasts = update b signal_shutdown r.broadcasts;
}

pub client_broadcast_stop-stopped :
    (r : Room) (c : ClientId) (b : BroadcastId) (ids : List BroadcastId)
    → lookup c r.client_broadcasts ≡ some ids
    → contains b ids ≡ true
    → (client_broadcast_stop r c b).room ≡ stopped r c b ids
unfolding client_broadcast_stop
client_broadcast_stop-stopped r c b ids e h = ground (
  arith,
  shutdown_broadcast_lem
      (record r { client_broadcasts = insert c (remove_first b ids) r.client_broadcasts }) b,
)

-- A broadcast that runs on after `b` was signalled is another one, and ran before.
pub update_running :
    (b b' : BroadcastId) (m : Map BroadcastId ClientBroadcast) (x : ClientBroadcast)
    → lookup b' (update b signal_shutdown m) ≡ some x
    → x.shutdown_tx ≡ true
    → ((b' == b) ≡ false) × (lookup b' m ≡ some x)
unfolding signal_shutdown
update_running b b' m x e t = ground (arith, lookup-update b b' signal_shutdown m)

stopped-Inv :
    (r : Room) (c : ClientId) (b : BroadcastId) (ids : List BroadcastId)
    → lookup c r.client_broadcasts ≡ some ids
    → Inv r
    → Inv (stopped r c b ids)
stopped-Inv r c b ids e inv =
    let base = update-Inv r b signal_shutdown signal_shutdown-IsTame inv in
    record {
      entries_named = base.entries_named;
      clients_named = inv.clients_named;
      users_known = inv.users_known;
      tracked = λ b' x l. record {
        named = (base.tracked b' x l).named;
        signalled = (base.tracked b' x l).signalled;
        owner_present = (base.tracked b' x l).owner_present;
        owner_listed = λ running. ground (
          arith,
          update_running b b' r.broadcasts x l running,
          (base.tracked b' x l).owner_listed running,
          lookup-insert c x.client_id (remove_first b ids) r.client_broadcasts,
          contains-remove_first_ne b b' ids,
        );
      };
    }

pub client_broadcast_stop-Inv :
    (r : Room) (c : ClientId) (b : BroadcastId) → Inv r → Inv (client_broadcast_stop r c b).room
unfolding client_broadcast_stop
client_broadcast_stop-Inv r c b inv = elim (Option-cases (lookup c r.client_broadcasts)) [
  | inl e ↦ rw (e, client_broadcast_stop) inv
  | inr (ids, e) ↦ elim (Bool-cases (contains b ids)) [
    | inl h ↦ rw (client_broadcast_stop-stopped r c b ids e h) (stopped-Inv r c b ids e inv)
    | inr h ↦ rw (e, h, client_broadcast_stop) inv
  ]
]

-- A broadcast of a client in the room is registered, whatever was under its id.
module _ (r : Room) (c : ClientId) (h : ClientRef) (ids : List BroadcastId)
    (x : ClientBroadcast) where
  -- The maps behind `register_broadcast`.
  abbrev registered : Room
  registered = record r {
    client_broadcasts = insert c (ids ++ (x.id ∷ [])) r.client_broadcasts;
    broadcasts = insert x.id x r.broadcasts;
  }

  registered-old :
      (b : BroadcastId) (y : ClientBroadcast)
      → listed r c ≡ ids
      → Tracked r b y
      → Tracked registered b y
  registered-old b y known t = record {
    named = t.named;
    signalled = t.signalled;
    owner_present = t.owner_present;
    owner_listed = λ running. ground (
      arith,
      t.owner_listed running,
      lookup-insert c y.client_id (ids ++ (x.id ∷ [])) r.client_broadcasts,
      contains-append b ids (x.id ∷ []),
    );
  }

  registered-new :
      lookup c r.clients ≡ some h
      → x.client_id ≡ c
      → x.shutdown_sent ≡ not x.shutdown_tx
      → Tracked registered x.id x
  unfolding contains
  registered-new present own sent = record {
    named = refl;
    signalled = sent;
    owner_present = λ running. ground arith;
    owner_listed = λ running. ground (
      arith,
      lookup-insert c x.client_id (ids ++ (x.id ∷ [])) r.client_broadcasts,
      contains-append x.id ids (x.id ∷ []),
    );
  }

  registered-Inv :
      lookup c r.clients ≡ some h
      → listed r c ≡ ids
      → x.client_id ≡ c
      → x.shutdown_sent ≡ not x.shutdown_tx
      → Inv r
      → Inv registered
  registered-Inv present known own sent inv = record {
    entries_named = All-insert IsNamed x.id x r.broadcasts refl inv.entries_named;
    clients_named = inv.clients_named;
    users_known = inv.users_known;
    tracked = λ b y l. elim (Bool-cases (x.id == b)) [
      | inl e ↦
          let same : x ≡ y = ground (arith, lookup-insert x.id b x r.broadcasts) in
          let key : x.id ≡ b = (==_iff _ _).0 e in
          subst (λ k. Tracked registered k y) key
            (subst (Tracked registered x.id) same (registered-new present own sent))
      | inr e ↦
          registered-old b y known
            (inv.tracked b y (ground (arith, lookup-insert x.id b x r.broadcasts)))
    ];
  }

-- `entry`: the client's list is on record, empty if it was not.
abbrev pub entered : Room → ClientId → Room
entered r c = record r { client_broadcasts = insert c (listed r c) r.client_broadcasts }

listed-entered : (r : Room) (c c' : ClientId) → listed (entered r c) c' ≡ listed r c'
listed-entered r c c' = ground (arith, lookup-insert c c' (listed r c) r.client_broadcasts)

pub entered-Inv : (r : Room) (c : ClientId) → Inv r → Inv (entered r c)
entered-Inv r c inv = record {
  entries_named = inv.entries_named;
  clients_named = inv.clients_named;
  users_known = inv.users_known;
  tracked = λ b x l.
      let t = inv.tracked b x l in
      record {
        named = t.named;
        signalled = t.signalled;
        owner_present = t.owner_present;
        owner_listed = λ running. rw (listed-entered r c x.client_id) (t.owner_listed running);
      };
}

pub client_broadcast_start-Inv :
    (to_lowercase : String → String) (rng : ℕ → BroadcastId) (r : Room) (c : ClientId)
    (name : String) (source : RoomBroadcastSource)
    → Inv r
    → Inv (client_broadcast_start to_lowercase rng r c name source).room
unfolding client_broadcast_start register_broadcast new_broadcast
client_broadcast_start-Inv to_lowercase rng r c name source inv =
    elim (Option-cases (lookup c r.clients)) [
      | inl e ↦ rw (e, client_broadcast_start) inv
      | inr (h, e) ↦ elim (Option-cases (generate_broadcast_id rng r)) [
        | inl e' ↦ rw (e, e', client_broadcast_start) inv
        | inr (id, e') ↦
            elim (Option-cases
              (running_broadcast to_lowercase r.broadcasts source.kind name (listed r c))) [
                | inl f ↦
                    rw (e, e', f, client_broadcast_start)
                      (registered-Inv (entered r c) c h (listed r c)
                        (new_broadcast h c id name source) e (listed-entered r c c) refl refl
                        (entered-Inv r c inv))
                | inr (k, f) ↦ rw (e, e', f, client_broadcast_start) (entered-Inv r c inv)
              ]
      ]
    ]

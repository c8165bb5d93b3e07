-- ===== src/Room/Invariant/Members.antt =====
-- `add_client` and `remove_client` of server/src/rtp_server/room.rs and the invariant.
use simple_screen_share.Base.Entries.{All-update}
use simple_screen_share.Base.{All, ◌∷◌, []}
use simple_screen_share.Base.Map.{update}
use simple_screen_share.Room.Invariant.{IsNamed}
use simple_screen_share.Base.{
  ◌≡◌, true, false, some, List, contains, Option-cases, Bool-cases, inl, inr, arith,
}
use simple_screen_share.Base.Map.{Map, nat_key, lookup, contains_key, lookup-insert, lookup-remove}
use simple_screen_share.Messages.{ClientId, UserId, BroadcastId}
use simple_screen_share.Broadcast.{ClientRef, ClientBroadcast}
use simple_screen_share.Room.State.{Room}
use simple_screen_share.Room.Clients.{add_client, remove_client, signal_shutdown}
use simple_screen_share.Room.Invariant.{listed, Tracked, Inv}
use simple_screen_share.Room.Shutdown.{
  signal_all, lookup-signal_all, gone, remove_client-absent, remove_client-gone,
}

pub add_client-Inv :
    (r : Room) (client : ClientRef) (user : UserId) → Inv r → Inv (add_client r client user).0
unfolding add_client
add_client-Inv r client user inv = elim (Bool-cases (contains_key client.client_id r.clients)) [
  | inl e ↦ rw e inv
  | inr e ↦ rw e (record {
    entries_named = inv.entries_named;
    clients_named = λ c h l.
        ground (arith, lookup-insert client.client_id c client r.clients, inv.clients_named c h);
    users_known = λ c. ground (
      arith,
      lookup-insert client.client_id c client r.clients,
      lookup-insert client.client_id c user r.client_user_ids,
      inv.users_known c,
    );
    tracked = λ b x l. record {
      named = (inv.tracked b x l).named;
      signalled = (inv.tracked b x l).signalled;
      owner_present = λ t. ground (
        arith,
        lookup-insert client.client_id x.client_id client r.clients,
        (inv.tracked b x l).owner_present t,
      );
      owner_listed = (inv.tracked b x l).owner_listed;
    };
  })
]

-- A broadcast that is still running after the signals was running before, and is not on the list.
pub signal_all_running :
    (ids : List BroadcastId) (b : BroadcastId) (m : Map BroadcastId ClientBroadcast)
    (x : ClientBroadcast)
    → lookup b (signal_all ids m) ≡ some x
    → x.shutdown_tx ≡ true
    → (contains b ids ≡ false) × (lookup b m ≡ some x)
unfolding signal_shutdown
signal_all_running ids b m x e t = ground (arith, lookup-signal_all ids b m)

signal_all-IsNamed :
    (ids : List BroadcastId) (m : Map BroadcastId ClientBroadcast)
    → All IsNamed m
    → All IsNamed (signal_all ids m)
unfolding signal_all signal_shutdown
signal_all-IsNamed [] m a = a
signal_all-IsNamed (b ∷ ids) m a =
    signal_all-IsNamed ids (update b signal_shutdown m)
      (All-update IsNamed b signal_shutdown m (λ j w e. ground arith) a)

gone-Tracked :
    (r : Room) (c : ClientId) (b : BroadcastId) (x : ClientBroadcast)
    → Inv r
    → lookup b (gone r c).broadcasts ≡ some x
    → Tracked (gone r c) b x
unfolding signal_shutdown
gone-Tracked r c b x inv e = elim (Option-cases (lookup b r.broadcasts)) [
  | inl missing ↦ absurd (ground (arith, lookup-signal_all (listed r c) b r.broadcasts))
  | inr (y, found) ↦
      let t = inv.tracked b y found in
      record {
        named = ground (arith, lookup-signal_all (listed r c) b r.broadcasts, t.named);
        signalled = ground (arith, lookup-signal_all (listed r c) b r.broadcasts, t.signalled);
        owner_present = λ running.
            let (unlisted, same) = signal_all_running (listed r c) b r.broadcasts x e running in
            let t' = inv.tracked b x same in
            ground (
              arith,
              t'.owner_present running,
              t'.owner_listed running,
              lookup-remove c x.client_id r.clients,
            );
        owner_listed = λ running.
            let (unlisted, same) = signal_all_running (listed r c) b r.broadcasts x e running in
            let t' = inv.tracked b x same in
            ground
              (arith, t'.owner_listed running, lookup-remove c x.client_id r.client_broadcasts);
      }
]

pub remove_client-Inv : (r : Room) (c : ClientId) → Inv r → Inv (remove_client r c).0
remove_client-Inv r c inv = elim (Option-cases (lookup c r.clients)) [
  | inl e ↦ rw (remove_client-absent r c e) inv
  | inr (h, e) ↦ rw (remove_client-gone r c h e) (record {
    entries_named = signal_all-IsNamed (listed r c) r.broadcasts inv.entries_named;
    clients_named =
        λ c' h' l. ground (arith, lookup-remove c c' r.clients, inv.clients_named c' h');
    users_known = λ c'. ground (
      arith,
      lookup-remove c c' r.clients,
      lookup-remove c c' r.client_user_ids,
      inv.users_known c',
    );
    tracked = λ b x l. gone-Tracked r c b x inv l;
  })
]

-- ===== src/Room/View/Membership.antt =====
-- The views of the members when a client joins.
use simple_screen_share.Base.{
  ◌≡◌, refl, true, false, none, some, List, [], ◌∷◌, map, contains, All, Bool-cases, inl, inr,
  unwrap_or, ◌==◌, if◌then◌else◌, arith,
}
use simple_screen_share.Base.Map.{
  Map, nat_key, lookup, keys, values, contains_key, insert, remove, lookup-insert, lookup-remove,
}
use simple_screen_share.Messages.{
  ClientId, UserId, BroadcastId, S2CNotify, notify, notify_users, notify_broadcasts,
  notify_user_joined,
}
use simple_screen_share.Broadcast.{ClientRef, ClientBroadcast}
use simple_screen_share.Room.State.{
  Room, Effect, RoomSubscriber, send, client_joined, send_all, user_entry, broadcast_entry,
}
use simple_screen_share.Room.Clients.{add_client, send_others, welcome}
use simple_screen_share.Room.Invariant.{Inv, IsNamed}
use simple_screen_share.Room.View.{
  View, IsAccurate, apply_notify, watch, receive, find_user, find_broadcast, entry_of,
}
use simple_screen_share.Room.View.Watching.{
  watch-append, watch-IsSilent, IsSilent, ids, send_all-reaches,
}

-- A member's id is among those that a message to all goes to.
pub contains-ids :
    (c : ClientId) (h : ClientRef) (m : Map ClientId ClientRef)
    → lookup c m ≡ some h
    → h.client_id ≡ c
    → contains c (ids (values m)) ≡ true
unfolding lookup contains
contains-ids c h [] e n = cc
contains-ids c h ((k, g) ∷ m) e n = ground (arith, contains-ids c h m)

-- The list of users that a new client gets is right.
find_user-entries :
    (r : Room) (c : ClientId) (m : Map ClientId ClientRef)
    → find_user c (map (user_entry r) (keys m))
      ≡ (if contains_key c m then some (unwrap_or (lookup c r.client_user_ids) 0) else none)
unfolding find_user user_entry lookup
find_user-entries r c [] = refl
find_user-entries r c ((k, g) ∷ m) = ground (arith, find_user-entries r c m)

-- So is the list of broadcasts.
find_broadcast-entries :
    (b : BroadcastId) (m : Map BroadcastId ClientBroadcast)
    → All IsNamed m
    → find_broadcast b (map broadcast_entry (values m)) ≡ entry_of (lookup b m)
unfolding find_broadcast broadcast_entry lookup
find_broadcast-entries b [] a = refl
find_broadcast-entries b ((k, x) ∷ m) a = ground (arith, find_broadcast-entries b m a.1)

joins-IsSilent :
    (c : ClientId) (h : ClientRef) (ss : List RoomSubscriber)
    → IsSilent (map (λ s. client_joined s c h) ss)
joins-IsSilent c h [] = tt
joins-IsSilent c h (s ∷ ss) = joins-IsSilent c h ss

send_others-remove :
    (c : ClientId) (n : S2CNotify) (m : Map ClientId ClientRef)
    → send_others c n m ≡ send_all n (values (remove c m))
unfolding send_others send_all remove
send_others-remove c n [] = refl
send_others-remove c n ((k, h) ∷ m) = ground (arith, send_others-remove c n m)

-- The two messages that show the room to a client.
abbrev roster : Room → ClientRef → List Effect
roster r h =
    send h (notify (notify_users (map (user_entry r) (keys r.clients))))
    ∷ send h (notify (notify_broadcasts (map broadcast_entry (values r.broadcasts))))
    ∷ []

roster-IsAccurate :
    (r : Room) (h : ClientRef) (v : View) → Inv r → IsAccurate r (watch h.client_id v (roster r h))
unfolding watch receive apply_notify
roster-IsAccurate r h v inv = record {
  users_agree = λ c. ground (arith, find_user-entries r c r.clients, inv.users_known c);
  broadcasts_agree = λ b. ground (arith, find_broadcast-entries b r.broadcasts inv.entries_named);
}

roster_other :
    (r : Room) (h : ClientRef) (c : ClientId) (v : View)
    → (h.client_id == c) ≡ false
    → watch c v (roster r h) ≡ v
unfolding watch
roster_other r h c v e = rw (e, watch)

-- Behind the guard of `add_client`.
abbrev joined : Room → ClientRef → UserId → Room
joined r client user = record r {
  client_user_ids = insert client.client_id user r.client_user_ids;
  clients = insert client.client_id client r.clients;
}

add_client-joined :
    (r : Room) (client : ClientRef) (user : UserId)
    → contains_key client.client_id r.clients ≡ false
    → add_client r client user ≡ (joined r client user, welcome (joined r client user) client user)
unfolding add_client
add_client-joined r client user absent = rw absent

-- A client that joins learns the users and broadcasts of the room, whatever it knew before.
pub add_client-IsAccurate_new :
    (r : Room) (client : ClientRef) (user : UserId) (v : View)
    → contains_key client.client_id r.clients ≡ false
    → Inv (add_client r client user).0
    → IsAccurate
        (add_client r client user).0
        (watch client.client_id v (add_client r client user).1)
add_client-IsAccurate_new r client user v absent inv =
    let inv' : Inv (joined r client user) = rw (add_client-joined r client user absent) at inv in
    rw (add_client-joined r client user absent) (
      unfold welcome in
      rw (watch-append, watch-append) (roster-IsAccurate (joined r client user) client _ inv'))

joined-first :
    (r : Room) (client : ClientRef) (user : UserId) (v : View)
    → IsAccurate r v
    → IsAccurate (joined r client user) (
        apply_notify v
          (notify_user_joined (record { client_id = client.client_id; user_id = user })))
unfolding apply_notify
joined-first r client user v a = record {
  users_agree =
      λ c. ground (arith, a.users_agree c, lookup-insert client.client_id c user r.client_user_ids);
  broadcasts_agree = a.broadcasts_agree;
}

joined-again :
    (r : Room) (client : ClientRef) (user : UserId) (v : View)
    → IsAccurate (joined r client user) v
    → IsAccurate (joined r client user) (
        apply_notify v
          (notify_user_joined (record { client_id = client.client_id; user_id = user })))
unfolding apply_notify
joined-again r client user v a = record {
  users_agree =
      λ c. ground (arith, a.users_agree c, lookup-insert client.client_id c user r.client_user_ids);
  broadcasts_agree = a.broadcasts_agree;
}

-- Each member learns of the client that joins.
pub add_client-IsAccurate :
    (r : Room) (client : ClientRef) (user : UserId) (c : ClientId) (h : ClientRef) (v : View)
    → Inv r
    → lookup c r.clients ≡ some h
    → IsAccurate r v
    → IsAccurate (add_client r client user).0 (watch c v (add_client r client user).1)
unfolding add_client
add_client-IsAccurate r client user c h v inv present a =
    elim (Bool-cases (contains_key client.client_id r.clients)) [
      | inl e ↦ rw e (rw (watch-IsSilent c v [] tt) a)
      | inr e ↦
          let other : (client.client_id == c) ≡ false = ground arith in
          rw (add_client-joined r client user e) (
            unfold welcome in
            rw
              (
                watch-append,
                watch-append,
                watch-IsSilent c v _ (joins-IsSilent client.client_id client r.subscriber),
                roster_other (joined r client user) client c _ other,
                send_others-remove,
              )
              (send_all-reaches (IsAccurate r) (IsAccurate (joined r client user)) _
                (joined-first r client user) (joined-again r client user) c v _
                (contains-ids c h
                  (remove client.client_id (insert client.client_id client r.clients))
                  (ground (
                    arith,
                    lookup-remove client.client_id c (insert client.client_id client r.clients),
                    lookup-insert client.client_id c client r.clients,
                  ))
                  (inv.clients_named c h present))
                a))
    ]

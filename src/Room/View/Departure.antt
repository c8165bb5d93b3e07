-- ===== src/Room/View/Departure.antt =====
-- The views of the members when a client leaves.
use simple_screen_share.Base.{
  ◌≡◌, refl, ap, sym, ◌∙◌, Bool, Option, none, some, List, [], ◌∷◌, ◌++◌, map, Option-cases, ◌⊎◌,
  inl, inr, unwrap_or, arith,
}
use simple_screen_share.Base.Map.{nat_key, lookup, values, remove, lookup-remove, map_at}
use simple_screen_share.Messages.{ClientId, BroadcastId, notify_user_left}
use simple_screen_share.Broadcast.{ClientRef, ClientBroadcast}
use simple_screen_share.Room.State.{Room, RoomSubscriber, client_left, send_all, broadcast_entry}
use simple_screen_share.Room.Clients.{
  remove_client, signal_shutdown, shutdown_broadcasts, shutdown_broadcast,
}
use simple_screen_share.Room.Shutdown.{
  shutdown_broadcasts_lem, gone, remove_client-gone, lookup-signal_all,
}
use simple_screen_share.Room.Invariant.{Inv}
use simple_screen_share.Room.View.{View, IsAccurate, apply_notify, watch, entry_of}
use simple_screen_share.Room.View.Membership.{contains-ids}
use simple_screen_share.Room.View.Watching.{
  watch-append, watch-IsSilent, IsSilent, IsSilent-append, wake-IsSilent, send_all-reaches,
}

leaves-IsSilent :
    (c : ClientId) (h : ClientRef) (ss : List RoomSubscriber)
    → IsSilent (map (λ s. client_left s c h) ss)
leaves-IsSilent c h [] = tt
leaves-IsSilent c h (s ∷ ss) = leaves-IsSilent c h ss

-- The effects of a shutdown wake tasks and send nothing.
pub shutdown_broadcast-IsSilent : (r : Room) (b : BroadcastId) → IsSilent (shutdown_broadcast r b).1
unfolding shutdown_broadcast
shutdown_broadcast-IsSilent r b = elim (Option-cases (lookup b r.broadcasts)) [
  | inl e ↦ rw (e, shutdown_broadcast) tt
  | inr (x, e) ↦ rw (e, shutdown_broadcast) (wake-IsSilent x.shutdown_tx b)
]

shutdown_broadcasts-IsSilent :
    (r : Room) (bs : List BroadcastId) → IsSilent (shutdown_broadcasts r bs).1
unfolding shutdown_broadcasts
shutdown_broadcasts-IsSilent r [] = tt
shutdown_broadcasts-IsSilent r (b ∷ bs) =
    IsSilent-append (shutdown_broadcast r b).1 (shutdown_broadcasts (shutdown_broadcast r b).0 bs).1
      (shutdown_broadcast-IsSilent r b) (shutdown_broadcasts-IsSilent (shutdown_broadcast r b).0 bs)

pub entry_of-signal :
    (p : Bool) (o : Option ClientBroadcast) → entry_of (map_at p signal_shutdown o) ≡ entry_of o
unfolding signal_shutdown broadcast_entry
entry_of-signal p none = refl
entry_of-signal p (some x) = ground arith

gone-IsAccurate :
    (r : Room) (c : ClientId) (v : View)
    → IsAccurate r v ⊎ IsAccurate (gone r c) v
    → IsAccurate (gone r c) (apply_notify v (notify_user_left c))
unfolding apply_notify
gone-IsAccurate r c v (inl a) = record {
  users_agree = λ c'. ground (arith, a.users_agree c', lookup-remove c c' r.client_user_ids);
  broadcasts_agree = λ b.
      a.broadcasts_agree b
      ∙ sym (
          ap entry_of
            (lookup-signal_all (unwrap_or (lookup c r.client_broadcasts) []) b r.broadcasts)
          ∙ entry_of-signal _ (lookup b r.broadcasts));
}
gone-IsAccurate r c v (inr a) = record {
  users_agree = λ c'. ground (arith, a.users_agree c', lookup-remove c c' r.client_user_ids);
  broadcasts_agree = a.broadcasts_agree;
}

-- The room while the broadcasts of the client that leaves are shut down.
abbrev left : Room → ClientId → Room
left r c = record r {
  clients = remove c r.clients;
  client_user_ids = remove c r.client_user_ids;
  client_broadcasts = remove c r.client_broadcasts;
}

remove_client-effects :
    (r : Room) (c : ClientId) (g : ClientRef)
    → lookup c r.clients ≡ some g
    → (remove_client r c).1
      ≡ map (λ s. client_left s c g) r.subscriber
        ++ ((shutdown_broadcasts (left r c) (unwrap_or (lookup c r.client_broadcasts) [])).1
            ++ send_all (notify_user_left c) (values (remove c r.clients)))
unfolding remove_client
remove_client-effects r c g e =
    rw (e, remove_client)
      (rw (shutdown_broadcasts_lem (left r c) (unwrap_or (lookup c r.client_broadcasts) [])))

-- Each member learns of the client that leaves.
pub remove_client-IsAccurate :
    (r : Room) (b : ClientId) (c : ClientId) (h : ClientRef) (v : View)
    → Inv r
    → lookup c (remove_client r b).0.clients ≡ some h
    → IsAccurate r v
    → IsAccurate (remove_client r b).0 (watch c v (remove_client r b).1)
unfolding remove_client
remove_client-IsAccurate r b c h v inv present a = elim (Option-cases (lookup b r.clients)) [
  | inl e ↦ rw (e, remove_client) (rw (watch-IsSilent c v [] tt) a)
  | inr (g, e) ↦
      let stays : lookup c (remove b r.clients) ≡ some h =
        ground (arith, remove_client-gone r b g e) in
      let named : h.client_id ≡ c =
        inv.clients_named c h (ground (arith, lookup-remove b c r.clients)) in
      rw
        (
          remove_client-gone r b g e,
          remove_client-effects r b g e,
          watch-append,
          watch-append,
          watch-IsSilent c v _ (leaves-IsSilent b g r.subscriber),
          watch-IsSilent c v _ (
              shutdown_broadcasts-IsSilent (left r b)
                (unwrap_or (lookup b r.client_broadcasts) [])),
        )
        (send_all-reaches (IsAccurate r) (IsAccurate (gone r b)) (notify_user_left b)
          (λ w p. gone-IsAccurate r b w (inl p)) (λ w q. gone-IsAccurate r b w (inr q)) c v
          (values (remove b r.clients)) (contains-ids c h (remove b r.clients) stays named) a)
]

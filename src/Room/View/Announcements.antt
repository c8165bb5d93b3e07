-- ===== src/Room/View/Announcements.antt =====
-- The views of the members when a broadcast starts or ends.
use simple_screen_share.Base.{
  String, ℕ, ◌≡◌, refl, Option, none, some, List, [], ◌∷◌, map, Option-cases, ◌⊎◌, inl, inr, arith,
}
use simple_screen_share.Base.Map.{nat_key, lookup, values, lookup-insert, lookup-remove}
use simple_screen_share.Messages.{
  ClientId, BroadcastId, notify_broadcast_started, notify_broadcast_ended,
}
use simple_screen_share.Broadcast.{RoomBroadcastSource, ClientRef, ClientBroadcast}
use simple_screen_share.Room.State.{
  Room, RoomSubscriber, client_broadcast_started, client_broadcast_ended, drop_source, send_all,
  broadcast_entry,
}
use simple_screen_share.Room.Broadcasts.{
  client_broadcast_start, broadcast_ended, register_broadcast, drop_broadcast,
  generate_broadcast_id, running_broadcast, new_broadcast,
}
use simple_screen_share.Room.Invariant.Streams.{entered, entered-Inv}
use simple_screen_share.Room.Invariant.{listed, Inv}
use simple_screen_share.Room.View.{View, IsAccurate, apply_notify, watch}
use simple_screen_share.Room.View.Silent.{silent-IsAccurate, drop_targets-IsSilent}
use simple_screen_share.Room.View.Membership.{contains-ids}
use simple_screen_share.Room.View.Watching.{
  watch-append, watch-IsSilent, IsSilent, send_all-reaches,
}

starts-IsSilent :
    (c : ClientId) (b : BroadcastId) (ss : List RoomSubscriber)
    → IsSilent (map (λ s. client_broadcast_started s c b) ss)
starts-IsSilent c b [] = tt
starts-IsSilent c b (s ∷ ss) = starts-IsSilent c b ss

ends-IsSilent :
    (c : ClientId) (b : BroadcastId) (ss : List RoomSubscriber)
    → IsSilent (map (λ s. client_broadcast_ended s c b) ss)
ends-IsSilent c b [] = tt
ends-IsSilent c b (s ∷ ss) = ends-IsSilent c b ss

drop_broadcast-IsSilent : (o : Option ClientBroadcast) → IsSilent (drop_broadcast o)
unfolding drop_broadcast
drop_broadcast-IsSilent none = tt
drop_broadcast-IsSilent (some x) = drop_targets-IsSilent (values x.targets)

-- Each member learns of a broadcast that is registered.
module _ (r : Room) (bs : List BroadcastId) (k : ClientId) (x : ClientBroadcast) where
  started-IsAccurate :
      (v : View)
      → IsAccurate r v ⊎ IsAccurate (register_broadcast r bs k x).room v
      → IsAccurate
          (register_broadcast r bs k x).room
          (apply_notify v (notify_broadcast_started (broadcast_entry x)))
  unfolding apply_notify register_broadcast broadcast_entry
  started-IsAccurate v (inl a) = record {
    users_agree = a.users_agree;
    broadcasts_agree =
        λ b. ground (arith, a.broadcasts_agree b, lookup-insert x.id b x r.broadcasts);
  }
  started-IsAccurate v (inr a) = record {
    users_agree = a.users_agree;
    broadcasts_agree =
        λ b. ground (arith, a.broadcasts_agree b, lookup-insert x.id b x r.broadcasts);
  }

  register_broadcast-IsAccurate :
      (c : ClientId) (h : ClientRef) (v : View)
      → Inv r
      → lookup c r.clients ≡ some h
      → IsAccurate r v
      → IsAccurate
          (register_broadcast r bs k x).room
          (watch c v (register_broadcast r bs k x).effects)
  unfolding register_broadcast watch
  register_broadcast-IsAccurate c h v inv present a =
      rw
        (
          watch-append c v (map (λ s. client_broadcast_started s k x.id) r.subscriber)
              (send_all (notify_broadcast_started (broadcast_entry x)) (values r.clients)),
          watch-IsSilent c v _ (starts-IsSilent k x.id r.subscriber),
        )
        (send_all-reaches (IsAccurate r) (IsAccurate (register_broadcast r bs k x).room)
          (notify_broadcast_started (broadcast_entry x)) (λ w p. started-IsAccurate w (inl p))
          (λ w q. started-IsAccurate w (inr q)) c v (values r.clients)
          (contains-ids c h r.clients present (inv.clients_named c h present)) a)

-- Each member learns that a broadcast has ended.
module _ (r : Room) (k : ClientId) (b : BroadcastId) where
  ended-IsAccurate :
      (v : View)
      → IsAccurate r v ⊎ IsAccurate (broadcast_ended r k b).0 v
      → IsAccurate (broadcast_ended r k b).0 (apply_notify v (notify_broadcast_ended b))
  unfolding apply_notify broadcast_ended
  ended-IsAccurate v (inl a) = record {
    users_agree = a.users_agree;
    broadcasts_agree = λ b'. ground (arith, a.broadcasts_agree b', lookup-remove b b' r.broadcasts);
  }
  ended-IsAccurate v (inr a) = record {
    users_agree = a.users_agree;
    broadcasts_agree = λ b'. ground (arith, a.broadcasts_agree b', lookup-remove b b' r.broadcasts);
  }

  pub broadcast_ended-IsAccurate :
      (c : ClientId) (h : ClientRef) (v : View)
      → Inv r
      → lookup c r.clients ≡ some h
      → IsAccurate r v
      → IsAccurate (broadcast_ended r k b).0 (watch c v (broadcast_ended r k b).1)
  unfolding broadcast_ended
  broadcast_ended-IsAccurate c h v inv present a =
      rw
        (
          watch-append,
          watch-append,
          watch-IsSilent c v _ (drop_broadcast-IsSilent (lookup b r.broadcasts)),
          watch-IsSilent c (watch c v (send_all (notify_broadcast_ended b) (values r.clients))) _
              (ends-IsSilent k b r.subscriber),
        )
        (send_all-reaches (IsAccurate r) (IsAccurate (broadcast_ended r k b).0)
          (notify_broadcast_ended b) (λ w p. ended-IsAccurate w (inl p))
          (λ w q. ended-IsAccurate w (inr q)) c v (values r.clients)
          (contains-ids c h r.clients present (inv.clients_named c h present)) a)

pub client_broadcast_start-IsAccurate :
    (to_lowercase : String → String) (rng : ℕ → BroadcastId) (r : Room) (k : ClientId)
    (name : String) (source : RoomBroadcastSource) (c : ClientId) (h : ClientRef) (v : View)
    → Inv r
    → lookup c r.clients ≡ some h
    → IsAccurate r v
    → IsAccurate
        (client_broadcast_start to_lowercase rng r k name source).room
        (watch c v (client_broadcast_start to_lowercase rng r k name source).effects)
unfolding client_broadcast_start
client_broadcast_start-IsAccurate to_lowercase rng r k name source c h v inv present a =
    elim (Option-cases (lookup k r.clients)) [
      | inl e ↦ rw (e, client_broadcast_start) refused
      | inr (g, e) ↦ elim (Option-cases (generate_broadcast_id rng r)) [
        | inl e' ↦ rw (e, e', client_broadcast_start) refused
        | inr (id, e') ↦
            elim (Option-cases
              (running_broadcast to_lowercase r.broadcasts source.kind name (listed r k))) [
                | inl f ↦
                    rw (e, e', f, client_broadcast_start)
                      (register_broadcast-IsAccurate (entered r k) (listed r k) k
                        (new_broadcast g k id name source) c h v (entered-Inv r k inv) present
                        (record {
                          users_agree = a.users_agree;
                          broadcasts_agree = a.broadcasts_agree;
                        }))
                | inr (j, f) ↦
                    rw (e, e', f, client_broadcast_start)
                      (silent-IsAccurate r (entered r k) (drop_source source ∷ []) c v tt refl
                        (λ b. refl) a)
              ]
      ]
    ]
  where
    refused : IsAccurate r (watch c v (drop_source source ∷ []))
    refused = silent-IsAccurate r r (drop_source source ∷ []) c v tt refl (λ b. refl) a

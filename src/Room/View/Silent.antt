-- ===== src/Room/View/Silent.antt =====
-- The methods of server/src/rtp_server/room.rs that send no notification, and the views.
use simple_screen_share.Base.{
  remove_first, ◌≡◌, refl, ap, sym, ◌∙◌, Bool, true, false, Option, none, some, List, [], ◌∷◌, ◌++◌,
  contains, Option-cases, Bool-cases, inl, inr, ◌==◌, arith,
}
use simple_screen_share.Base.Map.{
  Map, nat_key, lookup, contains_key, insert, update, map_at, lookup-update,
}
use simple_screen_share.Messages.{ClientId, BroadcastId}
use simple_screen_share.Broadcast
use simple_screen_share.Broadcast.{
  RoomBroadcastSource, ClientRef, RoomBroadcastTarget, ClientBroadcast,
}
use simple_screen_share.Room.State.{Room, Effect, drop_target, broadcast_entry}
use simple_screen_share.Room.Clients.{signal_shutdown, shutdown_broadcast}
use simple_screen_share.Room.Broadcasts.{
  client_broadcast_stop, client_broadcast_subscribe, client_broadcast_unsubscribe, poll_broadcast,
  drop_targets, wakes, add_target, remove_target,
}
use simple_screen_share.Room.Steps.{with_streams}
use simple_screen_share.Room.Shutdown.{shutdown_broadcast_lem}
use simple_screen_share.Room.View.{View, IsAccurate, watch, entry_of}
use simple_screen_share.Room.View.Departure.{shutdown_broadcast-IsSilent}
use simple_screen_share.Room.View.Watching.{
  watch-IsSilent, IsSilent, IsSilent-append, wake-IsSilent,
}

-- Effects without a message, and a room with the same users and broadcasts to show.
pub silent-IsAccurate :
    (r r' : Room) (es : List Effect) (c : ClientId) (v : View)
    → IsSilent es
    → r'.client_user_ids ≡ r.client_user_ids
    → ((b : BroadcastId) → entry_of (lookup b r'.broadcasts) ≡ entry_of (lookup b r.broadcasts))
    → IsAccurate r v
    → IsAccurate r' (watch c v es)
silent-IsAccurate r r' es c v quiet users entries a = rw (watch-IsSilent c v es quiet) (record {
  users_agree = λ k. a.users_agree k ∙ ap (lookup k) (sym users);
  broadcasts_agree = λ b. a.broadcasts_agree b ∙ sym (entries b);
})

-- A change in place that does not show.
entry_of-update :
    (f : ClientBroadcast → ClientBroadcast) (k b : BroadcastId)
    (m : Map BroadcastId ClientBroadcast)
    → ((x : ClientBroadcast) → broadcast_entry (f x) ≡ broadcast_entry x)
    → entry_of (lookup b (update k f m)) ≡ entry_of (lookup b m)
entry_of-update f k b m keep = ap entry_of (lookup-update k b f m) ∙ shows (k == b) (lookup b m)
  where
    shows : (p : Bool) (o : Option ClientBroadcast) → entry_of (map_at p f o) ≡ entry_of o
    shows p none = refl
    shows true (some x) = ap some (keep x)
    shows false (some x) = refl

pub drop_targets-IsSilent : (ts : List RoomBroadcastTarget) → IsSilent (drop_targets ts)
unfolding drop_targets
drop_targets-IsSilent [] = tt
drop_targets-IsSilent (t ∷ ts) = drop_targets-IsSilent ts

wakes-IsSilent : (x : ClientBroadcast) → IsSilent (wakes x)
unfolding wakes
wakes-IsSilent x = wake-IsSilent x.waker x.id

signal_shutdown-entry :
    (x : ClientBroadcast) → broadcast_entry (signal_shutdown x) ≡ broadcast_entry x
unfolding signal_shutdown broadcast_entry
signal_shutdown-entry x = ground arith

poll-entry :
    (x : ClientBroadcast) → broadcast_entry (Broadcast.poll x).broadcast ≡ broadcast_entry x
unfolding Broadcast.poll broadcast_entry
poll-entry x = ground arith

module _ (r : Room) (c k : ClientId) (b : BroadcastId) (v : View) (a : IsAccurate r v) where
  -- Nothing but the changed broadcast.
  updated-IsAccurate :
      (f : ClientBroadcast → ClientBroadcast) (lists : Map ClientId (List BroadcastId))
      (es : List Effect)
      → IsSilent es
      → ((x : ClientBroadcast) → broadcast_entry (f x) ≡ broadcast_entry x)
      → IsAccurate
          (record r { client_broadcasts = lists; broadcasts = update b f r.broadcasts })
          (watch c v es)
  updated-IsAccurate f lists es quiet keep =
      silent-IsAccurate r
        (record r { client_broadcasts = lists; broadcasts = update b f r.broadcasts }) es c v quiet
        refl (λ b'. entry_of-update f b b' r.broadcasts keep) a

  unchanged-IsAccurate : (es : List Effect) → IsSilent es → IsAccurate r (watch c v es)
  unchanged-IsAccurate es quiet = silent-IsAccurate r r es c v quiet refl (λ b'. refl) a

  pub client_broadcast_stop-IsAccurate :
      IsAccurate
        (client_broadcast_stop r k b).room
        (watch c v (client_broadcast_stop r k b).effects)
  unfolding client_broadcast_stop
  client_broadcast_stop-IsAccurate = elim (Option-cases (lookup k r.client_broadcasts)) [
    | inl e ↦ rw (e, client_broadcast_stop) (unchanged-IsAccurate [] tt)
    | inr (bs, e) ↦ elim (Bool-cases (contains b bs)) [
      | inl h ↦
          let lists = insert k (remove_first b bs) r.client_broadcasts in
          rw (e, h, client_broadcast_stop)
            (rw (shutdown_broadcast_lem (record r { client_broadcasts = lists }) b) (
              updated-IsAccurate signal_shutdown lists
                (shutdown_broadcast (record r { client_broadcasts = lists }) b).1
                (shutdown_broadcast-IsSilent (record r { client_broadcasts = lists }) b)
                signal_shutdown-entry))
      | inr h ↦ rw (e, h, client_broadcast_stop) (unchanged-IsAccurate [] tt)
    ]
  ]

  pub client_broadcast_subscribe-IsAccurate :
      (target : RoomBroadcastTarget)
      → IsAccurate
          (client_broadcast_subscribe r k b target).room
          (watch c v (client_broadcast_subscribe r k b target).effects)
  unfolding client_broadcast_subscribe add_target broadcast_entry
  client_broadcast_subscribe-IsAccurate target = elim (Option-cases (lookup b r.broadcasts)) [
    | inl e ↦ rw (e, client_broadcast_subscribe) (unchanged-IsAccurate (drop_target target ∷ []) tt)
    | inr (x, e) ↦ elim (Bool-cases (contains_key k x.targets)) [
      | inl h ↦
          rw (e, h, client_broadcast_subscribe) (unchanged-IsAccurate (drop_target target ∷ []) tt)
      | inr h ↦
          rw (e, h, client_broadcast_subscribe)
            (updated-IsAccurate (add_target k target) r.client_broadcasts (wakes x)
              (wakes-IsSilent x) (λ y. refl))
    ]
  ]

  pub client_broadcast_unsubscribe-IsAccurate :
      IsAccurate
        (client_broadcast_unsubscribe r k b).room
        (watch c v (client_broadcast_unsubscribe r k b).effects)
  unfolding client_broadcast_unsubscribe remove_target broadcast_entry
  client_broadcast_unsubscribe-IsAccurate = elim (Option-cases (lookup b r.broadcasts)) [
    | inl e ↦ rw (e, client_broadcast_unsubscribe) (unchanged-IsAccurate [] tt)
    | inr (x, e) ↦ elim (Option-cases (lookup k x.targets)) [
      | inl h ↦ rw (e, h, client_broadcast_unsubscribe) (unchanged-IsAccurate [] tt)
      | inr (t, h) ↦
          rw (e, h, client_broadcast_unsubscribe)
            (updated-IsAccurate (remove_target k) r.client_broadcasts
              (wakes x ++ (drop_target t ∷ []))
              (IsSilent-append (wakes x) (drop_target t ∷ []) (wakes-IsSilent x) tt) (λ y. refl))
    ]
  ]

  pub poll_broadcast-IsAccurate :
      IsAccurate (poll_broadcast r b).room (watch c v (poll_broadcast r b).effects)
  unfolding poll_broadcast
  poll_broadcast-IsAccurate = elim (Option-cases (lookup b r.broadcasts)) [
    | inl e ↦ rw (e, poll_broadcast) (unchanged-IsAccurate [] tt)
    | inr (x, e) ↦
        rw (e, poll_broadcast)
          (updated-IsAccurate (λ y. (Broadcast.poll y).broadcast) r.client_broadcasts
            (drop_targets (Broadcast.poll x).dropped)
            (drop_targets-IsSilent (Broadcast.poll x).dropped) poll-entry)
  ]

  pub streams-IsAccurate :
      (source : RoomBroadcastSource → RoomBroadcastSource)
      (targets : Map ClientId RoomBroadcastTarget → Map ClientId RoomBroadcastTarget)
      → IsAccurate
          (record r { broadcasts = update b (with_streams source targets) r.broadcasts })
          (watch c v [])
  unfolding broadcast_entry
  streams-IsAccurate source targets =
      updated-IsAccurate (with_streams source targets) r.client_broadcasts [] tt (λ y. refl)

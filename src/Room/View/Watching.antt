-- ===== src/Room/View/Watching.antt =====
-- How `watch` goes through the effects of a method.
use simple_screen_share.Base.{
  ◌≡◌, refl, Bool, true, false, List, [], ◌∷◌, ◌++◌, map, contains, Bool-cases, inl, inr, ◌==◌,
  if◌then◌else◌, arith,
}
use simple_screen_share.Base.Map.{nat_key}
use simple_screen_share.Messages.{ClientId, BroadcastId, S2CNotify}
use simple_screen_share.Broadcast.{ClientRef}
use simple_screen_share.Room.State.{
  Effect, send, client_joined, client_left, client_broadcast_started, client_broadcast_ended,
  spawn_broadcast, wake_broadcast, drop_source, drop_target, send_all,
}
use simple_screen_share.Room.View.{View, apply_notify, watch, receive}

pub watch-append :
    (c : ClientId) (v : View) (es fs : List Effect)
    → watch c v (es ++ fs) ≡ watch c (watch c v es) fs
unfolding watch
watch-append c v [] fs = refl
watch-append c v (send h m ∷ es) fs =
    watch-append c (if h.client_id == c then receive v m else v) es fs
watch-append c v (client_joined s k h ∷ es) fs = watch-append c v es fs
watch-append c v (client_left s k h ∷ es) fs = watch-append c v es fs
watch-append c v (client_broadcast_started s k b ∷ es) fs = watch-append c v es fs
watch-append c v (client_broadcast_ended s k b ∷ es) fs = watch-append c v es fs
watch-append c v (spawn_broadcast b ∷ es) fs = watch-append c v es fs
watch-append c v (wake_broadcast b ∷ es) fs = watch-append c v es fs
watch-append c v (drop_source s ∷ es) fs = watch-append c v es fs
watch-append c v (drop_target t ∷ es) fs = watch-append c v es fs

-- No message at all.
abbrev pub IsSilent : List Effect → Type 0
IsSilent [] = Unit
IsSilent (send h m ∷ es) = ⊥
IsSilent (e ∷ es) = IsSilent es

pub watch-IsSilent : (c : ClientId) (v : View) (es : List Effect) → IsSilent es → watch c v es ≡ v
unfolding watch
watch-IsSilent c v [] q = refl
watch-IsSilent c v (send h m ∷ es) q = absurd q
watch-IsSilent c v (client_joined s k h ∷ es) q = watch-IsSilent c v es q
watch-IsSilent c v (client_left s k h ∷ es) q = watch-IsSilent c v es q
watch-IsSilent c v (client_broadcast_started s k b ∷ es) q = watch-IsSilent c v es q
watch-IsSilent c v (client_broadcast_ended s k b ∷ es) q = watch-IsSilent c v es q
watch-IsSilent c v (spawn_broadcast b ∷ es) q = watch-IsSilent c v es q
watch-IsSilent c v (wake_broadcast b ∷ es) q = watch-IsSilent c v es q
watch-IsSilent c v (drop_source s ∷ es) q = watch-IsSilent c v es q
watch-IsSilent c v (drop_target t ∷ es) q = watch-IsSilent c v es q

pub IsSilent-append : (es fs : List Effect) → IsSilent es → IsSilent fs → IsSilent (es ++ fs)
IsSilent-append [] fs p q = q
IsSilent-append (send h m ∷ es) fs p q = absurd p
IsSilent-append (client_joined s k h ∷ es) fs p q = IsSilent-append es fs p q
IsSilent-append (client_left s k h ∷ es) fs p q = IsSilent-append es fs p q
IsSilent-append (client_broadcast_started s k b ∷ es) fs p q = IsSilent-append es fs p q
IsSilent-append (client_broadcast_ended s k b ∷ es) fs p q = IsSilent-append es fs p q
IsSilent-append (spawn_broadcast b ∷ es) fs p q = IsSilent-append es fs p q
IsSilent-append (wake_broadcast b ∷ es) fs p q = IsSilent-append es fs p q
IsSilent-append (drop_source s ∷ es) fs p q = IsSilent-append es fs p q
IsSilent-append (drop_target t ∷ es) fs p q = IsSilent-append es fs p q

-- Waking a task or not sends nothing.
pub wake-IsSilent :
    (t : Bool) (b : BroadcastId) → IsSilent (if t then wake_broadcast b ∷ [] else [])
wake-IsSilent true b = tt
wake-IsSilent false b = tt

-- The ids of the clients that a message goes to.
abbrev pub ids : List ClientRef → List ClientId
ids = map (λ h. h.client_id)

module _ (P Q : View → Type 0) (n : S2CNotify) (first : (v : View) → P v → Q (apply_notify v n))
    (again : (v : View) → Q v → Q (apply_notify v n)) where
  send_all-again :
      (c : ClientId) (v : View) (hs : List ClientRef) → Q v → Q (watch c v (send_all n hs))
  unfolding send_all watch receive
  send_all-again c v [] q = q
  send_all-again c v (h ∷ hs) q = elim (Bool-cases (h.client_id == c)) [
    | inl e ↦ rw (e, watch) (send_all-again c (apply_notify v n) hs (again v q))
    | inr e ↦ rw (e, watch) (send_all-again c v hs q)
  ]

  -- A message to all that reaches the client takes it from `P` to `Q`, however often it comes.
  pub send_all-reaches :
      (c : ClientId) (v : View) (hs : List ClientRef)
      → contains c (ids hs) ≡ true
      → P v
      → Q (watch c v (send_all n hs))
  unfolding send_all watch receive contains
  send_all-reaches c v [] e p = cc
  send_all-reaches c v (h ∷ hs) e p = elim (Bool-cases (h.client_id == c)) [
    | inl e' ↦ rw (e', watch) (send_all-again c (apply_notify v n) hs (first v p))
    | inr e' ↦ rw (e', watch) (send_all-reaches c v hs (ground arith) p)
  ]

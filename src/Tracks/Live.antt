-- ===== src/Tracks/Live.antt =====
-- The live targets of a client, and the tracks that they keep in use.
use simple_screen_share.Base.{
  All, ℕ, suc, ◌<◌, ◌≡◌, ◌≢◌, refl, sym, ◌∙◌, true, Bool-cases, inl, inr, String, Option, none,
  some, List, [], ◌∷◌, ◌++◌, arith, is_some, ◌==◌,
}
use simple_screen_share.Messages.{BroadcastKind}
use simple_screen_share.Tracks.Sending.{TargetRef, RegisteredSendingTrack}
use simple_screen_share.Tracks.Targets.{
  ClientBroadcastTarget, Sender, set_handler, create_broadcast_target, drop_target,
}

-- The targets of a client that have not been dropped.
pub data Live : Sender → List ClientBroadcastTarget → Type 0 where
  created : Live (record { sending_tracks = []; targets = []; next_object = 0 }) []
  makes :
      {s : Sender} {ts : List ClientBroadcastTarget} (id : String) (kind : BroadcastKind)
      → Live s ts
      → Live (create_broadcast_target id kind s).0 ((create_broadcast_target id kind s).2 ∷ ts)
  drops :
      {s : Sender} (before after : List ClientBroadcastTarget) (t : ClientBroadcastTarget)
      → Live s (before ++ (t ∷ after))
      → Live (drop_target t s) (before ++ after)

-- Another target's track is another track.
abbrev pub Others : ℕ → List ClientBroadcastTarget → Type 0
Others object = All (λ u. u.track ≢ object)

abbrev pub Apart : List ClientBroadcastTarget → Type 0
Apart [] = Unit
Apart (t ∷ ts) = Others t.track ts × Apart ts

-- Whatever track the target has is in use.
abbrev pub Busy : List RegisteredSendingTrack → ℕ → Type 0
Busy tracks object = All (λ tr. tr.object ≡ object → is_some tr.event_handler ≡ true) tracks

abbrev pub Below : ℕ → List RegisteredSendingTrack → Type 0
Below n = All (λ tr. tr.object < n)

abbrev pub Served : Sender → ClientBroadcastTarget → Type 0
Served s u = (u.track < s.next_object) × Busy s.sending_tracks u.track

pub record Inv (s : Sender) (ts : List ClientBroadcastTarget) : Type 0 where
  pub below : Below s.next_object s.sending_tracks
  pub apart : Apart ts
  pub served : All (Served s) ts

module _ (P : ClientBroadcastTarget → Type 0) where
  pub All-drop :
      (before after : List ClientBroadcastTarget) (t : ClientBroadcastTarget)
      → All P (before ++ (t ∷ after))
      → All P (before ++ after)
  All-drop [] after t a = a.1
  All-drop (u ∷ before) after t a = (a.0, All-drop before after t a.1)

  pub All-dropped :
      (before after : List ClientBroadcastTarget) (t : ClientBroadcastTarget)
      → All P (before ++ (t ∷ after))
      → P t
  All-dropped [] after t a = a.0
  All-dropped (u ∷ before) after t a = All-dropped before after t a.1

pub Apart-drop :
    (before after : List ClientBroadcastTarget) (t : ClientBroadcastTarget)
    → Apart (before ++ (t ∷ after))
    → Apart (before ++ after) × Others t.track (before ++ after)
Apart-drop [] after t a = (a.1, a.0)
Apart-drop (u ∷ before) after t a =
    let rest = Apart-drop before after t a.1 in
    let different = All-dropped (λ v. v.track ≢ u.track) before after t a.0 in
    (
      (All-drop (λ v. v.track ≢ u.track) before after t a.0, rest.0),
      ((λ e. different (sym e)), rest.1),
    )

pub Busy-set :
    (tracks : List RegisteredSendingTrack) (object other : ℕ) (h : TargetRef)
    → Busy tracks other
    → Busy (set_handler object (some h) tracks) other
unfolding set_handler
Busy-set [] object other h busy = tt
Busy-set (tr ∷ tracks) object other h busy = elim (Bool-cases (tr.object == object)) [
  | inl e ↦ rw e ((λ same. refl), Busy-set tracks object other h busy.1)
  | inr e ↦ rw e (busy.0, Busy-set tracks object other h busy.1)
]

pub Busy-own :
    (tracks : List RegisteredSendingTrack) (object : ℕ) (h : TargetRef)
    → Busy (set_handler object (some h) tracks) object
unfolding set_handler
Busy-own [] object h = tt
Busy-own (tr ∷ tracks) object h = elim (Bool-cases (tr.object == object)) [
  | inl e ↦ rw e ((λ same. refl), Busy-own tracks object h)
  | inr e ↦ rw e ((λ same. ground arith), Busy-own tracks object h)
]

pub Busy-clear :
    (tracks : List RegisteredSendingTrack) (object other : ℕ)
    → other ≢ object
    → Busy tracks other
    → Busy (set_handler object none tracks) other
unfolding set_handler
Busy-clear [] object other apart busy = tt
Busy-clear (tr ∷ tracks) object other apart busy = elim (Bool-cases (tr.object == object)) [
  | inl e ↦
      let here : tr.object ≡ object = ground arith in
      rw e ((λ same. absurd (apart (sym same ∙ here))), Busy-clear tracks object other apart busy.1)
  | inr e ↦ rw e (busy.0, Busy-clear tracks object other apart busy.1)
]

pub Below-set :
    (n : ℕ) (tracks : List RegisteredSendingTrack) (object : ℕ) (h : Option TargetRef)
    → Below n tracks
    → Below n (set_handler object h tracks)
unfolding set_handler
Below-set n [] object h below = tt
Below-set n (tr ∷ tracks) object h below = elim (Bool-cases (tr.object == object)) [
  | inl e ↦ rw e (below.0, Below-set n tracks object h below.1)
  | inr e ↦ rw e (below.0, Below-set n tracks object h below.1)
]

pub Below-suc :
    (n : ℕ) (tracks : List RegisteredSendingTrack) → Below n tracks → Below (suc n) tracks
Below-suc n [] below = tt
Below-suc n (tr ∷ tracks) below =
    let small : tr.object < n = below.0 in (omega arith, Below-suc n tracks below.1)

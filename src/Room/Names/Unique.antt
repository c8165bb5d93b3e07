-- ===== src/Room/Names/Unique.antt =====
-- `client_broadcast_start` of server/src/rtp_server/room.rs and the names of running broadcasts.
use simple_screen_share.Base.{
  ◌⊎◌, ℕ, ◌≡◌, refl, ap, sym, ◌∙◌, subst, true, none, some, List, contains, String, Option-cases,
  inl, inr, arith,
}
use simple_screen_share.Base.Map.{nat_key, lookup, insert, lookup-insert}
use simple_screen_share.Messages.{ClientId, BroadcastId}
use simple_screen_share.Broadcast.{ClientBroadcast, RoomBroadcastSource}
use simple_screen_share.Room.Names.Shrinking.{
  add_client-Shrinks, remove_client-Shrinks, client_broadcast_stop-Shrinks,
  client_broadcast_subscribe-Shrinks, client_broadcast_unsubscribe-Shrinks, poll_broadcast-Shrinks,
  broadcast_ended-Shrinks, streams-Shrinks,
}
use simple_screen_share.Room.State.{new, Room, Effect}
use simple_screen_share.Room.Broadcasts.{
  client_broadcast_start, running_broadcast, generate_broadcast_id, new_broadcast,
  register_broadcast,
}
use simple_screen_share.Room.Invariant.{Inv, listed}
use simple_screen_share.Room.Names.{Runs, Alike, IsUnique, Shrinks-IsUnique, running_broadcast-none}
use simple_screen_share.Room.Steps.{
  Step, joins, leaves, starts, stops, subscribes, unsubscribes, polls, ends, streams, Reach,
  created, next, Reach-Inv,
}
use simple_screen_share.Room.Invariant.Streams.{entered}

-- A new broadcast that is like none that runs.
module _ (to_lowercase : String → String) (r r' : Room) (x : ClientBroadcast) where
  new_or_old :
      (b : BroadcastId) (y : ClientBroadcast)
      → r'.broadcasts ≡ insert x.id x r.broadcasts
      → Runs r' b y
      → ((x.id ≡ b) × (x ≡ y)) ⊎ Runs r b y
  new_or_old b y e p =
      let found : lookup b (insert x.id x r.broadcasts) ≡ some y = ap (lookup b) (sym e) ∙ p.0 in
      ground (arith, lookup-insert x.id b x r.broadcasts)

  apart :
      (b b' : BroadcastId) (y z : ClientBroadcast)
      → ((b : BroadcastId) (y : ClientBroadcast) → Runs r b y → ¬ Alike to_lowercase y x)
      → IsUnique to_lowercase r
      → ((x.id ≡ b) × (x ≡ y)) ⊎ Runs r b y
      → ((x.id ≡ b') × (x ≡ z)) ⊎ Runs r b' z
      → Alike to_lowercase y z
      → b ≡ b'
  apart b b' y z other u (inl p) (inl q) like = sym p.0 ∙ q.0
  apart b b' y z other u (inr p) (inr q) like = u.unique b b' y z p q like
  apart b b' y z other u (inr p) (inl q) like =
      absurd (other b y p (subst (λ w. Alike to_lowercase y w) (sym q.1) like))
  apart b b' y z other u (inl p) (inr q) like = absurd (
      other b' z q
        (subst (λ w. Alike to_lowercase z w) (sym p.1) (sym like.0, sym like.1, sym like.2)))

  register-IsUnique :
      r'.broadcasts ≡ insert x.id x r.broadcasts
      → ((b : BroadcastId) (y : ClientBroadcast) → Runs r b y → ¬ Alike to_lowercase y x)
      → IsUnique to_lowercase r
      → IsUnique to_lowercase r'
  register-IsUnique e other u = record {
    unique =
        λ b b' y z p q like. apart b b' y z other u (new_or_old b y e p) (new_or_old b' z e q) like;
  }

-- Among the running broadcasts of a client none is like one that passes the check.
unlisted_name :
    (to_lowercase : String → String) (r : Room) (c : ClientId) (x : ClientBroadcast)
    → Inv r
    → x.client_id ≡ c
    → running_broadcast to_lowercase r.broadcasts x.kind x.name (listed r c) ≡ none
    → (b : BroadcastId) (y : ClientBroadcast) → Runs r b y
    → ¬ Alike to_lowercase y x
unlisted_name to_lowercase r c x inv own free b y runs like =
    let t = inv.tracked b y runs.0 in
    running_broadcast-none to_lowercase r.broadcasts x.kind x.name (listed r c) b y free
      (subst (λ k. contains b (listed r k) ≡ true) (like.0 ∙ own) (t.owner_listed runs.1)) runs.0
      like.1 like.2

client_broadcast_start-IsUnique :
    (to_lowercase : String → String) (rng : ℕ → BroadcastId) (r : Room) (c : ClientId)
    (name : String) (source : RoomBroadcastSource)
    → Inv r
    → IsUnique to_lowercase r
    → IsUnique to_lowercase (client_broadcast_start to_lowercase rng r c name source).room
unfolding client_broadcast_start register_broadcast new_broadcast
client_broadcast_start-IsUnique to_lowercase rng r c name source inv u =
    elim (Option-cases (lookup c r.clients)) [
      | inl e ↦ rw (e, client_broadcast_start) u
      | inr (h, e) ↦ elim (Option-cases (generate_broadcast_id rng r)) [
        | inl e' ↦ rw (e, e', client_broadcast_start) u
        | inr (id, e') ↦
            let x = new_broadcast h c id name source in
            elim (Option-cases
              (running_broadcast to_lowercase r.broadcasts source.kind name (listed r c))) [
                | inl f ↦
                    rw (e, e', f, client_broadcast_start)
                      (register-IsUnique to_lowercase r
                        (register_broadcast (entered r c) (listed r c) c x).room x refl
                        (unlisted_name to_lowercase r c x inv refl f) u)
                | inr (j, f) ↦ rw (e, e', f, client_broadcast_start) (record { unique = u.unique })
              ]
      ]
    ]

Step-IsUnique :
    {to_lowercase : String → String} {r r' : Room} {es : List Effect}
    → Step to_lowercase r es r'
    → Inv r
    → IsUnique to_lowercase r
    → IsUnique to_lowercase r'
Step-IsUnique (joins r client user) inv u =
    Shrinks-IsUnique _ r _ (add_client-Shrinks r client user) u
Step-IsUnique (leaves r c) inv u = Shrinks-IsUnique _ r _ (remove_client-Shrinks r c) u
Step-IsUnique {to_lowercase} (starts r rng c name source) inv u =
    client_broadcast_start-IsUnique to_lowercase rng r c name source inv u
Step-IsUnique (stops r c b) inv u = Shrinks-IsUnique _ r _ (client_broadcast_stop-Shrinks r c b) u
Step-IsUnique (subscribes r c b t) inv u =
    Shrinks-IsUnique _ r _ (client_broadcast_subscribe-Shrinks r c b t) u
Step-IsUnique (unsubscribes r c b) inv u =
    Shrinks-IsUnique _ r _ (client_broadcast_unsubscribe-Shrinks r c b) u
Step-IsUnique (polls r b) inv u = Shrinks-IsUnique _ r _ (poll_broadcast-Shrinks r b) u
Step-IsUnique (ends r c b) inv u = Shrinks-IsUnique _ r _ (broadcast_ended-Shrinks r c b) u
Step-IsUnique (streams r b source targets) inv u =
    Shrinks-IsUnique _ r _ (streams-Shrinks r b source targets) u

new-IsUnique : (to_lowercase : String → String) (id : ℕ) → IsUnique to_lowercase (new id)
unfolding new lookup
new-IsUnique to_lowercase id = record { unique = λ b b' x y p q like. cc (p.0) }

Reach-IsUnique :
    {to_lowercase : String → String} {r : Room} → Reach to_lowercase r → IsUnique to_lowercase r
Reach-IsUnique {to_lowercase} (created id) = new-IsUnique to_lowercase id
Reach-IsUnique (next reach step) = Step-IsUnique step (Reach-Inv reach) (Reach-IsUnique reach)

-- In every reachable room two running broadcasts of one client that have the same kind and, apart
-- from capitals, the same name are the same broadcast.
pub unique_names :
    (to_lowercase : String → String) (r : Room) (b b' : BroadcastId) (x y : ClientBroadcast)
    → Reach to_lowercase r
    → Runs r b x
    → Runs r b' y
    → Alike to_lowercase x y
    → b ≡ b'
unique_names to_lowercase r b b' x y reach p q like =
    (Reach-IsUnique reach).unique b b' x y p q like

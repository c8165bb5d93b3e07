-- ===== src/Room/Start.antt =====
-- The ids that `generate_broadcast_id` of server/src/rtp_server/room.rs gives.
use simple_screen_share.Base.{
  ℕ, zero, suc, ◌<◌, ◌+◌, ◌≡◌, subst, true, false, none, some, Bool-cases, inl, inr, arith,
}
use simple_screen_share.Base.Map.{nat_key, contains_key}
use simple_screen_share.Messages.{BroadcastId}
use simple_screen_share.Room.State.{Room}
use simple_screen_share.Room.Broadcasts.{draw_id, generate_broadcast_id}

module _ (rng : ℕ → BroadcastId) (r : Room) where
  draw_id-fresh :
      (rounds i : ℕ) {id : BroadcastId}
      → draw_id rng r rounds i ≡ some id
      → (contains_key id r.broadcasts ≡ false) × ((j : ℕ) × (j < i + rounds) × (rng j ≡ id))
  unfolding draw_id
  draw_id-fresh zero i e = cc
  draw_id-fresh (suc rounds) i {id} e = elim (Bool-cases (contains_key (rng i) r.broadcasts)) [
    | inl taken ↦
        let (free, (j, below, drawn)) =
          draw_id-fresh rounds (suc i) {id = id} (rw (taken, draw_id) at e) in
        (free, (j, omega arith, drawn))
    | inr free ↦
        let drawn : rng i ≡ id = ground arith in (rw drawn at free, (i, omega arith, drawn))
  ]

  at_draw :
      (rounds i j : ℕ)
      → contains_key (rng i) r.broadcasts ≡ true
      → ((k : ℕ)
          → draw_id rng r rounds (suc i) ≡ none
          → k < rounds
          → contains_key (rng (suc i + k)) r.broadcasts ≡ true)
      → draw_id rng r rounds (suc i) ≡ none
      → j < suc rounds
      → contains_key (rng (i + j)) r.broadcasts ≡ true
  at_draw rounds i zero taken later e h =
      subst (λ k. contains_key (rng k) r.broadcasts ≡ true) (omega arith) taken
  at_draw rounds i (suc j) taken later e h =
      subst (λ k. contains_key (rng k) r.broadcasts ≡ true) (omega arith) (later j e (omega arith))

  draw_id-exhausted :
      (rounds i j : ℕ)
      → draw_id rng r rounds i ≡ none
      → j < rounds
      → contains_key (rng (i + j)) r.broadcasts ≡ true
  unfolding draw_id
  draw_id-exhausted zero i j e h = absurd (omega arith)
  draw_id-exhausted (suc rounds) i j e h = elim (Bool-cases (contains_key (rng i) r.broadcasts)) [
    | inr free ↦ ground arith
    | inl taken ↦
        at_draw rounds i j taken (draw_id-exhausted rounds (suc i)) (rw (taken, draw_id) at e) h
  ]

  -- A new id is one of the first 999 draws and is not in use.
  pub generate_broadcast_id-fresh :
      (id : BroadcastId)
      → generate_broadcast_id rng r ≡ some id
      → (contains_key id r.broadcasts ≡ false) × ((j : ℕ) × (j < 999) × (rng j ≡ id))
  unfolding generate_broadcast_id
  generate_broadcast_id-fresh id e =
      let (free, (j, below, drawn)) = draw_id-fresh 999 0 e in (free, (j, omega arith, drawn))

  -- No id is found only if each of the first 999 draws is in use.
  pub generate_broadcast_id-exhausted :
      (j : ℕ)
      → generate_broadcast_id rng r ≡ none
      → j < 999
      → contains_key (rng j) r.broadcasts ≡ true
  unfolding generate_broadcast_id
  generate_broadcast_id-exhausted j e h =
      subst (λ k. contains_key (rng k) r.broadcasts ≡ true) (omega arith)
        (draw_id-exhausted 999 0 j e h)

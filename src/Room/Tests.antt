-- ===== src/Room/Tests.antt =====
-- A small room, and the theorems of `Room` and its parts at it.
use simple_screen_share.Base.{ℕ, ◌≡◌, refl, false, String, none, [], ◌∷◌, contains}
use simple_screen_share.Base.Map.{nat_key, lookup, insert}
use simple_screen_share.Messages.{video, BroadcastId}
use simple_screen_share.Broadcast.{ClientRef, RoomBroadcastSource}
use simple_screen_share.Room.State.{Room, new}
use simple_screen_share.Room.Clients.{add_client, remove_client}
use simple_screen_share.Room.Broadcasts.{
  draw_id, client_broadcast_start, new_broadcast, broadcast_ended,
}
use simple_screen_share.Room.Invariant.{Inv}
use simple_screen_share.Room.Steps.{joins, starts, Reach, created, next, Reach-Inv}
use simple_screen_share.Room.Tasks.{broadcast_tasks}
use simple_screen_share.Room.Settling.{Settled, leave-Settled}
use simple_screen_share.Room.Names.Unique.{unique_names}
use simple_screen_share.Room.View.{View, IsAccurate, watch}
use simple_screen_share.Room.View.Session.{Session, joined, stayed, Session-IsAccurate}

abbrev alice : ClientRef
alice = record { object = 0; client_id = 1 }

abbrev bob : ClientRef
bob = record { object = 1; client_id = 2 }

-- These names have no capitals.
abbrev to_lowercase : String → String
to_lowercase s = s

abbrev rng : ℕ → BroadcastId
rng i = 500

abbrev screen : RoomBroadcastSource
screen = record { kind = video; events = []; ended = false; plis = 0 }

abbrev lone : Room
lone = (add_client (new 9) alice 70).0

abbrev pair : Room
pair = (add_client lone bob 80).0

abbrev sharing : Room
sharing = (client_broadcast_start to_lowercase rng pair 1 "screen" screen).room

abbrev blank : View
blank = record { users = λ c. none; broadcasts = λ b. none }

sharing-Reach : Reach to_lowercase sharing
sharing-Reach =
    next (next (next (created 9) (joins (new 9) alice 70)) (joins lone bob 80))
      (starts pair rng 1 "screen" screen)

alice_stays :
    Session to_lowercase 1 pair
      (watch 1 (watch 1 blank (add_client (new 9) alice 70).1) (add_client lone bob 80).1)
unfolding add_client new lookup insert
alice_stays = stayed (joined (new 9) alice 70 blank (created 9) refl refl) (joins lone bob 80) refl

Session-IsAccurate_example :
    IsAccurate pair
      (watch 1 (watch 1 blank (add_client (new 9) alice 70).1) (add_client lone bob 80).1)
Session-IsAccurate_example = Session-IsAccurate alice_stays

Reach-Inv_example : Inv sharing
Reach-Inv_example = Reach-Inv sharing-Reach

-- The task of another broadcast has a turn first.
leave-Settled_example :
    Settled 500
      (remove_client sharing 1).0
      (broadcast_tasks (499 ∷ 500 ∷ []) (remove_client sharing 1).0)
unfolding add_client new lookup insert client_broadcast_start draw_id new_broadcast contains
leave-Settled_example =
    leave-Settled to_lowercase sharing 1 alice 500 (new_broadcast alice 1 500 "screen" screen)
      (499 ∷ 500 ∷ []) sharing-Reach refl refl refl refl

unique_names_example : ◌≡◌ {A = ℕ} 500 500
unfolding add_client new lookup insert client_broadcast_start draw_id
unique_names_example =
    unique_names to_lowercase sharing 500 500 (new_broadcast alice 1 500 "screen" screen)
      (new_broadcast alice 1 500 "screen" screen) sharing-Reach (refl, refl) (refl, refl)
      (refl, refl, refl)

-- Alice's broadcast has ended, and Bob's has its id.
abbrev reused : Room
reused =
    (client_broadcast_start to_lowercase rng (broadcast_ended sharing 1 500).0 2 "window"
      screen).room

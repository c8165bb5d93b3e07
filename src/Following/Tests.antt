-- ===== src/Following/Tests.antt =====
-- Alice joins an empty room, and Bob after her; her connection answers a ping in between.
use text.Mathlib.Text.{◌==◌ as str_eq}
use simple_screen_share.Base.{String, Option, none, some, List, [], ◌∷◌, ◌++◌, if◌then◌else◌}
use simple_screen_share.Base.Map.{nat_key}
use simple_screen_share.Messages.{
  S2CMessage, notify, notify_users, notify_broadcasts, notify_user_joined,
}
use simple_screen_share.Broadcast.{ClientRef}
use simple_screen_share.Room.State.{Room, new}
use simple_screen_share.Room.Clients.{add_client}
use simple_screen_share.Room.View.{View}
use simple_screen_share.Signaling.{pong}
use simple_screen_share.Signaling.Writing
use simple_screen_share.Signaling.Writing.{Writer, Socket, open_socket, accepted}
use simple_screen_share.Following.{messages_to, deliver}

abbrev alice : ClientRef
alice = record { object = 0; client_id = 1 }

abbrev bob : ClientRef
bob = record { object = 1; client_id = 2 }

-- The texts that this run needs.
abbrev serialize : S2CMessage → Option String
serialize (notify (notify_users users)) = some "users"
serialize (notify (notify_broadcasts broadcasts)) = some "broadcasts"
serialize (notify (notify_user_joined user)) = some "user joined"
serialize m = none

abbrev parse : String → Option S2CMessage
parse payload =
    if str_eq payload "users"
    then some (notify (notify_users (record { client_id = 1; user_id = 70 } ∷ [])))
    else if str_eq payload "broadcasts"
    then some (notify (notify_broadcasts []))
    else if str_eq payload "user joined"
    then some (notify (notify_user_joined (record { client_id = 2; user_id = 80 })))
    else none

abbrev to_lowercase : String → String
to_lowercase s = s

abbrev lone : Room
lone = (add_client (new 9) alice 70).0

abbrev pair : Room
pair = (add_client lone bob 80).0

abbrev opened : Socket
opened = accepted (open_socket 1)

abbrev told_lone : Socket
told_lone = deliver serialize (messages_to 1 (add_client (new 9) alice 70).1) opened

abbrev ponged : Socket
ponged = Writing.send (pong (7 ∷ [])) told_lone

abbrev told_pair : Socket
told_pair = deliver serialize (messages_to 1 (add_client lone bob 80).1) ponged

abbrev all_told : List S2CMessage
all_told = messages_to 1 (add_client (new 9) alice 70).1 ++ messages_to 1 (add_client lone bob 80).1

-- Before, she believed that there was a user 5.
abbrev believed : View
believed = record { users = λ c. some 5; broadcasts = λ b. none }

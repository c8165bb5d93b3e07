-- ===== src/Following.antt =====
-- A client of a room at its web socket: the notifications of server/src/rtp_server/room.rs go through
-- `SignalingClient` of server/src/rtp_server/client.rs, and the client reads what the socket took.
pub mod Log
pub mod Accuracy
mod Tests
use simple_screen_share.Base.{
  ℕ, ◌≡◌, Bool, true, false, String, Option, none, some, List, [], ◌∷◌, ◌++◌, ◌==◌, if◌then◌else◌,
}
use simple_screen_share.Base.Map.{nat_key, contains_key}
use simple_screen_share.Messages.{ClientId, UserId, S2CMessage}
use simple_screen_share.Broadcast.{ClientRef}
use simple_screen_share.Room.State.{Room, Effect, send}
use simple_screen_share.Room.Clients.{add_client}
use simple_screen_share.Room.Steps.{Step, Reach}
use simple_screen_share.Room.View.{View, receive}
use simple_screen_share.Signaling.{Message, text}
use simple_screen_share.Signaling.Writing
use simple_screen_share.Signaling.Writing.{Socket, open_socket, Run}

-- The messages to one client, in order.
abbrev pub messages_to : ClientId → List Effect → List S2CMessage
messages_to c [] = []
messages_to c (send h m ∷ es) = if h.client_id == c then m ∷ messages_to c es else messages_to c es
messages_to c (e ∷ es) = messages_to c es

-- `send_message` of each of them, with the channel.
unfoldable pub deliver : (S2CMessage → Option String) → List S2CMessage → Socket → Socket
unfolding Writing.send
deliver serialize [] s = s
deliver serialize (m ∷ ms) s = elim (serialize m) [
  | none ↦ deliver serialize ms s
  | some payload ↦ deliver serialize ms (Writing.send (text payload) s)
]

-- What the client makes of a frame: text that it cannot parse and other frames tell it nothing.
abbrev pub hear : (String → Option S2CMessage) → View → Message → View
hear parse v (text payload) = elim (parse payload) [ none ↦ v | some m ↦ receive v m ]
hear parse v frame = v

abbrev pub follow : (String → Option S2CMessage) → View → List Message → View
follow parse v [] = v
follow parse v (frame ∷ frames) = follow parse (hear parse v frame) frames

module _ (to_lowercase : String → String) (serialize : S2CMessage → Option String) where
  -- The client of id `c` joins a reachable room and stays in it. The room's messages to it go on the
  -- channel of its web socket, whose tasks, and the other calls for the client, run in between. The
  -- room, the socket, what the room has sent, and what others have put on the channel since the join.
  pub data Joint (c : ClientId) : Room → Socket → List S2CMessage → List Message → Type 0 where
    joined :
        (r : Room) (client : ClientRef) (user : UserId) {log : List Message} {s : Socket}
        → Reach to_lowercase r
        → client.client_id ≡ c
        → contains_key c r.clients ≡ false
        → Run (open_socket c) log s
        → Joint c
            (add_client r client user).0
            (deliver serialize (messages_to c (add_client r client user).1) s)
            (messages_to c (add_client r client user).1)
            []
    room_step :
        {r r' : Room} {s : Socket} {told : List S2CMessage} {others : List Message}
        {es : List Effect}
        → Joint c r s told others
        → Step to_lowercase r es r'
        → contains_key c r'.clients ≡ true
        → Joint c r' (deliver serialize (messages_to c es) s) (told ++ messages_to c es) others
    socket_step :
        {r : Room} {s t : Socket} {told : List S2CMessage} {others new : List Message}
        → Joint c r s told others
        → Writing.Step s new t
        → Joint c r t told (others ++ new)

-- The message has a text that the client parses to it again.
abbrev pub IsCarried :
    (S2CMessage → Option String) → (String → Option S2CMessage) → S2CMessage → Type 0
IsCarried serialize parse m =
    (payload : String) × (serialize m ≡ some payload) × (parse payload ≡ some m)

-- The frame says nothing of the users and the broadcasts of a room.
abbrev pub IsSilent : (String → Option S2CMessage) → Message → Type 0
IsSilent parse frame = (v : View) → hear parse v frame ≡ v

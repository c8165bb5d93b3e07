-- ===== src/Signaling.antt =====
-- `SignalingClient` of server/src/rtp_server/client.rs: the state of a client's connection, what its
-- methods do to it, and the loop that reads from the web socket. `Arc` and locking are not modelled:
-- one method runs at a time. Serialisation is the parameter `serialize`, `none` where serde_json fails.
pub mod Lifecycle
pub mod Delivery
pub mod Queueing
pub mod Loops
pub mod Writing
pub mod Written
pub mod Draining
pub mod Stopping
mod Tests
mod SocketTests
use simple_screen_share.Base.{
  ℕ, ◌+◌, Bool, true, false, String, Option, none, some, List, [], ◌∷◌, ◌++◌, if◌then◌else◌,
}
use simple_screen_share.Messages.{ClientId, S2CMessage}

pub record CloseFrame : Type 0 where
  pub code : ℕ
  pub reason : String

-- `tungstenite::Message`, with what the program does not look into left as bytes.
pub data Message : Type 0 where
  text : String → Message
  binary ping pong : List ℕ → Message
  close : Option CloseFrame → Message

-- The `UnboundedSender` is the queue that the write loop reads.
pub data ClientConnection : Type 0 where
  connected disconnecting : (sender : List Message) → ClientConnection
  unconnected : ClientConnection

-- A registered `SignalingClientSubscriber`.
abbrev pub Subscriber : Type 0
Subscriber = ℕ

pub record SignalingClient : Type 0 where
  pub client_id : ClientId
  pub subscriber : List Subscriber
  pub connection : ClientConnection

pub data Event : Type 0 where
  -- The senders `shutdown_read` and `shutdown_write` are used.
  stop_reading stop_writing : Event
  connection_closing connection_closed : Subscriber → Event
  -- The task that sends the close frame and then closes the connection.
  spawn_close : Option CloseFrame → Event

unfoldable pub from_socket : ClientId → SignalingClient
from_socket client_id = record { client_id = client_id; subscriber = []; connection = connected [] }

unfoldable pub all_closing : List Subscriber → List Event
all_closing [] = []
all_closing (s ∷ ss) = connection_closing s ∷ all_closing ss

unfoldable pub all_closed : List Subscriber → List Event
all_closed [] = []
all_closed (s ∷ ss) = connection_closed s ∷ all_closed ss

unfoldable pub disconnect : SignalingClient → Option CloseFrame → SignalingClient × List Event
unfolding all_closing
disconnect client payload = elim client.connection [
  | connected sender ↦ (
    record client { connection = disconnecting sender },
    stop_reading ∷ spawn_close payload ∷ all_closing client.subscriber,
  )
  | disconnecting sender ↦ (client, [])
  | unconnected ↦ (client, [])
]

unfoldable pub close_connection : SignalingClient → SignalingClient × List Event
unfolding all_closing all_closed
close_connection client = elim client.connection [
  | connected sender ↦ (
    record client { connection = unconnected },
    stop_reading ∷ stop_writing ∷ (all_closing client.subscriber ++ all_closed client.subscriber),
  )
  | disconnecting sender ↦
      (record client { connection = unconnected }, stop_writing ∷ all_closed client.subscriber)
  | unconnected ↦ (client, [])
]

unfoldable pub send_raw : SignalingClient → Message → SignalingClient
send_raw client payload = elim client.connection [
  | connected sender ↦ record client { connection = connected (sender ++ (payload ∷ [])) }
  | disconnecting sender ↦ client
  | unconnected ↦ client
]

unfoldable pub send_message :
    (S2CMessage → Option String) → SignalingClient → S2CMessage → SignalingClient
unfolding send_raw
send_message serialize client message = elim (serialize message) [
  | none ↦ client
  | some payload ↦ send_raw client (text payload)
]

-- The task that `disconnect` spawns: its own `sender` still puts the close frame on the queue, then
-- the connection is closed. The queue of a connection that was closed meanwhile is gone.
unfoldable pub flush_close : SignalingClient → Option CloseFrame → SignalingClient × List Event
unfolding close_connection
flush_close client payload = elim client.connection [
  | connected sender ↦
      close_connection (record client { connection = connected (sender ++ (close payload ∷ [])) })
  | disconnecting sender ↦
      close_connection
        (record client { connection = disconnecting (sender ++ (close payload ∷ [])) })
  | unconnected ↦ close_connection client
]

-- ===== src/Signaling/Lifecycle.antt =====
-- A connection of server/src/rtp_server/client.rs through any calls of its methods, in any order, and
-- what its subscribers are told.
use simple_screen_share.Base.{◌≡◌, String, Option, List, [], ◌∷◌, ◌++◌}
use simple_screen_share.Messages.{S2CMessage}
use simple_screen_share.Signaling.{
  CloseFrame, Message, ClientConnection, connected, disconnecting, unconnected, Subscriber,
  SignalingClient, Event, stop_reading, stop_writing, connection_closing, connection_closed,
  spawn_close, all_closing, all_closed, disconnect, close_connection, send_raw, send_message,
  flush_close,
}

pub data Step : SignalingClient → List Event → SignalingClient → Type 0 where
  disconnects :
      (c : SignalingClient) (payload : Option CloseFrame)
      → Step c (disconnect c payload).1 (disconnect c payload).0
  closes : (c : SignalingClient) → Step c (close_connection c).1 (close_connection c).0
  flushes :
      (c : SignalingClient) (payload : Option CloseFrame)
      → Step c (flush_close c payload).1 (flush_close c payload).0
  sends :
      (c : SignalingClient) (serialize : S2CMessage → Option String) (m : S2CMessage)
      → Step c [] (send_message serialize c m)
  sends_raw : (c : SignalingClient) (m : Message) → Step c [] (send_raw c m)

-- The events of a history, from a connected client with its subscribers on.
pub data Run (ss : List Subscriber) : List Event → SignalingClient → Type 0 where
  opened :
      (c : SignalingClient) (sender : List Message)
      → c.connection ≡ connected sender
      → c.subscriber ≡ ss
      → Run ss [] c
  then_step :
      {es fs : List Event} {c c' : SignalingClient}
      → Run ss es c
      → Step c fs c'
      → Run ss (es ++ fs) c'

-- The calls of the subscribers' methods among the events.
unfoldable pub told : List Event → List Event
told [] = []
told (stop_reading ∷ es) = told es
told (stop_writing ∷ es) = told es
told (spawn_close p ∷ es) = told es
told (connection_closing s ∷ es) = connection_closing s ∷ told es
told (connection_closed s ∷ es) = connection_closed s ∷ told es

-- What the subscribers have been told when the connection is in a state.
abbrev pub due : ClientConnection → List Subscriber → List Event
due (connected sender) ss = []
due (disconnecting sender) ss = all_closing ss
due unconnected ss = all_closing ss ++ all_closed ss

-- A step tells what becomes due by it, and keeps the subscribers.
abbrev pub Tells : SignalingClient → List Event → SignalingClient → Type 0
Tells c es c' =
    (c'.subscriber ≡ c.subscriber)
    × (due c.connection c.subscriber ++ told es ≡ due c'.connection c.subscriber)

-- ===== src/Signaling/Writing.antt =====
-- The connection of server/src/rtp_server/client.rs with its tasks: `from_socket` accepts the web
-- socket and starts the loops, `spawn_write_loop` writes what was sent, and the task of `disconnect`
-- closes. The tasks and the calls of the client's methods run in any order.
use simple_screen_share.Base.{Bool, true, false, ◌≡◌, ◌⊎◌, Option, List, [], ◌∷◌, ◌++◌}
use simple_screen_share.Messages.{ClientId}
use simple_screen_share.Signaling.{
  CloseFrame, Message, close, ClientConnection, connected, disconnecting, unconnected,
  SignalingClient, from_socket, disconnect, close_connection, send_raw,
}

-- Where the task that accepts is, and after it the write loop: at its first `select!`, or at the one
-- that sends a message.
pub data Writer : Type 0 where
  accepting receiving stopped : Writer
  sending : Message → Writer

-- `queue` is the channel, `written` what the web socket took, `tasks` has the tasks that
-- `disconnect` has spawned, `shutdown_read` and `shutdown_write` are whether the senders were used,
-- and `told_connected` is whether the subscribers' `connected` was called.
pub record Socket : Type 0 where
  pub client : SignalingClient
  pub queue : List Message
  pub writer : Writer
  pub written : List Message
  pub tasks : List (Option CloseFrame)
  pub shutdown_read : Bool
  pub shutdown_write : Bool
  pub told_connected : Bool

unfoldable pub open_socket : ClientId → Socket
unfolding from_socket
open_socket client_id = record {
  client = from_socket client_id;
  queue = [];
  writer = accepting;
  written = [];
  tasks = [];
  shutdown_read = false;
  shutdown_write = false;
  told_connected = false;
}

unfoldable pub enqueue : Message → Socket → Socket
enqueue m s = record s { queue = s.queue ++ (m ∷ []) }

unfoldable pub is_connected : ClientConnection → Bool
is_connected (connected sender) = true
is_connected (disconnecting sender) = false
is_connected unconnected = false

-- `send_raw`, with the channel.
unfoldable pub send : Message → Socket → Socket
unfolding send_raw enqueue
send m s = elim s.client.connection [
  | connected sender ↦ record (enqueue m s) { client = send_raw s.client m }
  | disconnecting sender ↦ s
  | unconnected ↦ s
]

-- `disconnect`, with its task and its shutdown.
unfoldable pub start_closing : Option CloseFrame → Socket → Socket
unfolding disconnect
start_closing payload s = elim s.client.connection [
  | connected sender ↦ record s {
    client = (disconnect s.client payload).0;
    tasks = s.tasks ++ (payload ∷ []);
    shutdown_read = true;
  }
  | disconnecting sender ↦ s
  | unconnected ↦ s
]

-- `close_connection`, with its shutdowns.
unfoldable pub shut : Socket → Socket
unfolding close_connection
shut s = elim s.client.connection [
  | connected sender ↦ record s {
    client = (close_connection s.client).0;
    shutdown_read = true;
    shutdown_write = true;
  }
  | disconnecting sender ↦ record s {
    client = (close_connection s.client).0;
    shutdown_write = true;
  }
  | unconnected ↦ s
]

-- The task of `disconnect`, which has a sender of its own.
unfoldable pub finish : List (Option CloseFrame) → Option CloseFrame → Socket → Socket
unfolding enqueue shut
finish others payload s = shut (enqueue (close payload) (record s { tasks = others }))

-- The web socket is accepted: the loops start and the subscribers are told.
unfoldable pub accepted : Socket → Socket
accepted s = record s { writer = receiving; told_connected = true }

unfoldable pub accept_failed : Socket → Socket
unfolding shut
accept_failed s = shut (record s { writer = stopped })

unfoldable pub stop : Socket → Socket
stop s = record s { writer = stopped }

unfoldable pub receive : Message → List Message → Socket → Socket
receive m rest s = record s { queue = rest; writer = sending m }

unfoldable pub wrote : Message → Socket → Socket
wrote m s = record s { writer = receiving; written = s.written ++ (m ∷ []) }

unfoldable pub write_failed : Socket → Socket
unfolding shut
write_failed s = shut (record s { writer = stopped })

-- One step, and what it puts on the channel.
pub data Step (s : Socket) : List Message → Socket → Type 0 where
  sends : (m : Message) → is_connected s.client.connection ≡ true → Step s (m ∷ []) (send m s)
  drops : (m : Message) → is_connected s.client.connection ≡ false → Step s [] (send m s)
  disconnects : (payload : Option CloseFrame) → Step s [] (start_closing payload s)
  closes : Step s [] (shut s)
  finishes :
      (before after : List (Option CloseFrame)) (payload : Option CloseFrame)
      → s.tasks ≡ before ++ (payload ∷ after)
      → Step s (close payload ∷ []) (finish (before ++ after) payload s)
  accepts : s.writer ≡ accepting → Step s [] (accepted s)
  fails_to_accept : s.writer ≡ accepting → Step s [] (accept_failed s)
  -- Either shutdown ends the task that accepts.
  shut_while_accepting :
      s.writer ≡ accepting
      → (s.shutdown_read ≡ true) ⊎ (s.shutdown_write ≡ true)
      → Step s [] (stop s)
  receives :
      (m : Message) (rest : List Message)
      → s.writer ≡ receiving
      → s.queue ≡ m ∷ rest
      → Step s [] (receive m rest s)
  shut_while_receiving : s.writer ≡ receiving → s.shutdown_write ≡ true → Step s [] (stop s)
  -- `recv` has `None` once every sender is gone.
  runs_dry :
      s.writer ≡ receiving
      → s.queue ≡ []
      → s.client.connection ≡ unconnected
      → s.tasks ≡ []
      → Step s [] (stop s)
  writes : (m : Message) → s.writer ≡ sending m → Step s [] (wrote m s)
  fails_to_write : (m : Message) → s.writer ≡ sending m → Step s [] (write_failed s)
  shut_while_sending :
      (m : Message) → s.writer ≡ sending m → s.shutdown_write ≡ true → Step s [] (stop s)

-- What a run has put on the channel.
pub data Run (s : Socket) : List Message → Socket → Type 0 where
  start : Run s [] s
  then_step :
      {log new : List Message} {t u : Socket} → Run s log t → Step t new u → Run s (log ++ new) u

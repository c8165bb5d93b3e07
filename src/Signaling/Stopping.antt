-- ===== src/Signaling/Stopping.antt =====
-- When the tasks of a connection of server/src/rtp_server/client.rs are told to stop, and that they do.
use simple_screen_share.Base.{Bool, true, false, not, ◌&&◌, ◌||◌, ◌≡◌, Option, List, [], ◌∷◌}
use simple_screen_share.Signaling.{
  CloseFrame, Message, ClientConnection, connected, disconnecting, unconnected,
}
use simple_screen_share.Signaling.Writing.{
  Writer, accepting, receiving, sending, stopped, Socket, is_connected, Run,
}

abbrev is_unconnected : ClientConnection → Bool
is_unconnected (connected sender) = false
is_unconnected (disconnecting sender) = false
is_unconnected unconnected = true

abbrev is_stopped : Writer → Bool
is_stopped accepting = false
is_stopped receiving = false
is_stopped stopped = true
is_stopped (sending m) = false

abbrev is_idle : List (Option CloseFrame) → Bool
is_idle [] = true
is_idle (p ∷ ps) = false

-- The shutdowns were used as the connection says, a writer does not stop while the client is
-- connected, and a client that is disconnecting has a task that closes it.
abbrev pub Sane : Socket → Type 0
Sane s =
    (s.shutdown_write ≡ is_unconnected s.client.connection)
    × (s.shutdown_read ≡ not (is_connected s.client.connection))
    × ((is_stopped s.writer && is_connected s.client.connection) ≡ false)
    × ((is_idle s.tasks
          && not (is_connected s.client.connection || is_unconnected s.client.connection))
        ≡ false)

-- A run of the tasks after which the connection is closed and the writer has stopped.
abbrev pub Ends : Socket → Type 0
Ends s =
    (log : List Message) × (t : Socket) × Run s log t
    × (t.client.connection ≡ unconnected)
    × (t.writer ≡ stopped)

-- ===== src/Signaling/SocketTests.antt =====
-- A connection of server/src/rtp_server/client.rs that is accepted, sends and is disconnected.
use simple_screen_share.Base.{◌≡◌, refl, none, [], ◌∷◌}
use simple_screen_share.Signaling.{Message, ping, close, from_socket}
use simple_screen_share.Signaling.Writing.{
  Socket, stopped, open_socket, is_connected, enqueue, send, start_closing, accepted, receive,
  wrote, Run,
}
use simple_screen_share.Signaling.Draining.{disconnect_unflushed}

-- A first message is written and a second one waits.
abbrev first : Message
first = ping (1 ∷ [])

abbrev second : Message
second = ping (2 ∷ [])

abbrev both_sent : Socket
both_sent = send second (send first (accepted (open_socket 1)))

abbrev one_written : Socket
one_written = wrote first (receive first (second ∷ []) both_sent)

disconnect_unflushed_example :
    (t : Socket) × Run one_written (close none ∷ []) t
    × (t.writer ≡ stopped)
    × (t.written ≡ first ∷ [])
    × (t.queue ≡ second ∷ close none ∷ [])
unfolding open_socket accepted send receive wrote is_connected enqueue from_socket
disconnect_unflushed_example = disconnect_unflushed one_written none refl refl

abbrev disconnected : Socket
disconnected = start_closing none one_written

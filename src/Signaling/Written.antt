-- ===== src/Signaling/Written.antt =====
-- What reaches the web socket of server/src/rtp_server/client.rs.
use simple_screen_share.Base.{false, ◌≡◌, ◌⊎◌, List, [], ◌∷◌, ◌++◌, arith}
use simple_screen_share.Signaling.{Message}
use simple_screen_share.Signaling.Writing.{
  Writer, accepting, receiving, sending, stopped, Socket, is_connected, send, shut,
}

abbrev pub in_flight : Writer → List Message
in_flight accepting = []
in_flight receiving = []
in_flight stopped = []
in_flight (sending m) = m ∷ []

-- What was put on the channel is what was written, then what the writer holds, and what waits.
abbrev pub Accounted : List Message → Socket → Type 0
Accounted log s =
    (held : List Message) × (log ≡ s.written ++ (held ++ s.queue))
    × ((held ≡ in_flight s.writer) ⊎ (s.writer ≡ stopped))

pub shut-keeps :
    (s : Socket)
    → ((shut s).queue ≡ s.queue)
      × ((shut s).writer ≡ s.writer)
      × ((shut s).written ≡ s.written)
      × ((shut s).tasks ≡ s.tasks)
unfolding shut
shut-keeps s = ground arith

pub send-dropped :
    (m : Message) (s : Socket) → is_connected s.client.connection ≡ false → send m s ≡ s
unfolding send is_connected
send-dropped m s d = ground arith

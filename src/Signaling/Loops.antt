-- ===== src/Signaling/Loops.antt =====
-- The read loop of server/src/rtp_server/client.rs. It is given what it receives until it is shut
-- down. Parsing is the parameter `parse`, and a request's handler is the parameter `handle` on a state
-- of its own: it says which messages it has sent to this client before it responds, and what it
-- responds.
use mathlib.Core.List.{append_assoc}
use simple_screen_share.Base.{
  ℕ, ◌≡◌, refl, ap, ap₂, ◌∙◌, String, Option, none, some, List, [], ◌∷◌, ◌++◌, Option-cases, inl,
  inr,
}
use simple_screen_share.Messages.{
  C2SRequest, C2SMessage, request, S2CResponse, S2CMessage, response,
}
use simple_screen_share.Signaling.{
  CloseFrame, Message, text, binary, ping, pong, close, connected, disconnecting, SignalingClient,
  Event, stop_reading, spawn_close, all_closing, send_raw, send_message, disconnect,
}
use simple_screen_share.Signaling.Delivery.{send_messages, frames}
use simple_screen_share.Signaling.Queueing.{
  queued_nil, send_raw-queued, send_messages-queued, send_messages-last,
}

-- What `stream.next()` gives.
pub data Received : Type 0 where
  got : Message → Received
  failed ended : Received

-- The state of the handler, the client and the events.
pub record Reading (S : Type 0) : Type 0 where
  pub handler : S
  pub client : SignalingClient
  pub events : List Event

-- `code` is that of `CloseCode::Error`.
abbrev pub recv_failed : (code : ℕ) → CloseFrame
recv_failed code = record { code = code; reason = "recv failed" }

module _ {S : Type 0} (serialize : S2CMessage → Option String) (parse : String → Option C2SMessage)
    (handle : S → C2SRequest → S × List S2CMessage × S2CResponse) (error_code : ℕ) where
  -- A request is handled, and its response sent with its id.
  unfoldable pub respond_to : S → SignalingClient → C2SMessage → S × SignalingClient
  unfolding send_messages send_message
  respond_to s client (request request_id r) =
      let (s', sent, answer) = handle s r in
      (
        s',
        send_message serialize (send_messages serialize client sent) (response request_id answer),
      )

  unfoldable pub read_message : S → SignalingClient → Message → S × SignalingClient
  unfolding send_raw respond_to
  read_message s client (ping payload) = (s, send_raw client (pong payload))
  read_message s client (pong payload) = (s, client)
  read_message s client (text payload) = elim (parse payload) [
    | none ↦ (s, client)
    | some message ↦ respond_to s client message
  ]
  read_message s client (binary payload) = (s, client)
  read_message s client (close frame) = (s, client)

  unfoldable pub read_loop : S → SignalingClient → List Received → Reading S
  unfolding read_message disconnect
  read_loop s client [] = record { handler = s; client = client; events = [] }
  read_loop s client (got message ∷ rest) =
      let (s', client') = read_message s client message in read_loop s' client' rest
  read_loop s client (failed ∷ rest) =
      let (client', events) = disconnect client (some (recv_failed error_code)) in
      record { handler = s; client = client'; events = events }
  read_loop s client (ended ∷ rest) =
      let (client', events) = disconnect client none in
      record { handler = s; client = client'; events = events }

  -- What a message is answered with: a pong has the ping's payload, a response the request's id.
  abbrev pub answer_to : S → Message → S × List Message
  answer_to s (ping payload) = (s, pong payload ∷ [])
  answer_to s (pong payload) = (s, [])
  answer_to s (text payload) = elim (parse payload) [
    | none ↦ (s, [])
    | some (request request_id r) ↦ (
      (handle s r).0,
      frames serialize ((handle s r).1 ++ (response request_id (handle s r).2 ∷ [])),
    )
  ]
  answer_to s (binary payload) = (s, [])
  answer_to s (close frame) = (s, [])

  abbrev pub answers : S → List Message → List Message
  answers s [] = []
  answers s (m ∷ ms) = (answer_to s m).1 ++ answers (answer_to s m).0 ms

  abbrev pub handled : S → List Message → S
  handled s [] = s
  handled s (m ∷ ms) = handled (answer_to s m).0 ms

  abbrev pub received : List Message → List Received → List Received
  received [] after = after
  received (m ∷ ms) after = got m ∷ received ms after

  read_message-answers :
      (s : S) (client : SignalingClient) (sender : List Message) (m : Message)
      → client.connection ≡ connected sender
      → ((read_message s client m).0 ≡ (answer_to s m).0)
        × ((read_message s client m).1
            ≡ record client { connection = connected (sender ++ (answer_to s m).1) })
  unfolding read_message respond_to
  read_message-answers s client sender (ping payload) e =
      (refl, send_raw-queued client sender (pong payload) e)
  read_message-answers s client sender (pong payload) e = (refl, queued_nil client sender e)
  read_message-answers s client sender (binary payload) e = (refl, queued_nil client sender e)
  read_message-answers s client sender (close frame) e = (refl, queued_nil client sender e)
  read_message-answers s client sender (text payload) e = elim (Option-cases (parse payload)) [
    | inl f ↦ rw (f, read_message, answer_to) (refl, queued_nil client sender e)
    | inr (request id r, f) ↦
        rw (f, read_message, answer_to)
          (
            refl,
            send_messages-last serialize client (handle s r).1 (response id (handle s r).2)
                ∙ send_messages-queued serialize client sender
                    ((handle s r).1 ++ (response id (handle s r).2 ∷ [])) e,
          )
  ]

  -- The messages are answered, and the loop goes on.
  read_loop-received :
      (s : S) (client : SignalingClient) (sender : List Message) (ms : List Message)
      (after : List Received)
      → client.connection ≡ connected sender
      → read_loop s client (received ms after)
        ≡ read_loop
            (handled s ms)
            (record client { connection = connected (sender ++ answers s ms) })
            after
  unfolding read_loop
  read_loop-received s client sender [] after e =
      ap (λ (c : SignalingClient). read_loop s c after) (queued_nil client sender e)
  read_loop-received s client sender (m ∷ ms) after e =
      let s' = (answer_to s m).0 in
      let answered : SignalingClient = record client {
        connection = connected (sender ++ (answer_to s m).1);
      } in
      let now = read_message-answers s client sender m e in
      ap₂ (λ (h : S) (c : SignalingClient). read_loop h c (received ms after)) now.0 now.1
      ∙ (read_loop-received s' answered (sender ++ (answer_to s m).1) ms after refl
          ∙ ap (λ q. read_loop (handled s' ms) (record client { connection = connected q }) after)
              (append_assoc sender (answer_to s m).1 (answers s' ms)))

  -- A connected client that sends messages and then fails or goes away has every message answered
  -- in the order of the messages, behind what is queued: a ping by a pong with its payload, a
  -- request by what its handler sends and then by a response with the request's id; anything else,
  -- an unreadable text included, has no answer. Then the connection is disconnecting with a close
  -- frame that tells of a failure, and the subscribers are told.
  pub read_loop-answers :
      (s : S) (client : SignalingClient) (sender : List Message) (ms : List Message)
      → client.connection ≡ connected sender
      → (read_loop s client (received ms []) ≡ record {
        handler = handled s ms;
        client = record client { connection = connected (sender ++ answers s ms) };
        events = [];
      })
        × (read_loop s client (received ms (failed ∷ [])) ≡ record {
          handler = handled s ms;
          client = record client { connection = disconnecting (sender ++ answers s ms) };
          events =
              stop_reading
              ∷ spawn_close (some (recv_failed error_code))
              ∷ all_closing client.subscriber;
        })
        × (read_loop s client (received ms (ended ∷ [])) ≡ record {
          handler = handled s ms;
          client = record client { connection = disconnecting (sender ++ answers s ms) };
          events = stop_reading ∷ spawn_close none ∷ all_closing client.subscriber;
        })
  unfolding read_loop disconnect
  read_loop-answers s client sender ms e = (
    read_loop-received s client sender ms [] e,
    read_loop-received s client sender ms (failed ∷ []) e,
    read_loop-received s client sender ms (ended ∷ []) e,
  )

-- ===== src/Signaling/Delivery.antt =====
-- What reaches the queue of the write loop.
use mathlib.Core.List.{append_assoc, append-nil}
use simple_screen_share.Base.{
  ℕ, ◌≤◌, ◌≡◌, ap, sym, ◌∙◌, String, Option, none, some, List, [], ◌∷◌, ◌++◌, Option-cases, inl,
  inr, arith,
}
use simple_screen_share.Messages.{S2CMessage}
use simple_screen_share.Signaling.{
  Message, text, ClientConnection, connected, disconnecting, unconnected, SignalingClient, Event,
  disconnect, close_connection, send_raw, send_message, flush_close,
}
use simple_screen_share.Signaling.Lifecycle.{Step, disconnects, closes, flushes, sends, sends_raw}

-- The frames that the messages serialise to; those that do not are left out.
abbrev pub frames : (S2CMessage → Option String) → List S2CMessage → List Message
frames serialize [] = []
frames serialize (m ∷ ms) = elim (serialize m) [
  | none ↦ frames serialize ms
  | some payload ↦ text payload ∷ frames serialize ms
]

unfoldable pub send_messages :
    (S2CMessage → Option String) → SignalingClient → List S2CMessage → SignalingClient
send_messages serialize client [] = client
send_messages serialize client (m ∷ ms) =
    send_messages serialize (send_message serialize client m) ms

pub send_message-none :
    (serialize : S2CMessage → Option String) (client : SignalingClient) (m : S2CMessage)
    → serialize m ≡ none
    → send_message serialize client m ≡ client
unfolding send_message
send_message-none serialize client m f = rw (f, send_message)

pub send_message-some :
    (serialize : S2CMessage → Option String) (client : SignalingClient) (m : S2CMessage)
    (t : String)
    → serialize m ≡ some t
    → send_message serialize client m ≡ send_raw client (text t)
unfolding send_message
send_message-some serialize client m t f = rw (f, send_message)

send_raw-connected :
    (client : SignalingClient) (sender : List Message) (m : Message)
    → client.connection ≡ connected sender
    → (send_raw client m).connection ≡ connected (sender ++ (m ∷ []))
unfolding send_raw
send_raw-connected client sender m e = ground arith

-- A connected client queues every message that serialises, in order, behind what is queued.
pub send_messages-connected :
    (serialize : S2CMessage → Option String) (client : SignalingClient) (sender : List Message)
    (ms : List S2CMessage)
    → client.connection ≡ connected sender
    → (send_messages serialize client ms).connection ≡ connected (sender ++ frames serialize ms)
unfolding send_messages
send_messages-connected serialize client sender [] e = e ∙ ap connected (sym (append-nil sender))
send_messages-connected serialize client sender (m ∷ ms) e = elim (Option-cases (serialize m)) [
  | inl f ↦
      ap (λ (c : SignalingClient). (send_messages serialize c ms).connection)
        (send_message-none serialize client m f)
      ∙ rw (f, frames) (send_messages-connected serialize client sender ms e)
  | inr (t, f) ↦
      ap (λ (c : SignalingClient). (send_messages serialize c ms).connection)
        (send_message-some serialize client m t f)
      ∙ rw (f, frames)
          (send_messages-connected serialize (send_raw client (text t)) (sender ++ (text t ∷ [])) ms
              (send_raw-connected client sender (text t) e)
            ∙ ap connected (append_assoc sender (text t ∷ []) (frames serialize ms)))
]

-- How far a connection is on its way down.
abbrev pub stage : ClientConnection → ℕ
stage (connected sender) = 0
stage (disconnecting sender) = 1
stage unconnected = 2

send_raw-stage :
    (c : SignalingClient) (m : Message) → stage c.connection ≤ stage (send_raw c m).connection
unfolding send_raw
send_raw-stage c m = ground arith

send_message-stage :
    (serialize : S2CMessage → Option String) (c : SignalingClient) (m : S2CMessage)
    → stage c.connection ≤ stage (send_message serialize c m).connection
send_message-stage serialize c m = elim (Option-cases (serialize m)) [
  | inl f ↦ rw (send_message-none serialize c m f) (omega arith)
  | inr (t, f) ↦ rw (send_message-some serialize c m t f) (send_raw-stage c (text t))
]

-- No call takes a connection back: a connection that is disconnecting is never connected again, and
-- one that is unconnected stays so.
Step-stage :
    {c c' : SignalingClient} {es : List Event}
    → Step c es c'
    → stage c.connection ≤ stage c'.connection
unfolding disconnect close_connection flush_close
Step-stage (disconnects c payload) = ground arith
Step-stage (closes c) = ground arith
Step-stage (flushes c payload) = ground arith
Step-stage (sends c serialize m) = send_message-stage serialize c m
Step-stage (sends_raw c m) = send_raw-stage c m

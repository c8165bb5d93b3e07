-- ===== src/Signaling/Queueing.antt =====
-- The queue of a connected client of server/src/rtp_server/client.rs under `send_raw` and
-- `send_message`.
use mathlib.Core.List.{append_assoc, append-nil}
use simple_screen_share.Base.{
  ◌≡◌, refl, ap, ◌∙◌, String, Option, List, [], ◌∷◌, ◌++◌, Option-cases, inl, inr, arith,
}
use simple_screen_share.Messages.{S2CMessage}
use simple_screen_share.Signaling.{
  Message, text, connected, SignalingClient, send_raw, send_message,
}
use simple_screen_share.Signaling.Delivery.{
  send_messages, send_message-none, send_message-some, frames,
}

pub queued_nil :
    (client : SignalingClient) (sender : List Message)
    → client.connection ≡ connected sender
    → client ≡ record client { connection = connected (sender ++ []) }
queued_nil client sender e = ground (arith, append-nil sender)

pub send_raw-queued :
    (client : SignalingClient) (sender : List Message) (m : Message)
    → client.connection ≡ connected sender
    → send_raw client m ≡ record client { connection = connected (sender ++ (m ∷ [])) }
unfolding send_raw
send_raw-queued client sender m e = ground arith

-- `send_messages` touches the queue only.
pub send_messages-queued :
    (serialize : S2CMessage → Option String) (client : SignalingClient) (sender : List Message)
    (ms : List S2CMessage)
    → client.connection ≡ connected sender
    → send_messages serialize client ms
      ≡ record client { connection = connected (sender ++ frames serialize ms) }
unfolding send_messages send_message
send_messages-queued serialize client sender [] e = queued_nil client sender e
send_messages-queued serialize client sender (m ∷ ms) e = elim (Option-cases (serialize m)) [
  | inl f ↦
      ap (λ (c : SignalingClient). send_messages serialize c ms)
        (send_message-none serialize client m f)
      ∙ rw (f, frames) (send_messages-queued serialize client sender ms e)
  | inr (t, f) ↦
      let queued : SignalingClient = record client {
        connection = connected (sender ++ (text t ∷ []));
      } in
      rw (f, frames)
        (ap (λ (c : SignalingClient). send_messages serialize c ms)
            (send_message-some serialize client m t f ∙ send_raw-queued client sender (text t) e)
          ∙ (send_messages-queued serialize queued (sender ++ (text t ∷ [])) ms refl
              ∙ ap (λ q. record client { connection = connected q })
                  (append_assoc sender (text t ∷ []) (frames serialize ms))))
]

pub send_messages-last :
    (serialize : S2CMessage → Option String) (client : SignalingClient) (ms : List S2CMessage)
    (m : S2CMessage)
    → send_message serialize (send_messages serialize client ms) m
      ≡ send_messages serialize client (ms ++ (m ∷ []))
unfolding send_messages
send_messages-last serialize client [] m = refl
send_messages-last serialize client (n ∷ ms) m =
    send_messages-last serialize (send_message serialize client n) ms m

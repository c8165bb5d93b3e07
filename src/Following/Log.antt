-- ===== src/Following/Log.antt =====
-- What a client has heard of the messages that server/src/rtp_server/client.rs put on its channel.
use simple_screen_share.Base.{
  ◌≡◌, refl, sym, ap, ◌∙◌, true, false, String, Option, some, List, [], ◌∷◌, ◌++◌, All,
  Option-cases, Bool-cases, inl, inr, arith, ◌==◌,
}
use simple_screen_share.Messages.{ClientId, S2CMessage}
use simple_screen_share.Room.State.{
  Effect, send, client_joined, client_left, client_broadcast_started, client_broadcast_ended,
  spawn_broadcast, wake_broadcast, drop_source, drop_target,
}
use simple_screen_share.Room.View.{View, receive, watch}
use simple_screen_share.Signaling.{
  Message, text, close, CloseFrame, send_raw, disconnect, close_connection,
}
use simple_screen_share.Signaling.Writing
use simple_screen_share.Signaling.Writing.{
  Socket, open_socket, is_connected, Run, then_step, sends, drops, enqueue, shut, start_closing,
  finish, accept_failed, stop, write_failed, wrote, accepted, stopped,
}
use simple_screen_share.Signaling.Written.{send-dropped}
use simple_screen_share.Following.{messages_to, deliver, hear, follow, IsCarried, IsSilent}

-- The messages themselves, applied to a view.
abbrev pub receive_all : View → List S2CMessage → View
receive_all v [] = v
receive_all v (m ∷ ms) = receive_all (receive v m) ms

pub watch-messages_to :
    (c : ClientId) (v : View) (es : List Effect) → watch c v es ≡ receive_all v (messages_to c es)
unfolding watch
watch-messages_to c v [] = refl
watch-messages_to c v (send h m ∷ es) = elim (Bool-cases (h.client_id == c)) [
  | inl here ↦ rw here (watch-messages_to c (receive v m) es)
  | inr away ↦ rw away (watch-messages_to c v es)
]
watch-messages_to c v (client_joined s k h ∷ es) = watch-messages_to c v es
watch-messages_to c v (client_left s k h ∷ es) = watch-messages_to c v es
watch-messages_to c v (client_broadcast_started s k b ∷ es) = watch-messages_to c v es
watch-messages_to c v (client_broadcast_ended s k b ∷ es) = watch-messages_to c v es
watch-messages_to c v (spawn_broadcast b ∷ es) = watch-messages_to c v es
watch-messages_to c v (wake_broadcast b ∷ es) = watch-messages_to c v es
watch-messages_to c v (drop_source source ∷ es) = watch-messages_to c v es
watch-messages_to c v (drop_target target ∷ es) = watch-messages_to c v es

pub send-stays :
    (m : Message) (s : Socket)
    → is_connected (Writing.send m s).client.connection ≡ is_connected s.client.connection
unfolding Writing.send is_connected send_raw enqueue
send-stays m s = ground arith

pub deliver-stays :
    (serialize : S2CMessage → Option String) (ms : List S2CMessage) (s : Socket)
    → is_connected (deliver serialize ms s).client.connection ≡ is_connected s.client.connection
unfolding deliver
deliver-stays serialize [] s = refl
deliver-stays serialize (m ∷ ms) s = elim (Option-cases (serialize m)) [
  | inl fails ↦ rw (fails, deliver) (deliver-stays serialize ms s)
  | inr (payload, e) ↦
      rw (e, deliver)
        (deliver-stays serialize ms (Writing.send (text payload) s) ∙ send-stays (text payload) s)
]

-- A closed connection is not connected.
shut-unconnected : (s : Socket) → is_connected (shut s).client.connection ≡ false
unfolding is_connected shut close_connection
shut-unconnected s = ground arith

start_closing-unconnected :
    (payload : Option CloseFrame) (s : Socket)
    → is_connected (start_closing payload s).client.connection ≡ false
unfolding is_connected start_closing disconnect
start_closing-unconnected payload s = ground arith

-- A connection that is connected after a step was so before.
pub Step-connected :
    {s t : Socket} {new : List Message}
    → Writing.Step s new t
    → is_connected t.client.connection ≡ true
    → is_connected s.client.connection ≡ true
unfolding finish accept_failed stop write_failed wrote accepted Writing.receive enqueue
Step-connected {s = s} (Writing.sends m e) c = e
Step-connected {s = s} (Writing.drops m e) c = sym (send-stays m s) ∙ c
Step-connected {s = s} (Writing.disconnects p) c = cc (c, start_closing-unconnected p s)
Step-connected {s = s} Writing.closes c = cc (c, shut-unconnected s)
Step-connected {s = s} (Writing.finishes before after p e) c =
    cc (c, shut-unconnected (enqueue (close p) (record s { tasks = before ++ after })))
Step-connected {s = s} (Writing.accepts w) c = c
Step-connected {s = s} (Writing.fails_to_accept w) c =
    cc (c, shut-unconnected (record s { writer = stopped }))
Step-connected {s = s} (Writing.shut_while_accepting w d) c = c
Step-connected {s = s} (Writing.receives m rest w q) c = c
Step-connected {s = s} (Writing.shut_while_receiving w d) c = c
Step-connected {s = s} (Writing.runs_dry w q u t) c = c
Step-connected {s = s} (Writing.writes m w) c = c
Step-connected {s = s} (Writing.fails_to_write m w) c =
    cc (c, shut-unconnected (record s { writer = stopped }))
Step-connected {s = s} (Writing.shut_while_sending m w d) c = c

module _ (parse : String → Option S2CMessage) where
  pub follow-append :
      (v : View) (xs ys : List Message)
      → follow parse v (xs ++ ys) ≡ follow parse (follow parse v xs) ys
  follow-append v [] ys = refl
  follow-append v (x ∷ xs) ys = follow-append (hear parse v x) xs ys

  pub follow-silent :
      (v : View) (frames : List Message) → All (IsSilent parse) frames → follow parse v frames ≡ v
  follow-silent v [] k = refl
  follow-silent v (m ∷ frames) (silent, k) = follow-silent (hear parse v m) frames k ∙ silent v

  pub hear-carried :
      (v : View) (m : S2CMessage) (payload : String)
      → parse payload ≡ some m
      → hear parse v (text payload) ≡ receive v m
  hear-carried v m payload e = rw (e, hear) refl

  -- While it is connected, delivered messages are put on the channel, and say what they say.
  pub deliver-heard :
      (serialize : S2CMessage → Option String) (id : ClientId) (ms : List S2CMessage)
      {log : List Message} {s : Socket}
      → All (IsCarried serialize parse) ms
      → is_connected s.client.connection ≡ true
      → Run (open_socket id) log s
      → (after : List Message) × Run (open_socket id) after (deliver serialize ms s)
        × ((v : View) → follow parse v after ≡ receive_all (follow parse v log) ms)
  unfolding deliver
  deliver-heard serialize id [] {log} {s} k c run = (log, run, λ v. refl)
  deliver-heard serialize id (m ∷ ms) {log} {s} ((payload, e, back), k) c run =
      let sent = Writing.send (text payload) s in
      let (after, run', heard) =
        deliver-heard serialize id ms {log = log ++ (text payload ∷ [])} {s = sent} k
          (send-stays (text payload) s ∙ c) (then_step run (sends (text payload) c)) in
      (
        after,
        rw (e, deliver) run',
        λ v.
            heard v
            ∙ ap (λ w. receive_all w ms)
                (follow-append v log (text payload ∷ [])
                  ∙ hear-carried (follow parse v log) m payload back),
      )

-- Delivery to a client that is not connected does nothing.
pub deliver-unheard :
    (serialize : S2CMessage → Option String) (ms : List S2CMessage) (s : Socket)
    → is_connected s.client.connection ≡ false
    → deliver serialize ms s ≡ s
unfolding deliver
deliver-unheard serialize [] s c = refl
deliver-unheard serialize (m ∷ ms) s c = elim (Option-cases (serialize m)) [
  | inl fails ↦ rw (fails, deliver) (deliver-unheard serialize ms s c)
  | inr (payload, e) ↦
      rw (e, deliver)
        (ap (λ t. deliver serialize ms t) (send-dropped (text payload) s c)
          ∙ deliver-unheard serialize ms s c)
]

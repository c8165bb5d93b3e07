-- ===== src/Signaling/Draining.antt =====
-- The write loop of server/src/rtp_server/client.rs while nothing stops it, and when it is stopped.
use mathlib.Core.List.{append_assoc, append-nil}
use simple_screen_share.Base.{◌≡◌, true, refl, sym, ◌∙◌, subst, List, Option, [], ◌∷◌, ◌++◌, arith}
use simple_screen_share.Signaling.{CloseFrame, Message, close, disconnect}
use simple_screen_share.Signaling.Writing.{
  receiving, stopped, Socket, enqueue, is_connected, start_closing, shut, finish, stop, Step,
  disconnects, finishes, shut_while_receiving, Run, start, then_step,
}

pub append_runs :
    {s t u : Socket} {log new : List Message} → Run s log t → Run t new u → Run s (log ++ new) u
append_runs {s} {t} {u} {log} {new} first start =
    subst (λ l. Run s l t) (sym (append-nil log)) first
append_runs {s} {t} {u} {log} {new} first (then_step {log = l} {new = n} rest step) =
    subst (λ k. Run s k u) (append_assoc log l n) (then_step (append_runs first rest) step)

-- A run of the tasks alone that writes the messages.
abbrev Writes : Socket → List Message → Type 0
Writes s ms = (t : Socket) × Run s [] t × (t.written ≡ s.written ++ ms)

pub one_step : {s t : Socket} {new : List Message} → Step s new t → Run s new t
one_step step = then_step start step

closing_fields :
    (s : Socket) (payload : Option CloseFrame)
    → is_connected s.client.connection ≡ true
    → let t = finish (s.tasks ++ []) payload (start_closing payload s) in
      ((start_closing payload s).tasks ≡ s.tasks ++ (payload ∷ []))
      × (t.shutdown_write ≡ true)
      × (t.writer ≡ s.writer)
      × (t.written ≡ s.written)
      × (t.queue ≡ s.queue ++ (close payload ∷ []))
unfolding finish enqueue shut start_closing is_connected disconnect
closing_fields s payload c = ground arith

-- A client that is disconnected while messages wait can lose them all, and the close frame with
-- them: the task of `disconnect` closes the connection at once, and the write loop may take the
-- shutdown before the channel.
pub disconnect_unflushed :
    (s : Socket) (payload : Option CloseFrame)
    → s.writer ≡ receiving
    → is_connected s.client.connection ≡ true
    → (t : Socket) × Run s (close payload ∷ []) t
      × (t.writer ≡ stopped)
      × (t.written ≡ s.written)
      × (t.queue ≡ s.queue ++ (close payload ∷ []))
unfolding stop
disconnect_unflushed s payload w c =
    let closing = start_closing payload s in
    let t = finish (s.tasks ++ []) payload closing in
    let k = closing_fields s payload c in
    let closed : Run s (close payload ∷ []) t =
      then_step (one_step (disconnects payload)) (finishes s.tasks [] payload k.0) in
    (stop t, append_runs closed (one_step (shut_while_receiving (k.2 ∙ w) k.1)), refl, k.3, k.4)

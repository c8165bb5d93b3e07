-- ===== src/Broadcast.antt =====
-- `ClientBroadcast` of server/src/rtp_server/room.rs and the streams that it joins. A stream behind
-- `poll_next` is its queue of events that are ready and whether it has ended behind them: a poll
-- takes the next event, or ends, or is pending.
pub mod Relay
mod Tests
use simple_screen_share.Base.{ℕ, ◌+◌, Bool, true, false, String, List, [], ◌∷◌, ◌++◌, if◌then◌else◌}
use simple_screen_share.Base.Map.{Map, map_values}
use simple_screen_share.Messages.{ClientId, BroadcastId, BroadcastKind}

-- The fields of an RTP packet that the program writes, and what it passes on unread.
pub record Packet : Type 0 where
  pub sequence_number : ℕ
  pub timestamp : ℕ
  pub ssrc : ℕ
  pub payload_type : ℕ
  pub payload : List ℕ

pub data BroadcastSourceEvent : Type 0 where
  media : Packet → BroadcastSourceEvent
  end : BroadcastSourceEvent

pub data BroadcastTargetEvent : Type 0 where
  request_pli : BroadcastTargetEvent

-- `RoomBroadcastSource`; `plis` counts the calls of `send_pli`.
pub record RoomBroadcastSource : Type 0 where
  pub kind : BroadcastKind
  pub events : List BroadcastSourceEvent
  pub ended : Bool
  pub plis : ℕ

-- `RoomBroadcastTarget`; `sent` has the packets of the calls of `send_rtp`, in order.
pub record RoomBroadcastTarget : Type 0 where
  pub track : String
  pub events : List BroadcastTargetEvent
  pub ended : Bool
  pub sent : List Packet

-- A reference to a signaling client: the object, and the `client_id` that is written once.
pub record ClientRef : Type 0 where
  pub object : ℕ
  pub client_id : ClientId

-- `shutdown_tx` is whether the sender is still there, `shutdown_sent` whether the receiver would be
-- ready; `waker` is whether one is stored.
pub record ClientBroadcast : Type 0 where
  pub kind : BroadcastKind
  pub id : BroadcastId
  pub name : String
  pub client_id : ClientId
  pub client : ClientRef
  pub waker : Bool
  pub source : RoomBroadcastSource
  pub targets : Map ClientId RoomBroadcastTarget
  pub shutdown_tx : Bool
  pub shutdown_sent : Bool

-- The `while let` over one target's events: whether the target ended, and whether a PLI was asked
-- for by it or before.
unfoldable pub poll_target : List BroadcastTargetEvent → Bool → Bool → Bool × Bool
poll_target [] ended pli_request = (ended, pli_request)
poll_target (request_pli ∷ events) ended pli_request = poll_target events ended true

-- `targets.drain_filter`: the targets that stay, those that are dropped, and the PLI request.
unfoldable pub drain_targets :
    Map ClientId RoomBroadcastTarget
    → Bool
    → Map ClientId RoomBroadcastTarget × List RoomBroadcastTarget × Bool
unfolding poll_target
drain_targets [] pli_request = ([], [], pli_request)
drain_targets ((client_id, target) ∷ targets) pli_request =
    let (ended, pli) = poll_target target.events target.ended pli_request in
    let (kept, dropped, pli') = drain_targets targets pli in
    let polled = record target { events = [] } in
    if ended then (kept, polled ∷ dropped, pli') else ((client_id, polled) ∷ kept, dropped, pli')

unfoldable pub send_rtp : Packet → RoomBroadcastTarget → RoomBroadcastTarget
send_rtp packet target = record target { sent = target.sent ++ (packet ∷ []) }

-- The `while let` over the source's events: what is left of them, the targets, and whether the
-- broadcast has ended.
unfoldable pub poll_source :
    List BroadcastSourceEvent
    → Bool
    → Map ClientId RoomBroadcastTarget
    → List BroadcastSourceEvent × Map ClientId RoomBroadcastTarget × Bool
unfolding send_rtp
poll_source [] ended targets = ([], targets, ended)
poll_source (media packet ∷ events) ended targets =
    poll_source events ended (map_values (send_rtp packet) targets)
poll_source (end ∷ events) ended targets = (events, targets, true)

unfoldable pub send_pli : Bool → RoomBroadcastSource → RoomBroadcastSource
send_pli pli_request source =
    if pli_request then record source { plis = source.plis + 1 } else source

pub data Poll : Type 0 where
  ready pending : Poll

pub record Polled : Type 0 where
  pub broadcast : ClientBroadcast
  pub dropped : List RoomBroadcastTarget
  pub poll : Poll

unfoldable pub poll : ClientBroadcast → Polled
unfolding send_pli
poll b =
    let (targets, dropped, pli_request) = drain_targets b.targets false in
    let source = send_pli pli_request b.source in
    let (events, targets', done) = poll_source source.events source.ended targets in
    let b' = record b { source = record source { events = events }; targets = targets' } in
    if b.shutdown_sent
    then record { broadcast = b; dropped = []; poll = ready }
    else if done
    then record { broadcast = b'; dropped = dropped; poll = ready }
    else record { broadcast = record b' { waker = true }; dropped = dropped; poll = pending }

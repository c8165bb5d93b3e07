-- ===== src/Peer/Notifying.antt =====
-- The notifications of server/src/rtp_server/client_rtp.rs on their way to the signaling client:
-- `signaling_notify` starts a task for each, which waits for the client's lock.
use mathlib.Core.List.{Perm, append-nil}
use mathlib.Core.List.Perm as Permutation
use simple_screen_share.Base.{
  ◌≡◌, subst, sym, true, String, Option, some, none, List, [], ◌∷◌, ◌++◌,
}
use simple_screen_share.Base.Result.{ok}
use simple_screen_share.Messages.{
  S2CNotify, S2CMessage, notify, notify_ice_candidate, notify_ice_candidate_finished,
}
use simple_screen_share.Signaling.{SignalingClient, send_message}
use simple_screen_share.Peer.Candidates.{IceCandidateInit, from_init}
use simple_screen_share.Peer.Client.{RtpClient, signaling_notify, on_ice_candidate}

-- The tasks that wait, and the order in which they get the lock.
pub data Locks : List S2CNotify → List S2CNotify → Type 0 where
  none_left : Locks [] []
  locks :
      (before after : List S2CNotify) {order : List S2CNotify} (n : S2CNotify)
      → Locks (before ++ after) order
      → Locks (before ++ (n ∷ after)) (n ∷ order)

-- The tasks run: each sends its notification.
unfoldable pub run_tasks :
    (S2CMessage → Option String) → SignalingClient → List S2CNotify → SignalingClient
unfolding send_message
run_tasks serialize client [] = client
run_tasks serialize client (n ∷ ns) =
    run_tasks serialize (send_message serialize client (notify n)) ns

-- The tasks may run in the order in which they were started.
in_order : (ns : List S2CNotify) → Locks ns ns
in_order [] = none_left
in_order (n ∷ ns) = locks [] ns n (in_order ns)

-- The notification that the candidates are finished can overtake those that were started before it:
-- behind a candidate and the end, the tasks can get the lock so that the end is told first.
pub finished_overtakes :
    {Peer : Type 0} (c : RtpClient Peer) (candidate : IceCandidateInit)
    → c.signaling_client_ref ≡ true
    → Locks (on_ice_candidate none (on_ice_candidate (some (ok candidate)) c).0).0.notifying (
        notify_ice_candidate_finished
        ∷ (c.notifying ++ (notify_ice_candidate (from_init candidate) ∷ [])))
unfolding on_ice_candidate signaling_notify
finished_overtakes c candidate there =
    let told = c.notifying ++ (notify_ice_candidate (from_init candidate) ∷ []) in
    subst (λ l. Locks l (notify_ice_candidate_finished ∷ told)) (rw there)
      (locks told [] notify_ice_candidate_finished
        (subst (λ l. Locks l told) (sym (append-nil told)) (in_order told)))

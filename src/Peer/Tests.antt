-- ===== src/Peer/Tests.antt =====
-- A peer connection that keeps what it was told, and the theorems of `Peer` at it.
use text.Mathlib.Text.{◌==◌}
use simple_screen_share.Base.{
  ℕ, ◌≡◌, refl, true, String, Option, some, none, List, [], ◌∷◌, if◌then◌else◌,
}
use simple_screen_share.Base.Map.{nat_key, lookup}
use simple_screen_share.Base.Result.{Result, ok, err}
use simple_screen_share.Messages.{
  IceCandidate, video, negotiation_offer, S2CNotify, S2CMessage, notify_user_left,
}
use simple_screen_share.Broadcast.{ClientRef}
use simple_screen_share.Server.State.{RtpServer, blank}
use simple_screen_share.Server.Sessions.{respond, put_rtp}
use simple_screen_share.Server.Requests.{handle_request, handle_offer, with_rtp}
use simple_screen_share.Signaling.{connected, SignalingClient}
use simple_screen_share.Tracks.Receiving.{codec_video}
use simple_screen_share.Tracks.Sending.{RegisteredSendingTrack}
use simple_screen_share.Tracks.Targets.{ClientBroadcastTarget, find_free}
use simple_screen_share.Peer.Candidates.{IceCandidateInit, to_init, from_init}
use simple_screen_share.Peer.Conversion.{from_init-to_init}
use simple_screen_share.Peer.Client.{
  PeerCalls, sdp_answer, sdp_offer, RtpClient, new, apply_offer, open_target, send_loop_ended,
}
use simple_screen_share.Peer.Negotiation.{Applied, Answered, apply_ice_candidates_lem}
use simple_screen_share.Peer.Serving.{rtp_calls, offer-Answered}
use simple_screen_share.Peer.Notifying.{Locks, none_left, locks}
use simple_screen_share.Peer.Reuse.{open_target-ended_track}

-- The calls are logged; the candidate of the user "bad" is refused.
abbrev Log : Type 0
Log = List String

abbrev add_candidate : IceCandidateInit → Log → Log × Result (Unit {0}) String
add_candidate init log = elim init.username_fragment [
  | none ↦ ("end" ∷ log, ok tt)
  | some ufrag ↦ if ufrag == "bad" then (log, err "refused") else (ufrag ∷ log, ok tt)
]

abbrev calls : PeerCalls Log
calls = record {
  set_remote_description = λ d log. (d.sdp ∷ log, ok tt);
  set_local_description = λ d log. (d.sdp ∷ log, ok tt);
  create_answer = λ log. (log, ok (record { sdp_type = sdp_answer; sdp = "answer" }));
  create_offer = λ log. (log, ok (record { sdp_type = sdp_offer; sdp = "offer" }));
  add_ice_candidate = add_candidate;
  add_track = λ object log. ("add" ∷ log, ok tt);
  remove_track = λ object log. ("remove" ∷ log, ok tt);
  write_rtcp = λ packets log. (log, ok tt);
  close = λ log. ("close" ∷ log, ok tt);
}

abbrev alice : RtpClient Log
alice = new 1 []

abbrev host : IceCandidate
host = record { candidate = "1 1 UDP"; ufrag = "u" }

from_init-to_init_example :
    (from_init (to_init host) ≡ host)
    × (from_init (record { candidate = "candidate:1 1 UDP"; username_fragment = some "u" }) ≡ host)
from_init-to_init_example = from_init-to_init host refl

abbrev bad : IceCandidate
bad = record { candidate = "2 1 UDP"; ufrag = "bad" }

apply_ice_candidates_lem_example : Applied calls alice (host ∷ bad ∷ host ∷ [])
apply_ice_candidates_lem_example = apply_ice_candidates_lem calls (host ∷ bad ∷ host ∷ []) alice

abbrev server : RtpServer (RtpClient Log)
server = record blank { rtp_clients = (1, alice) ∷ [] }

abbrev client : ClientRef
client = record { object = 0; client_id = 1 }

abbrev fresh_id : RtpClient Log → String
fresh_id c = "sixteen"

abbrev adds :
    (object : ℕ) (log : Log) → (after : Log) × (calls.add_track object log ≡ (after, ok tt))
adds object log = ("add" ∷ log, refl)

offer-Answered_example :
    (c c' : RtpClient Log) × (lookup 1 server.rtp_clients ≡ some c)
    × Answered calls c "hello" c' "answer"
    × (lookup 1
          (handle_request
            (rtp_calls calls (ok []) fresh_id adds)
            (λ s. s)
            (λ i. 500)
            0
            server
            client
            (negotiation_offer (record { offer = "hello" }))).server.rtp_clients
        ≡ some c')
unfolding rtp_calls new handle_request handle_offer with_rtp respond put_rtp apply_offer lookup
    blank
offer-Answered_example =
    offer-Answered calls (ok []) fresh_id adds (λ s. s) (λ i. 500) 0 server client "hello" "answer"
      refl

-- Two notifications wait, and the second task gets the lock first.
abbrev serialize : S2CMessage → Option String
serialize message = some "message"

abbrev listener : SignalingClient
listener = record { client_id = 1; subscriber = []; connection = connected [] }

abbrev two_left : List S2CNotify
two_left = notify_user_left 1 ∷ notify_user_left 2 ∷ []

abbrev second_first : Locks two_left (notify_user_left 2 ∷ notify_user_left 1 ∷ [])
second_first =
    locks (notify_user_left 1 ∷ []) [] (notify_user_left 2)
      (locks [] [] (notify_user_left 1) none_left)

-- A track whose target was dropped.
abbrev spare : RegisteredSendingTrack
spare = record {
  object = 0;
  kind = codec_video;
  id = "spare";
  binding = none;
  shutdown_tx = true;
  event_handler = none;
  rtp_send_channel = [];
}

abbrev served : RtpClient Log
served = record alice {
  sender = record { sending_tracks = spare ∷ []; targets = []; next_object = 2 };
}

open_target-ended_track_example :
    (target : ClientBroadcastTarget) × (target.track ≡ 0)
    × ((open_target calls "fresh" video (send_loop_ended calls 0 served)).1 ≡ ok ("spare", target))
    × ((open_target calls "fresh" video (send_loop_ended calls 0 served)).0.peer ≡ "remove" ∷ [])
unfolding new find_free
open_target-ended_track_example = open_target-ended_track calls "fresh" video served spare refl

-- ===== src/Peer/Candidates.antt =====
-- ICE candidates between the messages of server/src/rtp_server/messages.rs and the webrtc crate.
use Prim.Native.String.{len, slice}
use text.Mathlib.Text.{starts_with}
use simple_screen_share.Base.{String, Option, none, some, if◌then◌else◌}
use simple_screen_share.Messages.{IceCandidate}

-- `RTCIceCandidateInit` of the webrtc crate; its `sdp_mid` and `sdp_mline_index` are never touched.
pub record IceCandidateInit : Type 0 where
  pub candidate : String
  pub username_fragment : Option String

-- `RTCIceCandidateInit::default()`.
unfoldable pub no_candidate : IceCandidateInit
no_candidate = record { candidate = ""; username_fragment = none }

unfoldable pub to_init : IceCandidate → IceCandidateInit
to_init c = record { candidate = c.candidate; username_fragment = some c.ufrag }

abbrev pub prefix : String
prefix = "candidate:"

-- `init.candidate[10..]`.
abbrev pub behind_prefix : String → String
behind_prefix candidate = slice candidate 10 (len candidate)

abbrev pub unwrap_or_default : Option String → String
unwrap_or_default none = ""
unwrap_or_default (some ufrag) = ufrag

unfoldable pub from_init : IceCandidateInit → IceCandidate
from_init init = record {
  candidate =
      if starts_with init.candidate prefix then behind_prefix init.candidate else init.candidate;
  ufrag = unwrap_or_default init.username_fragment;
}

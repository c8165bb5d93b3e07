-- ===== src/Peer/Conversion.antt =====
-- ICE candidates of server/src/rtp_server/messages.rs on their way to the webrtc crate and back.
use Prim.Native.String.{◌++◌ as text_append, slice}
use text.Mathlib.Text.{starts_with}
use text.Mathlib.TextPositions.{starts_with-append, slice-append_right, len-append}
use simple_screen_share.Base.{◌≡◌, refl, ap, ◌∙◌, false, String, some}
use simple_screen_share.Messages.{IceCandidate}
use simple_screen_share.Peer.Candidates.{to_init, prefix, behind_prefix, from_init}

behind_prefix_lem : (t : String) → behind_prefix (text_append prefix t) ≡ t
behind_prefix_lem t =
    ap (λ n. slice (text_append prefix t) 10 n) (len-append prefix t) ∙ slice-append_right prefix t

-- A candidate that does not start with the prefix is the same after the way to the crate and back,
-- and what the crate writes with the prefix in front of it is that candidate too.
pub from_init-to_init :
    (c : IceCandidate)
    → starts_with c.candidate prefix ≡ false
    → (from_init (to_init c) ≡ c)
      × (from_init (record {
        candidate = text_append prefix c.candidate;
        username_fragment = some c.ufrag;
      })
          ≡ c)
unfolding from_init to_init
from_init-to_init c plain =
    (rw plain refl, rw (starts_with-append prefix c.candidate, behind_prefix_lem c.candidate) refl)

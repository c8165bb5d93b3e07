-- ===== src/Peer/Setup.antt =====
-- `RtpClient::create_peer` of server/src/rtp_server/client_rtp.rs: what it hands to the webrtc crate,
-- whose calls are the parameter `MediaCalls`. The mime types are constants of the crate.
use simple_screen_share.Base.{ℕ, String, List, [], ◌∷◌}
use simple_screen_share.Base.Result.{Result, ok, err}
use simple_screen_share.Tracks.Receiving.{RtpCodecType, codec_audio, codec_video}

-- `RTCRtpCodecParameters`, with the fields of its capability.
pub record RtpCodec : Type 0 where
  pub mime_type : String
  pub clock_rate : ℕ
  pub channels : ℕ
  pub sdp_fmtp_line : String
  pub payload_type : ℕ

pub data NetworkType : Type 0 where
  udp4 udp6 tcp4 tcp6 : NetworkType

pub record MediaCalls (Media Peer : Type 0) : Type 0 where
  pub default_media : Media
  pub register_codec : RtpCodec → RtpCodecType → Media → Result Media String
  pub register_header_extension : String → RtpCodecType → Media → Result Media String
  pub register_default_interceptors : Media → Result Media String
  pub new_peer_connection : Media → List NetworkType → (ice_urls : List String) → Result Peer String

infixl 5 ◌>>=◌
abbrev pub ◌>>=◌ : {A B : Type 0} → Result A String → (A → Result B String) → Result B String
ok a >>= f = f a
err e >>= f = err e

unfoldable pub opus_codec : (mime_type_opus : String) → RtpCodec
opus_codec mime_type_opus = record {
  mime_type = mime_type_opus;
  clock_rate = 48000;
  channels = 2;
  sdp_fmtp_line = "minptime=10;useinbandfec=1";
  payload_type = 111;
}

unfoldable pub vp8_codec : (mime_type_vp8 : String) → RtpCodec
vp8_codec mime_type_vp8 = record {
  mime_type = mime_type_vp8;
  clock_rate = 90000;
  channels = 0;
  sdp_fmtp_line = "x-google-max-bitrate=780000";
  payload_type = 96;
}

abbrev pub header_extensions : List String
header_extensions =
    "urn:ietf:params:rtp-hdrext:sdes:mid" ∷ "urn:ietf:params:rtp-hdrext:sdes:rtp-stream-id"
    ∷ "urn:ietf:params:rtp-hdrext:sdes:repaired-rtp-stream-id" ∷ []

abbrev pub network_types : List NetworkType
network_types = udp4 ∷ udp6 ∷ tcp4 ∷ tcp6 ∷ []

abbrev pub ice_servers : List String
ice_servers = "stun:stun.l.google.com:19302" ∷ []

module _ {Media Peer : Type 0} (calls : MediaCalls Media Peer) where
  unfoldable pub register_codecs : List RtpCodec → Media → Result Media String
  register_codecs [] media = ok media
  register_codecs (codec ∷ codecs) media = do
    media' ← calls.register_codec codec codec_video media
    register_codecs codecs media'

  unfoldable pub register_extensions : List String → Media → Result Media String
  register_extensions [] media = ok media
  register_extensions (uri ∷ uris) media = do
    media' ← calls.register_header_extension uri codec_video media
    register_extensions uris media'

  unfoldable pub create_peer : (mime_type_opus mime_type_vp8 : String) → Result Peer String
  unfolding opus_codec vp8_codec register_codecs register_extensions
  create_peer mime_type_opus mime_type_vp8 = do
    with_audio ← calls.register_codec (opus_codec mime_type_opus) codec_audio calls.default_media
    with_video ← register_codecs (vp8_codec mime_type_vp8 ∷ []) with_audio
    extended ← register_extensions header_extensions with_video
    media ← calls.register_default_interceptors extended
    calls.new_peer_connection media network_types ice_servers

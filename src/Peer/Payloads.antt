-- ===== src/Peer/Payloads.antt =====
-- The codecs that server/src/rtp_server/client_rtp.rs registers and the ones that its tracks bind.
use text.Mathlib.TextEquality.{eq_iff}
use simple_screen_share.Base.{
  All, refl, true, ◌≡◌, ◌≢◌, ◌⊎◌, inl, inr, String, some, none, List, [], ◌∷◌, arith,
}
use simple_screen_share.Base.Result.{ok, err}
use simple_screen_share.Tracks.Receiving.{RtpCodecType, codec_audio, codec_video, unspecified}
use simple_screen_share.Tracks.Sending.{
  CodecParameters, TrackLocalContext, RegisteredSendingTrack, find_codec, bind, codec_not_found,
}
use simple_screen_share.Peer.Setup.{RtpCodec, opus_codec, vp8_codec}

-- What a track reads of a codec.
abbrev parameters : RtpCodec → CodecParameters
parameters codec = record { mime_type = codec.mime_type; payload_type = codec.payload_type }

module _ (mime_type_opus mime_type_vp8 : String) (apart : mime_type_opus ≢ mime_type_vp8) where
  abbrev pub codec_of : RtpCodecType → RtpCodec
  codec_of codec_audio = opus_codec mime_type_opus
  codec_of codec_video = vp8_codec mime_type_vp8
  codec_of unspecified = vp8_codec mime_type_vp8

  -- The codecs that were negotiated are among the registered ones.
  abbrev pub Registered : List CodecParameters → Type 0
  Registered =
      All (λ p. (p ≡ parameters (codec_of codec_audio)) ⊎ (p ≡ parameters (codec_of codec_video)))

  abbrev pub Found : RtpCodecType → List CodecParameters → Type 0
  Found kind ps =
      (find_codec mime_type_opus mime_type_vp8 kind ps ≡ some (parameters (codec_of kind)))
      ⊎ (find_codec mime_type_opus mime_type_vp8 kind ps ≡ none)

  find_codec-Registered :
      (kind : RtpCodecType) (ps : List CodecParameters) → Registered ps → Found kind ps
  unfolding find_codec opus_codec vp8_codec
  find_codec-Registered kind [] r = inr refl
  find_codec-Registered codec_audio (p ∷ ps) (h, r) =
      ground (arith, eq_iff p.mime_type mime_type_opus, find_codec-Registered codec_audio ps r)
  find_codec-Registered codec_video (p ∷ ps) (h, r) =
      ground (arith, eq_iff p.mime_type mime_type_vp8, find_codec-Registered codec_video ps r)
  find_codec-Registered unspecified (p ∷ ps) (h, r) =
      ground (arith, eq_iff p.mime_type mime_type_vp8, find_codec-Registered unspecified ps r)

  -- A sending track that is bound where only codecs that the server registers were negotiated takes
  -- the codec of its kind and sends with that codec's payload type, the context's ssrc and its id, or
  -- that codec was not negotiated and the track is as before.
  pub bind-Registered :
      (ctx : TrackLocalContext) (track : RegisteredSendingTrack)
      → ctx.has_write_stream ≡ true
      → Registered ctx.codec_parameters
      → (bind mime_type_opus mime_type_vp8 ctx track ≡ (
        record track {
          binding = some (record {
            id = ctx.id;
            ssrc = ctx.ssrc;
            payload_type = (codec_of track.kind).payload_type;
          });
        },
        ok (parameters (codec_of track.kind)),
      ))
        ⊎ (bind mime_type_opus mime_type_vp8 ctx track ≡ (track, err codec_not_found))
  unfolding bind
  bind-Registered ctx track w r = elim (find_codec-Registered track.kind ctx.codec_parameters r) [
    | inl e ↦ inl (rw (w, e, bind))
    | inr e ↦ inr (rw (w, e, bind))
  ]

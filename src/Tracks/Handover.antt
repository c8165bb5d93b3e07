-- ===== src/Tracks/Handover.antt =====
-- A second source on a stream, and sources on a stream that is already there.
use simple_screen_share.Base.{
  ◌≡◌, refl, ap, ◌∙◌, Option-cases, inl, inr, String, true, none, some, List, [], ◌∷◌, ◌++◌, arith,
  suc, is_some,
}
use simple_screen_share.Base.Map.{
  nat_key, lookup, insert, update, lookup-insert, lookup-insert_same, lookup-update,
}
use simple_screen_share.Messages.{BroadcastKind}
use simple_screen_share.Broadcast.{Packet, media, end}
use simple_screen_share.Tracks.Receiving.{
  RtpCodecType, codec_type, put_event, handle_rtp_packet, handle_unmount, with_handler, is_handler,
  HandlerRef, RegisteredReceivingTrack, ReceivingTrackBroadcastHandler, ClientBroadcastSource,
  update_handler, remove_handler, Receiver, find_stream, find_track, put_track, obtain_track,
}
use simple_screen_share.Tracks.Handlers.{create_broadcast_source, drop_source, send_pli, read_rtp}
use simple_screen_share.Tracks.Reachable.{Reach, Reach-AllSound, Sound, find_stream-All}

-- A handler that was made and has heard nothing yet.
abbrev pub fresh : ReceivingTrackBroadcastHandler
fresh = record { ssrc = 0; events = [] }

find_track-put :
    (ts : List RegisteredReceivingTrack) (t : RegisteredReceivingTrack)
    → is_some (find_track t.object ts) ≡ true
    → find_track t.object (put_track t ts) ≡ some t
unfolding find_track put_track
find_track-put [] t e = ground arith
find_track-put (u ∷ ts) t e = ground (arith, find_track-put ts t)

find_track-found :
    (ts : List RegisteredReceivingTrack) (s : String) (t : RegisteredReceivingTrack)
    → find_stream s ts ≡ some t
    → is_some (find_track t.object ts) ≡ true
unfolding find_stream find_track
find_track-found [] s t e = ground arith
find_track-found (u ∷ ts) s t e = ground (arith, find_track-found ts s t)

module _ (r : Receiver) (reach : Reach r) (stream_id : String) (kind : BroadcastKind)
    (t : RegisteredReceivingTrack) (there : find_stream stream_id r.receiving_tracks ≡ some t) where
  sound : Sound r.next_object t
  sound =
      find_stream-All (Sound r.next_object) r.receiving_tracks stream_id t (Reach-AllSound reach)
        there

  abbrev pub taken : Receiver
  taken = record {
    receiving_tracks = put_track (record t { handler = some r.next_object }) r.receiving_tracks;
    handlers = with_handler handle_unmount t.handler (insert r.next_object fresh r.handlers);
    next_object = suc r.next_object;
  }

  obtained : (codec : RtpCodecType) → obtain_track stream_id codec r ≡ (r, t)
  unfolding obtain_track
  obtained codec = rw (there, obtain_track)

  -- The rest of `create_broadcast_source`.
  abbrev made : Receiver × RegisteredReceivingTrack → Receiver × ClientBroadcastSource
  made (r', track) =
      let h = r'.next_object in
      let (track', handlers) = update_handler (some h) track (insert h fresh r'.handlers) in
      (
        record {
          receiving_tracks = put_track track' r'.receiving_tracks;
          handlers = handlers;
          next_object = suc h;
        },
        record { kind = kind; track = track.object; recv_handler = h },
      )

  -- The stream's track is taken over.
  create_broadcast_source-taken :
      create_broadcast_source stream_id kind r
      ≡ (taken, record { kind = kind; track = t.object; recv_handler = r.next_object })
  unfolding create_broadcast_source update_handler
  create_broadcast_source-taken =
      ap (λ (o : Receiver × RegisteredReceivingTrack). made o) (obtained (codec_type kind))
      ∙ ground (arith, sound.0)

  taken-track :
      find_track t.object taken.receiving_tracks ≡ some (record t { handler = some r.next_object })
  taken-track =
      find_track-put r.receiving_tracks (record t { handler = some r.next_object })
        (find_track-found r.receiving_tracks stream_id t there)

  taken-new : lookup r.next_object taken.handlers ≡ some fresh
  unfolding with_handler
  taken-new = elim (Option-cases t.handler) [
    | inl e ↦ rw (e, with_handler) (lookup-insert_same r.next_object fresh r.handlers)
    | inr (h, e) ↦
        let older = sound.1 h e in
        rw (e, with_handler)
          (ground (
            arith,
            lookup-update h r.next_object handle_unmount (insert r.next_object fresh r.handlers),
            lookup-insert_same r.next_object fresh r.handlers,
          ))
  ]

  -- On a track that is there, a new source has no ssrc, so that it asks for no picture, even if the
  -- track has long been bound: a track never learns its binding.
  pub taken_blind :
      send_pli
        (create_broadcast_source stream_id kind r).1
        (create_broadcast_source stream_id kind r).0
      ≡ none
  unfolding send_pli
  taken_blind = rw create_broadcast_source-taken (rw (taken-new, send_pli))

  module _ (h : HandlerRef) (old : ReceivingTrackBroadcastHandler) (used : t.handler ≡ some h)
      (heard : lookup h r.handlers ≡ some old) where
    taken-old : lookup h taken.handlers ≡ some (record old { events = old.events ++ (end ∷ []) })
    unfolding with_handler handle_unmount put_event
    taken-old =
        let older = sound.1 h used in
        rw (used, with_handler)
          (ground (
            arith,
            lookup-update h h handle_unmount (insert r.next_object fresh r.handlers),
            lookup-insert r.next_object h fresh r.handlers,
          ))

    read_taken :
        (packet : Packet)
        → (read_rtp t.object packet taken).handlers
          ≡ update r.next_object (handle_rtp_packet packet) taken.handlers
    unfolding read_rtp with_handler
    read_taken packet = rw (taken-track, read_rtp)

    -- When a source takes over the track of a client's stream, the source that had it is told its
    -- end, behind what it has not read yet, and hears no more: the next packet goes to the new
    -- source alone.
    pub handover :
        (packet : Packet)
        → (lookup h (read_rtp t.object packet (create_broadcast_source stream_id kind r).0).handlers
            ≡ some (record old { events = old.events ++ (end ∷ []) }))
          × (lookup
                (create_broadcast_source stream_id kind r).1.recv_handler
                (read_rtp t.object packet (create_broadcast_source stream_id kind r).0).handlers
              ≡ some (record { ssrc = 0; events = media packet ∷ [] }))
    unfolding handle_rtp_packet put_event
    handover packet =
        let older = sound.1 h used in
        rw (create_broadcast_source-taken, read_taken packet)
          (
            ground (
              arith,
              taken-old,
              lookup-update r.next_object h (handle_rtp_packet packet) taken.handlers,
            ),
            ground (
              arith,
              taken-new,
              lookup-update r.next_object r.next_object (handle_rtp_packet packet) taken.handlers,
            ),
          )

    not_the_handler :
        remove_handler h (record t { handler = some r.next_object }) taken.handlers
        ≡ (record t { handler = some r.next_object }, taken.handlers)
    unfolding remove_handler is_handler
    not_the_handler = let older = sound.1 h used in ground arith

    drop_taken :
        (before : BroadcastKind)
        → drop_source (record { kind = before; track = t.object; recv_handler = h }) taken
          ≡ record taken {
            receiving_tracks =
                put_track (record t { handler = some r.next_object }) taken.receiving_tracks;
          }
    unfolding drop_source
    drop_taken before = rw (taken-track, drop_source) (ground (arith, not_the_handler))

    -- A source whose track was taken over leaves the new source alone when it is dropped: no handler
    -- is told anything, and the track keeps its handler.
    pub drop_source-stale :
        (before : BroadcastKind)
        → ((drop_source
              (record { kind = before; track = t.object; recv_handler = h })
              (create_broadcast_source stream_id kind r).0).handlers
            ≡ (create_broadcast_source stream_id kind r).0.handlers)
          × (find_track t.object
                (drop_source
                  (record { kind = before; track = t.object; recv_handler = h })
                  (create_broadcast_source stream_id kind r).0).receiving_tracks
              ≡ some (record t { handler = some r.next_object }))
    drop_source-stale before =
        rw (create_broadcast_source-taken, drop_taken before)
          (
            refl,
            find_track-put taken.receiving_tracks (record t { handler = some r.next_object })
                (ap is_some taken-track),
          )

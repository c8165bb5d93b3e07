-- ===== src/Relaying/Accounting.antt =====
-- Where the packets of a broadcast are, between server/src/rtp_server/room.rs and the io loop of a
-- subscriber's track in server/src/rtp_server/client_rtp.rs.
use mathlib.Core.List.{append_assoc, append-nil}
use simple_screen_share.Base.{
  ◌≡◌, refl, sym, ap, subst, ◌∙◌, false, Option, none, some, List, [], ◌∷◌, ◌++◌, arith,
}
use simple_screen_share.Base.Map.{nat_key, lookup, update, lookup-update}
use simple_screen_share.Messages.{ClientId}
use simple_screen_share.Broadcast.{
  Packet, BroadcastSourceEvent, request_pli, RoomBroadcastTarget, ClientBroadcast,
}
use simple_screen_share.Broadcast.Relay.{media_of, has_end}
use simple_screen_share.Room.Clients.{signal_shutdown}
use simple_screen_share.Tracks.Sending.{SendingTrackBinding, SendLoop, send_packet}
use simple_screen_share.Tracks.Streams.{consed, send_packets}
use simple_screen_share.Tracks.SendIo.{SendIo, handle_event}
use simple_screen_share.Relaying.{
  Relay, poll_relay, take_packet, Step, hears, polls, takes, reports, asks, others, source_closes,
  shuts, Run, start, then_step,
}
use simple_screen_share.Relaying.Weaving.{
  Woven, woven_nil, Woven-append, media_of-append, has_end-append,
}
use simple_screen_share.Relaying.Polling.{Subscribed, polls-PollDone}

-- The state of the loop behind some packets.
abbrev pub after_packets : Option SendingTrackBinding → SendLoop → List Packet → SendLoop
after_packets binding state [] = state
after_packets binding state (p ∷ ps) = after_packets binding (send_packet binding state p).0 ps

send_packets-last :
    (binding : Option SendingTrackBinding) (state : SendLoop) (ps : List Packet) (p : Packet)
    → send_packets binding state (ps ++ (p ∷ []))
      ≡ send_packets binding state ps
        ++ consed (send_packet binding (after_packets binding state ps) p).1 []
unfolding send_packets send_packet
send_packets-last binding state [] p = refl
send_packets-last none state (q ∷ ps) p = send_packets-last none state ps p
send_packets-last (some b) state (q ∷ ps) p =
    ap (λ l. consed (send_packet (some b) state q).1 l)
      (send_packets-last (some b) (send_packet (some b) state q).0 ps p)

after_packets-last :
    (binding : Option SendingTrackBinding) (state : SendLoop) (ps : List Packet) (p : Packet)
    → after_packets binding state (ps ++ (p ∷ []))
      ≡ (send_packet binding (after_packets binding state ps) p).0
after_packets-last binding state [] p = refl
after_packets-last binding state (q ∷ ps) p =
    after_packets-last binding (send_packet binding state q).0 ps p

module _ (c : ClientId) (binding : Option SendingTrackBinding) (state : SendLoop) where
  -- What the io loop has taken, and made of it.
  abbrev pub Taken : List Packet → SendIo → Type 0
  Taken taken io =
      (io.track.binding ≡ binding)
      × (io.written ≡ send_packets binding state taken)
      × (io.state ≡ after_packets binding state taken)

  -- Of the events that the source has put on its channel, a part was polled; its packets are those
  -- that the io loop has taken, those that wait on the track, and the lost ones.
  abbrev pub Relayed : List BroadcastSourceEvent → List Packet → Relay → Type 0
  Relayed heard lost s =
      (polled : List BroadcastSourceEvent) × (taken : List Packet) × (heard
        ≡ polled ++ s.broadcast.source.events)
      × Woven (taken ++ s.io.track.rtp_send_channel) lost (media_of polled)
      × Taken taken s.io
      × Subscribed c s.broadcast
      × (s.over ≡ false → has_end polled false ≡ false)

  -- A step that leaves the source's channel, the loop and the subscription alone.
  Relayed-kept :
      (heard : List BroadcastSourceEvent) (lost : List Packet) (s t : Relay)
      → s.broadcast.source.events ≡ t.broadcast.source.events
      → t.io ≡ s.io
      → t.over ≡ s.over
      → Subscribed c t.broadcast
      → Relayed heard lost s
      → Relayed (heard ++ []) (lost ++ []) t
  Relayed-kept heard lost s t e io over on (polled, taken, split, woven, has, was, goes) = (
    polled,
    taken,
    append-nil heard ∙ split ∙ ap (λ l. polled ++ l) e,
    subst (λ (i : SendIo). Woven (taken ++ i.track.rtp_send_channel) (lost ++ []) (media_of polled))
        (sym io)
        (subst (λ l. Woven (taken ++ s.io.track.rtp_send_channel) l (media_of polled))
          (sym (append-nil lost)) woven),
    subst (Taken taken) (sym io) has,
    on,
    λ o. goes (sym over ∙ o),
  )

  polls-Relayed :
      (heard : List BroadcastSourceEvent) (lost : List Packet) (s : Relay)
      → s.over ≡ false
      → Relayed heard lost s
      → Relayed (heard ++ []) (lost ++ (poll_relay c s).1) (poll_relay c s).0
  polls-Relayed heard lost s task (polled, taken, split, woven, has, was, goes) =
      let (part, kept, e, woven', io, on, goes') = polls-PollDone c s was in
      let after = (poll_relay c s).0 in
      let channel = s.io.track.rtp_send_channel in
      (
        polled ++ part,
        taken,
        append-nil heard
            ∙ split
            ∙ ap (λ l. polled ++ l) e
            ∙ sym (append_assoc polled part after.broadcast.source.events),
        subst
            (λ (i : SendIo).
              Woven (taken ++ i.track.rtp_send_channel) (lost ++ (poll_relay c s).1)
                (media_of (polled ++ part)))
            (sym io)
            (subst (λ l. Woven l (lost ++ (poll_relay c s).1) (media_of (polled ++ part)))
              (append_assoc taken channel kept)
              (subst (Woven ((taken ++ channel) ++ kept) (lost ++ (poll_relay c s).1))
                (sym (media_of-append polled part (goes task))) (Woven-append woven woven'))),
        subst (Taken taken) (sym io) has,
        on,
        λ o. has_end-append polled part (goes task) ∙ goes' o,
      )

  takes-Taken :
      (taken rest : List Packet) (p : Packet) (io : SendIo)
      → Taken taken io
      → Taken (taken ++ (p ∷ [])) (take_packet p rest io)
        × ((take_packet p rest io).track.rtp_send_channel ≡ rest)
  unfolding take_packet handle_event
  takes-Taken taken rest p io (bound, written, at) =
      rw (bound, written, at)
        (
          (
            refl,
            sym (send_packets-last binding state taken p),
            sym (after_packets-last binding state taken p),
          ),
          refl,
        )

  takes-Relayed :
      (heard : List BroadcastSourceEvent) (lost : List Packet) (s : Relay) (p : Packet)
      (rest : List Packet)
      → s.io.track.rtp_send_channel ≡ p ∷ rest
      → Relayed heard lost s
      → Relayed (heard ++ []) (lost ++ []) (record s { io = take_packet p rest s.io })
  takes-Relayed heard lost s p rest e (polled, taken, split, woven, has, was, goes) =
      let (has', left) = takes-Taken taken rest p s.io has in
      (
        polled,
        taken ++ (p ∷ []),
        append-nil heard ∙ split,
        subst (λ l. Woven l (lost ++ []) (media_of polled))
            (ap (λ l. taken ++ l) e
              ∙ sym (append_assoc taken (p ∷ []) rest)
              ∙ ap (λ l. (taken ++ (p ∷ [])) ++ l) (sym left))
            (subst (λ l. Woven (taken ++ s.io.track.rtp_send_channel) l (media_of polled))
              (sym (append-nil lost)) woven),
        has',
        was,
        goes,
      )

  hears-Relayed :
      (heard : List BroadcastSourceEvent) (lost : List Packet) (s : Relay)
      (e : BroadcastSourceEvent)
      → Relayed heard lost s
      → Relayed (heard ++ (e ∷ [])) (lost ++ []) (record s {
        broadcast = record s.broadcast {
          source = record s.broadcast.source { events = s.broadcast.source.events ++ (e ∷ []) };
        };
      })
  hears-Relayed heard lost s e (polled, taken, split, woven, has, was, goes) = (
    polled,
    taken,
    ap (λ l. l ++ (e ∷ [])) split ∙ append_assoc polled s.broadcast.source.events (e ∷ []),
    subst (λ l. Woven (taken ++ s.io.track.rtp_send_channel) l (media_of polled))
        (sym (append-nil lost)) woven,
    has,
    was,
    goes,
  )

  asks-Subscribed :
      (b : ClientBroadcast)
      → Subscribed c b
      → Subscribed c (record b {
        targets =
            update c
              (λ (t : RoomBroadcastTarget). record t { events = t.events ++ (request_pli ∷ []) })
              b.targets;
      })
  asks-Subscribed b (t, at, on) = (
    record t { events = t.events ++ (request_pli ∷ []) },
    ground (
      arith,
      lookup-update c c
          (λ (t : RoomBroadcastTarget). record t { events = t.events ++ (request_pli ∷ []) })
          b.targets,
    ),
    on,
  )

  subscribed :
      (heard : List BroadcastSourceEvent) (lost : List Packet) (s : Relay)
      → Relayed heard lost s
      → Subscribed c s.broadcast
  subscribed heard lost s (polled, taken, split, woven, has, was, goes) = was

  signal_keeps :
      (b : ClientBroadcast)
      → (b.source.events ≡ (signal_shutdown b).source.events)
        × (b.targets ≡ (signal_shutdown b).targets)
  unfolding signal_shutdown
  signal_keeps b = ground arith

  Step-Relayed :
      (heard : List BroadcastSourceEvent) (lost : List Packet) {s t : Relay}
      {new : List BroadcastSourceEvent} {dropped : List Packet}
      → Step c s new dropped t
      → Relayed heard lost s
      → Relayed (heard ++ new) (lost ++ dropped) t
  unfolding handle_event
  Step-Relayed heard lost {s} (hears e) k = hears-Relayed heard lost s e k
  Step-Relayed heard lost {s} (polls task) k = polls-Relayed heard lost s task k
  Step-Relayed heard lost {s} (takes p rest e) k = takes-Relayed heard lost s p rest e k
  Step-Relayed heard lost {s} (reports packets) (polled, taken, split, woven, has, was, goes) = (
    polled,
    taken,
    append-nil heard ∙ split,
    subst (λ l. Woven (taken ++ s.io.track.rtp_send_channel) l (media_of polled))
        (sym (append-nil lost)) woven,
    has,
    was,
    goes,
  )
  Step-Relayed heard lost {s} {t} asks k =
      Relayed-kept heard lost s t refl refl refl
        (asks-Subscribed s.broadcast (subscribed heard lost s k)) k
  Step-Relayed heard lost {s} {t} (others targets same) k =
      let (target, at, on) = subscribed heard lost s k in
      Relayed-kept heard lost s t refl refl refl (target, same ∙ at, on) k
  Step-Relayed heard lost {s} {t} source_closes k =
      Relayed-kept heard lost s t refl refl refl (subscribed heard lost s k) k
  Step-Relayed heard lost {s} {t} shuts k =
      let (target, at, on) = subscribed heard lost s k in
      let (events, targets) = signal_keeps s.broadcast in
      Relayed-kept heard lost s t events refl refl
        (target, ap (λ m. lookup c m) (sym targets) ∙ at, on) k

  Run-Relayed :
      (before : List BroadcastSourceEvent) {s t : Relay} {heard : List BroadcastSourceEvent}
      {lost : List Packet}
      → Relayed before [] s
      → Run c s heard lost t
      → Relayed (before ++ heard) lost t
  Run-Relayed before {s} k start = subst (λ l. Relayed l [] s) (sym (append-nil before)) k
  Run-Relayed before {s} {t} k (then_step {heard = h} {new = n} {lost = l} {dropped = d} run step) =
      subst (λ es. Relayed es (l ++ d) t) (append_assoc before h n)
        (Step-Relayed (before ++ h) l step (Run-Relayed before k run))

-- A client subscribes, and its track, on which nothing waits, has written nothing. In whatever order
-- the source is heard, the task polls and the loop writes, the source's events are those that the
-- task has polled and those that wait. The packets of the polled ones are, each in its order, what
-- the loop has taken, what waits on the track, and what was lost because the track was full. What
-- was taken is written in that order, renumbered packet by packet if the track is bound.
pub Run-relays :
    (c : ClientId) {s t : Relay} {heard : List BroadcastSourceEvent} {lost : List Packet}
    → Subscribed c s.broadcast
    → s.io.track.rtp_send_channel ≡ []
    → s.io.written ≡ []
    → Run c s heard lost t
    → Relayed c s.io.track.binding s.io.state (s.broadcast.source.events ++ heard) lost t
unfolding send_packets
Run-relays c {s} {t} on empty fresh run =
    Run-Relayed c s.io.track.binding s.io.state s.broadcast.source.events
      (
        [],
        [],
        refl,
        subst (λ l. Woven l [] []) (sym empty) woven_nil,
        (refl, fresh, refl),
        on,
        λ o. refl,
      )
      run

-- ===== src/Peer/Negotiation.antt =====
-- What the methods of server/src/rtp_server/client_rtp.rs that negotiate do to the peer connection.
use simple_screen_share.Base.{
  ◌≡◌, refl, sym, ap, subst, ◌∙◌, ◌⊎◌, inl, inr, String, List, [], ◌∷◌, ◌++◌,
}
use simple_screen_share.Base.Result.{Result, ok, err, Result-cases}
use simple_screen_share.Messages.{IceCandidate}
use simple_screen_share.Peer.Actions.{
  Action, pure, ◌>>=◌, ◌>>◌, with_result, bind-ok, bind-returned, bind-failed, ok-injective,
}
use simple_screen_share.Peer.Candidates.{to_init}
use simple_screen_share.Peer.Client.{
  sdp_offer, SessionDescription, PeerCalls, RtpClient, call, apply_offer, apply_ice_candidates,
}

module _ {Peer : Type 0} (calls : PeerCalls Peer) where
  -- The peer takes candidates, one after the other.
  pub data Adds : Peer → List IceCandidate → Peer → Type 0 where
    none_left : {peer : Peer} → Adds peer [] peer
    adds :
        {peer peer' end : Peer} {c : IceCandidate} {cs : List IceCandidate}
        → calls.add_ice_candidate (to_init c) peer ≡ (peer', ok tt)
        → Adds peer' cs end
        → Adds peer (c ∷ cs) end

  -- What is left of the candidates, and what the method gave: none, or it failed at the first.
  abbrev pub Outcome :
      RtpClient Peer → List IceCandidate → Peer → RtpClient Peer × Result (Unit {0}) String → Type 0
  Outcome c after peer result =
      ((after ≡ []) × (result ≡ (record c { peer = peer }, ok tt)))
      ⊎ ((bad : IceCandidate) × (rest : List IceCandidate) × (failed : Peer) × (error : String)
          × (after ≡ bad ∷ rest)
          × (calls.add_ice_candidate (to_init bad) peer ≡ (failed, err error))
          × (result ≡ (record c { peer = failed }, err error)))

  -- All candidates were added, or those before one that failed.
  abbrev pub Applied : RtpClient Peer → List IceCandidate → Type 0
  Applied c cs =
      (before after : List IceCandidate) × (peer : Peer) × (cs ≡ before ++ after)
      × Adds c.peer before peer
      × Outcome c after peer (apply_ice_candidates calls cs c)

  abbrev pub Answered : RtpClient Peer → String → RtpClient Peer → String → Type 0
  Answered c offer c' sdp =
      (p1 p2 p3 : Peer) × (answer : SessionDescription) × (calls.set_remote_description
          (record { sdp_type = sdp_offer; sdp = offer }) c.peer
        ≡ (p1, ok tt))
      × (calls.create_answer p1 ≡ (p2, ok answer))
      × (calls.set_local_description answer p2 ≡ (p3, ok tt))
      × (sdp ≡ answer.sdp)
      × (c' ≡ record c { peer = p3 })

  abbrev taken_peer : RtpClient Peer → IceCandidate → Peer
  taken_peer c bad = (calls.add_ice_candidate (to_init bad) c.peer).0

  -- The candidates are given to the peer in their order, up to the first that it does not take: either
  -- it takes them all, or the method fails with the error of the first that it refuses, those behind
  -- it are never tried, and those before it stay added. Only the peer changes.
  pub apply_ice_candidates_lem : (cs : List IceCandidate) (c : RtpClient Peer) → Applied c cs
  unfolding apply_ice_candidates
  apply_ice_candidates_lem [] c = ([], [], c.peer, refl, none_left, inl (refl, refl))
  apply_ice_candidates_lem (bad ∷ rest) c =
      elim (Result-cases (calls.add_ice_candidate (to_init bad) c.peer).1) [
        | inl (done, e) ↦
            let taken = with_result (calls.add_ice_candidate (to_init bad) c.peer) e in
            let (before, after, peer, split, added, rest_of) =
              apply_ice_candidates_lem rest (record c { peer = taken_peer c bad }) in
            (
              bad ∷ before,
              after,
              peer,
              ap (λ l. bad ∷ l) split,
              adds taken added,
              subst (Outcome c after peer)
                  (sym (
                    bind-returned (call (calls.add_ice_candidate (to_init bad)))
                      (λ d. apply_ice_candidates calls rest) c e))
                  rest_of,
            )
        | inr (error, e) ↦ (
          [],
          bad ∷ rest,
          c.peer,
          refl,
          none_left,
          inr (
            bad,
            rest,
            taken_peer c bad,
            error,
            refl,
            with_result (calls.add_ice_candidate (to_init bad) c.peer) e,
            bind-failed (call (calls.add_ice_candidate (to_init bad)))
                (λ d. apply_ice_candidates calls rest) c e,
          ),
        )
      ]

  -- The parts of `apply_offer` behind its first and its second call.
  abbrev set_answer : SessionDescription → Action (RtpClient Peer) String
  set_answer answer = call (calls.set_local_description answer) >> pure answer.sdp

  abbrev answer_offer : Action (RtpClient Peer) String
  answer_offer = call calls.create_answer >>= set_answer

  abbrev remote : String → SessionDescription
  remote offer = record { sdp_type = sdp_offer; sdp = offer }

  -- A call that returns has changed the peer only.
  call-ok :
      {A : Type 0} (f : Peer → Peer × Result A String) (c : RtpClient Peer) {c' : RtpClient Peer}
      {a : A}
      → call f c ≡ (c', ok a)
      → (f c.peer ≡ (c'.peer, ok a)) × (c' ≡ record c { peer = c'.peer })
  call-ok f c e = (
    ap (λ x. (x.0.peer, x.1)) e,
    sym (ap (λ x. x.0) e) ∙ ap (λ p. record c { peer = p }) (ap (λ x. x.0.peer) e),
  )

  pub apply_offer_lem :
      (offer sdp : String) (c c' : RtpClient Peer)
      → apply_offer calls offer c ≡ (c', ok sdp)
      → Answered c offer c' sdp
  unfolding apply_offer
  apply_offer_lem offer sdp c c' e =
      let (c1, done, first, e1) =
        bind-ok (call (calls.set_remote_description (remote offer))) (λ d. answer_offer) c e in
      let (c2, answer, second, e2) = bind-ok (call calls.create_answer) set_answer c1 e1 in
      let (c3, set, third, e3) =
        bind-ok (call (calls.set_local_description answer)) (λ d. pure answer.sdp) c2 e2 in
      let k1 = call-ok (calls.set_remote_description (remote offer)) c first in
      let k2 = call-ok calls.create_answer c1 second in
      let k3 = call-ok (calls.set_local_description answer) c2 third in
      (
        c1.peer,
        c2.peer,
        c3.peer,
        answer,
        k1.0,
        k2.0,
        k3.0,
        ok-injective (ap (λ x. x.1) (sym e3)),
        sym (ap (λ x. x.0) e3)
            ∙ k3.1
            ∙ ap (λ (d : RtpClient Peer). record d { peer = c3.peer })
                (k2.1 ∙ ap (λ (d : RtpClient Peer). record d { peer = c2.peer }) k1.1),
      )

-- ===== src/Docker/PeerCheck/Trusted.antt =====
-- What an answer of `VerifyPeerIdentity` without an error shows of the engine.
use systems_trinkets.Common.{
  ℕ, ◌≡◌, refl, subst, inl, inr, Bool, true, false, not, some, List, [], ◌∷◌, ◌++◌, Bool-cases,
  Result, ok, err, ℤ, Bytes, codes, append_eq_nil, All,
}
use systems_trinkets.Probeout.{Line}
use systems_trinkets.Docker.Engine.{Json}
use systems_trinkets.Docker.BuildStream.{StreamJson}
use systems_trinkets.Docker.Spec.{Mount}
use systems_trinkets.Docker.Run.{Outcome, Container, run_container}
use systems_trinkets.Docker.Peers.{
  PeerDial, PeerIdentities, validate_identities, check_peer_identity,
}
use systems_trinkets.Docker.Fixture.{build_probe}
use systems_trinkets.Docker.PeerCheck.{
  judged, Dialled, wait_line, broker_removed, volume_removed, dial_of, dial_spec, dial,
  dialled_then, verdict_of, outsider_dials, second_dials, first_dials, heard, broker_started,
  volume_prepared, verify_with_image, image_dropped, probe_ready, verify_peer_identity,
}
use systems_trinkets.Docker.Client.{Client, Failure, World}
use systems_trinkets.Docker.Peers.Identity.{check_peer_identity_sound}
use systems_trinkets.Docker.Peers.{PeerViolation}
use systems_trinkets.Docker.PeerCheck.Failing.{
  HasError, start_container-HasError, socket_volume-HasError,
}
use systems_trinkets.Docker.PeerCheck.FailingBuilds.{wait_line-HasError, build_probe-HasError}
use systems_trinkets.Docker.PeerCheck.Waits.{WhenEnded, once_ended-WhenEnded_imp}
use systems_trinkets.Docker.PeerCheck.Identities.{
  assigned, identities, Distinct, Assignable, Trusted, validate_identities-Distinct,
}

module _ {S : Type 0} (cli : Client S) where
  module _ (json : Json) (socket lesson image : Bytes) (ids : PeerIdentities)
      (valid : All Assignable (identities ids) × Distinct (identities ids)) where
    -- Without an error, the identities can be trusted.
    abbrev Sound : Dialled S → Type 0
    Sound d = d.0.1 ≡ [] → Trusted ids d.0.0

    verdict_of-Sound :
        (d1 d2 d3 : PeerDial) (w : World S)
        → assigned d1 ≡ (codes "worker1", ids.worker1, true)
        → assigned d2 ≡ (codes "worker2", ids.worker2, true)
        → assigned d3 ≡ (codes "outsider", ids.outsider, false)
        → Sound (verdict_of cli json socket lesson image ids (d1 ∷ d2 ∷ d3 ∷ []) w)
    unfolding verdict_of
    verdict_of-Sound d1 d2 d3 w e1 e2 e3 = found (check_peer_identity (d1 ∷ d2 ∷ d3 ∷ [])) refl
      where
        found :
            (bad : List PeerViolation)
            → check_peer_identity (d1 ∷ d2 ∷ d3 ∷ []) ≡ bad
            → Sound (judged cli (d1 ∷ d2 ∷ d3 ∷ []) bad, w)
        found (b ∷ bs) e h = absurd (unfold judged in cc)
        found [] e h =
            unfold judged in
            record {
              assignable = valid.0;
              distinct = valid.1;
              made = rw (e1, e2, e3) refl;
              holds = check_peer_identity_sound (d1 ∷ d2 ∷ d3 ∷ []) e;
            }

    -- A dial that returned was made as asked.
    dialled_then-Sound :
        (mount : Mount) (dials : List PeerDial) (next : List PeerDial → World S → Dialled S)
        (role : Bytes) (uid : ℤ) (g : Bool) (w : World S)
        → ((d : PeerDial) (w : World S)
            → assigned d ≡ (role, uid, g)
            → Sound (next (dials ++ (d ∷ [])) w))
        → Sound (
            dialled_then cli json socket lesson image ids dials next
              (dial cli json socket lesson image ids mount role uid g w))
    unfolding dial
    dialled_then-Sound mount dials next role uid g w k = read (
        run_container cli json socket (dial_spec cli json socket lesson image ids mount role uid g)
          w)
      where
        read :
            (r : (Outcome × List Failure) × World S)
            → Sound (
                dialled_then cli json socket lesson image ids dials next
                  (dial_of cli json socket lesson image ids role uid g r))
        read ((res, e ∷ es), w) = unfold dial_of dialled_then in λ h. absurd (cc)
        read ((res, []), w) = unfold dial_of dialled_then in k _ w refl

    first_dials-Sound :
        (mount : Mount) (w : World S) → Sound (first_dials cli json socket lesson image ids mount w)
    unfolding first_dials second_dials outsider_dials
    first_dials-Sound mount w =
        dialled_then-Sound mount [] (second_dials cli json socket lesson image ids mount)
          (codes "worker1") ids.worker1 true w
          λ d1 w1 e1.
            dialled_then-Sound mount (d1 ∷ [])
              (outsider_dials cli json socket lesson image ids mount) (codes "worker2") ids.worker2
              true w1
              λ d2 w2 e2.
                dialled_then-Sound mount (d1 ∷ d2 ∷ [])
                  (verdict_of cli json socket lesson image ids) (codes "outsider") ids.outsider
                  false w2 λ d3 w3 e3. verdict_of-Sound d1 d2 d3 w3 e1 e2 e3

    heard-Sound :
        (b : Container) (mount : Mount) (r : Result (List Failure) Line × World S)
        → HasError r.0
        → Sound (heard cli json socket lesson image ids b mount r)
    unfolding heard
    heard-Sound b mount (err [], w) e = absurd e
    heard-Sound b mount (err (f ∷ fs), w) e = λ h. absurd (cc)
    heard-Sound b mount (ok l, w) e = elim (Bool-cases (not l.ok)) [
      | inl t ↦ rw t (λ h. absurd (cc))
      | inr f ↦ rw f (first_dials-Sound mount w)
    ]

    -- A removal adds errors at most.
    broker_removed-Sound :
        (b : Container) (d : Dialled S) → Sound d → Sound (broker_removed cli b d)
    unfolding broker_removed
    broker_removed-Sound b ((dials, es), w) k h = k (append_eq_nil es _ h).0

    volume_removed-Sound :
        (name : Bytes) (d : Dialled S) → Sound d → Sound (volume_removed cli name d)
    unfolding volume_removed
    volume_removed-Sound name ((dials, es), w) k h = k (append_eq_nil es _ h).0

    broker_started-Sound :
        (n : ℕ) (mount : Mount) (r : Result (List Failure) Container × World S)
        → HasError r.0
        → WhenEnded Sound (broker_started cli json socket lesson image ids n mount r)
    unfolding broker_started
    broker_started-Sound n mount (err [], w) e = absurd e
    broker_started-Sound n mount (err (f ∷ fs), w) e = λ h. absurd (cc)
    broker_started-Sound n mount (ok b, w) e =
        once_ended-WhenEnded_imp (λ r. HasError r.0) Sound _
          (λ r x.
            broker_removed-Sound b (heard cli json socket lesson image ids b mount r)
              (heard-Sound b mount r x))
          (wait_line cli n b (codes "listen") w) (wait_line-HasError cli n b (codes "listen") w)

    volume_prepared-Sound :
        (n : ℕ) (r : Result (List Failure) (Mount × Mount) × World S)
        → HasError r.0
        → WhenEnded Sound (volume_prepared cli json socket lesson image ids n r)
    unfolding volume_prepared
    volume_prepared-Sound n (err [], w) e = absurd e
    volume_prepared-Sound n (err (f ∷ fs), w) e = λ h. absurd (cc)
    volume_prepared-Sound n (ok (broker, worker), w) e =
        once_ended-WhenEnded_imp Sound Sound (volume_removed cli broker.source)
          (volume_removed-Sound broker.source) _
          (broker_started-Sound n worker _ (start_container-HasError cli json socket _ w))

  module _ (json : Json) (stream : StreamJson) (socket : Bytes) where
    verify_peer_identity-Sound :
        (n : ℕ) (lesson : Bytes) (ids : PeerIdentities) (w : World S)
        → WhenEnded
            (λ d. d.0.1 ≡ [] → Trusted ids d.0.0)
            (verify_peer_identity cli json stream socket n lesson ids w)
    unfolding verify_peer_identity
    verify_peer_identity-Sound n lesson ids w = elim (Bool-cases (validate_identities ids)) [
      | inr f ↦ rw f (λ h. absurd (cc))
      | inl t ↦ rw t (
          ready (validate_identities-Distinct ids t) t (build_probe cli stream lesson w)
            (build_probe-HasError cli stream lesson w))
    ]
      where
        dropped :
            (image : Bytes) (d : Dialled S)
            → (d.0.1 ≡ [] → Trusted ids d.0.0)
            → (image_dropped cli json stream socket image d).0.1 ≡ []
            → Trusted ids (image_dropped cli json stream socket image d).0.0
        dropped image ((dials, es), w) k = unfold image_dropped in λ h. k (append_eq_nil es _ h).0

        verified :
            All Assignable (identities ids) × Distinct (identities ids)
            → validate_identities ids ≡ true
            → (image : Bytes) (w : World S)
            → WhenEnded
                (λ d. d.0.1 ≡ [] → Trusted ids d.0.0)
                (verify_with_image cli json socket lesson image ids n w)
        verified v t image w =
            unfold verify_with_image in
            rw t (
              volume_prepared-Sound json socket lesson image ids v n _ (
                socket_volume-HasError cli json socket lesson image ids.broker_uid ids.socket_gid
                  w))

        ready :
            All Assignable (identities ids) × Distinct (identities ids)
            → validate_identities ids ≡ true
            → (r : Result (List Failure) Bytes × World S) → HasError r.0
            → WhenEnded
                (λ d. d.0.1 ≡ [] → Trusted ids d.0.0)
                (probe_ready cli json stream socket n lesson ids r)
        ready v t (err [], w) e = absurd e
        ready v t (err (f ∷ fs), w) e = unfold probe_ready in λ h. absurd (cc)
        ready v t (ok image, w) e =
            unfold probe_ready in
            once_ended-WhenEnded_imp (λ d. d.0.1 ≡ [] → Trusted ids d.0.0)
              (λ d. d.0.1 ≡ [] → Trusted ids d.0.0) (image_dropped cli json stream socket image)
              (dropped image) _ (verified v t image w)

    -- Where `VerifyPeerIdentity` returns no error, the five identities are in range, not 0 and all
    -- different; the dials are those of the two workers and the outsider, under the UIDs assigned to
    -- them; each worker's output has a reply that reports its own UID, and the outsider's dial was
    -- refused for permission.
    pub verify_peer_identity_sound :
        (n : ℕ) (lesson : Bytes) (ids : PeerIdentities) (w w' : World S) (dials : List PeerDial)
        → verify_peer_identity cli json stream socket n lesson ids w ≡ some ((dials, []), w')
        → Trusted ids dials
    verify_peer_identity_sound n lesson ids w w' dials h =
        subst (WhenEnded (λ d. d.0.1 ≡ [] → Trusted ids d.0.0)) h
          (verify_peer_identity-Sound n lesson ids w) refl

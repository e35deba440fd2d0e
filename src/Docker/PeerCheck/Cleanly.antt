-- ===== src/Docker/PeerCheck/Cleanly.antt =====
-- What `VerifyPeerIdentity` calls to remove: each container, volume and image of its own.
use systems_trinkets.Common.{
  ℕ, ◌≡◌, inl, inr, true, false, not, List, [], ◌∷◌, ◌++◌, Bool-cases, Result, ok, err, Bytes,
  codes,
}
use systems_trinkets.Probeout.{Line}
use systems_trinkets.Docker.Engine.{Json}
use systems_trinkets.Docker.BuildStream.{StreamJson}
use systems_trinkets.Docker.Spec.{Mount}
use systems_trinkets.Docker.Run.{Container}
use systems_trinkets.Docker.Run.Cleanly.{Left, remove_container-Below, start_container-Left}
use systems_trinkets.Docker.Leaks.{Quiet, Below, Below-refl, Below-trans, Below-Quiet}
use systems_trinkets.Docker.Peers.{PeerDial, PeerIdentities, validate_identities}
use systems_trinkets.Docker.Fixture.{build_probe}
use systems_trinkets.Docker.PeerCheck.{
  Dialled, wait_line, broker_removed, volume_removed, dial, dialled_then, verdict_of,
  outsider_dials, second_dials, first_dials, heard, broker_started, volume_prepared,
  verify_with_image, image_dropped, probe_ready, verify_peer_identity,
}
use systems_trinkets.Docker.Client.{Event, build_image, Client, Failure, World}
use systems_trinkets.Docker.PeerCheck.Undone.{Undone, verify_peer_identity-Undone}
use systems_trinkets.Docker.PeerCheck.Waits.{
  WhenEnded, Ended, once_ended-Ended, Expires, wait_line-Ended,
}
use systems_trinkets.Docker.Fixture.Tagged.{ProbeLeft, build_probe-ProbeLeft, remove_probe-Below}
use systems_trinkets.Docker.PeerCheck.Volumes.{
  dial-Below, volume_removal-Below, MountsLeft, socket_volume-MountsLeft,
}

module _ {S : Type 0} (cli : Client S) where
  module _ (json : Json) (socket lesson image : Bytes) (ids : PeerIdentities) where
    dialled_then-Below :
        (dials : List PeerDial) (next : List PeerDial → World S → Dialled S) (log : List Event)
        (r : Result (List Failure) PeerDial × World S)
        → Below r.1.0 log
        → ((ds : List PeerDial) (w : World S) → Below (next ds w).1.0 w.0)
        → Below (dialled_then cli json socket lesson image ids dials next r).1.0 log
    unfolding dialled_then
    dialled_then-Below dials next log (err es, w) h k = h
    dialled_then-Below dials next log (ok d, w) h k = Below-trans (k (dials ++ (d ∷ [])) w) h

    outsider_dials-Below :
        (mount : Mount) (dials : List PeerDial) (w : World S)
        → Below (outsider_dials cli json socket lesson image ids mount dials w).1.0 w.0
    unfolding outsider_dials verdict_of
    outsider_dials-Below mount dials w =
        dialled_then-Below dials (verdict_of cli json socket lesson image ids) w.0
          (dial cli json socket lesson image ids mount (codes "outsider") ids.outsider false w)
          (dial-Below cli json socket lesson image ids mount (codes "outsider") ids.outsider false
            w)
          (λ ds w. Below-refl w.0)

    second_dials-Below :
        (mount : Mount) (dials : List PeerDial) (w : World S)
        → Below (second_dials cli json socket lesson image ids mount dials w).1.0 w.0
    unfolding second_dials
    second_dials-Below mount dials w =
        dialled_then-Below dials (outsider_dials cli json socket lesson image ids mount) w.0
          (dial cli json socket lesson image ids mount (codes "worker2") ids.worker2 true w)
          (dial-Below cli json socket lesson image ids mount (codes "worker2") ids.worker2 true w)
          (outsider_dials-Below mount)

    first_dials-Below :
        (mount : Mount) (w : World S)
        → Below (first_dials cli json socket lesson image ids mount w).1.0 w.0
    unfolding first_dials
    first_dials-Below mount w =
        dialled_then-Below [] (second_dials cli json socket lesson image ids mount) w.0
          (dial cli json socket lesson image ids mount (codes "worker1") ids.worker1 true w)
          (dial-Below cli json socket lesson image ids mount (codes "worker1") ids.worker1 true w)
          (second_dials-Below mount)

    heard-Below :
        (b : Container) (mount : Mount) (r : Result (List Failure) Line × World S)
        → Below (heard cli json socket lesson image ids b mount r).1.0 r.1.0
    unfolding heard
    heard-Below b mount (err es, w) = Below-refl w.0
    heard-Below b mount (ok l, w) = elim (Bool-cases (not l.ok)) [
      | inl t ↦ rw t (Below-refl w.0)
      | inr f ↦ rw f (first_dials-Below mount w)
    ]

    broker_started-Below :
        (n : ℕ) (mount : Mount) (log : List Event) (r : Result (List Failure) Container × World S)
        → ((c : Container) (s : S) → Expires cli n c s)
        → Left cli log r
        → Ended (λ d. Below d.1.0 log) (broker_started cli json socket lesson image ids n mount r)
    unfolding broker_started
    broker_started-Below n mount log (err es, w) x h = h
    broker_started-Below n mount log (ok b, w) x h =
        once_ended-Ended (λ r. Quiet w.0 r.1.0) (λ d. Below d.1.0 log) _ (λ r q. removed r q)
          (wait_line cli n b (codes "listen") w)
          (wait_line-Ended cli n b (codes "listen") w (x b w.1))
      where
        removed :
            (r : Result (List Failure) Line × World S)
            → Quiet w.0 r.1.0
            → Below
                (broker_removed cli b (heard cli json socket lesson image ids b mount r)).1.0
                log
        removed r q =
            unfold broker_removed in
            remove_container-Below cli b (heard cli json socket lesson image ids b mount r).1 log (
              Below-trans (heard-Below b mount r)
                (Below-trans (Below-Quiet _ _ q) (Below-Quiet _ _ h)))

    volume_prepared-Below :
        (n : ℕ) (log : List Event) (r : Result (List Failure) (Mount × Mount) × World S)
        → ((c : Container) (s : S) → Expires cli n c s)
        → MountsLeft cli log r
        → Ended (λ d. Below d.1.0 log) (volume_prepared cli json socket lesson image ids n r)
    unfolding volume_prepared
    volume_prepared-Below n log (err es, w) x h = h
    volume_prepared-Below n log (ok (broker, worker), (log', s)) x (l, h) =
        once_ended-Ended (λ d. Below d.1.0 log') (λ d. Below d.1.0 log)
          (volume_removed cli broker.source) (λ d q. dropped d q) _
          (broker_started-Below n worker log' _ x (start_container-Left cli json socket _ log' s))
      where
        dropped :
            (d : Dialled S) → Below d.1.0 log' → Below (volume_removed cli broker.source d).1.0 log
        dropped d q =
            unfold volume_removed in
            volume_removal-Below cli broker.source l log d.1 (Below-trans q h)

    verify_with_image-Below :
        (n : ℕ) (log : List Event) (s : S)
        → ((c : Container) (s : S) → Expires cli n c s)
        → Ended
            (λ d. Below d.1.0 log)
            (verify_with_image cli json socket lesson image ids n (log, s))
    unfolding verify_with_image
    verify_with_image-Below n log s x = elim (Bool-cases (not (validate_identities ids))) [
      | inl t ↦ rw t (Below-refl log)
      | inr f ↦ rw f (
          volume_prepared-Below n log _ x (
            socket_volume-MountsLeft cli json socket lesson image ids.broker_uid ids.socket_gid log
              s))
    ]

  module _ (json : Json) (stream : StreamJson) (socket : Bytes) where
    verify_peer_identity-Below :
        (n : ℕ) (lesson : Bytes) (ids : PeerIdentities) (log : List Event) (s : S)
        → ((c : Container) (s : S) → Expires cli n c s)
        → Ended
            (λ d. Below d.1.0 log)
            (verify_peer_identity cli json stream socket n lesson ids (log, s))
    unfolding verify_peer_identity
    verify_peer_identity-Below n lesson ids log s x =
        elim (Bool-cases (not (validate_identities ids))) [
          | inl t ↦ rw t (Below-refl log)
          | inr f ↦ rw f (
              ready (build_probe cli stream lesson (log, s))
                (build_probe-ProbeLeft cli stream lesson log s))
        ]
      where
        dropped :
            (image : Bytes) (log' : List Event)
            → Below log' (build_image image ∷ log)
            → (d : Dialled S) → Below d.1.0 log'
            → Below (image_dropped cli json stream socket image d).1.0 log
        dropped image log' h d q =
            unfold image_dropped in remove_probe-Below cli stream image log d.1 (Below-trans q h)

        ready :
            (r : Result (List Failure) Bytes × World S)
            → ProbeLeft cli stream log r
            → Ended (λ d. Below d.1.0 log) (probe_ready cli json stream socket n lesson ids r)
        ready (err es, w) h = unfold probe_ready in h
        ready (ok image, (log', s)) h =
            unfold probe_ready in
            once_ended-Ended (λ d. Below d.1.0 log') (λ d. Below d.1.0 log) _ (dropped image log' h)
              _ (verify_with_image-Below json socket lesson image ids n log' s x)

    -- `VerifyPeerIdentity` ends, and whatever failed in between, it calls for the removal of each image,
    -- volume and container that it created, after its creation: the probe's image, the volume, the broker
    -- and the three workers. The condition is that `WaitLine`'s context ends: whichever container it polls
    -- and whatever state it starts in, it meets the context's end within the `n` polls given.
    -- Where it returns no error, the volume was made with some probe image and the broker was started on
    -- it, and the engine answered a call for the removal of each without an error, or then listed the
    -- broker's container as gone.
    pub verify_peer_identity_lem :
        (n : ℕ) (lesson : Bytes) (ids : PeerIdentities) (log : List Event) (s : S)
        → ((c : Container) (s : S) → Expires cli n c s)
        → Ended
            (λ d. Below d.1.0 log)
            (verify_peer_identity cli json stream socket n lesson ids (log, s))
          × WhenEnded
              (λ d. d.0.1 ≡ [] → (image : Bytes) × Undone cli json socket lesson image ids)
              (verify_peer_identity cli json stream socket n lesson ids (log, s))
    verify_peer_identity_lem n lesson ids log s x = (
      verify_peer_identity-Below n lesson ids log s x,
      verify_peer_identity-Undone cli json stream socket n lesson ids (log, s),
    )

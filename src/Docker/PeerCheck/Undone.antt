-- ===== src/Docker/PeerCheck/Undone.antt =====
-- The removals at the end of `VerifyPeerIdentity` (topology.go) where it returns no error.
use systems_trinkets.Common.{
  ℕ, ◌≡◌, refl, ◌⊎◌, inl, inr, true, List, [], ◌∷◌, if◌then◌else◌, Bool-cases, Result, ok, err,
  Bytes, codes, append_eq_nil,
}
use systems_trinkets.Docker.Engine.{Json}
use systems_trinkets.Docker.BuildStream.{StreamJson}
use systems_trinkets.Docker.Spec.{Mount}
use systems_trinkets.Docker.Run.{
  Container, is_gone, container_gone, removed, remove_container, start_container,
}
use systems_trinkets.Docker.Cleanup.{volume_removal}
use systems_trinkets.Docker.Topology.{broker_spec, socket_volume}
use systems_trinkets.Docker.Peers.{PeerIdentities, validate_identities}
use systems_trinkets.Docker.Fixture.{build_probe}
use systems_trinkets.Docker.PeerCheck.{
  peer_socket, Dialled, wait_line, broker_removed, volume_removed, heard, broker_started,
  volume_prepared, verify_with_image, image_dropped, probe_ready, verify_peer_identity,
}
use systems_trinkets.Docker.Client.{
  remove, removing_volume, Client, Failure, World, Item, failures, call, reported, failed, removing,
}
use systems_trinkets.Docker.PeerCheck.Failing.{
  HasError, start_container-HasError, socket_volume-HasError,
}
use systems_trinkets.Docker.PeerCheck.FailingBuilds.{build_probe-HasError}
use systems_trinkets.Docker.PeerCheck.Waits.{
  WhenEnded, once_ended-WhenEnded, once_ended-WhenEnded_imp,
}

module _ {S : Type 0} (cli : Client S) where
  -- The engine answered a call for the removal of the container without an error, or it answered with
  -- one and then listed the container as gone.
  abbrev pub RemovedOrGone : Bytes → Type 0
  RemovedOrGone id =
      (s : S) × (((cli.container_remove id s).0 ≡ ok tt)
        ⊎ ((cli.container_with_id id (cli.container_remove id s).1).0 ≡ ok []))

  remove_container-RemovedOrGone :
      (c : Container) (w : World S)
      → failures (remove_container cli c w).0 ≡ []
      → RemovedOrGone c.id
  unfolding remove_container
  remove_container-RemovedOrGone c (log, s) h = (s, answered (cli.container_remove c.id s).0 refl h)
    where
      listed :
          (r : Result Bytes (List Item)) (e : Bytes)
          → failures {A = Unit {0}}
              (if is_gone r then ok tt else err (failed removing c.name e ∷ []))
            ≡ []
          → r ≡ ok []
      listed (ok []) e h = refl
      listed (ok (i ∷ items)) e h = absurd (cc)
      listed (err f) e h = absurd (cc)

      answered :
          (r : Result Bytes (Unit {0}))
          → (cli.container_remove c.id s).0 ≡ r
          → failures (removed cli c (r, (remove c.id ∷ log, (cli.container_remove c.id s).1))).0
            ≡ []
          → ((cli.container_remove c.id s).0 ≡ ok tt)
            ⊎ ((cli.container_with_id c.id (cli.container_remove c.id s).1).0 ≡ ok [])
      answered (ok tt) e h = inl e
      answered (err f) e h =
          inr (listed (cli.container_with_id c.id _).0 f (unfold removed container_gone in h))

  volume_removal-ok :
      (name : Bytes) (w : World S)
      → failures (volume_removal cli name w).0 ≡ []
      → (cli.volume_remove name w.1).0 ≡ ok tt
  unfolding volume_removal call
  volume_removal-ok name (log, s) h = answered (cli.volume_remove name s).0 h
    where
      answered :
          (r : Result Bytes (Unit {0}))
          → failures (reported removing_volume name r) ≡ []
          → r ≡ ok tt
      answered (ok tt) h = refl
      answered (err e) h = absurd (unfold reported in cc)

  module _ (json : Json) (socket lesson image : Bytes) (ids : PeerIdentities) where
    -- The broker that was started on the mount is removed or gone.
    abbrev BrokerUndone : Result (List Failure) Container × World S → Type 0
    BrokerUndone r = (b : Container) × (w : World S) × (r ≡ (ok b, w)) × RemovedOrGone b.id

    abbrev started_on : Mount → World S → Result (List Failure) Container × World S
    started_on mount w =
        start_container cli json socket
          (broker_spec lesson image ids.broker_uid ids.socket_gid mount
            (codes "peer-echo" ∷ peer_socket ∷ []))
          w

    -- The volume that was made, the broker that was started on it, and their removals.
    pub record Undone : Type 0 where
      pub before : World S
      pub made : World S
      pub broker_mount : Mount
      pub worker_mount : Mount
      pub volume :
          socket_volume cli json socket lesson image ids.broker_uid ids.socket_gid before
          ≡ (ok (broker_mount, worker_mount), made)
      pub broker : BrokerUndone (started_on broker_mount made)
      pub at_last : S
      pub volume_gone : (cli.volume_remove broker_mount.source at_last).0 ≡ ok tt

    abbrev Clean : Type 0 → Dialled S → Type 0
    Clean P d = d.0.1 ≡ [] → P

    broker_started-Clean :
        (n : ℕ) (mount : Mount) (r : Result (List Failure) Container × World S)
        → HasError r.0
        → WhenEnded
            (Clean (BrokerUndone r))
            (broker_started cli json socket lesson image ids n mount r)
    unfolding broker_started
    broker_started-Clean n mount (err [], w) e = absurd e
    broker_started-Clean n mount (err (f ∷ fs), w) e = λ h. absurd (cc)
    broker_started-Clean n mount (ok b, w) e =
        once_ended-WhenEnded (Clean (BrokerUndone (ok b, w))) _
          (λ end. undone (heard cli json socket lesson image ids b mount end))
          (wait_line cli n b (codes "listen") w)
      where
        undone : (d : Dialled S) → Clean (BrokerUndone (ok b, w)) (broker_removed cli b d)
        undone ((dials, es), v) =
            unfold broker_removed in
            λ h. (b, w, refl, remove_container-RemovedOrGone b v (append_eq_nil es _ h).1)

    volume_prepared-Clean :
        (n : ℕ) (v : World S) (r : Result (List Failure) (Mount × Mount) × World S)
        → socket_volume cli json socket lesson image ids.broker_uid ids.socket_gid v ≡ r
        → HasError r.0
        → WhenEnded (Clean Undone) (volume_prepared cli json socket lesson image ids n r)
    unfolding volume_prepared
    volume_prepared-Clean n v (err [], w) q e = absurd e
    volume_prepared-Clean n v (err (f ∷ fs), w) q e = λ h. absurd (cc)
    volume_prepared-Clean n v (ok (broker, worker), w) q e =
        once_ended-WhenEnded_imp (Clean (BrokerUndone (started_on broker w))) (Clean Undone)
          (volume_removed cli broker.source) undone _
          (broker_started-Clean n worker (started_on broker w)
            (start_container-HasError cli json socket _ w))
      where
        undone :
            (d : Dialled S)
            → Clean (BrokerUndone (started_on broker w)) d
            → Clean Undone (volume_removed cli broker.source d)
        undone ((dials, es), v') k =
            unfold volume_removed in
            λ h.
              let (a, b) = append_eq_nil es _ h in
              record {
                before = v;
                made = w;
                broker_mount = broker;
                worker_mount = worker;
                volume = q;
                broker = k a;
                at_last = v'.1;
                volume_gone = volume_removal-ok broker.source v' b;
              }

  module _ (json : Json) (stream : StreamJson) (socket : Bytes) where
    pub verify_peer_identity-Undone :
        (n : ℕ) (lesson : Bytes) (ids : PeerIdentities) (w : World S)
        → WhenEnded
            (λ d. d.0.1 ≡ [] → (image : Bytes) × Undone json socket lesson image ids)
            (verify_peer_identity cli json stream socket n lesson ids w)
    unfolding verify_peer_identity
    verify_peer_identity-Undone n lesson ids w = elim (Bool-cases (validate_identities ids)) [
      | inr f ↦ rw f (λ h. absurd (cc))
      | inl t ↦
          rw t
            (ready t (build_probe cli stream lesson w) (build_probe-HasError cli stream lesson w))
    ]
      where
        dropped :
            (image : Bytes) (d : Dialled S)
            → (d.0.1 ≡ [] → Undone json socket lesson image ids)
            → (image_dropped cli json stream socket image d).0.1 ≡ []
            → (image : Bytes) × Undone json socket lesson image ids
        dropped image ((dials, es), w) k =
            unfold image_dropped in λ h. (image, k (append_eq_nil es _ h).0)

        verified :
            validate_identities ids ≡ true
            → (image : Bytes) (w : World S)
            → WhenEnded
                (λ d. d.0.1 ≡ [] → Undone json socket lesson image ids)
                (verify_with_image cli json socket lesson image ids n w)
        verified t image w =
            unfold verify_with_image in
            rw t (
              volume_prepared-Clean json socket lesson image ids n w _ refl (
                socket_volume-HasError cli json socket lesson image ids.broker_uid ids.socket_gid
                  w))

        ready :
            validate_identities ids ≡ true
            → (r : Result (List Failure) Bytes × World S) → HasError r.0
            → WhenEnded
                (λ d. d.0.1 ≡ [] → (image : Bytes) × Undone json socket lesson image ids)
                (probe_ready cli json stream socket n lesson ids r)
        ready t (err [], w) e = absurd e
        ready t (err (f ∷ fs), w) e = unfold probe_ready in λ h. absurd (cc)
        ready t (ok image, w) e =
            unfold probe_ready in
            once_ended-WhenEnded_imp (λ d. d.0.1 ≡ [] → Undone json socket lesson image ids) _
              (image_dropped cli json stream socket image) (dropped image) _ (verified t image w)

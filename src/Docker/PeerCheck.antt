-- ===== src/Docker/PeerCheck.antt =====
-- internal/lab/docker/topology.go: `WaitLine`, `SocketVolume` and `VerifyPeerIdentity`, which combine the
-- probe image, a socket volume, a broker and the workers that dial it.
pub mod Waits
pub mod Volumes
pub mod Undone
pub mod Cleanly
pub mod Failing
pub mod FailingBuilds
pub mod Identities
pub mod Trusted
use systems_trinkets.Common.{
  ℕ, zero, suc, ◌⊎◌, inl, inr, Bool, true, false, not, Option, none, some, List, [], ◌∷◌, ◌++◌,
  if◌then◌else◌, Result, ok, err, ℤ, Bytes, codes,
}
use systems_trinkets.Probeout.{Line, find, parse}
use systems_trinkets.Docker.Engine.{Json}
use systems_trinkets.Docker.BuildStream.{StreamJson}
use systems_trinkets.Docker.Spec.{Mount, Spec}
use systems_trinkets.Docker.Run.{
  Outcome, Container, container_logs, remove_container, run_container, start_container,
}
use systems_trinkets.Docker.Cleanup.{volume_removal}
use systems_trinkets.Docker.Topology.{broker_spec, worker_spec, socket_volume}
use systems_trinkets.Docker.Peers.{
  PeerDial, PeerViolation, PeerIdentities, check_peer_identity, validate_identities,
}
use systems_trinkets.Docker.Fixture.{build_probe, remove_probe}
use systems_trinkets.Docker.Client.{
  Client, Failure, no_line, cannot_listen, bad_identities, untrusted, World, Op, failures,
}

abbrev pub peer_socket : Bytes
peer_socket = codes "/sock/peer.sock"

-- The dials made, with the joined errors.
abbrev pub Dialled : Type 0 → Type 0
Dialled S = (List PeerDial × List Failure) × World S

-- What follows a step that may not have ended within the polls it was given.
abbrev pub once_ended : {A B : Type 0} → (A → B) → Option A → Option B
once_ended f none = none
once_ended f (some a) = some (f a)

module _ {S : Type 0} (cli : Client S) where
  -- One round of the polling loop on the output read: its end, or the world of the next round.
  unfoldable pub wait_step :
      Container
      → Bytes
      → Result (List Failure) (Bytes × Bytes) × World S
      → (Result (List Failure) Line × World S) ⊎ World S
  wait_step c name (err es, w) = inl (err es, w)
  wait_step c name (ok (stdout, stderr), (log, s)) = elim (find (parse stdout) name) [
    | some l ↦ inl (ok l, (log, s))
    | none ↦ elim (cli.line_context_error (cli.pause s)) [
      | some e ↦ inl (err (no_line c.name name e ∷ []), (log, cli.pause s))
      | none ↦ inr (log, cli.pause s)
    ]
  ]

  -- `WaitLine` with at most the given number of polls; `none` is a loop that has not ended by then.
  unfoldable pub wait_line :
      ℕ → Container → Bytes → World S → Option (Result (List Failure) Line × World S)
  unfolding wait_step container_logs
  wait_line zero c name w = none
  wait_line (suc n) c name w = elim (wait_step c name (container_logs cli c w)) [
    | inl end ↦ some end
    | inr w' ↦ wait_line n c name w'
  ]

  -- The deferred removals of the broker and of the volume.
  unfoldable pub broker_removed : Container → Dialled S → Dialled S
  unfolding remove_container
  broker_removed b ((dials, es), w) =
      let (q, w') = remove_container cli b w in ((dials, es ++ failures q), w')

  unfoldable pub volume_removed : Bytes → Dialled S → Dialled S
  unfolding volume_removal
  volume_removed name ((dials, es), w) =
      let (q, w') = volume_removal cli name w in ((dials, es ++ failures q), w')

  -- `checkPeerIdentity` on the dials
  unfoldable pub judged : List PeerDial → List PeerViolation → List PeerDial × List Failure
  judged dials [] = (dials, [])
  judged dials (b ∷ bs) = (dials, untrusted (b ∷ bs) ∷ [])

  module _ (json : Json) (socket : Bytes) (lesson image : Bytes) (ids : PeerIdentities) where
    -- The spec of a worker; the outsider is not in the socket group.
    unfoldable pub dial_spec : Mount → Bytes → ℤ → Bool → Spec
    unfolding worker_spec
    dial_spec mount role uid in_group =
        let s =
          worker_spec lesson role image uid uid ids.socket_gid mount
            (codes "dial" ∷ codes "unix" ∷ peer_socket ∷ codes "peer\n" ∷ []) in
        if in_group then s else record s { groups = [] }

    unfoldable pub dial_of :
        Bytes
        → ℤ
        → Bool
        → (Outcome × List Failure) × World S
        → Result (List Failure) PeerDial × World S
    dial_of role uid in_group ((res, e ∷ es), w) = (err (e ∷ es), w)
    dial_of role uid in_group ((res, []), w) = (
      ok (record { role = role; uid = uid; gid = uid; in_group = in_group; stdout = res.stdout }),
      w,
    )

    -- `dial`: one worker's run
    unfoldable pub dial : Mount → Bytes → ℤ → Bool → Op S PeerDial
    unfolding dial_spec dial_of run_container
    dial mount role uid in_group w =
        dial_of role uid in_group
          (run_container cli json socket (dial_spec mount role uid in_group) w)

    -- A dial behind those made before it: the first that fails ends the check.
    unfoldable pub dialled_then :
        List PeerDial
        → (List PeerDial → World S → Dialled S)
        → Result (List Failure) PeerDial × World S
        → Dialled S
    dialled_then dials next (err es, w) = ((dials, es), w)
    dialled_then dials next (ok d, w) = next (dials ++ (d ∷ [])) w

    unfoldable pub verdict_of : List PeerDial → World S → Dialled S
    unfolding judged
    verdict_of dials w = (judged dials (check_peer_identity dials), w)

    unfoldable pub outsider_dials : Mount → List PeerDial → World S → Dialled S
    unfolding dialled_then dial verdict_of
    outsider_dials mount dials w =
        dialled_then dials verdict_of (dial mount (codes "outsider") ids.outsider false w)

    unfoldable pub second_dials : Mount → List PeerDial → World S → Dialled S
    unfolding outsider_dials
    second_dials mount dials w =
        dialled_then dials (outsider_dials mount) (dial mount (codes "worker2") ids.worker2 true w)

    unfoldable pub first_dials : Mount → World S → Dialled S
    unfolding second_dials
    first_dials mount w =
        dialled_then [] (second_dials mount) (dial mount (codes "worker1") ids.worker1 true w)

    -- The dials, once the broker reports that it listens.
    unfoldable pub heard : Container → Mount → Result (List Failure) Line × World S → Dialled S
    unfolding first_dials
    heard b mount (err es, w) = (([], es), w)
    heard b mount (ok l, w) =
        if not l.ok then (([], cannot_listen b.name l.detail ∷ []), w) else first_dials mount w

    unfoldable pub broker_started :
        ℕ → Mount → Result (List Failure) Container × World S → Option (Dialled S)
    unfolding heard wait_line broker_removed
    broker_started n mount (err es, w) = some (([], es), w)
    broker_started n mount (ok b, w) =
        once_ended (λ end. broker_removed b (heard b mount end)) (wait_line n b (codes "listen") w)

    unfoldable pub volume_prepared :
        ℕ → Result (List Failure) (Mount × Mount) × World S → Option (Dialled S)
    unfolding broker_started start_container broker_spec volume_removed
    volume_prepared n (err es, w) = some (([], es), w)
    volume_prepared n (ok (broker_mount, worker_mount), w) =
        once_ended (volume_removed broker_mount.source) (
          broker_started n worker_mount (
            start_container cli json socket
              (broker_spec lesson image ids.broker_uid ids.socket_gid broker_mount
                (codes "peer-echo" ∷ peer_socket ∷ []))
              w))

    -- `verifyPeerIdentity` with at most `n` polls for the broker's line
    unfoldable pub verify_with_image : ℕ → World S → Option (Dialled S)
    unfolding volume_prepared socket_volume
    verify_with_image n w =
        if not (validate_identities ids)
        then some (([], bad_identities ∷ []), w)
        else volume_prepared n
            (socket_volume cli json socket lesson image ids.broker_uid ids.socket_gid w)

  module _ (json : Json) (stream : StreamJson) (socket : Bytes) where
    unfoldable pub image_dropped : Bytes → Dialled S → Dialled S
    unfolding remove_probe
    image_dropped tag ((dials, es), w) =
        let (q, w') = remove_probe cli stream tag w in ((dials, es ++ failures q), w')

    unfoldable pub probe_ready :
        ℕ → Bytes → PeerIdentities → Result (List Failure) Bytes × World S → Option (Dialled S)
    unfolding verify_with_image image_dropped
    probe_ready n lesson ids (err es, w) = some (([], es), w)
    probe_ready n lesson ids (ok image, w) =
        once_ended (image_dropped image) (verify_with_image json socket lesson image ids n w)

    -- `VerifyPeerIdentity` with at most `n` polls for the broker's line
    unfoldable pub verify_peer_identity : ℕ → Bytes → PeerIdentities → World S → Option (Dialled S)
    unfolding probe_ready build_probe
    verify_peer_identity n lesson ids w =
        if not (validate_identities ids)
        then some (([], bad_identities ∷ []), w)
        else probe_ready n lesson ids (build_probe cli stream lesson w)

    -- The end of `SocketVolume`: the error of the image's removal is joined to its own. The mounts that it
    -- returns beside an error are left out.
    unfoldable pub mounts_returned :
        Bytes
        → Result (List Failure) (Mount × Mount) × World S
        → Result (List Failure) (Mount × Mount) × World S
    unfolding remove_probe
    mounts_returned tag (r, w) =
        let (q, w') = remove_probe cli stream tag w in
        (elim (failures r ++ failures q) [ [] ↦ r | e ∷ es ↦ err (e ∷ es) ], w')

    unfoldable pub volume_with_probe :
        Bytes
        → ℤ
        → ℤ
        → Result (List Failure) Bytes × World S
        → Result (List Failure) (Mount × Mount) × World S
    unfolding mounts_returned socket_volume
    volume_with_probe lesson broker_uid socket_gid (err es, w) = (err es, w)
    volume_with_probe lesson broker_uid socket_gid (ok image, w) =
        mounts_returned image (socket_volume cli json socket lesson image broker_uid socket_gid w)

    -- `SocketVolume`
    unfoldable pub public_socket_volume : Bytes → ℤ → ℤ → Op S (Mount × Mount)
    unfolding volume_with_probe build_probe
    public_socket_volume lesson broker_uid socket_gid w =
        volume_with_probe lesson broker_uid socket_gid (build_probe cli stream lesson w)

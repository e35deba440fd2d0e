-- ===== src/Docker/PeerCheck/Volumes.antt =====
-- What a dial and the preparing of a socket volume leave without a call for its removal.
use systems_trinkets.Common.{
  ◌≡◌, refl, inl, inr, Bool, true, not, ◌||◌, List, [], ◌∷◌, Bool-cases, Result, ok, err, ℤ,
  is_zero, Bytes, codes,
}
use systems_trinkets.Docker.Names.{StringMap, labels, valid_id, lesson_re, container_name}
use systems_trinkets.Docker.Engine.{Json}
use systems_trinkets.Docker.Spec.{Mount}
use systems_trinkets.Docker.Run.{Outcome, run_container}
use systems_trinkets.Docker.Run.Cleanly.{run_container_lem}
use systems_trinkets.Docker.Leaks.{
  leaked, Quiet, Below, Below-refl, Below-trans, Below-Quiet, Below-remove_volume, volume_undone,
}
use systems_trinkets.Docker.Cleanup.{volume_removal, volume_made, named_volume, volume_creation}
use systems_trinkets.Docker.Topology.{
  socket_mount, init_spec, prepared, prepare_volume, socket_volume,
}
use systems_trinkets.Docker.Peers.{PeerIdentities}
use systems_trinkets.Docker.PeerCheck.{dial_of, dial_spec, dial}
use systems_trinkets.Docker.Client.{
  Event, create_volume, Client, Failure, World, after_result, ◌>>=◌, call, fail_after,
}

module _ {S : Type 0} (cli : Client S) where
  pub dial-Below :
      (json : Json) (socket lesson image : Bytes) (ids : PeerIdentities) (mount : Mount)
      (role : Bytes) (uid : ℤ) (g : Bool) (w : World S)
      → Below (dial cli json socket lesson image ids mount role uid g w).1.0 w.0
  unfolding dial
  dial-Below json socket lesson image ids mount role uid g (log, s) =
      read
        (run_container cli json socket (dial_spec cli json socket lesson image ids mount role uid g)
          (log, s))
        (run_container_lem cli json socket
          (dial_spec cli json socket lesson image ids mount role uid g) log s).0
    where
      read :
          (r : (Outcome × List Failure) × World S)
          → Below r.1.0 log
          → Below (dial_of cli json socket lesson image ids role uid g r).1.0 log
      read ((res, []), w) h = unfold dial_of in h
      read ((res, e ∷ es), w) h = unfold dial_of in h

  -- What a step left of the volume that it gave, or nothing.
  abbrev VolumeLeft : List Event → Result (List Failure) Bytes × World S → Type 0
  VolumeLeft log (ok name, w) = (l : StringMap) × (w.0 ≡ create_volume name l true ∷ log)
  VolumeLeft log (err es, w) = Quiet log w.0

  volume_creation-VolumeLeft :
      (lesson role : Bytes) (log : List Event) (s : S)
      → VolumeLeft log (volume_creation cli lesson role (log, s))
  unfolding volume_creation named_volume
  volume_creation-VolumeLeft lesson role log s = elim (Bool-cases (lesson_re lesson)) [
    | inr f ↦ rw f (λ later. refl)
    | inl t ↦ rw t (elim (Bool-cases (lesson_re role)) [
      | inr f ↦ rw f (λ later. refl)
      | inl u ↦ rw u (
          made (container_name lesson role (cli.name_suffix s).0) (labels lesson)
            (cli.volume_create (container_name lesson role (cli.name_suffix s).0) (labels lesson)
              (cli.name_suffix s).1).0
            _)
    ])
  ]
    where
      made :
          (name : Bytes) (l : StringMap) (r : Result Bytes (Unit {0})) (s : S)
          → VolumeLeft log (volume_made cli name l r (log, s))
      made name l (ok u) s = unfold volume_made in (l, refl)
      made name l (err e) s = unfold volume_made leaked in λ later. refl

  pub volume_removal-Below :
      (name : Bytes) (l : StringMap) (log : List Event) (w : World S)
      → Below w.0 (create_volume name l true ∷ log)
      → Below (volume_removal cli name w).1.0 log
  unfolding volume_removal call
  volume_removal-Below name l log (log', s) h =
      Below-trans (Below-remove_volume name h) (volume_undone name l log)

  -- What a step left of the mounts' volume, or nothing.
  abbrev pub MountsLeft : List Event → Result (List Failure) (Mount × Mount) × World S → Type 0
  MountsLeft log (ok (broker, worker), w) =
      (l : StringMap) × Below w.0 (create_volume broker.source l true ∷ log)
  MountsLeft log (err es, w) = Below w.0 log

  module _ (json : Json) (socket lesson image : Bytes) where
    prepared-MountsLeft :
        (name : Bytes) (l : StringMap) (log : List Event) (r : (Outcome × List Failure) × World S)
        → Below r.1.0 (create_volume name l true ∷ log)
        → MountsLeft log (prepared cli json socket name r)
    unfolding prepared fail_after
    prepared-MountsLeft name l log ((res, []), w) h = elim (Bool-cases (is_zero res.exit_code)) [
      | inl z ↦ rw z (unfold socket_mount in (l, h))
      | inr z ↦ rw z (volume_removal-Below name l log w h)
    ]
    prepared-MountsLeft name l log ((res, e ∷ es), w) h = volume_removal-Below name l log w h

    pub socket_volume-MountsLeft :
        (broker_uid socket_gid : ℤ) (log : List Event) (s : S)
        → MountsLeft log (socket_volume cli json socket lesson image broker_uid socket_gid (log, s))
    unfolding socket_volume
    socket_volume-MountsLeft broker_uid socket_gid log s =
        elim (Bool-cases (not (valid_id broker_uid) || not (valid_id socket_gid))) [
          | inl t ↦ rw t (Below-refl log)
          | inr f ↦ rw f (
              unfold ◌>>=◌ in
              made (volume_creation cli lesson (codes "sock") (log, s))
                (volume_creation-VolumeLeft lesson (codes "sock") log s))
        ]
      where
        made :
            (r : Result (List Failure) Bytes × World S)
            → VolumeLeft log r
            → MountsLeft log (
                after_result
                  (λ name. prepare_volume cli json socket lesson image broker_uid socket_gid name)
                  r)
        made (err es, w) h = unfold after_result in Below-Quiet log w.0 h
        made (ok name, (log', s)) (l, e) =
            unfold after_result prepare_volume in
            prepared-MountsLeft name l log
              (run_container cli json socket (init_spec lesson image broker_uid socket_gid name)
                (log', s))
              (rw (← e)
                (run_container_lem cli json socket
                  (init_spec lesson image broker_uid socket_gid name) log' s).0)

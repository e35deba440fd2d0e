-- ===== src/Docker/Topology.antt =====
-- internal/lab/docker/topology.go: the specs of a socket topology and the preparation of its volume.
pub mod Members
use systems_trinkets.Golang.Decimal.{itoa_int}
use systems_trinkets.Docker.Names.{owner, valid_id}
use systems_trinkets.Docker.Engine.{Json}
use systems_trinkets.Docker.Spec.{Mount, mount_volume, Spec, restricted}
use systems_trinkets.Docker.Run.{Outcome, run_container}
use systems_trinkets.Docker.Cleanup.{volume_removal, volume_creation}
use systems_trinkets.Docker.Client.{
  Event, create, inspect, start, wait_exit, wait_stopped, logs, list_id, remove, stop, exec_create,
  exec_attach, exec_inspect, list_containers, list_volumes, list_networks, create_volume,
  remove_volume, remove_network, Item, Waited, exited, wait_error, context_done, ExecInspect,
  Output, Client, Stage, creating, inspecting, starting, waiting, running, fetching_logs, stopping,
  removing, creating_exec, reading_output, inspecting_exec, listing_containers, listing_volumes,
  listing_networks, creating_volume, removing_volume, removing_network, sweeping, Failure, bad_spec,
  refused, mismatched, bad_lesson, bad_role, failed, nonzero_exit, bad_owner, World, Op, failures,
  reported, after_result, ◌>>=◌, pure, fail, call, undo_on_error, fail_after,
}
use systems_trinkets.Common.{
  Bool, true, false, not, ◌||◌, some, List, [], ◌∷◌, ◌++◌, if◌then◌else◌, Result, ok, err, ℤ,
  is_zero, pos, Bytes, codes,
}

abbrev pub socket_dir : Bytes
socket_dir = codes "/sock"

abbrev pub socket_dir_mode : Bytes
socket_dir_mode = codes "2750"

-- The broker's mount of the socket volume `name`, and the worker's.
unfoldable pub socket_mount : Bytes → Bool → Mount
socket_mount name read_only = record {
  kind = mount_volume;
  source = name;
  target = socket_dir;
  read_only = read_only;
  tmpfs_size = pos 0;
}

-- `BrokerSpec`
unfoldable pub broker_spec : Bytes → Bytes → ℤ → ℤ → Mount → List Bytes → Spec
unfolding restricted
broker_spec lesson image broker_uid socket_gid sock cmd =
    let s = restricted lesson (codes "broker") image cmd in
    record s { user = owner broker_uid socket_gid; mounts = s.mounts ++ (sock ∷ []) }

-- `WorkerSpec`
unfoldable pub worker_spec : Bytes → Bytes → Bytes → ℤ → ℤ → ℤ → Mount → List Bytes → Spec
unfolding restricted
worker_spec lesson role image uid gid socket_gid sock cmd =
    let s = restricted lesson role image cmd in
    record s {
      user = owner uid gid;
      groups = itoa_int socket_gid ∷ [];
      mounts = s.mounts ++ (sock ∷ []);
    }

-- The one-shot container of `socketVolume` that gives the directory to the broker.
unfoldable pub init_spec : Bytes → Bytes → ℤ → ℤ → Bytes → Spec
unfolding restricted
init_spec lesson image broker_uid socket_gid name =
    let s =
      restricted lesson (codes "sockinit") image
        (codes "initdir" ∷ socket_dir ∷ owner broker_uid socket_gid ∷ socket_dir_mode ∷ []) in
    record s {
      user = owner (pos 0) socket_gid;
      cap_add = some (codes "CHOWN" ∷ codes "FOWNER" ∷ []);
      mounts = s.mounts ++ (socket_mount name false ∷ []);
    }

module _ {S : Type 0} (cli : Client S) (json : Json) (socket : Bytes) where
  -- What is left to do after the init container ran.
  unfoldable pub prepared :
      Bytes → (Outcome × List Failure) × World S → Result (List Failure) (Mount × Mount) × World S
  unfolding volume_removal
  prepared name ((res, []), w) =
      if is_zero res.exit_code
      then (ok (socket_mount name false, socket_mount name true), w)
      else fail_after (nonzero_exit res.exit_code (res.stdout ++ res.stderr) ∷ [])
          (volume_removal cli name) w
  prepared name ((res, e ∷ es), w) = fail_after (e ∷ es) (volume_removal cli name) w

  unfoldable pub prepare_volume : Bytes → Bytes → ℤ → ℤ → Bytes → Op S (Mount × Mount)
  unfolding prepared init_spec run_container
  prepare_volume lesson image broker_uid socket_gid name w =
      prepared name
        (run_container cli json socket (init_spec lesson image broker_uid socket_gid name) w)

  -- `socketVolume`: the broker's mount and the worker's.
  unfoldable pub socket_volume : Bytes → Bytes → ℤ → ℤ → Op S (Mount × Mount)
  unfolding prepare_volume volume_creation
  socket_volume lesson image broker_uid socket_gid w =
      if not (valid_id broker_uid) || not (valid_id socket_gid)
      then (err (bad_owner broker_uid socket_gid ∷ []), w)
      else (volume_creation cli lesson (codes "sock") >>= λ name.
            prepare_volume lesson image broker_uid socket_gid name)
          w

-- ===== src/Docker/Run.antt =====
-- internal/lab/docker/run.go: creating, starting, running, waiting for, executing in, stopping and
-- removing a container, as calls of the engine in the order the code makes them.
pub mod Removal
pub mod Cleanly
pub mod Guarded
use systems_trinkets.Docker.Engine.{Json, Request, InspectResponse}
use systems_trinkets.Docker.Spec.{Spec, SpecError, translate}
use systems_trinkets.Docker.Invariants.{Mismatch, Violation, check_config, check_observed}
use systems_trinkets.Docker.Client.{
  Event, create, inspect, start, wait_exit, wait_stopped, logs, list_id, remove, stop, exec_create,
  exec_attach, exec_inspect, list_containers, list_volumes, list_networks, create_volume,
  remove_volume, remove_network, Item, Waited, exited, wait_error, context_done, ExecInspect,
  Output, Client, Stage, creating, inspecting, starting, waiting, running, fetching_logs, stopping,
  removing, creating_exec, reading_output, inspecting_exec, listing_containers, listing_volumes,
  listing_networks, creating_volume, removing_volume, removing_network, sweeping, Failure, bad_spec,
  refused, mismatched, bad_lesson, bad_role, failed, nonzero_exit, bad_owner, World, Op, failures,
  reported, after_result, ◌>>=◌, pure, fail, call, undo_on_error, fail_after,
}
use systems_trinkets.Common.{
  ℕ, ◌+◌, ◌/◌, Bool, true, false, Option, none, some, List, [], ◌∷◌, ◌++◌, if◌then◌else◌, Result,
  ok, err, ℤ, pos, negsuc, Bytes, is_empty,
}

-- `Result`; the duration is not modelled.
pub record Outcome : Type 0 where
  pub exit_code : ℤ
  pub stdout : Bytes
  pub stderr : Bytes
  pub oom_killed : Bool

pub record Container : Type 0 where
  pub id : Bytes
  pub name : Bytes
  pub request : Request

abbrev pub zero_outcome : Outcome
zero_outcome = record { exit_code = pos 0; stdout = []; stderr = []; oom_killed = false }

abbrev pub oom_killed_of : InspectResponse → Bool
oom_killed_of insp = elim insp.oom_killed [ none ↦ false | some b ↦ b ]

abbrev pub is_gone : Result Bytes (List Item) → Bool
is_gone (ok []) = true
is_gone (ok (i ∷ items)) = false
is_gone (err e) = false

module _ {S : Type 0} (cli : Client S) where
  -- `containerGone` of cleanup.go: an error of the list call counts as "still there".
  unfoldable pub container_gone : Bytes → World S → Bool × World S
  container_gone id (log, s) =
      let (r, s') = cli.container_with_id id s in (is_gone r, (list_id id ∷ log, s'))

  unfoldable pub removed :
      Container → Result Bytes (Unit {0}) × World S → Result (List Failure) (Unit {0}) × World S
  unfolding container_gone
  removed c (ok u, w) = (ok u, w)
  removed c (err e, w) =
      let (gone, w') = container_gone c.id w in
      (if gone then ok tt else err (failed removing c.name e ∷ []), w')

  -- `Remove`, whose calls run on a context of their own
  unfoldable pub remove_container : Container → Op S (Unit {0})
  unfolding removed
  remove_container c (log, s) =
      let (r, s') = cli.container_remove c.id s in removed c (r, (remove c.id ∷ log, s'))

  -- `Inspect`
  unfoldable pub inspect_container : Container → Op S InspectResponse
  unfolding call
  inspect_container c = call (inspect c.id) inspecting c.name (cli.container_inspect c.id)

  unfoldable pub created :
      Request → Result Bytes Bytes → World S → Result (List Failure) Container × World S
  created req (ok id) (log, s) =
      (ok (record { id = id; name = req.name; request = req }), (create req (some id) ∷ log, s))
  created req (err e) (log, s) = (err (failed creating req.name e ∷ []), (create req none ∷ log, s))

  -- `cli.ContainerCreate`
  unfoldable pub create_call : Request → Op S Container
  unfolding created
  create_call req (log, s) = let (r, s') = cli.container_create req s in created req r (log, s')

  unfoldable pub verdict : Container → List Mismatch → Op S (Unit {0})
  verdict c [] w = (ok tt, w)
  verdict c (b ∷ bs) w = (err (mismatched c.name (b ∷ bs) ∷ []), w)

  -- `CheckObserved` on what `Inspect` returned
  unfoldable pub observe : Container → Op S (Unit {0})
  unfolding inspect_container
  observe c = do got ← inspect_container c; verdict c (check_observed got c.request)

  unfoldable pub start_call : Container → Op S (Unit {0})
  unfolding call
  start_call c = call (start c.id) starting c.name (cli.container_start c.id)

  unfoldable pub copied : Container → Output → Option Bytes → Op S (Bytes × Bytes)
  copied c out none w = (ok (out.stdout, out.stderr), w)
  copied c out (some e) w = (err (failed fetching_logs c.name e ∷ []), w)

  unfoldable pub logs_call : Container → Op S Output
  unfolding call
  logs_call c = call (logs c.id) fetching_logs c.name (cli.container_logs c.id)

  -- `Logs`
  unfoldable pub container_logs : Container → Op S (Bytes × Bytes)
  unfolding logs_call
  container_logs c = do out ← logs_call c; copied c out out.copy_error

  -- `Stop`: the grace in nanoseconds, rounded up to seconds (the code's float64 is exact below 2^22
  -- seconds) and 0 at least.
  unfoldable pub grace_seconds : ℤ → ℕ
  grace_seconds (pos n) = (n + 999999999) / 1000000000
  grace_seconds (negsuc n) = 0

  unfoldable pub stop_container : Container → ℤ → Op S (Unit {0})
  unfolding grace_seconds call
  stop_container c grace =
      call (stop c.id (grace_seconds grace)) stopping c.name
        (cli.container_stop c.id (grace_seconds grace))

  -- `Wait`: the exit code, which is also given beside the engine's error text.
  unfoldable pub waited : Container → Waited → ℤ × List Failure
  waited c (exited code message) =
      (code, if is_empty message then [] else failed waiting c.name message ∷ [])
  waited c (wait_error e) = (pos 0, failed waiting c.name e ∷ [])
  waited c (context_done e) = (pos 0, failed waiting c.name e ∷ [])

  unfoldable pub wait_container : Container → World S → (ℤ × List Failure) × World S
  unfolding waited
  wait_container c (log, s) =
      let (r, s') = cli.container_wait_stopped c.id s in (waited c r, (wait_stopped c.id ∷ log, s'))

  -- The wait of a one-shot run is registered before the start and read after it.
  unfoldable pub register_wait : Container → World S → World S
  register_wait c (log, s) = (wait_exit c.id ∷ log, s)

  -- `Run` after the exit: the logs, then what the engine recorded.
  unfoldable pub read_oom :
      Outcome → Result (List Failure) InspectResponse × World S → (Outcome × List Failure) × World S
  read_oom res (err es, w) = ((res, es), w)
  read_oom res (ok insp, w) = ((record res { oom_killed = oom_killed_of insp }, []), w)

  unfoldable pub read_outcome :
      Container
      → ℤ
      → Result (List Failure) (Bytes × Bytes) × World S
      → (Outcome × List Failure) × World S
  unfolding read_oom inspect_container
  read_outcome c code (err es, w) = ((record zero_outcome { exit_code = code }, es), w)
  read_outcome c code (ok (so, se), w) =
      read_oom (record { exit_code = code; stdout = so; stderr = se; oom_killed = false })
        (inspect_container c w)

  unfoldable pub after_exit : Container → Waited → World S → (Outcome × List Failure) × World S
  unfolding read_outcome container_logs
  after_exit c (wait_error e) w = ((zero_outcome, failed waiting c.name e ∷ []), w)
  after_exit c (context_done e) w = ((zero_outcome, failed running c.name e ∷ []), w)
  after_exit c (exited code message) w =
      if is_empty message
      then read_outcome c code (container_logs c w)
      else ((record zero_outcome { exit_code = code }, failed waiting c.name message ∷ []), w)

  unfoldable pub after_start :
      Container → Result (List Failure) (Unit {0}) × World S → (Outcome × List Failure) × World S
  unfolding after_exit
  after_start c (err es, w) = ((zero_outcome, es), w)
  after_start c (ok u, (log, s)) =
      let (r, s') = cli.container_wait_exit c.id s in after_exit c r (log, s')

  -- The deferred removal of `Run`: its error is joined to the run's.
  unfoldable pub removed_at_last :
      Container → (Outcome × List Failure) × World S → (Outcome × List Failure) × World S
  unfolding remove_container
  removed_at_last c ((res, es), w) =
      let (q, w') = remove_container c w in ((res, es ++ failures q), w')

  unfoldable pub after_create :
      Result (List Failure) Container × World S → (Outcome × List Failure) × World S
  unfolding removed_at_last after_start register_wait start_call
  after_create (err es, w) = ((zero_outcome, es), w)
  after_create (ok c, w) = removed_at_last c (after_start c (start_call c (register_wait c w)))

  module _ (json : Json) (socket : Bytes) where
    unfoldable pub create_checked : Request → Op S Container
    unfolding create_call observe remove_container
    create_checked req = do
      c ← create_call req
      undo_on_error (observe c) (remove_container c) (λ u. c)

    unfoldable pub create_guarded : Request → List Violation → Op S Container
    unfolding create_checked
    create_guarded req [] w = create_checked req w
    create_guarded req (b ∷ bs) w = (err (refused req.name (b ∷ bs) ∷ []), w)

    unfoldable pub create_requested : Result (List SpecError) Request → Op S Container
    unfolding create_guarded
    create_requested (err es) w = (err (bad_spec es ∷ []), w)
    create_requested (ok req) w = create_guarded req (check_config json req socket) w

    -- `Create`, where the daemon's socket is `socket`. The random suffix of the name is the engine
    -- state's.
    unfoldable pub create_container : Spec → Op S Container
    unfolding create_requested
    create_container spec (log, s) =
        let (suffix, s') = cli.name_suffix s in
        create_requested (translate json spec socket suffix) (log, s')

    -- `Start`
    unfoldable pub start_container : Spec → Op S Container
    start_container spec = do
      c ← create_container spec
      undo_on_error (start_call c) (remove_container c) (λ u. c)

    -- `Run`: the result with the errors joined.
    unfoldable pub run_container : Spec → World S → (Outcome × List Failure) × World S
    unfolding create_container after_create
    run_container spec w = after_create (create_container spec w)

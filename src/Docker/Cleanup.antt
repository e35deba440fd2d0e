-- ===== src/Docker/Cleanup.antt =====
-- internal/lab/docker/cleanup.go: listing and removing what carries a lesson's label, and creating
-- a labelled volume; with `noLeak` of invariants.go and `removeVolume` of topology.go.
pub mod Owned
pub mod Clean
pub mod Removals
pub mod Calls
pub mod Swept
use systems_trinkets.Docker.Names.{StringMap, lesson_re, owned_by, container_name, labels}
use systems_trinkets.Docker.Client.{
  Event, create, inspect, start, wait_exit, wait_stopped, logs, list_id, remove, stop, exec_create,
  exec_attach, exec_inspect, list_containers, list_volumes, list_networks, create_volume,
  remove_volume, remove_network, Item, Waited, exited, wait_error, context_done, ExecInspect,
  Output, Client, Stage, creating, inspecting, starting, waiting, running, fetching_logs, stopping,
  removing, creating_exec, reading_output, inspecting_exec, listing_containers, listing_volumes,
  listing_networks, creating_volume, removing_volume, removing_network, sweeping, Failure, bad_spec,
  refused, mismatched, bad_lesson, bad_role, failed, nonzero_exit, bad_owner, World, Op, failures,
  reported, after_result, ◌>>=◌, pure, fail, call, undo_on_error, fail_after,
}
use systems_trinkets.Common.{
  ◌+◌, Bool, true, false, not, ◌&&◌, Option, none, some, List, [], ◌∷◌, ◌++◌, map, ◌==◌,
  if◌then◌else◌, Result, ok, err, Bytes, bytes_eq, length,
}

pub record Leftovers : Type 0 where
  pub containers : List Bytes
  pub volumes : List Bytes
  pub networks : List Bytes

abbrev pub nothing : Leftovers
nothing = record { containers = []; volumes = []; networks = [] }

-- `Empty`
unfoldable pub is_clean : Leftovers → Bool
is_clean l = length l.containers + length l.volumes + length l.networks == 0

-- `containerName`: the first name without its slash, or the ID.
unfoldable pub listed_name : List Bytes → Bytes → Bytes
listed_name [] id = id
listed_name ([] ∷ names) id = id
listed_name ((c ∷ []) ∷ names) id = id
listed_name ((c ∷ d ∷ s) ∷ names) id = d ∷ s

-- The name of a volume or a network.
unfoldable pub plain_name : List Bytes → Bytes → Bytes
plain_name [] id = []
plain_name (n ∷ names) id = n

-- The loop over the items of a list call.
unfoldable pub owned_names : (List Bytes → Bytes → Bytes) → Bytes → List Item → List Bytes
owned_names name lesson [] = []
owned_names name lesson (i ∷ items) =
    let rest = owned_names name lesson items in
    if owned_by i.labels lesson then name i.names i.id ∷ rest else rest

-- A leak, as `noLeak` reports it.
pub data Leak : Type 0 where
  leaked_container leaked_volume leaked_network : Bytes → Leak

unfoldable pub no_leak : Leftovers → List Leak
no_leak l =
    map leaked_container l.containers
    ++ (map leaked_volume l.volumes ++ map leaked_network l.networks)

-- The object kinds of `Sweep`, which are the first words of its keys.
pub data Kind : Type 0 where
  container_kind volume_kind network_kind : Kind

abbrev pub kind_eq : Kind → Kind → Bool
kind_eq container_kind container_kind = true
kind_eq volume_kind volume_kind = true
kind_eq network_kind network_kind = true
kind_eq container_kind volume_kind = false
kind_eq container_kind network_kind = false
kind_eq volume_kind container_kind = false
kind_eq volume_kind network_kind = false
kind_eq network_kind container_kind = false
kind_eq network_kind volume_kind = false

-- The map `failed` of `Sweep`, the last failure first.
abbrev pub Failed : Type 0
Failed = List (Kind × Bytes × Bytes)

unfoldable pub failure_at : Failed → Kind → Bytes → Option Bytes
failure_at [] k n = none
failure_at ((j, m, e) ∷ fs) k n = if kind_eq j k && bytes_eq m n then some e else failure_at fs k n

abbrev pub stage_of : Kind → Stage
stage_of container_kind = removing
stage_of volume_kind = removing_volume
stage_of network_kind = removing_network

-- The failed removals of one kind whose object is still listed.
unfoldable pub still_failed : Failed → Kind → List Bytes → List Failure
still_failed fs k [] = []
still_failed fs k (n ∷ names) = elim (failure_at fs k n) [
  | none ↦ still_failed fs k names
  | some e ↦ failed (stage_of k) n e ∷ still_failed fs k names
]

-- The errors that remain after the second listing. The code ranges over a map of the three kinds,
-- whose order Go leaves open; here it is the order of the fields.
unfoldable pub sweep_failures : Failed → Leftovers → List Failure
unfolding still_failed
sweep_failures fs still =
    still_failed fs container_kind still.containers
    ++ (still_failed fs volume_kind still.volumes ++ still_failed fs network_kind still.networks)

-- The closure `try` of `Sweep`: what was removed of a kind, and the failures of all kinds.
unfoldable pub try_removal :
    Kind → Bytes → Result Bytes (Unit {0}) → List Bytes × Failed → List Bytes × Failed
try_removal k n (ok u) (done, fs) = (done ++ (n ∷ []), fs)
try_removal k n (err e) (done, fs) = (done, (k, n, e) ∷ fs)

module _ {S : Type 0} (cli : Client S) where
  -- A list call and the owned names of its reply.
  unfoldable pub list_kind :
      Event
      → Stage
      → (List Bytes → Bytes → Bytes)
      → Bytes
      → (S → Result Bytes (List Item) × S)
      → Op S (List Bytes)
  list_kind e stage name lesson f = do
    items ← call e stage lesson f
    pure (owned_names name lesson items)

  -- The three list calls, with the server-side filter of the lesson.
  unfoldable pub list_owned : Bytes → Op S Leftovers
  unfolding list_kind
  list_owned lesson = do
    cs ←
        list_kind (list_containers lesson) listing_containers listed_name lesson
          (cli.containers lesson)
    vs ← list_kind (list_volumes lesson) listing_volumes plain_name lesson (cli.volumes lesson)
    ns ← list_kind (list_networks lesson) listing_networks plain_name lesson (cli.networks lesson)
    pure (record { containers = cs; volumes = vs; networks = ns })

  -- `ListLesson`
  unfoldable pub list_lesson : Bytes → Op S Leftovers
  unfolding list_owned
  list_lesson lesson w =
      if lesson_re lesson then list_owned lesson w else (err (bad_lesson lesson ∷ []), w)

  -- `CheckNoLeak`
  unfoldable pub check_no_leak : Bytes → Op S (List Leak)
  unfolding list_lesson
  check_no_leak lesson = do left ← list_lesson lesson; pure (no_leak left)

  -- One loop of `Sweep` over the names of a kind.
  unfoldable pub remove_all :
      Kind
      → (Bytes → Event)
      → (Bytes → S → Result Bytes (Unit {0}) × S)
      → List Bytes
      → List Bytes × Failed
      → World S
      → (List Bytes × Failed) × World S
  unfolding try_removal
  remove_all k event f [] acc w = (acc, w)
  remove_all k event f (n ∷ names) acc (log, s) =
      let (r, s') = f n s in remove_all k event f names (try_removal k n r acc) (event n ∷ log, s')

  -- The three loops.
  unfoldable pub remove_containers : Leftovers → World S → (List Bytes × Failed) × World S
  unfolding remove_all
  remove_containers left =
      remove_all container_kind remove cli.container_remove left.containers ([], [])

  unfoldable pub remove_volumes : Leftovers → Failed → World S → (List Bytes × Failed) × World S
  unfolding remove_all
  remove_volumes left fs =
      remove_all volume_kind remove_volume cli.volume_remove left.volumes ([], fs)

  unfoldable pub remove_networks : Leftovers → Failed → World S → (List Bytes × Failed) × World S
  unfolding remove_all
  remove_networks left fs =
      remove_all network_kind remove_network cli.network_remove left.networks ([], fs)

  unfoldable pub remove_left : Leftovers → World S → (Leftovers × Failed) × World S
  unfolding remove_containers remove_volumes remove_networks
  remove_left left w =
      let ((cs, fs₁), w₁) = remove_containers left w in
      let ((vs, fs₂), w₂) = remove_volumes left fs₁ w₁ in
      let ((ns, fs₃), w₃) = remove_networks left fs₂ w₂ in
      ((record { containers = cs; volumes = vs; networks = ns }, fs₃), w₃)

  unfoldable pub swept :
      Leftovers
      → Failed
      → Result (List Failure) Leftovers × World S
      → (Leftovers × List Failure) × World S
  unfolding sweep_failures
  swept removed fs (err es, w) = ((removed, es), w)
  swept removed fs (ok still, w) = ((removed, sweep_failures fs still), w)

  unfoldable pub sweep_left :
      Bytes → (Leftovers × Failed) × World S → (Leftovers × List Failure) × World S
  unfolding swept list_lesson
  sweep_left lesson ((removed, []), w) = ((removed, []), w)
  sweep_left lesson ((removed, f ∷ fs), w) = swept removed (f ∷ fs) (list_lesson lesson w)

  unfoldable pub sweep_listed :
      Bytes → Result (List Failure) Leftovers × World S → (Leftovers × List Failure) × World S
  unfolding sweep_left remove_left
  sweep_listed lesson (err es, w) = ((nothing, es), w)
  sweep_listed lesson (ok left, w) = sweep_left lesson (remove_left left w)

  -- `Sweep`: what it removed, with its errors.
  unfoldable pub sweep : Bytes → World S → (Leftovers × List Failure) × World S
  unfolding sweep_listed list_lesson
  sweep lesson w = sweep_listed lesson (list_lesson lesson w)

  -- `removeVolume` of topology.go
  unfoldable pub volume_removal : Bytes → Op S (Unit {0})
  unfolding call
  volume_removal name = call (remove_volume name) removing_volume name (cli.volume_remove name)

  unfoldable pub volume_made :
      Bytes → StringMap → Result Bytes (Unit {0}) → World S → Result (List Failure) Bytes × World S
  volume_made name l (ok u) (log, s) = (ok name, (create_volume name l true ∷ log, s))
  volume_made name l (err e) (log, s) =
      (err (failed creating_volume name e ∷ []), (create_volume name l false ∷ log, s))

  unfoldable pub named_volume : Bytes → Bytes → Op S Bytes
  unfolding volume_made
  named_volume lesson name (log, s) =
      let (r, s') = cli.volume_create name (labels lesson) s in
      volume_made name (labels lesson) r (log, s')

  -- `CreateVolume`
  unfoldable pub volume_creation : Bytes → Bytes → Op S Bytes
  unfolding named_volume
  volume_creation lesson role (log, s) =
      if not (lesson_re lesson)
      then (err (bad_lesson lesson ∷ []), (log, s))
      else if not (lesson_re role)
      then (err (bad_role role ∷ []), (log, s))
      else let (suffix, s') = cli.name_suffix s in
        named_volume lesson (container_name lesson role suffix) (log, s')

-- ===== src/Witnesses/Runs.antt =====
-- The properties of creating, running, listing and sweeping, and those of the peers, on a small engine.
use systems_trinkets.Witnesses.Containers.{
  first_byte_json, first_byte_json-keeps, sock, suffix, spec, translated, recorded,
}
use systems_trinkets.Docker.Engine.{Request}
use systems_trinkets.Docker.Spec.{request_of}
use systems_trinkets.Docker.Exec.{exec_container}
use systems_trinkets.Docker.Exec.Ends.{Settles, exec_container_lem}
use systems_trinkets.Docker.Run.{
  Outcome, Container, run_container, create_container, create_checked,
}
use systems_trinkets.Docker.Leaks.{Below}
use systems_trinkets.Docker.Run.Cleanly.{run_container_lem}
use systems_trinkets.Docker.Run.Guarded.{create_container_lem}
use systems_trinkets.Docker.Cleanup.Owned.{list_lesson_lem}
use systems_trinkets.Docker.Cleanup.Clean.{check_no_leak_lem}
use systems_trinkets.Docker.Cleanup.Calls.{removals}
use systems_trinkets.Docker.Cleanup.Swept.{GoneAfter, sweep_lem}
use systems_trinkets.Docker.Peers.{
  PeerDial, check_peer_identity, dial_check, peer_uid_is_assigned_uid, socket_group_gates_connect,
  group_uids, outsiders, parse_peer_cred, peer_cred_text,
}
use systems_trinkets.Probeout.{find, parse, parse_line, valid_name, valid_detail}
use systems_trinkets.Golang.Decimal.{parse_int, digits_value, itoa_int, itoa}
use systems_trinkets.Docker.Peers.Identity.{IdentityHolds, check_peer_identity_sound}
use systems_trinkets.Docker.Names.{lesson_re, kebab_from, owned_by, labels, map_get}
use systems_trinkets.Docker.Cleanup.{
  Leftovers, listed_name, plain_name, owned_names, no_leak, volume_kind, failure_at, still_failed,
  sweep_failures, list_kind, list_owned, list_lesson, check_no_leak, try_removal, remove_all,
  remove_containers, remove_volumes, remove_networks, remove_left, swept, sweep_left, sweep_listed,
  sweep,
}
use systems_trinkets.Docker.Client.{
  list_containers, list_volumes, list_networks, Item, exited, Client, Failure, World, reported,
  after_result, ◌>>=◌, call,
}
use systems_trinkets.Common.{
  ℕ, ◌+◌, ◌≡◌, refl, ◌⊎◌, inl, inr, true, false, Option, none, some, List, [], ◌∷◌, ltb, ◌==◌,
  if◌then◌else◌, ok, err, pos, Bytes, codes, bytes_eq, cut_prefix, has_prefix, cut, cut_suffix,
  trim_suffix, cut_on, split, has_infix, All, Mem, here,
}

abbrev own_volume : Item
own_volume = record { names = codes "v" ∷ []; id = []; labels = labels (codes "a") }

abbrev foreign_volume : Item
foreign_volume = record { names = codes "w" ∷ []; id = []; labels = labels (codes "b") }

-- An engine that keeps the last request and gives every container the same ID. One volume of the
-- lesson is listed until it is removed, beside a foreign one; its removal fails the first time.
abbrev small_engine : Client (Option Request × ℕ)
small_engine = record {
  name_suffix = λ s. (suffix, s);
  container_create = λ req (r, n). (ok (codes "c1"), (some req, n));
  container_inspect = λ id (r, n).
      (elim r [ none ↦ err (codes "no such container") | some req ↦ ok (recorded req) ], (r, n));
  container_start = λ id s. (ok tt, s);
  container_wait_exit = λ id s. (exited (pos 0) [], s);
  container_wait_stopped = λ id s. (exited (pos 0) [], s);
  container_logs =
      λ id s. (ok (record { stdout = codes "id: OK x\n"; stderr = []; copy_error = none }), s);
  container_stop = λ id secs s. (ok tt, s);
  container_remove = λ id (r, n). (ok tt, (none, n));
  container_with_id = λ id s. (ok [], s);
  new_exec = λ id cmd s. (ok (codes "e1"), s);
  attach_exec = λ id s. (ok (record { stdout = []; stderr = []; copy_error = none }), s);
  inspect_exec = λ id s. (ok (record { running = false; exit_code = pos 0 }), s);
  containers = λ lesson s. (ok [], s);
  volumes = λ lesson (r, n).
      (ok (if ltb n 2 then own_volume ∷ foreign_volume ∷ [] else foreign_volume ∷ []), (r, n));
  networks = λ lesson s. (ok [], s);
  volume_create = λ name l s. (ok tt, s);
  volume_remove = λ name (r, n). (if n == 0 then err (codes "in use") else ok tt, (r, n + 2));
  network_remove = λ name s. (ok tt, s);
  architecture = λ s. (ok (codes "x86_64"), s);
  compile = λ pkg arch s. (ok (codes "elf"), s);
  image_build = λ files tag l s. (ok ([], false), s);
  image_inspect = λ tag s. (ok tt, s);
  image_remove = λ tag s. (ok tt, s);
  pause = λ s. s;
  context_error = λ s. none;
  line_context_error = λ s. none;
}

run_container_lem_example :
    Below (run_container small_engine first_byte_json sock spec ([], (none, 0))).1.0 []
run_container_lem_example =
    (run_container_lem small_engine first_byte_json sock spec [] (none, 0)).0

create_container_lem_example :
    create_container small_engine first_byte_json sock spec ([], (none, 0))
    ≡ create_checked small_engine first_byte_json sock
        (request_of first_byte_json spec suffix)
        ([], (none, 0))
create_container_lem_example =
    (create_container_lem small_engine first_byte_json first_byte_json-keeps sock spec []
        (none, 0)).1
      (request_of first_byte_json spec suffix) translated

abbrev left : Leftovers
left = record { containers = []; volumes = codes "v" ∷ []; networks = [] }

lists_own : list_lesson small_engine (codes "a") ([], (none, 0)) ≡ (
  ok left,
  (
    list_networks (codes "a") ∷ list_volumes (codes "a") ∷ list_containers (codes "a") ∷ [],
    (none, 0),
  ),
)
unfolding list_lesson list_owned list_kind ◌>>=◌ after_result call reported owned_names lesson_re
    kebab_from owned_by labels map_get bytes_eq listed_name plain_name
lists_own = refl

list_lesson_lem_example : lesson_re (codes "a") ≡ true
list_lesson_lem_example = (list_lesson_lem small_engine (codes "a") [] (none, 0) left _ lists_own).0

reports_nothing : (sweep small_engine (codes "a") ([], (none, 0))).0.1 ≡ []
unfolding sweep sweep_listed sweep_left swept sweep_failures still_failed failure_at remove_left
    remove_containers remove_volumes remove_networks remove_all try_removal list_lesson list_owned
    list_kind ◌>>=◌ after_result call reported owned_names lesson_re kebab_from owned_by labels
    map_get bytes_eq listed_name plain_name
reports_nothing = refl

-- The removal of the volume fails, and the second listing no longer has it.
sweep_lem_example :
    Mem (codes "v") (sweep small_engine (codes "a") ([], (none, 0))).0.0.volumes
    ⊎ GoneAfter small_engine
        (codes "a")
        (removals small_engine left (
          list_networks (codes "a") ∷ list_volumes (codes "a") ∷ list_containers (codes "a") ∷ [],
          (none, 0),
        ))
        volume_kind
        (codes "v")
sweep_lem_example =
    ((sweep_lem small_engine (codes "a") ([], (none, 0))).0 left _ lists_own).2 reports_nothing
      volume_kind (codes "v") (here refl)

abbrev dials : List PeerDial
dials =
    record {
      role = codes "worker1";
      uid = pos 1;
      gid = pos 1;
      in_group = true;
      stdout = codes "dial: OK unix /sock/peer.sock\nreply: OK uid=1 gid=1 pid=9\n";
    }
    ∷ record {
      role = codes "worker2";
      uid = pos 2;
      gid = pos 2;
      in_group = true;
      stdout = codes "dial: OK unix /sock/peer.sock\nreply: OK uid=2 gid=2 pid=9\n";
    }
    ∷ record {
      role = codes "outsider";
      uid = pos 3;
      gid = pos 3;
      in_group = false;
      stdout = codes "dial: DENIED (permission denied)\n";
    }
    ∷ []

no_violation : check_peer_identity dials ≡ []
unfolding check_peer_identity dial_check peer_uid_is_assigned_uid socket_group_gates_connect find
    parse parse_line group_uids outsiders parse_peer_cred has_infix bytes_eq split trim_suffix
    cut_suffix cut_on cut_prefix valid_name valid_detail parse_int cut digits_value peer_cred_text
    itoa_int itoa has_prefix
no_violation = refl

check_peer_identity_sound_example : IdentityHolds dials
check_peer_identity_sound_example = check_peer_identity_sound dials no_violation

abbrev handle : Container
handle = record {
  id = codes "c1";
  name = codes "trinkets-a-b-c";
  request = request_of first_byte_json spec suffix;
}

Settles-at_once :
    (id : Bytes)
    → (small_engine.new_exec (codes "c1") (codes "id" ∷ []) (none, 0)).0 ≡ ok id
    → Settles small_engine 1 id
        (small_engine.attach_exec id
          (small_engine.new_exec (codes "c1") (codes "id" ∷ []) (none, 0)).1).1
Settles-at_once id h = inr (inl (record { running = false; exit_code = pos 0 }, refl, refl))

exec_container_lem_example :
    (x : (Outcome × List Failure) × World (Option Request × ℕ)) × (exec_container small_engine 1
        handle
        (codes "id" ∷ [])
        ([], (none, 0))
      ≡ some x)
exec_container_lem_example =
    (exec_container_lem small_engine 1 handle (codes "id" ∷ []) [] (none, 0)).1 Settles-at_once

-- The engine lists the volumes of two other lessons, which the client-side check passes over.
finds_nothing : check_no_leak small_engine (codes "c") ([], (none, 0)) ≡ (
  ok [],
  (
    list_networks (codes "c") ∷ list_volumes (codes "c") ∷ list_containers (codes "c") ∷ [],
    (none, 0),
  ),
)
unfolding check_no_leak no_leak list_lesson list_owned list_kind ◌>>=◌ after_result call reported
    owned_names lesson_re kebab_from owned_by labels map_get bytes_eq listed_name plain_name
finds_nothing = refl

check_no_leak_lem_example :
    (cs : List Item) × (vs : List Item) × (ns : List Item) × ((small_engine.containers
        (codes "c")
        (none, 0)).0
      ≡ ok cs)
    × ((small_engine.volumes (codes "c") (none, 0)).0 ≡ ok vs)
    × ((small_engine.networks (codes "c") (none, 0)).0 ≡ ok ns)
    × All (λ i. owned_by i.labels (codes "c") ≡ false) cs
    × All (λ i. owned_by i.labels (codes "c") ≡ false) vs
    × All (λ i. owned_by i.labels (codes "c") ≡ false) ns
check_no_leak_lem_example = check_no_leak_lem small_engine (codes "c") [] (none, 0) _ finds_nothing

-- ===== src/Witnesses/Peers.antt =====
-- The check of peer identities on a small engine whose containers print what the probe does.
use systems_trinkets.Probeout.{find, parse, parse_line, valid_detail, valid_name}
use systems_trinkets.Docker.Run.{verdict, copied}
use systems_trinkets.Golang.Sorting.{bytes_le, compact, sort, sort_by}
use systems_trinkets.Docker.Invariants.{
  check_config, labelled, mount_violations, never_privileged, no_docker_socket, opt_violations,
  seccomp_inline, security_opt_kv, swap_pinned, check_observed, host_mismatches,
  identity_mismatches, label_mismatches, list_eq, mount_eq, mounts_eq, slice_eq,
}
use systems_trinkets.Docker.Topology.{socket_mount}
use systems_trinkets.Golang.Paths.{clean}
use systems_trinkets.Golang.Utf8.{valid_string}
use systems_trinkets.Docker.Spec.{
  spec_errors, translate, group_errors, is_docker_socket, kind_errors, mount_errors, network_errors,
  pid_mode_errors, socket_paths, target_errors, cap_errors, engine_mount, request_of,
  seccomp_errors, security_options, normalize_cap, normalize_caps, seccomp_options,
}
use systems_trinkets.Docker.Names.{
  lesson_re, numeric_id_re, valid_id, suffix_re, container_name, network_name_re, owner,
  valid_numeric_id, valid_user, volume_name_re, cap_re, labels, map_get,
}
use systems_trinkets.Docker.Image.{
  fixture_context, fixture_context_tar, validate, validate_dirs, write_tar, context_files,
  context_names_clean, dir_entries, name_violation, names_clean,
}
use systems_trinkets.Golang.Decimal.{digits_value, parse_int, itoa, itoa_int}
use systems_trinkets.Lab.{arch_to_goarch}
use systems_trinkets.Common.{
  ◌≡◌, refl, inl, true, false, Option, none, some, List, [], ◌∷◌, ◌++◌, if◌then◌else◌, ok, err, pos,
  Bytes, codes, bytes_eq, cut, cut_prefix, cut_suffix, has_prefix, split, cut_on, has_infix,
  trim_suffix,
}
use systems_trinkets.Witnesses.Containers.{first_byte_json, sock, suffix, recorded}
use systems_trinkets.Docker.Engine.{Request}
use systems_trinkets.Docker.BuildStream.{
  StreamJson, invalid, line_step, parse_build_stream, read_lines, trim, trim_left,
}
use systems_trinkets.Docker.Peers.{
  PeerDial, PeerIdentities, validate_identities, check_peer_identity, dial_check, group_uids,
  outsiders, parse_peer_cred, peer_cred_text, peer_uid_is_assigned_uid, socket_group_gates_connect,
}
use systems_trinkets.Docker.Client.{Client, Failure, exited, World, ◌>>=◌, undo_on_error}
use systems_trinkets.Docker.Leaks.{Below}
use systems_trinkets.Docker.PeerCheck.{verify_peer_identity}
use systems_trinkets.Docker.PeerCheck.Waits.{Ended}
use systems_trinkets.Docker.PeerCheck.Trusted.{verify_peer_identity_sound}
use systems_trinkets.Docker.PeerCheck.Identities.{Trusted}
use systems_trinkets.Docker.PeerCheck.Cleanly.{verify_peer_identity_lem}

-- `DefaultPeerIdentities`
abbrev ids : PeerIdentities
ids = record {
  broker_uid = pos 20000;
  socket_gid = pos 30000;
  worker1 = pos 20001;
  worker2 = pos 20002;
  outsider = pos 20003;
}

-- The output of the container that a request asked for.
abbrev printed : Option Request → Bytes
printed none = []
printed (some req) =
    let (uid, gid) = cut b':' req.config.user in
    if bytes_eq uid (codes "20000")
    then codes "listen: OK /sock/peer.sock\n"
    else elim req.host_config.group_add [
      | [] ↦ codes "dial: DENIED (connect: permission denied)\n"
      | g ∷ gs ↦
          codes "dial: OK unix /sock/peer.sock\nreply: OK uid="
          ++ (uid ++ (codes " gid=" ++ (uid ++ codes " pid=0\n")))
    ]

-- It keeps the last request, whose container is the one that runs.
abbrev peer_engine : Client (Option Request)
peer_engine = record {
  name_suffix = λ s. (suffix, s);
  container_create = λ req r. (ok (codes "c1"), some req);
  container_inspect =
      λ id r. (elim r [ none ↦ err (codes "no such container") | some req ↦ ok (recorded req) ], r);
  container_start = λ id s. (ok tt, s);
  container_wait_exit = λ id s. (exited (pos 0) [], s);
  container_wait_stopped = λ id s. (exited (pos 0) [], s);
  container_logs = λ id r. (ok (record { stdout = printed r; stderr = []; copy_error = none }), r);
  container_stop = λ id secs s. (ok tt, s);
  container_remove = λ id s. (ok tt, s);
  container_with_id = λ id s. (ok [], s);
  new_exec = λ id cmd s. (ok (codes "e1"), s);
  attach_exec = λ id s. (ok (record { stdout = []; stderr = []; copy_error = none }), s);
  inspect_exec = λ id s. (ok (record { running = false; exit_code = pos 0 }), s);
  containers = λ lesson s. (ok [], s);
  volumes = λ lesson s. (ok [], s);
  networks = λ lesson s. (ok [], s);
  volume_create = λ name l s. (ok tt, s);
  volume_remove = λ name s. (ok tt, s);
  network_remove = λ name s. (ok tt, s);
  architecture = λ s. (ok (codes "x86_64"), s);
  compile = λ pkg arch s. (ok (codes "elf"), s);
  image_build = λ files tag l s. (ok ([], false), s);
  image_inspect = λ tag s. (ok tt, s);
  image_remove = λ tag s. (ok tt, s);
  pause = λ s. s;
  context_error = λ s. none;
  line_context_error = λ s. some (codes "context deadline exceeded");
}

abbrev no_json : StreamJson
no_json = record { unmarshal = λ s. invalid; detail_message = λ s. none; string_value = λ s. none }

verify_peer_identity_lem_example :
    Ended
      (λ d. Below d.1.0 [])
      (verify_peer_identity peer_engine first_byte_json no_json sock 1 (codes "a") ids ([], none))
verify_peer_identity_lem_example =
    (verify_peer_identity_lem peer_engine first_byte_json no_json sock 1 (codes "a") ids [] none
      (λ c s. inl (codes "context deadline exceeded", refl))).0

abbrev ran : Option ((List PeerDial × List Failure) × World (Option Request))
ran = verify_peer_identity peer_engine first_byte_json no_json sock 1 (codes "a") ids ([], none)

abbrev group_output : Bytes → Bytes
group_output uid =
    codes "dial: OK unix /sock/peer.sock\nreply: OK uid="
    ++ (uid ++ (codes " gid=" ++ (uid ++ codes " pid=0\n")))

abbrev dials : List PeerDial
dials =
    record {
      role = codes "worker1";
      uid = pos 20001;
      gid = pos 20001;
      in_group = true;
      stdout = group_output (codes "20001");
    }
    ∷ record {
      role = codes "worker2";
      uid = pos 20002;
      gid = pos 20002;
      in_group = true;
      stdout = group_output (codes "20002");
    }
    ∷ record {
      role = codes "outsider";
      uid = pos 20003;
      gid = pos 20003;
      in_group = false;
      stdout = codes "dial: DENIED (connect: permission denied)\n";
    }
    ∷ []

abbrev last_world :
    Option ((List PeerDial × List Failure) × World (Option Request)) → World (Option Request)
last_world none = ([], none)
last_world (some d) = d.1

runs : ran ≡ some ((dials, []), last_world ran)
unfolding verify_peer_identity validate_identities valid_id validate lesson_re cut_prefix cut_suffix
    bytes_eq has_prefix numeric_id_re cut parse_int digits_value validate_dirs arch_to_goarch
    fixture_context_tar fixture_context write_tar context_names_clean names_clean context_files
    name_violation clean split valid_string dir_entries parse_build_stream read_lines line_step trim
    trim_left ◌>>=◌ translate spec_errors suffix_re owner itoa_int itoa valid_user valid_numeric_id
    group_errors mount_errors is_docker_socket kind_errors target_errors socket_mount container_name
    socket_paths volume_name_re network_errors network_name_re pid_mode_errors cap_errors cap_re
    seccomp_errors check_config no_docker_socket request_of mount_violations engine_mount
    never_privileged labelled map_get labels swap_pinned seccomp_inline security_options
    opt_violations security_opt_kv seccomp_options undo_on_error verdict check_observed
    identity_mismatches label_mismatches host_mismatches slice_eq normalize_caps list_eq compact
    sort sort_by bytes_le normalize_cap mounts_eq mount_eq copied find parse trim_suffix parse_line
    cut_on valid_name valid_detail check_peer_identity dial_check peer_uid_is_assigned_uid
    parse_peer_cred peer_cred_text socket_group_gates_connect has_infix group_uids outsiders
runs = refl

verify_peer_identity_sound_example : Trusted ids dials
verify_peer_identity_sound_example =
    verify_peer_identity_sound peer_engine first_byte_json no_json sock 1 (codes "a") ids ([], none)
      (last_world ran) dials runs

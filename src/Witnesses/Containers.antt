-- ===== src/Witnesses/Containers.antt =====
-- The properties of specs, requests and images.
use mathlib.Core.List.{Perm}
use systems_trinkets.Golang.Paths.{clean}
use systems_trinkets.Golang.Sorting.{sort, sort_by, compact, IsSorted}
use systems_trinkets.Docker.Names.{
  lesson_re, kebab_from, max_id, valid_id, suffix_re, volume_name_re, labels, map_get,
}
use systems_trinkets.Docker.Engine.{
  Json, Request, Config, HostConfig, InspectResponse, mode_private,
}
use systems_trinkets.Docker.Spec.{
  Spec, restricted, translate, request_of, is_docker_socket, socket_paths, normalize_caps,
  normalize_cap,
}
use systems_trinkets.Docker.Spec.Accepted.{SpecOk, translate-SpecOk}
use systems_trinkets.Docker.Invariants.{
  check_config, check_observed, is_restricted, identity_mismatches, host_mismatches,
  label_mismatches, never_privileged, list_eq, slice_eq, mounts_eq, mount_eq,
}
use systems_trinkets.Docker.Invariants.Sent.{CompactKeepsObjects, check_config-translate}
use systems_trinkets.Docker.Invariants.Preset.{restricted-SpecOk, restricted_lem}
use systems_trinkets.Docker.Invariants.Observed.{HostMatches, IdentityMatches, check_observed_sound}
use systems_trinkets.Docker.Topology.Members.{worker, worker_spec_lem}
use systems_trinkets.Docker.Image.{
  FixtureImage, ImageError, sorted_dirs, validate_owned_path, context_names_clean, context_files,
  validate, fixture_context_tar, tar_entry, invalid_image,
}
use systems_trinkets.Docker.Image.Ordered.{ParentsFirst, sorted_dirs_lem}
use systems_trinkets.Docker.Image.Paths.{OwnedPathOk, validate_owned_path_lem}
use systems_trinkets.Docker.Image.Context.{fixture_context_tar_lem}
use systems_trinkets.Docker.BuildStream.Reports.{Progress, parse_build_stream_lem}
use systems_trinkets.Docker.BuildStream.{StreamJson, object, invalid, parse_build_stream}
use systems_trinkets.Common.{
  ℕ, ◌≡◌, refl, ◌↔◌, true, false, none, some, [], ◌∷◌, map, leb, if◌then◌else◌, ok, err, pos, Bytes,
  codes, bytes_eq, has_prefix, split, All,
}

-- An encoding/json that takes a text for an object by its first byte, and compacts nothing.
abbrev pub first_byte_json : Json
first_byte_json = record { unmarshal_object = has_prefix (codes "{"); compact = λ s. s }

pub first_byte_json-keeps : CompactKeepsObjects first_byte_json
first_byte_json-keeps s h = h

abbrev pub sock : Bytes
sock = codes "/var/run/docker.sock"

abbrev pub suffix : Bytes
suffix = codes "0a1b2c"

abbrev pub spec : Spec
spec = restricted (codes "worker-egress") (codes "worker") (codes "probe:dev") (codes "id" ∷ [])

matches : lesson_re (codes "worker-egress") ≡ true
unfolding lesson_re kebab_from
matches = refl

matches_role : lesson_re (codes "worker") ≡ true
unfolding lesson_re kebab_from
matches_role = refl

matches_suffix : suffix_re suffix ≡ true
unfolding suffix_re
matches_suffix = refl

spec-ok : SpecOk first_byte_json spec sock suffix
spec-ok =
    restricted-SpecOk first_byte_json (codes "worker-egress") (codes "worker") (codes "probe:dev")
      (codes "id" ∷ []) sock suffix matches matches_role refl matches_suffix

pub translated :
    translate first_byte_json spec sock suffix ≡ ok (request_of first_byte_json spec suffix)
translated = (translate-SpecOk first_byte_json spec sock suffix).0 spec-ok

check_config-translate_example :
    check_config first_byte_json (request_of first_byte_json spec suffix) sock ≡ []
check_config-translate_example =
    check_config-translate first_byte_json first_byte_json-keeps spec sock suffix
      (request_of first_byte_json spec suffix) translated

restricted_lem_example :
    (req : Request) × (translate first_byte_json spec sock suffix ≡ ok req)
    × (is_restricted req.config req.host_config ≡ true)
restricted_lem_example =
    restricted_lem first_byte_json (codes "worker-egress") (codes "worker") (codes "probe:dev")
      (codes "id" ∷ []) sock suffix matches matches_role refl matches_suffix

in_range : (n : ℕ) → leb n max_id ≡ true → valid_id (pos n) ≡ true
unfolding valid_id
in_range n h = h

named_volume : volume_name_re (codes "trinkets-worker-egress-sock-0a") ≡ true
unfolding volume_name_re
named_volume = refl

no_socket : is_docker_socket (codes "trinkets-worker-egress-sock-0a") sock ≡ false
unfolding is_docker_socket socket_paths clean split bytes_eq
no_socket = refl

worker_spec_lem_example :
    (req : Request) × (translate first_byte_json
        (worker first_byte_json
          (codes "worker-egress")
          (codes "worker")
          (codes "probe:dev")
          (codes "trinkets-worker-egress-sock-0a")
          (pos 20001)
          (pos 30000)
          20000
          true
          (codes "id" ∷ [])
          sock
          suffix)
        sock
        suffix
      ≡ ok req)
    × (is_restricted req.config req.host_config ≡ true)
worker_spec_lem_example =
    worker_spec_lem first_byte_json (codes "worker-egress") (codes "worker") (codes "probe:dev")
      (codes "trinkets-worker-egress-sock-0a") (pos 20001) (pos 30000) 20000 true (codes "id" ∷ [])
      sock suffix matches matches_role refl matches_suffix (in_range 20001 refl)
      (in_range 20001 refl) (in_range 30000 refl) named_volume no_socket

-- What an engine records that keeps a request as it is.
abbrev pub recorded : Request → InspectResponse
recorded req = record {
  name = b'/' ∷ req.name;
  config = some req.config;
  host_config = some req.host_config;
  oom_killed = some false;
}

abbrev small_request : Request
small_request = record {
  name = codes "trinkets-a-b-c";
  config = record {
    image = codes "i";
    cmd = [];
    env = [];
    user = codes "1:1";
    labels = labels (codes "a");
  };
  host_config = record {
    binds = [];
    mounts = [];
    privileged = false;
    pid_mode = [];
    network_mode = codes "none";
    ipc_mode = mode_private;
    uts_mode = [];
    userns_mode = [];
    cgroupns_mode = mode_private;
    readonly_rootfs = true;
    cap_drop = some (codes "ALL" ∷ []);
    cap_add = none;
    security_opt = [];
    group_add = [];
    memory = pos 1;
    memory_swap = pos 1;
    nano_cpus = pos 1;
    pids_limit = some (pos 1);
    runtime = codes "runc";
  };
}

nothing_differs : check_observed (recorded small_request) small_request ≡ []
unfolding check_observed identity_mismatches host_mismatches label_mismatches list_eq slice_eq
    mounts_eq mount_eq bytes_eq labels map_get sort sort_by never_privileged normalize_caps
    normalize_cap compact
nothing_differs = refl

check_observed_sound_example :
    (gc : Config) × (gh : HostConfig) × (some small_request.config ≡ some gc)
    × (some small_request.host_config ≡ some gh)
    × IdentityMatches (recorded small_request).name gc small_request
    × HostMatches gh small_request.host_config
check_observed_sound_example =
    check_observed_sound (recorded small_request) small_request nothing_differs

abbrev image : FixtureImage
image = record {
  lesson = codes "a";
  tag = codes "a:dev";
  package_path = codes "p";
  user = [];
  dirs =
      record { path = codes "/data/b"; uid = pos 1; gid = pos 1 }
      ∷ record { path = codes "/data"; uid = pos 1; gid = pos 1 }
      ∷ [];
}

sorted_dirs_lem_example :
    Perm (sorted_dirs image) image.dirs
    × IsSorted (λ d. d.path) (sorted_dirs image)
    × ParentsFirst (sorted_dirs image)
sorted_dirs_lem_example = sorted_dirs_lem image

validate_owned_path_lem_example :
    (validate_owned_path (codes "/data/b") ≡ none) ↔ OwnedPathOk (codes "/data/b")
validate_owned_path_lem_example = (validate_owned_path_lem (codes "/data/b")).0

fixture_context_tar_lem_example :
    (context_names_clean (context_files image (codes "ELF")) ≡ [])
    × (validate image ≡ none
        → fixture_context_tar image (codes "ELF")
          ≡ ok (map tar_entry (context_files image (codes "ELF"))))
    × ((e : ImageError)
        → validate image ≡ some e
        → fixture_context_tar image (codes "ELF") ≡ err (invalid_image e))
fixture_context_tar_lem_example = fixture_context_tar_lem image (codes "ELF")

-- An encoding/json that knows the empty object and one with an error.
abbrev two_objects : StreamJson
two_objects = record {
  unmarshal = λ s.
      if bytes_eq s (codes "{}")
      then object []
      else if bytes_eq s (codes "{\"error\":\"no\"}")
      then object ((codes "error", codes "\"no\"") ∷ [])
      else invalid;
  detail_message = λ s. none;
  string_value = λ s. some (codes "no");
}

failing_line : Bytes
failing_line = codes "{\"error\":\"no\"}"

parse_build_stream_lem_example :
    (parse_build_stream two_objects (codes "{}\n{}") false ≡ none)
    ↔ ((false ≡ false) × All (Progress two_objects) (split b'\n' (codes "{}\n{}")))
parse_build_stream_lem_example = (parse_build_stream_lem two_objects (codes "{}\n{}") false).0

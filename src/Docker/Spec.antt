-- ===== src/Docker/Spec.antt =====
-- internal/lab/docker/spec.go: `Spec`, `Restricted` and `Translate`. An error is a value that names
-- the rule and the offending text, in place of its wording. `targets` is the list of the targets seen.
pub mod Accepted
pub mod Rules
pub mod Met
pub mod Reported
pub mod Translated
use systems_trinkets.Golang.Paths.{clean, is_abs}
use systems_trinkets.Golang.Utf8.{valid_string}
use systems_trinkets.Golang.Sorting.{sort, compact}
use systems_trinkets.Common.{
  ℕ, ◌+◌, ◌-◌, ◌*◌, ◌^◌, Bool, true, false, not, ◌&&◌, ◌||◌, none, some, List, [], ◌∷◌, ◌++◌, map,
  leb, ◌==◌, if◌then◌else◌, Result, ok, err, ℤ, is_negative, is_positive, is_zero, pos, Bytes,
  codes, bytes_eq, is_empty, contains, cut_prefix, has_prefix, any, gather,
}
use systems_trinkets.Docker.Names.{
  lesson_re, suffix_re, volume_name_re, network_name_re, cap_re, valid_user, valid_numeric_id,
  container_name, labels,
}
use systems_trinkets.Docker.Engine.{
  Slice, elements, EngineMount, Config, HostConfig, Request, mode_private, Json,
}

-- `MountType` is a string: "volume", "tmpfs", or what else the caller writes.
abbrev pub mount_volume : Bytes
mount_volume = codes "volume"

abbrev pub mount_tmpfs : Bytes
mount_tmpfs = codes "tmpfs"

pub record Mount : Type 0 where
  pub kind : Bytes
  pub source : Bytes
  pub target : Bytes
  pub read_only : Bool
  pub tmpfs_size : ℤ

pub record Spec : Type 0 where
  pub lesson : Bytes
  pub role : Bytes
  pub image : Bytes
  pub cmd : List Bytes
  pub env : List Bytes
  pub user : Bytes
  pub groups : List Bytes
  pub mounts : List Mount
  pub network : Bytes
  pub read_only_root : Bool
  pub cap_drop : Slice
  pub cap_add : Slice
  pub no_new_privileges : Bool
  pub seccomp : Bytes
  pub pid_mode : Bytes
  pub memory : ℤ
  pub nano_cpus : ℤ
  pub pids_limit : ℤ
  pub runtime : Bytes

-- `DefaultFixtureUser` and the other constants of the baseline
abbrev pub default_fixture_user : Bytes
default_fixture_user = codes "10001:10001"

abbrev restricted_memory : ℤ
restricted_memory = pos (64 * 2 ^ 20)

abbrev restricted_nano_cpus : ℤ
restricted_nano_cpus = pos 500_000_000

abbrev restricted_pids_limit : ℤ
restricted_pids_limit = pos 64

abbrev restricted_tmp_size : ℤ
restricted_tmp_size = pos (16 * 2 ^ 20)

abbrev restricted_runtime : Bytes
restricted_runtime = codes "runc"

unfoldable pub restricted : Bytes → Bytes → Bytes → List Bytes → Spec
restricted lesson role image cmd = record {
  lesson = lesson;
  role = role;
  image = image;
  cmd = cmd;
  env = [];
  user = default_fixture_user;
  groups = [];
  mounts =
      record {
        kind = mount_tmpfs;
        source = [];
        target = codes "/tmp";
        read_only = false;
        tmpfs_size = restricted_tmp_size;
      }
      ∷ [];
  network = codes "none";
  read_only_root = true;
  cap_drop = some (codes "ALL" ∷ []);
  cap_add = none;
  no_new_privileges = true;
  seccomp = [];
  pid_mode = [];
  memory = restricted_memory;
  nano_cpus = restricted_nano_cpus;
  pids_limit = restricted_pids_limit;
  runtime = restricted_runtime;
}

abbrev fixed_socket_paths : List Bytes
fixed_socket_paths = codes "/var/run/docker.sock" ∷ codes "/run/docker.sock" ∷ []

unfoldable pub socket_paths : Bytes → List Bytes
socket_paths socket =
    if is_empty socket then fixed_socket_paths else fixed_socket_paths ++ clean socket ∷ []

-- The source first.
unfoldable pub is_docker_socket : Bytes → Bytes → Bool
is_docker_socket source socket =
    not (is_empty source) && contains (socket_paths socket) (clean source)

-- `strings.ToUpper` on ASCII letters. `Translate` normalizes a capability only after it matched
-- `capRE`; a byte outside ASCII in an engine's answer stays as it is.
abbrev to_upper : ℕ → ℕ
to_upper c = if leb b'a' c && leb c b'z' then c - 32 else c

unfoldable pub normalize_cap : Bytes → Bytes
normalize_cap c =
    let u = map to_upper c in
    if not (bytes_eq u (codes "ALL")) && not (has_prefix (codes "CAP_") u)
    then codes "CAP_" ++ u
    else u

unfoldable pub normalize_caps : Slice → Slice
normalize_caps none = none
normalize_caps (some caps) = some (compact (sort (map normalize_cap caps)))

pub data SpecError : Type 0 where
  bad_lesson bad_role bad_suffix bad_user bad_group bad_network bad_pid_mode : Bytes → SpecError
  bad_capability seccomp_path : Bytes → SpecError
  empty_image host_network negative_limit : SpecError
  docker_socket bad_volume_name tmpfs_with_source bad_mount_type : ℕ → Bytes → SpecError
  tmpfs_size_on_volume negative_tmpfs_size : ℕ → SpecError
  not_absolute not_clean bad_target_bytes used_twice : ℕ → Bytes → SpecError

-- One `if bad { errs = append(errs, e) }`.
abbrev pub report {ℓ} : {E : Type ℓ} → Bool → E → List E
report bad e = if bad then e ∷ [] else []

-- the switch on `m.Type`
unfoldable pub kind_errors : ℕ → Mount → List SpecError
kind_errors i m =
    if bytes_eq m.kind mount_volume
    then report (not (volume_name_re m.source)) (bad_volume_name i m.source)
      ++ report (not (is_zero m.tmpfs_size)) (tmpfs_size_on_volume i)
    else if bytes_eq m.kind mount_tmpfs
    then report (not (is_empty m.source)) (tmpfs_with_source i m.source)
      ++ report (is_negative m.tmpfs_size) (negative_tmpfs_size i)
    else bad_mount_type i m.kind ∷ []

-- the switch on `m.Target`
unfoldable pub target_errors : ℕ → List Bytes → Bytes → List SpecError
target_errors i targets t =
    if not (is_abs t) || bytes_eq t (codes "/")
    then not_absolute i t ∷ []
    else if not (bytes_eq (clean t) t)
    then not_clean i t ∷ []
    else if any (λ c. c == 0) t || not (valid_string t)
    then bad_target_bytes i t ∷ []
    else report (contains targets t) (used_twice i t)

unfoldable pub mount_errors : Bytes → ℕ → List Bytes → List Mount → List SpecError
mount_errors socket i targets [] = []
mount_errors socket i targets (m ∷ ms) =
    report (is_docker_socket m.source socket) (docker_socket i m.source)
    ++ (kind_errors i m
        ++ (target_errors i targets m.target
            ++ mount_errors socket (i + 1) (m.target ∷ targets) ms))

unfoldable pub engine_mount : Bytes → Mount → EngineMount
engine_mount lesson m = record {
  kind = m.kind;
  source = m.source;
  target = m.target;
  read_only = m.read_only;
  volume_labels = if bytes_eq m.kind mount_volume then some (labels lesson) else none;
  tmpfs_size =
      if bytes_eq m.kind mount_tmpfs && is_positive m.tmpfs_size then some m.tmpfs_size else none;
}

unfoldable pub network_errors : Bytes → List SpecError
network_errors n =
    if bytes_eq n (codes "host")
    then host_network ∷ []
    else report (not (is_empty n) && not (network_name_re n)) (bad_network n)

unfoldable pub pid_mode_errors : Bytes → List SpecError
pid_mode_errors mode = if is_empty mode then [] else elim (cut_prefix (codes "container:") mode) [
  | none ↦ bad_pid_mode mode ∷ []
  | some id ↦ report (not (network_name_re id)) (bad_pid_mode mode)
]

unfoldable pub group_errors : List Bytes → List SpecError
group_errors = gather (λ g. report (not (valid_numeric_id g)) (bad_group g))

-- the loop over `slices.Concat(s.CapDrop, s.CapAdd)`
unfoldable pub cap_errors : List Bytes → List SpecError
cap_errors = gather (λ c. report (not (cap_re c)) (bad_capability c))

module _ (json : Json) where
  -- `isJSONObject`
  unfoldable pub is_json_object : Bytes → Bool
  is_json_object s = if not (valid_string s) then false else json.unmarshal_object s

  unfoldable pub seccomp_errors : Bytes → List SpecError
  seccomp_errors s =
      report (not (is_empty s) && (not (bytes_eq s (codes "unconfined")) && not (is_json_object s)))
        (seccomp_path s)

  unfoldable pub seccomp_options : Bytes → List Bytes
  seccomp_options s =
      if is_empty s
      then []
      else if bytes_eq s (codes "unconfined")
      then codes "seccomp=unconfined" ∷ []
      else if is_json_object s
      then (codes "seccomp=" ++ json.compact s) ∷ []
      else []

  unfoldable pub security_options : Spec → List Bytes
  security_options s =
      report s.no_new_privileges (codes "no-new-privileges:true") ++ seccomp_options s.seccomp

  -- every check of `Translate`, in its order
  unfoldable pub spec_errors : Spec → Bytes → Bytes → List SpecError
  spec_errors s socket suffix =
      report (not (lesson_re s.lesson)) (bad_lesson s.lesson)
      ++ (report (not (lesson_re s.role)) (bad_role s.role)
          ++ (report (not (suffix_re suffix)) (bad_suffix suffix)
              ++ (report (is_empty s.image) empty_image
                  ++ (report (not (is_empty s.user) && not (valid_user s.user)) (bad_user s.user)
                      ++ (group_errors s.groups
                          ++ (mount_errors socket 0 [] s.mounts
                              ++ (network_errors s.network
                                  ++ (pid_mode_errors s.pid_mode
                                      ++ (cap_errors (elements s.cap_drop ++ elements s.cap_add)
                                          ++ (seccomp_errors s.seccomp
                                              ++ report
                                                  (is_negative s.memory
                                                    || (is_negative s.nano_cpus
                                                        || is_negative s.pids_limit))
                                                  negative_limit))))))))))

  unfoldable pub request_of : Spec → Bytes → Request
  request_of s suffix = record {
    name = container_name s.lesson s.role suffix;
    config = record {
      image = s.image;
      cmd = s.cmd;
      env = s.env;
      user = s.user;
      labels = labels s.lesson;
    };
    host_config = record {
      binds = [];
      mounts = map (engine_mount s.lesson) s.mounts;
      privileged = false;
      pid_mode = s.pid_mode;
      network_mode = s.network;
      ipc_mode = mode_private;
      uts_mode = [];
      userns_mode = [];
      cgroupns_mode = mode_private;
      readonly_rootfs = s.read_only_root;
      cap_drop = normalize_caps s.cap_drop;
      cap_add = normalize_caps s.cap_add;
      security_opt = security_options s;
      group_add = s.groups;
      memory = s.memory;
      memory_swap = if is_positive s.memory then s.memory else pos 0;
      nano_cpus = s.nano_cpus;
      pids_limit = if is_positive s.pids_limit then some s.pids_limit else none;
      runtime = s.runtime;
    };
  }

  unfoldable pub translate : Spec → Bytes → Bytes → Result (List SpecError) Request
  translate s socket suffix = elim (spec_errors s socket suffix) [
    | [] ↦ ok (request_of s suffix)
    | e ∷ es ↦ err (e ∷ es)
  ]

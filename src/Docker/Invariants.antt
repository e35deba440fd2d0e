-- ===== src/Docker/Invariants.antt =====
-- internal/lab/docker/invariants.go: the named invariants of a request and of what inspect reports.
-- A violation is a value that names the invariant and what broke it, in place of its wording.
pub mod Sent
pub mod Preset
pub mod Observed
use systems_trinkets.Docker.Names.{StringMap, map_get, label_harness, label_lesson, valid_user}
use systems_trinkets.Docker.Engine.{
  Slice, elements, EngineMount, Config, HostConfig, Request, InspectResponse, mode_private, Json,
}
use systems_trinkets.Docker.Spec.{is_docker_socket, is_json_object, normalize_caps, report}
use systems_trinkets.Common.{
  Bool, true, false, not, ◌&&◌, ◌||◌, Option, none, some, List, [], ◌∷◌, ◌++◌, map, ltb, ◌==◌,
  if◌then◌else◌, bool_eq, ℤ, is_positive, int_eq, pos, Bytes, codes, bytes_eq, is_empty, contains,
  has_prefix, cut, length, any, all, gather,
}

pub data Namespace : Type 0 where
  pid_mode network_mode ipc_mode uts_mode userns_mode cgroupns_mode : Namespace

pub data Violation : Type 0 where
  bind_mount : Bytes → Violation
  bind_kind : Bytes → Bytes → Violation
  socket_source : Bytes → Violation
  privileged : Violation
  host_namespace : Namespace → Violation
  not_labelled : Violation
  lesson_missing : Violation
  name_prefix : Bytes → Violation
  swap_not_pinned : Violation
  seccomp_not_inline : Bytes → Violation

unfoldable pub mount_violations : Bytes → EngineMount → List Violation
mount_violations socket m =
    report (bytes_eq m.kind (codes "bind")) (bind_kind m.source m.target)
    ++ report (is_docker_socket m.source socket) (socket_source m.source)

unfoldable pub no_docker_socket : HostConfig → Bytes → List Violation
no_docker_socket hc socket = map bind_mount hc.binds ++ gather (mount_violations socket) hc.mounts

abbrev pub host_violation : Namespace → Bytes → List Violation
host_violation ns mode = report (bytes_eq mode (codes "host")) (host_namespace ns)

unfoldable pub never_privileged : HostConfig → List Violation
never_privileged hc =
    report hc.privileged privileged
    ++ (host_violation pid_mode hc.pid_mode
        ++ (host_violation network_mode hc.network_mode
            ++ (host_violation ipc_mode hc.ipc_mode
                ++ (host_violation uts_mode hc.uts_mode
                    ++ (host_violation userns_mode hc.userns_mode
                        ++ host_violation cgroupns_mode hc.cgroupns_mode)))))

unfoldable pub labelled : Bytes → Config → List Violation
labelled name cfg =
    let lesson = map_get cfg.labels label_lesson in
    report (not (bytes_eq (map_get cfg.labels label_harness) (codes "1"))) not_labelled
    ++ (if is_empty lesson
        then lesson_missing ∷ []
        else report (not (has_prefix (codes "trinkets-" ++ (lesson ++ codes "-")) name))
            (name_prefix name))

unfoldable pub swap_pinned : HostConfig → List Violation
swap_pinned hc =
    report (is_positive hc.memory && not (int_eq hc.memory_swap hc.memory)) swap_not_pinned

-- `securityOptKV`
unfoldable pub security_opt_kv : Bytes → Bytes × Bytes
security_opt_kv opt =
    let (k, v) = cut b'=' opt in
    elim v [
      | some w ↦ (k, w)
      | none ↦ let (k', v') = cut b':' opt in (k', elim v' [ some w ↦ w | none ↦ [] ])
    ]

module _ (json : Json) where
  unfoldable pub opt_violations : Bytes → List Violation
  opt_violations opt =
      let (k, v) = security_opt_kv opt in
      report
        (bytes_eq k (codes "seccomp")
          && (not (bytes_eq v (codes "unconfined")) && not (is_json_object json v)))
        (seccomp_not_inline v)

  unfoldable pub seccomp_inline : HostConfig → List Violation
  seccomp_inline hc = gather opt_violations hc.security_opt

  unfoldable pub check_config : Request → Bytes → List Violation
  check_config req socket =
      no_docker_socket req.host_config socket
      ++ (never_privileged req.host_config
          ++ (labelled req.name req.config
              ++ (swap_pinned req.host_config ++ seccomp_inline req.host_config)))

-- The conditions of restricted-complete, as violations.
pub data Unrestricted : Type 0 where
  root_user : Bytes → Unrestricted
  lacks_cap_drop_all has_cap_add may_gain_privileges writable_root : Unrestricted
  has_network shared_pid shared_ipc shared_cgroup : Bytes → Unrestricted
  missing_limit : Unrestricted

-- `isNoNewPrivileges`
unfoldable pub is_no_new_privileges : Bytes → Bool
is_no_new_privileges opt =
    let (k, v) = security_opt_kv opt in
    bytes_eq k (codes "no-new-privileges") && (is_empty v || bytes_eq v (codes "true"))

abbrev limit_set : Option ℤ → Bool
limit_set none = false
limit_set (some n) = is_positive n

-- `strings.TrimLeft(uid, "0") == ""`
abbrev all_zeros : Bytes → Bool
all_zeros uid = all (λ c. c == b'0') uid

unfoldable pub restricted_complete : Config → HostConfig → List Unrestricted
restricted_complete cfg hc =
    report (not (valid_user cfg.user) || all_zeros (cut b':' cfg.user).0) (root_user cfg.user)
    ++ (report (not (contains (elements hc.cap_drop) (codes "ALL"))) lacks_cap_drop_all
        ++ (report (ltb 0 (length (elements hc.cap_add))) has_cap_add
            ++ (report (not (any is_no_new_privileges hc.security_opt)) may_gain_privileges
                ++ (report (not hc.readonly_rootfs) writable_root
                    ++ (report (not (bytes_eq hc.network_mode (codes "none")))
                          (has_network hc.network_mode)
                        ++ (report (not (is_empty hc.pid_mode)) (shared_pid hc.pid_mode)
                            ++ (report (not (bytes_eq hc.ipc_mode mode_private))
                                  (shared_ipc hc.ipc_mode)
                                ++ (report (not (bytes_eq hc.cgroupns_mode mode_private))
                                      (shared_cgroup hc.cgroupns_mode)
                                    ++ report
                                        (not (is_positive hc.memory)
                                          || (not (is_positive hc.nano_cpus)
                                              || not (limit_set hc.pids_limit)))
                                        missing_limit))))))))

unfoldable pub is_restricted : Config → HostConfig → Bool
is_restricted cfg hc = elim (restricted_complete cfg hc) [ [] ↦ true | e ∷ es ↦ false ]

-- Equality of lists of strings, nil and empty alike (`reflect.DeepEqual` behind `emptyNil`).
unfoldable pub list_eq : List Bytes → List Bytes → Bool
list_eq [] [] = true
list_eq (x ∷ xs) (y ∷ ys) = bytes_eq x y && list_eq xs ys
list_eq _ _ = false

-- `reflect.DeepEqual` of two slices, which tells nil from empty
unfoldable pub slice_eq : Slice → Slice → Bool
slice_eq none none = true
slice_eq (some xs) (some ys) = list_eq xs ys
slice_eq _ _ = false

-- `ptrValueOr0`
abbrev pub value_or_0 : Option ℤ → ℤ
value_or_0 none = pos 0
value_or_0 (some n) = n

-- Two mounts have one key: `mountKeys` prints these five values of each, with the strings quoted.
unfoldable pub mount_eq : EngineMount → EngineMount → Bool
mount_eq a b =
    bytes_eq a.kind b.kind
    && (bytes_eq a.source b.source
        && (bytes_eq a.target b.target
            && (bool_eq a.read_only b.read_only
                && int_eq (value_or_0 a.tmpfs_size) (value_or_0 b.tmpfs_size))))

unfoldable pub mounts_eq : List EngineMount → List EngineMount → Bool
mounts_eq [] [] = true
mounts_eq (a ∷ as') (b ∷ bs) = mount_eq a b && mounts_eq as' bs
mounts_eq _ _ = false

pub data Mismatch : Type 0 where
  no_config wrong_name wrong_user : Mismatch
  wrong_label : Bytes → Mismatch
  unsafe : Violation → Mismatch
  wrong_field : Bytes → Mismatch

-- `eq` in `CheckObserved`
abbrev pub differs : Bytes → Bool → List Mismatch
differs name equal = report (not equal) (wrong_field name)

unfoldable pub label_mismatches : StringMap → Bytes × Bytes → List Mismatch
label_mismatches got (k, v) = report (not (bytes_eq (map_get got k) v)) (wrong_label k)

-- `strings.TrimPrefix(got.Name, "/")`
abbrev pub bare_name : Bytes → Bytes
bare_name [] = []
bare_name (c ∷ s) = if c == b'/' then s else c ∷ s

unfoldable pub identity_mismatches : Bytes → Config → Request → List Mismatch
identity_mismatches got_name gc want =
    report (not (bytes_eq (bare_name got_name) want.name)) wrong_name
    ++ (report (not (is_empty want.config.user) && not (bytes_eq gc.user want.config.user))
          wrong_user
        ++ gather (label_mismatches gc.labels) want.config.labels)

unfoldable pub host_mismatches : HostConfig → HostConfig → List Mismatch
host_mismatches gh wh =
    map unsafe (never_privileged gh)
    ++ (differs (codes "ReadonlyRootfs") (bool_eq gh.readonly_rootfs wh.readonly_rootfs)
        ++ (differs (codes "CapAdd")
              (slice_eq (normalize_caps gh.cap_add) (normalize_caps wh.cap_add))
            ++ (differs (codes "CapDrop")
                  (slice_eq (normalize_caps gh.cap_drop) (normalize_caps wh.cap_drop))
                ++ (differs (codes "SecurityOpt") (list_eq gh.security_opt wh.security_opt)
                    ++ (differs (codes "GroupAdd") (list_eq gh.group_add wh.group_add)
                        ++ ((if not (is_empty wh.network_mode)
                                || (not (bytes_eq gh.network_mode (codes "bridge"))
                                    && not (bytes_eq gh.network_mode (codes "default")))
                              then differs (codes "NetworkMode")
                                  (bytes_eq gh.network_mode wh.network_mode)
                              else [])
                            ++ ((if not (is_empty wh.runtime) || is_empty gh.runtime
                                  then differs (codes "Runtime") (bytes_eq gh.runtime wh.runtime)
                                  else [])
                                ++ (differs (codes "PidMode") (bytes_eq gh.pid_mode wh.pid_mode)
                                    ++ (differs (codes "IpcMode") (bytes_eq gh.ipc_mode wh.ipc_mode)
                                        ++ (differs (codes "CgroupnsMode")
                                              (bytes_eq gh.cgroupns_mode wh.cgroupns_mode)
                                            ++ (differs (codes "UTSMode")
                                                  (bytes_eq gh.uts_mode wh.uts_mode)
                                                ++ (differs (codes "UsernsMode")
                                                      (bytes_eq gh.userns_mode wh.userns_mode)
                                                    ++ (differs (codes "Memory")
                                                          (int_eq gh.memory wh.memory)
                                                        ++ (differs (codes "MemorySwap")
                                                            (int_eq gh.memory_swap wh.memory_swap)
                                                            ++ (differs (codes "NanoCPUs")
                                                            (int_eq gh.nano_cpus wh.nano_cpus)
                                                            ++ (differs (codes "PidsLimit") (
                                                            int_eq (value_or_0 gh.pids_limit)
                                                            (value_or_0 wh.pids_limit))
                                                            ++ (differs (codes "Binds")
                                                            (list_eq gh.binds wh.binds)
                                                            ++ differs (codes "Mounts") (
                                                            mounts_eq gh.mounts
                                                            wh.mounts))))))))))))))))))

unfoldable pub check_observed : InspectResponse → Request → List Mismatch
check_observed got want = elim got.config [
  | none ↦ no_config ∷ []
  | some gc ↦ elim got.host_config [
    | none ↦ no_config ∷ []
    | some gh ↦ identity_mismatches got.name gc want ++ host_mismatches gh want.host_config
  ]
]

-- ===== src/Docker/Engine.antt =====
-- What the harness exchanges with the Docker Engine's client: the fields of the client's records that
-- internal/lab/docker sets or reads (`container.Config`, `container.HostConfig`, `mount.Mount`,
-- `container.InspectResponse`), and `Request` of spec.go.
use systems_trinkets.Common.{Bool, Option, none, some, List, [], ℤ, Bytes, codes}
use systems_trinkets.Docker.Names.{StringMap}

-- A Go slice of strings whose nil and empty values are told apart.
abbrev pub Slice : Type 0
Slice = Option (List Bytes)

abbrev pub elements : Slice → List Bytes
elements none = []
elements (some xs) = xs

-- `mount.Mount`; `tmpfs_size` is `TmpfsOptions.SizeBytes`, `none` where `TmpfsOptions` is nil.
pub record EngineMount : Type 0 where
  pub kind : Bytes
  pub source : Bytes
  pub target : Bytes
  pub read_only : Bool
  pub volume_labels : Option StringMap
  pub tmpfs_size : Option ℤ

pub record Config : Type 0 where
  pub image : Bytes
  pub cmd : List Bytes
  pub env : List Bytes
  pub user : Bytes
  pub labels : StringMap

pub record HostConfig : Type 0 where
  pub binds : List Bytes
  pub mounts : List EngineMount
  pub privileged : Bool
  pub pid_mode : Bytes
  pub network_mode : Bytes
  pub ipc_mode : Bytes
  pub uts_mode : Bytes
  pub userns_mode : Bytes
  pub cgroupns_mode : Bytes
  pub readonly_rootfs : Bool
  pub cap_drop : Slice
  pub cap_add : Slice
  pub security_opt : List Bytes
  pub group_add : List Bytes
  pub memory : ℤ
  pub memory_swap : ℤ
  pub nano_cpus : ℤ
  pub pids_limit : Option ℤ
  pub runtime : Bytes

pub record Request : Type 0 where
  pub name : Bytes
  pub config : Config
  pub host_config : HostConfig

-- What inspect returns of a container; the configs are pointers that may be nil.
pub record InspectResponse : Type 0 where
  pub name : Bytes
  pub config : Option Config
  pub host_config : Option HostConfig
  pub oom_killed : Option Bool

-- `container.IPCModePrivate` and `container.CgroupnsModePrivate`
abbrev pub mode_private : Bytes
mode_private = codes "private"

-- encoding/json as the harness uses it: whether a text unmarshals into a map that is not nil, that
-- is, is one JSON object; and `json.Compact`, which drops the blanks between its tokens.
pub record Json : Type 0 where
  pub unmarshal_object : Bytes → Bool
  pub compact : Bytes → Bytes

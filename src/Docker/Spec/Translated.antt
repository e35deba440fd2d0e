-- ===== src/Docker/Spec/Translated.antt =====
-- `Translate` against its rules in plain terms and against what the engine is to be told of a spec.
use systems_trinkets.Common.{
  ◌≡◌, ◌≢◌, true, false, none, some, List, [], ◌∷◌, ◌++◌, is_positive, pos, Bytes, codes, Mem,
}
use systems_trinkets.Golang.Utf8.{valid_string}
use systems_trinkets.Docker.Names.{StringMap, labels, owned_by}
use systems_trinkets.Docker.Engine.{EngineMount, Request, Json}
use systems_trinkets.Docker.Spec.{Mount, mount_volume, mount_tmpfs, Spec, normalize_caps}

-- What the engine is told of a mount: a volume carries the lesson's label, a tmpfs its size if it has one.
pub record Mounted (lesson : Bytes) (m : Mount) (e : EngineMount) : Type 0 where
  pub kind : e.kind ≡ m.kind
  pub source : e.source ≡ m.source
  pub target : e.target ≡ m.target
  pub read_only : e.read_only ≡ m.read_only
  pub volume_labels :
      m.kind ≡ mount_volume
      → (l : StringMap) × (e.volume_labels ≡ some l) × (owned_by l lesson ≡ true)
  pub tmpfs_size :
      m.kind ≡ mount_tmpfs → is_positive m.tmpfs_size ≡ true → e.tmpfs_size ≡ some m.tmpfs_size

-- The mounts of a spec and of a request, one by one.
abbrev pub AllMounted : Bytes → List Mount → List EngineMount → Type 0
AllMounted lesson [] [] = Unit {0}
AllMounted lesson (m ∷ ms) (e ∷ es) = Mounted lesson m e × AllMounted lesson ms es
AllMounted lesson _ _ = ⊥

-- What the engine is told of an accepted spec.
pub record Carries (json : Json) (s : Spec) (suffix : Bytes) (req : Request) : Type 0 where
  pub name :
      req.name ≡ codes "trinkets-" ++ (s.lesson ++ (codes "-" ++ (s.role ++ (codes "-" ++ suffix))))
  pub image : req.config.image ≡ s.image
  pub cmd : req.config.cmd ≡ s.cmd
  pub env : req.config.env ≡ s.env
  pub user : req.config.user ≡ s.user
  pub owned : owned_by req.config.labels s.lesson ≡ true
  pub no_binds : req.host_config.binds ≡ []
  pub mounts : AllMounted s.lesson s.mounts req.host_config.mounts
  pub unprivileged : req.host_config.privileged ≡ false
  pub pid_mode : req.host_config.pid_mode ≡ s.pid_mode
  pub network : req.host_config.network_mode ≡ s.network
  pub private :
      (req.host_config.ipc_mode ≡ codes "private")
      × (req.host_config.cgroupns_mode ≡ codes "private")
      × (req.host_config.uts_mode ≡ [])
      × (req.host_config.userns_mode ≡ [])
  pub read_only_root : req.host_config.readonly_rootfs ≡ s.read_only_root
  pub cap_drop : req.host_config.cap_drop ≡ normalize_caps s.cap_drop
  pub cap_add : req.host_config.cap_add ≡ normalize_caps s.cap_add
  pub groups : req.host_config.group_add ≡ s.groups
  pub no_new_privileges :
      s.no_new_privileges ≡ true → Mem (codes "no-new-privileges:true") req.host_config.security_opt
  pub profile :
      valid_string s.seccomp ≡ true
      → json.unmarshal_object s.seccomp ≡ true
      → (s.seccomp ≢ [])
      → (s.seccomp ≢ codes "unconfined")
      → Mem (codes "seccomp=" ++ json.compact s.seccomp) req.host_config.security_opt
  pub memory : req.host_config.memory ≡ s.memory
  pub swap_pinned : is_positive s.memory ≡ true → req.host_config.memory_swap ≡ s.memory
  pub swap_default : is_positive s.memory ≡ false → req.host_config.memory_swap ≡ pos 0
  pub nano_cpus : req.host_config.nano_cpus ≡ s.nano_cpus
  pub pids_limit : is_positive s.pids_limit ≡ true → req.host_config.pids_limit ≡ some s.pids_limit
  pub pids_unlimited : is_positive s.pids_limit ≡ false → req.host_config.pids_limit ≡ none
  pub runtime : req.host_config.runtime ≡ s.runtime

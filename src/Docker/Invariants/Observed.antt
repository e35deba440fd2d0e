-- ===== src/Docker/Invariants/Observed.antt =====
-- inspect-matches-intent: what `CheckObserved` shows of a container when it finds nothing.
use systems_trinkets.Docker.Names.{StringMap, map_get}
use systems_trinkets.Docker.Engine.{
  Slice, EngineMount, Config, HostConfig, Request, InspectResponse,
}
use systems_trinkets.Docker.Spec.{normalize_caps, report}
use systems_trinkets.Docker.Spec.Accepted.{report_nil}
use systems_trinkets.Docker.Invariants.{
  never_privileged, list_eq, slice_eq, value_or_0, mount_eq, mounts_eq, Mismatch, differs,
  label_mismatches, bare_name, identity_mismatches, host_mismatches, check_observed,
}
use systems_trinkets.Common.{
  ◌≡◌, refl, sym, ◌∙◌, ◌≢◌, ◌↔◌, ◌⊎◌, Bool, true, not, ◌&&◌, ◌||◌, Option, none, some, List, [],
  ◌∷◌, ◌++◌, map, arith, if◌then◌else◌, not-false, bool_eq_iff, ℤ, int_eq_iff, Bytes, codes,
  bytes_eq, bytes_eq_iff, is_empty, append_eq_nil, gather, All,
}

list_eq_iff : (xs ys : List Bytes) → (list_eq xs ys ≡ true) ↔ (xs ≡ ys)
unfolding list_eq
list_eq_iff (x ∷ xs) (y ∷ ys) = ground (arith, list_eq_iff xs ys, bytes_eq_iff x y)
list_eq_iff _ _ = ground arith

slice_eq_iff : (a b : Slice) → (slice_eq a b ≡ true) ↔ (a ≡ b)
unfolding slice_eq
slice_eq_iff (some xs) (some ys) = ground (arith, list_eq_iff xs ys)
slice_eq_iff _ _ = ground arith

-- What `mountKeys` prints of a mount.
abbrev pub MountKey : Type 0
MountKey = Bytes × Bytes × Bytes × Bool × ℤ

abbrev pub mount_key : EngineMount → MountKey
mount_key m = (m.kind, m.source, m.target, m.read_only, value_or_0 m.tmpfs_size)

mount_eq_iff : (a b : EngineMount) → (mount_eq a b ≡ true) ↔ (mount_key a ≡ mount_key b)
unfolding mount_eq
mount_eq_iff a b = ground (
  arith,
  bytes_eq_iff a.kind b.kind,
  bytes_eq_iff a.source b.source,
  bytes_eq_iff a.target b.target,
  bool_eq_iff a.read_only b.read_only,
  int_eq_iff (value_or_0 a.tmpfs_size) (value_or_0 b.tmpfs_size),
)

mounts_eq_iff :
    (xs ys : List EngineMount) → (mounts_eq xs ys ≡ true) ↔ (map mount_key xs ≡ map mount_key ys)
unfolding mounts_eq
mounts_eq_iff (x ∷ xs) (y ∷ ys) = ground (arith, mounts_eq_iff xs ys, mount_eq_iff x y)
mounts_eq_iff _ _ = ground arith

differs_iff : (name : Bytes) (equal : Bool) → (differs name equal ≡ []) ↔ (equal ≡ true)
differs_iff name equal = ground arith

-- The engine filled in a network mode only where the request leaves it open.
network_mismatch : HostConfig → HostConfig → List Mismatch
network_mismatch gh wh =
    if not (is_empty wh.network_mode)
      || (not (bytes_eq gh.network_mode (codes "bridge"))
          && not (bytes_eq gh.network_mode (codes "default")))
    then differs (codes "NetworkMode") (bytes_eq gh.network_mode wh.network_mode)
    else []

runtime_mismatch : HostConfig → HostConfig → List Mismatch
runtime_mismatch gh wh =
    if not (is_empty wh.runtime) || is_empty gh.runtime
    then differs (codes "Runtime") (bytes_eq gh.runtime wh.runtime)
    else []

is_empty_iff : (s : Bytes) → (is_empty s ≡ true) ↔ (s ≡ [])
is_empty_iff [] = ground arith
is_empty_iff (c ∷ s) = ground arith

abbrev NetworkMatches : HostConfig → HostConfig → Type 0
NetworkMatches gh wh =
    (gh.network_mode ≡ wh.network_mode)
    ⊎ ((wh.network_mode ≡ [])
        × ((gh.network_mode ≡ codes "bridge") ⊎ (gh.network_mode ≡ codes "default")))

abbrev RuntimeMatches : HostConfig → HostConfig → Type 0
RuntimeMatches gh wh = (gh.runtime ≡ wh.runtime) ⊎ ((wh.runtime ≡ []) × (gh.runtime ≢ []))

network_mismatch-nil : (gh wh : HostConfig) → network_mismatch gh wh ≡ [] → NetworkMatches gh wh
unfolding network_mismatch
network_mismatch-nil gh wh h = ground (
  arith,
  bytes_eq_iff gh.network_mode wh.network_mode,
  is_empty_iff wh.network_mode,
  bytes_eq_iff gh.network_mode (codes "bridge"),
  bytes_eq_iff gh.network_mode (codes "default"),
)

runtime_mismatch-nil : (gh wh : HostConfig) → runtime_mismatch gh wh ≡ [] → RuntimeMatches gh wh
unfolding runtime_mismatch
runtime_mismatch-nil gh wh h =
    ground
      (arith, bytes_eq_iff gh.runtime wh.runtime, is_empty_iff wh.runtime, is_empty_iff gh.runtime)

-- The recorded host config is the one of the request, up to what the engine fills in.
pub record HostMatches (gh wh : HostConfig) : Type 0 where
  pub safe : never_privileged gh ≡ []
  pub readonly_rootfs : gh.readonly_rootfs ≡ wh.readonly_rootfs
  pub cap_add : normalize_caps gh.cap_add ≡ normalize_caps wh.cap_add
  pub cap_drop : normalize_caps gh.cap_drop ≡ normalize_caps wh.cap_drop
  pub security_opt : gh.security_opt ≡ wh.security_opt
  pub group_add : gh.group_add ≡ wh.group_add
  pub network_mode : NetworkMatches gh wh
  pub runtime : RuntimeMatches gh wh
  pub pid_mode : gh.pid_mode ≡ wh.pid_mode
  pub ipc_mode : gh.ipc_mode ≡ wh.ipc_mode
  pub cgroupns_mode : gh.cgroupns_mode ≡ wh.cgroupns_mode
  pub uts_mode : gh.uts_mode ≡ wh.uts_mode
  pub userns_mode : gh.userns_mode ≡ wh.userns_mode
  pub memory : gh.memory ≡ wh.memory
  pub memory_swap : gh.memory_swap ≡ wh.memory_swap
  pub nano_cpus : gh.nano_cpus ≡ wh.nano_cpus
  pub pids_limit : value_or_0 gh.pids_limit ≡ value_or_0 wh.pids_limit
  pub binds : gh.binds ≡ wh.binds
  pub mounts : map mount_key gh.mounts ≡ map mount_key wh.mounts

map_eq_nil {ℓ κ} : {A : Type ℓ} {B : Type κ} (f : A → B) (xs : List A) → map f xs ≡ [] → xs ≡ []
map_eq_nil f [] h = refl
map_eq_nil f (x ∷ xs) h = cc

host_mismatches-HostMatches : (gh wh : HostConfig) → host_mismatches gh wh ≡ [] → HostMatches gh wh
unfolding host_mismatches network_mismatch runtime_mismatch
host_mismatches-HostMatches gh wh h =
    let (e0, h0) = append_eq_nil (map Mismatch.unsafe (never_privileged gh)) _ h in
    let (e1, h1) = append_eq_nil (differs _ _) _ h0 in
    let (e2, h2) = append_eq_nil (differs _ _) _ h1 in
    let (e3, h3) = append_eq_nil (differs _ _) _ h2 in
    let (e4, h4) = append_eq_nil (differs _ _) _ h3 in
    let (e5, h5) = append_eq_nil (differs _ _) _ h4 in
    let (e6, h6) = append_eq_nil (network_mismatch gh wh) _ h5 in
    let (e7, h7) = append_eq_nil (runtime_mismatch gh wh) _ h6 in
    let (e8, h8) = append_eq_nil (differs _ _) _ h7 in
    let (e9, h9) = append_eq_nil (differs _ _) _ h8 in
    let (e10, h10) = append_eq_nil (differs _ _) _ h9 in
    let (e11, h11) = append_eq_nil (differs _ _) _ h10 in
    let (e12, h12) = append_eq_nil (differs _ _) _ h11 in
    let (e13, h13) = append_eq_nil (differs _ _) _ h12 in
    let (e14, h14) = append_eq_nil (differs _ _) _ h13 in
    let (e15, h15) = append_eq_nil (differs _ _) _ h14 in
    let (e16, h16) = append_eq_nil (differs _ _) _ h15 in
    let (e17, h17) = append_eq_nil (differs _ _) _ h16 in
    record {
      safe = map_eq_nil _ _ e0;
      readonly_rootfs = (bool_eq_iff _ _).0 ((differs_iff _ _).0 e1);
      cap_add = (slice_eq_iff _ _).0 ((differs_iff _ _).0 e2);
      cap_drop = (slice_eq_iff _ _).0 ((differs_iff _ _).0 e3);
      security_opt = (list_eq_iff _ _).0 ((differs_iff _ _).0 e4);
      group_add = (list_eq_iff _ _).0 ((differs_iff _ _).0 e5);
      network_mode = network_mismatch-nil gh wh e6;
      runtime = runtime_mismatch-nil gh wh e7;
      pid_mode = (bytes_eq_iff _ _).0 ((differs_iff _ _).0 e8);
      ipc_mode = (bytes_eq_iff _ _).0 ((differs_iff _ _).0 e9);
      cgroupns_mode = (bytes_eq_iff _ _).0 ((differs_iff _ _).0 e10);
      uts_mode = (bytes_eq_iff _ _).0 ((differs_iff _ _).0 e11);
      userns_mode = (bytes_eq_iff _ _).0 ((differs_iff _ _).0 e12);
      memory = (int_eq_iff _ _).0 ((differs_iff _ _).0 e13);
      memory_swap = (int_eq_iff _ _).0 ((differs_iff _ _).0 e14);
      nano_cpus = (int_eq_iff _ _).0 ((differs_iff _ _).0 e15);
      pids_limit = (int_eq_iff _ _).0 ((differs_iff _ _).0 e16);
      binds = (list_eq_iff _ _).0 ((differs_iff _ _).0 e17);
      mounts = (mounts_eq_iff _ _).0 ((differs_iff _ _).0 h17);
    }

-- What the engine recorded of the name, the user and the labels.
pub record IdentityMatches (got_name : Bytes) (gc : Config) (want : Request) : Type 0 where
  pub name : bare_name got_name ≡ want.name
  pub user : (want.config.user ≢ []) → gc.user ≡ want.config.user
  pub labels : All (λ kv. map_get gc.labels kv.0 ≡ kv.1) want.config.labels

label_mismatches-All :
    (got : StringMap) (want : StringMap)
    → gather (label_mismatches got) want ≡ []
    → All (λ kv. map_get got kv.0 ≡ kv.1) want
unfolding label_mismatches
label_mismatches-All got [] h = tt
label_mismatches-All got ((k, v) ∷ m) h =
    let (a, later) = append_eq_nil (report _ _) _ h in
    ((bytes_eq_iff _ _).0 (not-false _ (report_nil _ _ a)), label_mismatches-All got m later)

identity_mismatches-IdentityMatches :
    (got_name : Bytes) (gc : Config) (want : Request)
    → identity_mismatches got_name gc want ≡ []
    → IdentityMatches got_name gc want
unfolding identity_mismatches
identity_mismatches-IdentityMatches got_name gc want h =
    let (a, h₁) = append_eq_nil (report _ _) _ h in
    let (b, h₂) = append_eq_nil (report _ _) _ h₁ in
    record {
      name = (bytes_eq_iff _ _).0 (not-false _ (report_nil _ _ a));
      user = λ ne.
          let u =
            report_nil (not (is_empty want.config.user) && not (bytes_eq gc.user want.config.user))
              Mismatch.wrong_user b in
          ground (arith, bytes_eq_iff gc.user want.config.user, is_empty_iff want.config.user);
      labels = label_mismatches-All gc.labels want.config.labels h₂;
    }

observed_parts :
    (got : InspectResponse) (want : Request) (gc : Config) (gh : HostConfig)
    → got.config ≡ some gc
    → got.host_config ≡ some gh
    → check_observed got want
      ≡ identity_mismatches got.name gc want ++ host_mismatches gh want.host_config
unfolding check_observed
observed_parts got want gc gh e f = ground arith

-- When `CheckObserved` finds nothing, inspect returned both configs, and they are those of the
-- request: its name, its labels, its user where it names one, and every security field of its host
-- config, where the engine may only have filled in an open network mode or runtime. The recorded
-- container is not privileged and shares no host namespace.
pub check_observed_sound :
    (got : InspectResponse) (want : Request)
    → check_observed got want ≡ []
    → (gc : Config) × (gh : HostConfig) × (got.config ≡ some gc)
      × (got.host_config ≡ some gh)
      × IdentityMatches got.name gc want
      × HostMatches gh want.host_config
check_observed_sound got want h = go got.config got.host_config refl refl
  where
    go :
        (c : Option Config) (k : Option HostConfig)
        → got.config ≡ c
        → got.host_config ≡ k
        → (gc : Config) × (gh : HostConfig) × (got.config ≡ some gc)
          × (got.host_config ≡ some gh)
          × IdentityMatches got.name gc want
          × HostMatches gh want.host_config
    go none k e f = absurd (unfold check_observed in cc)
    go (some gc) none e f = absurd (unfold check_observed in cc)
    go (some gc) (some gh) e f =
        let (a, b) =
          append_eq_nil (identity_mismatches got.name gc want) (host_mismatches gh want.host_config)
            (sym (observed_parts got want gc gh e f) ∙ h) in
        (
          gc,
          gh,
          e,
          f,
          identity_mismatches-IdentityMatches got.name gc want a,
          host_mismatches-HostMatches gh want.host_config b,
        )

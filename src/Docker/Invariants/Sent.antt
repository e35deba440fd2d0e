-- ===== src/Docker/Invariants/Sent.antt =====
-- What `Translate` returns passes `CheckConfig`: `Create` never refuses a translated request.
use systems_trinkets.Docker.Names.{lesson_re, labels, map_get, container_name}
use systems_trinkets.Docker.Names.Laws.{lesson_re-ne-nil}
use systems_trinkets.Docker.Engine.{Request, Json}
use systems_trinkets.Docker.Spec.{
  Mount, mount_volume, mount_tmpfs, Spec, engine_mount, network_errors, pid_mode_errors,
  is_json_object, seccomp_options, security_options, request_of, translate,
}
use systems_trinkets.Docker.Spec.Accepted.{MountOk, mount_errors-MountOk, SpecOk, translate-SpecOk}
use systems_trinkets.Docker.Invariants.{
  mount_violations, no_docker_socket, never_privileged, labelled, swap_pinned, security_opt_kv,
  opt_violations, seccomp_inline, check_config,
}
use systems_trinkets.Common.{
  ◌≡◌, refl, ap, ◌∙◌, subst, ◌⊎◌, inl, inr, true, false, List, [], ◌∷◌, ◌++◌, map, append_assoc,
  arith, Bool-cases, ok, is_positive, int_eq_refl, Bytes, codes, bytes_eq, bytes_eq_iff, is_empty,
  cut_prefix, has_prefix, has_prefix-append, cut, gather, All,
}

kind-ne-bind :
    (k : Bytes) → (k ≡ mount_volume) ⊎ (k ≡ mount_tmpfs) → bytes_eq k (codes "bind") ≡ false
kind-ne-bind k (inl e) = rw e (unfold bytes_eq in refl)
kind-ne-bind k (inr e) = rw e (unfold bytes_eq in refl)

mount_violations-nil :
    (lesson socket : Bytes) (m : Mount)
    → MountOk socket m
    → mount_violations socket (engine_mount lesson m) ≡ []
unfolding mount_violations engine_mount
mount_violations-nil lesson socket m k = rw (kind-ne-bind m.kind k.kind_known, k.not_socket)

gather-mount_violations :
    (lesson socket : Bytes) (ms : List Mount)
    → All (MountOk socket) ms
    → gather (mount_violations socket) (map (engine_mount lesson) ms) ≡ []
gather-mount_violations lesson socket [] h = refl
gather-mount_violations lesson socket (m ∷ ms) (h, hs) =
    rw (mount_violations-nil lesson socket m h, gather-mount_violations lesson socket ms hs)

network-ne-host : (n : Bytes) → network_errors n ≡ [] → bytes_eq n (codes "host") ≡ false
unfolding network_errors
network-ne-host n h = ground arith

pid_mode-ne-host : (mode : Bytes) → pid_mode_errors mode ≡ [] → bytes_eq mode (codes "host") ≡ false
unfolding pid_mode_errors
pid_mode-ne-host mode h = elim (Bool-cases (bytes_eq mode (codes "host"))) [
  | inr e ↦ e
  | inl e ↦ absurd (
      unfold cut_prefix in
      cc (subst (λ m. pid_mode_errors m ≡ []) ((bytes_eq_iff mode (codes "host")).0 e) h))
]

-- A compacted object is an object: what the harness relies on in encoding/json.
abbrev pub CompactKeepsObjects : Json → Type 0
CompactKeepsObjects json =
    (s : Bytes) → is_json_object json s ≡ true → is_json_object json (json.compact s) ≡ true

has_prefix-append₃ : (p l d r : Bytes) → has_prefix (p ++ (l ++ d)) (p ++ (l ++ (d ++ r))) ≡ true
has_prefix-append₃ p l d r =
    subst (λ t. has_prefix (p ++ (l ++ d)) t ≡ true)
      (append_assoc p (l ++ d) r ∙ ap (λ t. p ++ t) (append_assoc l d r))
      (has_prefix-append (p ++ (l ++ d)) r)

opt_no_new_privileges : (json : Json) → opt_violations json (codes "no-new-privileges:true") ≡ []
unfolding opt_violations security_opt_kv cut bytes_eq
opt_no_new_privileges json = refl

opt_unconfined : (json : Json) → opt_violations json (codes "seccomp=unconfined") ≡ []
unfolding opt_violations security_opt_kv cut bytes_eq
opt_unconfined json = refl

opt_profile :
    (json : Json) (profile : Bytes)
    → is_json_object json profile ≡ true
    → opt_violations json (codes "seccomp=" ++ profile) ≡ []
unfolding opt_violations security_opt_kv cut bytes_eq
opt_profile json profile h = rw h (ground arith)

module _ (json : Json) (keeps : CompactKeepsObjects json) (s : Spec) where
  seccomp_options_nil : gather (opt_violations json) (seccomp_options json s.seccomp) ≡ []
  unfolding seccomp_options
  seccomp_options_nil = elim (Bool-cases (is_empty s.seccomp)) [
    | inl e ↦ rw e
    | inr e ↦ rw e (elim (Bool-cases (bytes_eq s.seccomp (codes "unconfined"))) [
      | inl f ↦ rw f (rw (opt_unconfined json))
      | inr f ↦ rw f (elim (Bool-cases (is_json_object json s.seccomp)) [
        | inl g ↦ rw g (rw (opt_profile json (json.compact s.seccomp) (keeps s.seccomp g)))
        | inr g ↦ rw g
      ])
    ])
  ]

  options_nil : gather (opt_violations json) (security_options json s) ≡ []
  unfolding security_options
  options_nil = elim (Bool-cases s.no_new_privileges) [
    | inl e ↦ rw e (rw (opt_no_new_privileges json) seccomp_options_nil)
    | inr e ↦ rw e seccomp_options_nil
  ]

  labelled_nil :
      (suffix : Bytes)
      → lesson_re s.lesson ≡ true
      → labelled (request_of json s suffix).name (request_of json s suffix).config ≡ []
  unfolding labelled request_of labels map_get bytes_eq container_name
  labelled_nil suffix h = rw (lesson_re-ne-nil s.lesson h) (
      rw (
        has_prefix-append₃ (codes "trinkets-") s.lesson (codes "-")
          (s.role ++ (codes "-" ++ suffix))))

  swap_pinned_nil : (suffix : Bytes) → swap_pinned (request_of json s suffix).host_config ≡ []
  unfolding swap_pinned request_of
  swap_pinned_nil suffix = elim (Bool-cases (is_positive s.memory)) [
    | inl e ↦ rw e (rw (int_eq_refl s.memory))
    | inr e ↦ rw e
  ]

  no_docker_socket_nil :
      (socket suffix : Bytes)
      → SpecOk json s socket suffix
      → no_docker_socket (request_of json s suffix).host_config socket ≡ []
  unfolding no_docker_socket request_of
  no_docker_socket_nil socket suffix k =
      gather-mount_violations s.lesson socket s.mounts
        (mount_errors-MountOk socket 0 [] s.mounts k.mounts)

  never_privileged_nil :
      (socket suffix : Bytes)
      → SpecOk json s socket suffix
      → never_privileged (request_of json s suffix).host_config ≡ []
  unfolding never_privileged request_of bytes_eq
  never_privileged_nil socket suffix k =
      rw (pid_mode-ne-host s.pid_mode k.pid_mode, network-ne-host s.network k.network)

  SpecOk-check_config :
      (socket suffix : Bytes)
      → SpecOk json s socket suffix
      → check_config json (request_of json s suffix) socket ≡ []
  unfolding check_config
  SpecOk-check_config socket suffix k =
      rw
        (
          no_docker_socket_nil socket suffix k,
          never_privileged_nil socket suffix k,
          labelled_nil suffix k.lesson,
          swap_pinned_nil suffix,
        )
        (unfold seccomp_inline request_of in options_nil)

  -- A request that `Translate` returns passes every check of `CheckConfig`: no bind mount, no Docker
  -- socket, not privileged, no host namespace, labelled and named for its lesson, swap pinned, and a
  -- seccomp profile only inline. The condition is that compacting a JSON object leaves an object.
  pub check_config-translate :
      (socket suffix : Bytes) (req : Request)
      → translate json s socket suffix ≡ ok req
      → check_config json req socket ≡ []
  check_config-translate socket suffix req h =
      let (k, e) = (translate-SpecOk json s socket suffix).1 req h in
      rw e (SpecOk-check_config socket suffix k)

-- ===== src/Docker/Spec/Rules.antt =====
-- The rules of `Translate` in plain terms, apart from how it collects its errors: what may be mounted
-- and where, which networks, PID modes and seccomp profiles it knows.
use systems_trinkets.Common.{
  ℕ, ◌+◌, ◌≡◌, refl, ◌≢◌, ◌⊎◌, inl, inr, true, false, not, List, [], ◌∷◌, ◌++◌, arith, ◌==◌,
  if◌then◌else◌, Bool-cases, Option-cases, not-false, is_negative, is_zero, Bytes, codes, bytes_eq,
  bytes_eq_iff, is_empty, contains, cut_prefix, cut_prefix_sound, cut_prefix-append, append_eq_nil,
  any, All,
}
use systems_trinkets.Golang.Paths.{clean, is_abs}
use systems_trinkets.Golang.Utf8.{valid_string}
use systems_trinkets.Docker.Names.{volume_name_re, network_name_re}
use systems_trinkets.Docker.Engine.{Json}
use systems_trinkets.Docker.Spec.{
  tmpfs_with_source, negative_tmpfs_size, bad_mount_type, Mount, mount_volume, mount_tmpfs,
  is_docker_socket, report, kind_errors, target_errors, mount_errors, network_errors,
  pid_mode_errors, is_json_object, seccomp_errors,
}
use systems_trinkets.Docker.Spec.Accepted.{report_nil}

-- A named volume, or a tmpfs without a source.
abbrev pub KindRule : Mount → Type 0
KindRule m =
    ((m.kind ≡ mount_volume) × (volume_name_re m.source ≡ true) × (is_zero m.tmpfs_size ≡ true))
    ⊎ ((m.kind ≡ mount_tmpfs) × (m.source ≡ []) × (is_negative m.tmpfs_size ≡ false))

-- An absolute clean path other than the root, in valid UTF-8 without NUL.
abbrev pub TargetRule : Bytes → Type 0
TargetRule t =
    (is_abs t ≡ true)
    × (t ≢ codes "/")
    × (clean t ≡ t)
    × (any (λ c. c == 0) t ≡ false)
    × (valid_string t ≡ true)

abbrev pub MountRule : Bytes → Mount → Type 0
MountRule socket m = (is_docker_socket m.source socket ≡ false) × KindRule m × TargetRule m.target

-- No target is mounted twice, nor is one of those given.
abbrev pub Fresh : List Bytes → List Mount → Type 0
Fresh seen [] = Unit {0}
Fresh seen (m ∷ ms) = (contains seen m.target ≡ false) × Fresh (m.target ∷ seen) ms

abbrev pub NetworkRule : Bytes → Type 0
NetworkRule n = (n ≢ codes "host") × ((n ≡ []) ⊎ (network_name_re n ≡ true))

abbrev pub PidRule : Bytes → Type 0
PidRule mode =
    (mode ≡ []) ⊎ ((id : Bytes) × (mode ≡ codes "container:" ++ id) × (network_name_re id ≡ true))

abbrev pub SeccompRule : Json → Bytes → Type 0
SeccompRule json s =
    (s ≡ [])
    ⊎ ((s ≡ codes "unconfined") ⊎ ((valid_string s ≡ true) × (json.unmarshal_object s ≡ true)))

is_empty_nil : (s : Bytes) → is_empty s ≡ true → s ≡ []
is_empty_nil [] h = refl
is_empty_nil (c ∷ s) h = absurd (cc)

pub not_eq : (a b : Bytes) → a ≢ b → bytes_eq a b ≡ false
not_eq a b h = ground (arith, bytes_eq_iff a b)

kind_errors-KindRule : (i : ℕ) (m : Mount) → kind_errors i m ≡ [] → KindRule m
unfolding kind_errors
kind_errors-KindRule i m h = elim (Bool-cases (bytes_eq m.kind mount_volume)) [
  | inl v ↦
      let (a, b) = append_eq_nil (report _ _) _ (rw v at h) in
      inl (
        (bytes_eq_iff m.kind mount_volume).0 v,
        not-false _ (report_nil _ _ a),
        not-false _ (report_nil _ _ b),
      )
  | inr v ↦ tmpfs (rw v at h) (Bool-cases (bytes_eq m.kind mount_tmpfs))
]
  where
    tmpfs :
        (if bytes_eq m.kind mount_tmpfs
            then report (not (is_empty m.source)) (tmpfs_with_source i m.source)
              ++ report (is_negative m.tmpfs_size) (negative_tmpfs_size i)
            else bad_mount_type i m.kind ∷ [])
          ≡ []
        → (bytes_eq m.kind mount_tmpfs ≡ true) ⊎ (bytes_eq m.kind mount_tmpfs ≡ false)
        → KindRule m
    tmpfs h (inl t) =
        let (a, b) = append_eq_nil (report _ _) _ (rw t at h) in
        inr (
          (bytes_eq_iff m.kind mount_tmpfs).0 t,
          is_empty_nil m.source (not-false _ (report_nil _ _ a)),
          report_nil _ _ b,
        )
    tmpfs h (inr t) = absurd (ground arith)

KindRule-kind_errors : (i : ℕ) (m : Mount) → KindRule m → kind_errors i m ≡ []
unfolding kind_errors bytes_eq
KindRule-kind_errors i m (inl (k, v, z)) = rw (k, v, z) refl
KindRule-kind_errors i m (inr (k, e, n)) = rw (k, e, n) refl

target_errors-TargetRule :
    (i : ℕ) (seen : List Bytes) (t : Bytes)
    → target_errors i seen t ≡ []
    → TargetRule t × (contains seen t ≡ false)
unfolding target_errors
target_errors-TargetRule i seen t h =
    ground (arith, bytes_eq_iff (clean t) t, bytes_eq_iff t (codes "/"))

TargetRule-target_errors :
    (i : ℕ) (seen : List Bytes) (t : Bytes)
    → TargetRule t
    → contains seen t ≡ false
    → target_errors i seen t ≡ []
unfolding target_errors
TargetRule-target_errors i seen t (a, r, c, z, v) f =
    rw (a, not_eq t (codes "/") r, (bytes_eq_iff (clean t) t).1 c, z, v, f) refl

pub mount_errors-MountRule :
    (socket : Bytes) (i : ℕ) (seen : List Bytes) (ms : List Mount)
    → mount_errors socket i seen ms ≡ []
    → All (MountRule socket) ms × Fresh seen ms
unfolding mount_errors
mount_errors-MountRule socket i seen [] h = (tt, tt)
mount_errors-MountRule socket i seen (m ∷ ms) h =
    let (a, h₁) = append_eq_nil (report _ _) _ h in
    let (b, h₂) = append_eq_nil (kind_errors i m) _ h₁ in
    let (c, h₃) = append_eq_nil (target_errors i seen m.target) _ h₂ in
    let (rule, fresh) = target_errors-TargetRule i seen m.target c in
    let (rules, later) = mount_errors-MountRule socket (i + 1) (m.target ∷ seen) ms h₃ in
    (((report_nil _ _ a, kind_errors-KindRule i m b, rule), rules), (fresh, later))

pub MountRule-mount_errors :
    (socket : Bytes) (i : ℕ) (seen : List Bytes) (ms : List Mount)
    → All (MountRule socket) ms
    → Fresh seen ms
    → mount_errors socket i seen ms ≡ []
unfolding mount_errors
MountRule-mount_errors socket i seen [] h f = refl
MountRule-mount_errors socket i seen (m ∷ ms) ((d, k, t), h) (f, fs) =
    rw
      (
        d,
        KindRule-kind_errors i m k,
        TargetRule-target_errors i seen m.target t f,
        MountRule-mount_errors socket (i + 1) (m.target ∷ seen) ms h fs,
      )
      refl

pub network_errors-NetworkRule : (n : Bytes) → network_errors n ≡ [] → NetworkRule n
unfolding network_errors
network_errors-NetworkRule [] h = (λ e. absurd (cc e), inl refl)
network_errors-NetworkRule (c ∷ n) h =
    (ground (arith, bytes_eq_iff (c ∷ n) (codes "host")), inr (ground (arith)))

pub NetworkRule-network_errors : (n : Bytes) → NetworkRule n → network_errors n ≡ []
unfolding network_errors
NetworkRule-network_errors n (ne, inl e) = rw (not_eq n (codes "host") ne, e) refl
NetworkRule-network_errors n (ne, inr r) = rw (not_eq n (codes "host") ne, r) (ground arith)

pub pid_mode_errors-PidRule : (mode : Bytes) → pid_mode_errors mode ≡ [] → PidRule mode
unfolding pid_mode_errors
pid_mode_errors-PidRule [] h = inl refl
pid_mode_errors-PidRule (c ∷ s) h = elim (Option-cases (cut_prefix (codes "container:") (c ∷ s))) [
  | inl e ↦ absurd (cc (rw e at h))
  | inr (id, e) ↦ inr (
    id,
    cut_prefix_sound (codes "container:") (c ∷ s) e,
    not-false _ (report_nil _ _ (rw e at h)),
  )
]

pub PidRule-pid_mode_errors : (mode : Bytes) → PidRule mode → pid_mode_errors mode ≡ []
unfolding pid_mode_errors
PidRule-pid_mode_errors mode (inl e) = rw e refl
PidRule-pid_mode_errors mode (inr (id, e, r)) =
    rw e (rw (cut_prefix-append (codes "container:") id, r) refl)

module _ (json : Json) where
  pub seccomp_errors-SeccompRule : (s : Bytes) → seccomp_errors json s ≡ [] → SeccompRule json s
  unfolding seccomp_errors is_json_object
  seccomp_errors-SeccompRule [] h = inl refl
  seccomp_errors-SeccompRule (c ∷ s) h = elim (Bool-cases (bytes_eq (c ∷ s) (codes "unconfined"))) [
    | inl e ↦ inr (inl ((bytes_eq_iff (c ∷ s) (codes "unconfined")).0 e))
    | inr e ↦ inr (inr (ground arith))
  ]

  pub SeccompRule-seccomp_errors : (s : Bytes) → SeccompRule json s → seccomp_errors json s ≡ []
  unfolding seccomp_errors is_json_object bytes_eq
  SeccompRule-seccomp_errors s (inl e) = rw e refl
  SeccompRule-seccomp_errors s (inr (inl e)) = rw e refl
  SeccompRule-seccomp_errors s (inr (inr (v, j))) = rw (v, j) (ground arith)

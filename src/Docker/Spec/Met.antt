-- ===== src/Docker/Spec/Met.antt =====
-- All of the rules of `Translate` for a spec, and that they are what its checks test.
use systems_trinkets.Common.{
  ◌≡◌, refl, ap, ◌≢◌, ◌⊎◌, inl, inr, true, false, not, ◌&&◌, [], ◌∷◌, ◌++◌, arith, is_negative,
  Bytes, is_empty, All,
}
use systems_trinkets.Docker.Names.{lesson_re, suffix_re, cap_re, valid_user, valid_numeric_id}
use systems_trinkets.Docker.Engine.{elements, Json}
use systems_trinkets.Docker.Spec.{Spec}
use systems_trinkets.Docker.Spec.Accepted.{SpecOk}
use systems_trinkets.Docker.Spec.Rules.{
  MountRule, Fresh, NetworkRule, PidRule, SeccompRule, mount_errors-MountRule,
  MountRule-mount_errors, network_errors-NetworkRule, NetworkRule-network_errors,
  pid_mode_errors-PidRule, PidRule-pid_mode_errors, seccomp_errors-SeccompRule,
  SeccompRule-seccomp_errors,
}

-- All of the rules for a spec.
pub record SpecRules (json : Json) (s : Spec) (socket suffix : Bytes) : Type 0 where
  pub lesson : lesson_re s.lesson ≡ true
  pub role : lesson_re s.role ≡ true
  pub suffix_valid : suffix_re suffix ≡ true
  pub image : s.image ≢ []
  pub user : (s.user ≡ []) ⊎ (valid_user s.user ≡ true)
  pub groups : All (λ g. valid_numeric_id g ≡ true) s.groups
  pub mounts : All (MountRule socket) s.mounts
  pub targets : Fresh [] s.mounts
  pub network : NetworkRule s.network
  pub pid_mode : PidRule s.pid_mode
  pub caps : All (λ c. cap_re c ≡ true) (elements s.cap_drop ++ elements s.cap_add)
  pub seccomp : SeccompRule json s.seccomp
  pub memory : is_negative s.memory ≡ false
  pub nano_cpus : is_negative s.nano_cpus ≡ false
  pub pids_limit : is_negative s.pids_limit ≡ false

user_rule :
    (u : Bytes)
    → (not (is_empty u) && not (valid_user u)) ≡ false
    → (u ≡ []) ⊎ (valid_user u ≡ true)
user_rule [] h = inl refl
user_rule (c ∷ u) h = inr (ground arith)

rule_user :
    (u : Bytes)
    → (u ≡ []) ⊎ (valid_user u ≡ true)
    → (not (is_empty u) && not (valid_user u)) ≡ false
rule_user u (inl e) = rw e refl
rule_user u (inr e) = rw e (ground arith)

pub not_empty : (s : Bytes) → s ≢ [] → is_empty s ≡ false
not_empty [] ne = absurd (ne refl)
not_empty (c ∷ s) ne = refl

module _ {json : Json} {s : Spec} {socket suffix : Bytes} where
  pub SpecOk-SpecRules : SpecOk json s socket suffix → SpecRules json s socket suffix
  SpecOk-SpecRules k =
      let (mounts, targets) = mount_errors-MountRule socket 0 [] s.mounts k.mounts in
      let limits = k.limits in
      record {
        lesson = k.lesson;
        role = k.role;
        suffix_valid = k.suffix_valid;
        image = λ e. absurd (cc (k.image, ap is_empty e));
        user = user_rule s.user k.user;
        groups = k.groups;
        mounts = mounts;
        targets = targets;
        network = network_errors-NetworkRule s.network k.network;
        pid_mode = pid_mode_errors-PidRule s.pid_mode k.pid_mode;
        caps = k.caps;
        seccomp = seccomp_errors-SeccompRule json s.seccomp k.seccomp;
        memory = ground arith;
        nano_cpus = ground arith;
        pids_limit = ground arith;
      }

  pub SpecRules-SpecOk : SpecRules json s socket suffix → SpecOk json s socket suffix
  SpecRules-SpecOk k = record {
    lesson = k.lesson;
    role = k.role;
    suffix_valid = k.suffix_valid;
    image = not_empty s.image k.image;
    user = rule_user s.user k.user;
    groups = k.groups;
    mounts = MountRule-mount_errors socket 0 [] s.mounts k.mounts k.targets;
    network = NetworkRule-network_errors s.network k.network;
    pid_mode = PidRule-pid_mode_errors s.pid_mode k.pid_mode;
    caps = k.caps;
    seccomp = SeccompRule-seccomp_errors json s.seccomp k.seccomp;
    limits = rw (k.memory, k.nano_cpus, k.pids_limit) refl;
  }

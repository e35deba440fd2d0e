-- ===== src/Docker/Invariants/Preset.antt =====
-- The restricted preset: `Restricted` translates and is restricted, which `init` checks for one name.
use systems_trinkets.Golang.Paths.{clean}
use systems_trinkets.Golang.Utf8.{valid_string}
use systems_trinkets.Golang.Sorting.{sort, sort_by, compact}
use systems_trinkets.Golang.Decimal.{parse_int, digits_value}
use systems_trinkets.Docker.Names.{
  network_name_re, lesson_re, suffix_re, valid_user, valid_numeric_id, numeric_id_re, valid_id,
  cap_re,
}
use systems_trinkets.Docker.Engine.{Request, Json}
use systems_trinkets.Docker.Spec.{
  default_fixture_user, restricted, normalize_cap, normalize_caps, is_docker_socket, kind_errors,
  target_errors, mount_errors, network_errors, pid_mode_errors, seccomp_errors, seccomp_options,
  security_options, request_of, translate,
}
use systems_trinkets.Docker.Spec.Accepted.{SpecOk, translate-SpecOk}
use systems_trinkets.Docker.Invariants.{
  security_opt_kv, is_no_new_privileges, restricted_complete, is_restricted,
}
use systems_trinkets.Common.{
  ◌≡◌, refl, true, false, List, [], ok, Bytes, bytes_eq, is_empty, has_prefix, cut, split,
}

pub default_user-valid : valid_user default_fixture_user ≡ true
unfolding valid_user valid_numeric_id numeric_id_re valid_id parse_int digits_value cut
default_user-valid = refl

tmp_mount-accepted :
    (socket lesson role image : Bytes) (cmd : List Bytes)
    → mount_errors socket 0 [] (restricted lesson role image cmd).mounts ≡ []
unfolding mount_errors restricted kind_errors target_errors is_docker_socket clean split
    valid_string bytes_eq
tmp_mount-accepted socket lesson role image cmd = refl

module _ (json : Json) (lesson role image : Bytes) (cmd : List Bytes) (socket suffix : Bytes) where
  pub restricted-SpecOk :
      lesson_re lesson ≡ true
      → lesson_re role ≡ true
      → is_empty image ≡ false
      → suffix_re suffix ≡ true
      → SpecOk json (restricted lesson role image cmd) socket suffix
  unfolding restricted network_errors network_name_re pid_mode_errors seccomp_errors cap_re bytes_eq
  restricted-SpecOk hl hr hi hs = record {
    lesson = hl;
    role = hr;
    suffix_valid = hs;
    image = hi;
    user = rw default_user-valid;
    groups = tt;
    mounts = tmp_mount-accepted socket lesson role image cmd;
    network = refl;
    pid_mode = refl;
    caps = (refl, tt);
    seccomp = refl;
    limits = refl;
  }

  restricted_complete-restricted :
      let r = request_of json (restricted lesson role image cmd) suffix in
      restricted_complete r.config r.host_config ≡ []
  unfolding request_of restricted restricted_complete normalize_caps normalize_cap sort sort_by
      compact bytes_eq has_prefix is_no_new_privileges security_opt_kv security_options
      seccomp_options cut valid_user valid_numeric_id numeric_id_re valid_id parse_int digits_value
  restricted_complete-restricted = refl

  -- `Restricted` translates for every valid lesson, role, image and name suffix, and the container
  -- it asks for meets every condition of the restricted baseline.
  pub restricted_lem :
      lesson_re lesson ≡ true
      → lesson_re role ≡ true
      → is_empty image ≡ false
      → suffix_re suffix ≡ true
      → (req : Request) × (translate json (restricted lesson role image cmd) socket suffix ≡ ok req)
        × (is_restricted req.config req.host_config ≡ true)
  unfolding is_restricted
  restricted_lem hl hr hi hs =
      let k = restricted-SpecOk hl hr hi hs in
      (
        request_of json (restricted lesson role image cmd) suffix,
        (translate-SpecOk json (restricted lesson role image cmd) socket suffix).0 k,
        rw (restricted_complete-restricted, is_restricted),
      )

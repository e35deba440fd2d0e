-- ===== src/Docker/Topology/Members.antt =====
-- The containers of a socket topology keep the restricted baseline.
use systems_trinkets.Golang.Decimal.{
  digits_value, digits_value-itoa, itoa, itoa_int, itoa_int-Lacks,
}
use systems_trinkets.Golang.Paths.{clean}
use systems_trinkets.Golang.Utf8.{valid_string}
use systems_trinkets.Golang.Sorting.{sort, sort_by, compact}
use systems_trinkets.Docker.Names.{
  owner, valid_id, valid_user, valid_numeric_id, lesson_re, volume_name_re, suffix_re,
  network_name_re, cap_re,
}
use systems_trinkets.Docker.Engine.{Json, Request}
use systems_trinkets.Docker.Spec.{
  Spec, restricted, mount_errors, kind_errors, target_errors, is_docker_socket, network_errors,
  pid_mode_errors, seccomp_errors, translate, request_of, normalize_caps, normalize_cap,
  security_options, seccomp_options,
}
use systems_trinkets.Docker.Spec.Accepted.{SpecOk, translate-SpecOk}
use systems_trinkets.Docker.Invariants.{
  restricted_complete, is_restricted, is_no_new_privileges, security_opt_kv,
}
use systems_trinkets.Docker.Topology.{socket_mount, worker_spec}
use systems_trinkets.Golang.Decimal.{itoa_int-Lacks, itoa}
use systems_trinkets.Docker.Names.Laws.{valid_user-owner, valid_numeric_id-itoa_int}
use systems_trinkets.Common.{
  ℕ, suc, ◌≡◌, refl, sym, ◌∙◌, inl, inr, Bool, true, false, some, List, [], ◌∷◌, arith, ◌==◌,
  ==_iff, Bool-cases, and_true, ok, ℤ, pos, Bytes, codes, bytes_eq, is_empty, has_prefix, cut,
  cut_at_sep, split, all,
}

gains_nothing : is_no_new_privileges (codes "no-new-privileges:true") ≡ true
unfolding is_no_new_privileges security_opt_kv cut bytes_eq
gains_nothing = refl

zeros_value : (s : Bytes) → all (λ c. c == b'0') s ≡ true → digits_value s 0 ≡ some 0
unfolding digits_value
zeros_value [] h = refl
zeros_value (c ∷ s) h =
    let (z, rest) = and_true _ _ h in
    let e : c ≡ b'0' = (==_iff c b'0').0 z in rw e (zeros_value s rest)

itoa-not_zeros : (n : ℕ) → all (λ c. c == b'0') (itoa (suc n)) ≡ false
itoa-not_zeros n = elim (Bool-cases (all (λ c. c == b'0') (itoa (suc n)))) [
  | inr h ↦ h
  | inl h ↦
      let v : some (suc n) ≡ some 0 = sym (digits_value-itoa (suc n)) ∙ zeros_value _ h in
      ground arith
]

-- A uid other than 0 is not written in zeros only.
owner-not_root :
    (n : ℕ) (gid : ℤ) → all (λ c. c == b'0') (cut b':' (owner (pos (suc n)) gid)).0 ≡ false
unfolding owner itoa_int
owner-not_root n gid =
    rw
      (cut_at_sep b':' (itoa (suc n)) (itoa_int gid)
        (itoa_int-Lacks b':' (pos (suc n)) refl (λ q. ground arith)))
      (itoa-not_zeros n)

module _ (json : Json) (lesson role image name : Bytes) (gid socket_gid : ℤ) (n : ℕ)
    (read_only : Bool) (cmd : List Bytes) (socket suffix : Bytes) where
  abbrev pub worker : Spec
  worker =
      worker_spec lesson role image (pos (suc n)) gid socket_gid (socket_mount name read_only) cmd

  mounts-accepted :
      volume_name_re name ≡ true
      → is_docker_socket name socket ≡ false
      → mount_errors socket 0 [] worker.mounts ≡ []
  unfolding worker_spec socket_mount mount_errors restricted kind_errors target_errors
      is_docker_socket clean split valid_string bytes_eq
  mounts-accepted h d = rw (d, h) refl

  restricted_complete-worker :
      valid_user (owner (pos (suc n)) gid) ≡ true
      → let r = request_of json worker suffix in restricted_complete r.config r.host_config ≡ []
  unfolding worker_spec request_of restricted restricted_complete normalize_caps normalize_cap sort
      sort_by compact bytes_eq has_prefix security_options seccomp_options
  restricted_complete-worker hu = rw (hu, owner-not_root n gid, gains_nothing) refl

  worker-SpecOk :
      lesson_re lesson ≡ true
      → lesson_re role ≡ true
      → is_empty image ≡ false
      → suffix_re suffix ≡ true
      → valid_user (owner (pos (suc n)) gid) ≡ true
      → valid_numeric_id (itoa_int socket_gid) ≡ true
      → volume_name_re name ≡ true
      → is_docker_socket name socket ≡ false
      → SpecOk json worker socket suffix
  unfolding worker_spec restricted network_errors network_name_re pid_mode_errors seccomp_errors
      cap_re bytes_eq
  worker-SpecOk hl hr hi hs hu hg hv hd = record {
    lesson = hl;
    role = hr;
    suffix_valid = hs;
    image = hi;
    user = rw hu (ground arith);
    groups = (hg, tt);
    mounts = mounts-accepted hv hd;
    network = refl;
    pid_mode = refl;
    caps = (refl, tt);
    seccomp = refl;
    limits = refl;
  }

  -- `WorkerSpec` translates for every valid lesson, role, image and name suffix, every uid from 1 and
  -- gid that are in range, a socket group in range and a valid volume name that is no Docker socket,
  -- and the container it asks for meets every condition of the restricted baseline.
  pub worker_spec_lem :
      lesson_re lesson ≡ true
      → lesson_re role ≡ true
      → is_empty image ≡ false
      → suffix_re suffix ≡ true
      → valid_id (pos (suc n)) ≡ true
      → valid_id gid ≡ true
      → valid_id socket_gid ≡ true
      → volume_name_re name ≡ true
      → is_docker_socket name socket ≡ false
      → (req : Request) × (translate json worker socket suffix ≡ ok req)
        × (is_restricted req.config req.host_config ≡ true)
  unfolding is_restricted
  worker_spec_lem hl hr hi hs hu hg hk hv hd =
      let user : valid_user (owner (pos (suc n)) gid) ≡ true =
        valid_user-owner (pos (suc n)) gid hu hg in
      let k = worker-SpecOk hl hr hi hs user (valid_numeric_id-itoa_int socket_gid hk) hv hd in
      (
        request_of json worker suffix,
        (translate-SpecOk json worker socket suffix).0 k,
        rw (restricted_complete-worker user, is_restricted),
      )

-- ===== src/Docker/Spec/Accepted.antt =====
-- What `Translate` accepts: a spec is translated exactly when it meets every rule, and what the rules
-- say of the parts of an accepted spec.
use systems_trinkets.Golang.Paths.{clean, is_abs}
use systems_trinkets.Docker.Names.{lesson_re, suffix_re, cap_re, valid_user, valid_numeric_id}
use systems_trinkets.Docker.Engine.{elements, Request, Json}
use systems_trinkets.Docker.Spec.{
  Mount, mount_volume, mount_tmpfs, Spec, SpecError, is_docker_socket, report, kind_errors,
  target_errors, mount_errors, network_errors, pid_mode_errors, group_errors, cap_errors,
  seccomp_errors, spec_errors, request_of, translate,
}
use systems_trinkets.Common.{
  ◌∙◌, sym, ℕ, ◌+◌, ◌≡◌, refl, ◌≢◌, ◌⊎◌, inl, inr, Bool, true, false, not, ◌&&◌, ◌||◌, List, [],
  ◌∷◌, ◌++◌, arith, not-false, ok, err, is_negative, Bytes, bytes_eq_iff, is_empty, append_eq_nil,
  All,
}

pub report_nil {ℓ} : {E : Type ℓ} (b : Bool) (e : E) → report b e ≡ [] → b ≡ false
report_nil b e h = ground arith

-- A mount that the rules accept.
pub record MountOk (socket : Bytes) (m : Mount) : Type 0 where
  pub not_socket : is_docker_socket m.source socket ≡ false
  pub kind_known : (m.kind ≡ mount_volume) ⊎ (m.kind ≡ mount_tmpfs)
  pub absolute : is_abs m.target ≡ true
  pub is_clean : clean m.target ≡ m.target

kind_errors-known :
    (i : ℕ) (m : Mount) → kind_errors i m ≡ [] → (m.kind ≡ mount_volume) ⊎ (m.kind ≡ mount_tmpfs)
unfolding kind_errors
kind_errors-known i m h =
    ground (arith, bytes_eq_iff m.kind mount_volume, bytes_eq_iff m.kind mount_tmpfs)

target_errors-clean :
    (i : ℕ) (targets : List Bytes) (t : Bytes)
    → target_errors i targets t ≡ []
    → (is_abs t ≡ true) × (clean t ≡ t)
unfolding target_errors
target_errors-clean i targets t h = ground (arith, bytes_eq_iff (clean t) t)

pub mount_errors-MountOk :
    (socket : Bytes) (i : ℕ) (targets : List Bytes) (ms : List Mount)
    → mount_errors socket i targets ms ≡ []
    → All (MountOk socket) ms
unfolding mount_errors
mount_errors-MountOk socket i targets [] h = tt
mount_errors-MountOk socket i targets (m ∷ ms) h =
    let (a, h₁) = append_eq_nil (report _ _) _ h in
    let (b, h₂) = append_eq_nil (kind_errors i m) _ h₁ in
    let (c, h₃) = append_eq_nil (target_errors i targets m.target) _ h₂ in
    let (absolute, is_clean) = target_errors-clean i targets m.target c in
    (
      record {
        not_socket = report_nil _ _ a;
        kind_known = kind_errors-known i m b;
        absolute = absolute;
        is_clean = is_clean;
      },
      mount_errors-MountOk socket (i + 1) (m.target ∷ targets) ms h₃,
    )

group_errors-All :
    (gs : List Bytes) → group_errors gs ≡ [] → All (λ g. valid_numeric_id g ≡ true) gs
unfolding group_errors
group_errors-All [] h = tt
group_errors-All (g ∷ gs) h =
    let (a, later) = append_eq_nil (report _ _) _ h in
    (not-false _ (report_nil _ _ a), group_errors-All gs later)

All-group_errors :
    (gs : List Bytes) → All (λ g. valid_numeric_id g ≡ true) gs → group_errors gs ≡ []
unfolding group_errors
All-group_errors [] h = refl
All-group_errors (g ∷ gs) (h, hs) = rw h (All-group_errors gs hs)

cap_errors-All : (cs : List Bytes) → cap_errors cs ≡ [] → All (λ c. cap_re c ≡ true) cs
unfolding cap_errors
cap_errors-All [] h = tt
cap_errors-All (c ∷ cs) h =
    let (a, later) = append_eq_nil (report _ _) _ h in
    (not-false _ (report_nil _ _ a), cap_errors-All cs later)

All-cap_errors : (cs : List Bytes) → All (λ c. cap_re c ≡ true) cs → cap_errors cs ≡ []
unfolding cap_errors
All-cap_errors [] h = refl
All-cap_errors (c ∷ cs) (h, hs) = rw h (All-cap_errors cs hs)

-- What every rule says of an accepted spec.
pub record SpecOk (json : Json) (s : Spec) (socket suffix : Bytes) : Type 0 where
  pub lesson : lesson_re s.lesson ≡ true
  pub role : lesson_re s.role ≡ true
  pub suffix_valid : suffix_re suffix ≡ true
  pub image : is_empty s.image ≡ false
  pub user : (not (is_empty s.user) && not (valid_user s.user)) ≡ false
  pub groups : All (λ g. valid_numeric_id g ≡ true) s.groups
  pub mounts : mount_errors socket 0 [] s.mounts ≡ []
  pub network : network_errors s.network ≡ []
  pub pid_mode : pid_mode_errors s.pid_mode ≡ []
  pub caps : All (λ c. cap_re c ≡ true) (elements s.cap_drop ++ elements s.cap_add)
  pub seccomp : seccomp_errors json s.seccomp ≡ []
  pub limits :
      (is_negative s.memory || (is_negative s.nano_cpus || is_negative s.pids_limit)) ≡ false

module _ (json : Json) (s : Spec) (socket suffix : Bytes) where
  spec_errors-SpecOk : spec_errors json s socket suffix ≡ [] → SpecOk json s socket suffix
  unfolding spec_errors
  spec_errors-SpecOk h =
      let (e1, h1) = append_eq_nil (report _ _) _ h in
      let (e2, h2) = append_eq_nil (report _ _) _ h1 in
      let (e3, h3) = append_eq_nil (report _ _) _ h2 in
      let (e4, h4) = append_eq_nil (report _ _) _ h3 in
      let (e5, h5) = append_eq_nil (report _ _) _ h4 in
      let (e6, h6) = append_eq_nil (group_errors s.groups) _ h5 in
      let (e7, h7) = append_eq_nil (mount_errors socket 0 [] s.mounts) _ h6 in
      let (e8, h8) = append_eq_nil (network_errors s.network) _ h7 in
      let (e9, h9) = append_eq_nil (pid_mode_errors s.pid_mode) _ h8 in
      let (e10, h10) =
        append_eq_nil (cap_errors (elements s.cap_drop ++ elements s.cap_add)) _ h9 in
      let (e11, e12) = append_eq_nil (seccomp_errors json s.seccomp) _ h10 in
      record {
        lesson = not-false _ (report_nil _ _ e1);
        role = not-false _ (report_nil _ _ e2);
        suffix_valid = not-false _ (report_nil _ _ e3);
        image = report_nil _ _ e4;
        user = report_nil _ _ e5;
        groups = group_errors-All s.groups e6;
        mounts = e7;
        network = e8;
        pid_mode = e9;
        caps = cap_errors-All _ e10;
        seccomp = e11;
        limits = report_nil _ SpecError.negative_limit e12;
      }

  SpecOk-spec_errors : SpecOk json s socket suffix → spec_errors json s socket suffix ≡ []
  unfolding spec_errors
  SpecOk-spec_errors k = rw (
    k.lesson,
    k.role,
    k.suffix_valid,
    k.image,
    k.user,
    All-group_errors s.groups k.groups,
    k.mounts,
    k.network,
    k.pid_mode,
    All-cap_errors _ k.caps,
    k.seccomp,
    k.limits,
  )

  translate_cases :
      (es : List SpecError)
      → spec_errors json s socket suffix ≡ es
      → ((translate json s socket suffix ≡ ok (request_of json s suffix)) × (es ≡ []))
        ⊎ ((translate json s socket suffix ≡ err es) × (es ≢ []))
  unfolding translate
  translate_cases [] h = inl (rw (h, translate) refl, refl)
  translate_cases (e ∷ es) h = inr (rw (h, translate) refl, λ k. cc)

  -- `Translate` accepts a spec exactly when it meets every rule, and then returns the request of that
  -- spec; otherwise it returns every error that the rules report, and there is one.
  pub translate-SpecOk :
      (SpecOk json s socket suffix → translate json s socket suffix ≡ ok (request_of json s suffix))
      × ((req : Request)
          → translate json s socket suffix ≡ ok req
          → SpecOk json s socket suffix × (req ≡ request_of json s suffix))
      × ((es : List SpecError)
          → translate json s socket suffix ≡ err es
          → (es ≡ spec_errors json s socket suffix) × (es ≢ []))
  translate-SpecOk = elim (translate_cases (spec_errors json s socket suffix) refl) [
    | inl (accepted, e) ↦ (λ k. accepted, λ req h. (spec_errors-SpecOk e, cc), λ es h. absurd (cc))
    | inr (refused, ne) ↦ (
      λ k. absurd (ne (SpecOk-spec_errors k)),
      λ req h. absurd (cc),
      λ es h. let e : spec_errors json s socket suffix ≡ es = cc in (sym e, λ k. ne (e ∙ k)),
    )
  ]

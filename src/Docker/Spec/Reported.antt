-- ===== src/Docker/Spec/Reported.antt =====
-- `Translate` joins its errors: each rule that a spec breaks is reported, whatever else it breaks.
use systems_trinkets.Common.{
  ◌≡◌, refl, ap, subst, ◌≢◌, ◌⊎◌, inl, inr, Bool, true, false, not, ◌&&◌, ◌||◌, List, [], ◌∷◌, ◌++◌,
  arith, is_negative, Bytes, codes, bytes_eq, is_empty, gather, Mem, Mem-append_left,
  Mem-append_right, here, there,
}
use systems_trinkets.Docker.Names.{lesson_re, suffix_re, cap_re, valid_user, valid_numeric_id}
use systems_trinkets.Docker.Engine.{elements, Json}
use systems_trinkets.Docker.Spec.{
  seccomp_errors, pid_mode_errors, mount_errors, Spec, SpecError, bad_lesson, bad_role, bad_suffix,
  bad_user, bad_group, bad_capability, empty_image, host_network, negative_limit, report,
  group_errors, network_errors, cap_errors, spec_errors,
}

-- The errors of the broken rules, each of them reported beside the others.
pub record ReportsAll (s : Spec) (suffix : Bytes) (es : List SpecError) : Type 0 where
  pub lesson : lesson_re s.lesson ≡ false → Mem (bad_lesson s.lesson) es
  pub role : lesson_re s.role ≡ false → Mem (bad_role s.role) es
  pub suffix_invalid : suffix_re suffix ≡ false → Mem (bad_suffix suffix) es
  pub image : s.image ≡ [] → Mem empty_image es
  pub user : s.user ≢ [] → valid_user s.user ≡ false → Mem (bad_user s.user) es
  pub groups : (g : Bytes) → Mem g s.groups → valid_numeric_id g ≡ false → Mem (bad_group g) es
  pub network : s.network ≡ codes "host" → Mem host_network es
  pub caps :
      (c : Bytes)
      → Mem c (elements s.cap_drop ++ elements s.cap_add)
      → cap_re c ≡ false
      → Mem (bad_capability c) es
  pub memory : is_negative s.memory ≡ true → Mem negative_limit es
  pub nano_cpus : is_negative s.nano_cpus ≡ true → Mem negative_limit es
  pub pids_limit : is_negative s.pids_limit ≡ true → Mem negative_limit es

report-Mem : (b : Bool) (e : SpecError) → b ≡ true → Mem e (report b e)
report-Mem b e h = rw h (here refl)

negated : (b : Bool) → b ≡ false → not b ≡ true
negated b h = rw h refl

limit_broken : (a b c : Bool) → (a ≡ true) ⊎ ((b ≡ true) ⊎ (c ≡ true)) → (a || (b || c)) ≡ true
limit_broken a b c (inl h) = rw h refl
limit_broken a b c (inr (inl h)) = ground arith
limit_broken a b c (inr (inr h)) = ground arith

user_broken :
    (u : Bytes) → u ≢ [] → valid_user u ≡ false → (not (is_empty u) && not (valid_user u)) ≡ true
user_broken [] ne h = absurd (ne refl)
user_broken (c ∷ u) ne h = rw h refl

network_broken : (n : Bytes) → n ≡ codes "host" → Mem host_network (network_errors n)
unfolding network_errors bytes_eq
network_broken n h = rw h (here refl)

gather-Mem :
    (f : Bytes → List SpecError) (xs : List Bytes) (x : Bytes) (e : SpecError)
    → Mem x xs
    → Mem e (f x)
    → Mem e (gather f xs)
gather-Mem f [] x e m h = elim m [ ]
gather-Mem f (y ∷ xs) x e (here q) h = Mem-append_left (f y) _ (subst (λ z. Mem e (f z)) q h)
gather-Mem f (y ∷ xs) x e (there m) h = Mem-append_right (f y) _ (gather-Mem f xs x e m h)

-- An error of one of the lists is one of their concatenation.
abbrev joined : List (List SpecError) → List SpecError
joined [] = []
joined (es ∷ []) = es
joined (es ∷ (fs ∷ gs)) = es ++ joined (fs ∷ gs)

joined-Mem :
    (x : SpecError) (es : List SpecError) (parts : List (List SpecError))
    → Mem es parts
    → Mem x es
    → Mem x (joined parts)
joined-Mem x es [] m h = elim m [ ]
joined-Mem x es (fs ∷ []) (here q) h = subst (Mem x) q h
joined-Mem x es (fs ∷ []) (there m) h = elim m [ ]
joined-Mem x es (fs ∷ (gs ∷ hs)) (here q) h = Mem-append_left fs _ (subst (Mem x) q h)
joined-Mem x es (fs ∷ (gs ∷ hs)) (there m) h = Mem-append_right fs _ (joined-Mem x es (gs ∷ hs) m h)

module _ (json : Json) (s : Spec) (socket suffix : Bytes) where
  abbrev parts : List (List SpecError)
  parts =
      report (not (lesson_re s.lesson)) (bad_lesson s.lesson)
      ∷ report (not (lesson_re s.role)) (bad_role s.role)
      ∷ report (not (suffix_re suffix)) (bad_suffix suffix)
      ∷ report (is_empty s.image) empty_image
      ∷ report (not (is_empty s.user) && not (valid_user s.user)) (bad_user s.user)
      ∷ group_errors s.groups
      ∷ mount_errors socket 0 [] s.mounts
      ∷ network_errors s.network
      ∷ pid_mode_errors s.pid_mode
      ∷ cap_errors (elements s.cap_drop ++ elements s.cap_add)
      ∷ seccomp_errors json s.seccomp
      ∷ report (is_negative s.memory || (is_negative s.nano_cpus || is_negative s.pids_limit))
          negative_limit
      ∷ []

  part-Mem :
      (x : SpecError) (es : List SpecError)
      → Mem es parts
      → Mem x es
      → Mem x (spec_errors json s socket suffix)
  unfolding spec_errors
  part-Mem x es = joined-Mem x es parts

  pub spec_errors-ReportsAll : ReportsAll s suffix (spec_errors json s socket suffix)
  unfolding group_errors cap_errors
  spec_errors-ReportsAll = record {
    lesson = λ h. part-Mem (bad_lesson s.lesson) _ (here refl) (report-Mem _ _ (negated _ h));
    role = λ h. part-Mem (bad_role s.role) _ (there (here refl)) (report-Mem _ _ (negated _ h));
    suffix_invalid = λ h.
        part-Mem (bad_suffix suffix) _ (there (there (here refl))) (report-Mem _ _ (negated _ h));
    image = λ h.
        part-Mem empty_image _ (there (there (there (here refl)))) (report-Mem _ _ (ap is_empty h));
    user = λ ne h.
        part-Mem (bad_user s.user) _ (there (there (there (there (here refl)))))
          (report-Mem _ _ (user_broken s.user ne h));
    groups = λ g m h. part-Mem (bad_group g) _ (there (there (there (there (there (here refl)))))) (
        gather-Mem (λ g. report (not (valid_numeric_id g)) (bad_group g)) s.groups g (bad_group g) m
          (report-Mem _ _ (negated _ h)));
    network = λ h.
        part-Mem host_network _ (there (there (there (there (there (there (there (here refl))))))))
          (network_broken s.network h);
    caps = λ c m h.
        part-Mem (bad_capability c) _
          (there (there (there (there (there (there (there (there (there (here refl))))))))))
          (gather-Mem (λ c. report (not (cap_re c)) (bad_capability c))
            (elements s.cap_drop ++ elements s.cap_add) c (bad_capability c) m
            (report-Mem _ _ (negated _ h)));
    memory = λ h. limits (inl h);
    nano_cpus = λ h. limits (inr (inl h));
    pids_limit = λ h. limits (inr (inr h));
  }
    where
      limits :
          (is_negative s.memory ≡ true)
            ⊎ ((is_negative s.nano_cpus ≡ true) ⊎ (is_negative s.pids_limit ≡ true))
          → Mem negative_limit (spec_errors json s socket suffix)
      limits h =
          part-Mem negative_limit _
            (there (
              there (
                there (there (there (there (there (there (there (there (there (here refl))))))))))))
            (report-Mem _ _ (
              limit_broken (is_negative s.memory) (is_negative s.nano_cpus)
                (is_negative s.pids_limit) h))

-- ===== src/Probe/Surveys.antt =====
-- What each check of the probe's survey prints, and that it keeps the identity.
use systems_trinkets.Common.{
  ℕ, suc, ◌≡◌, refl, ap, ◌∙◌, Bool, true, false, Option, none, some, List, [], ◌∷◌, ◌++◌, map,
  if◌then◌else◌, Result, ok, err, ℤ, Bytes, codes, split,
}
use systems_trinkets.Probeout.{Line, ok_line, denied_line}
use systems_trinkets.Probe.Machine.{
  temp_created, temp_removed, mounted, unmounted, with_path, Action, uid_set, namespace_entered,
  keyring_created, Identity, Machine, World, Check, acting, in_turn, result_line,
}
use systems_trinkets.Probe.Checks.{
  identity_check, status_check, pids_check, interfaces_check, temp_file, write_check, acted,
  mount_undone, mount_check, unshare_check, keyctl_check, limit_line, limit_check, cgroup_check,
}
use systems_trinkets.Probe.Reports.{
  identity_line, status_value, status_line, status_lines, pids_line, interfaces_line, first_error,
  mount_target,
}

abbrev pub names : List Line → List Bytes
names ls = map (λ l. l.name) ls

pub names-append : (ls ks : List Line) → names (ls ++ ks) ≡ names ls ++ names ks
names-append [] ks = refl
names-append (l ∷ ls) ks = rw (names-append ls ks) refl

result_line-name :
    (name detail : Bytes) (r : Result Bytes (Unit {0})) → (result_line name detail r).name ≡ name
unfolding result_line ok_line denied_line
result_line-name name detail (ok u) = refl
result_line-name name detail (err e) = refl

status_line-name : (lines : List Bytes) (f : Bytes × Bytes) → (status_line lines f).name ≡ f.1
unfolding status_line
status_line-name lines (field, name) = go (status_value field lines)
  where
    go :
        (o : Option Bytes)
        → let l : Line = elim o [
          | some v ↦ ok_line name v
          | none ↦ denied_line name (codes "no " ++ (field ++ codes " field in /proc/self/status"))
        ] in
          l.name ≡ name
    go (some v) = unfold ok_line in refl
    go none = unfold denied_line in refl

-- The actions that change the identity.
abbrev is_uid_set : Action → Bool
is_uid_set (uid_set n) = true
is_uid_set a = false

unfoldable pub uid_changes : List Action → ℕ
uid_changes [] = 0
uid_changes (a ∷ log) = if is_uid_set a then suc (uid_changes log) else uid_changes log

module _ {S : Type 0} where
  -- A check that prints the lines of those names, whatever the machine answers, and keeps the identity.
  pub record Surveys (c : Check S) (ns : List Bytes) : Type 0 where
    pub prints : (w : World S) → names (c w).0 ≡ ns
    pub keeps : (w : World S) → uid_changes (c w).1.0 ≡ uid_changes w.0

module _ {S : Type 0} (m : Machine S) where
  acting-uid :
      (a : Action) (r : Result Bytes (Unit {0}) × S) (log : List Action)
      → is_uid_set a ≡ false
      → uid_changes (acting a r log).1.0 ≡ uid_changes log
  unfolding acting uid_changes
  acting-uid a (ok u, s) log h = rw h refl
  acting-uid a (err e, s) log h = refl

  pub identity_check-Surveys : Surveys (identity_check m) (codes "identity" ∷ [])
  unfolding identity_check
  identity_check-Surveys = record {
    prints = λ w. ap (λ (n : Bytes). n ∷ []) (go (m.identity (m.groups w.1).1) (m.groups w.1).0);
    keeps = λ w. refl;
  }
    where
      go : (i : Identity) (r : Result Bytes (List ℤ)) → (identity_line i r).name ≡ codes "identity"
      go i (ok gs) = unfold identity_line ok_line in refl
      go i (err e) = unfold identity_line denied_line in refl

  pub status_check-Surveys :
      Surveys (status_check m) (codes "cap-eff" ∷ codes "no-new-privs" ∷ codes "seccomp" ∷ [])
  unfolding status_check
  status_check-Surveys = record {
    prints = λ w. go (m.read_file (codes "/proc/self/status") w.1).0;
    keeps = λ w. refl;
  }
    where
      go :
          (r : Result Bytes Bytes)
          → names (status_lines r) ≡ codes "cap-eff" ∷ codes "no-new-privs" ∷ codes "seccomp" ∷ []
      go (err e) = unfold status_lines denied_line in refl
      go (ok text) =
          unfold status_lines in
          rw
            (
              status_line-name (split b'\n' text) (codes "CapEff", codes "cap-eff"),
              status_line-name (split b'\n' text) (codes "NoNewPrivs", codes "no-new-privs"),
              status_line-name (split b'\n' text) (codes "Seccomp", codes "seccomp"),
            )
            refl

  pub pids_check-Surveys : Surveys (pids_check m) (codes "pids" ∷ [])
  unfolding pids_check
  pids_check-Surveys = record {
    prints = λ w. ap (λ (n : Bytes). n ∷ []) (go (m.read_dir (codes "/proc") w.1).0);
    keeps = λ w. refl;
  }
    where
      go : (r : Result Bytes (List Bytes)) → (pids_line r).name ≡ codes "pids"
      go (ok es) = unfold pids_line ok_line in refl
      go (err e) = unfold pids_line denied_line in refl

  pub interfaces_check-Surveys : Surveys (interfaces_check m) (codes "interfaces" ∷ [])
  unfolding interfaces_check
  interfaces_check-Surveys = record {
    prints = λ w. ap (λ (n : Bytes). n ∷ []) (go (m.interfaces w.1).0);
    keeps = λ w. refl;
  }
    where
      go : (r : Result Bytes (List Bytes)) → (interfaces_line r).name ≡ codes "interfaces"
      go (ok es) = unfold interfaces_line ok_line in refl
      go (err e) = unfold interfaces_line denied_line in refl

  pub write_check-Surveys : (name dir : Bytes) → Surveys (write_check m name dir) (name ∷ [])
  unfolding write_check
  write_check-Surveys name dir = record {
    prints = λ w. go_name (m.create_temp dir (codes ".probe-write-") w.1).0 _ w.0;
    keeps = λ w. go_uid (m.create_temp dir (codes ".probe-write-") w.1).0 _ w.0;
  }
    where
      go_name :
          (r : Result Bytes Bytes) (s : S) (log : List Action)
          → names (temp_file m name dir (r, s) log).0 ≡ name ∷ []
      go_name (err e) s log =
          unfold temp_file in ap (λ (n : Bytes). n ∷ []) (result_line-name name dir (err e))
      go_name (ok path) s log =
          unfold temp_file in
          let (written, s1) = m.write_text path (codes "probe\n") s in
          ap (λ (n : Bytes). n ∷ [])
            (result_line-name name dir (first_error written (m.close_file path s1).0))

      go_uid :
          (r : Result Bytes Bytes) (s : S) (log : List Action)
          → uid_changes (temp_file m name dir (r, s) log).1.0 ≡ uid_changes log
      go_uid (err e) s log = unfold temp_file in refl
      go_uid (ok path) s log =
          unfold temp_file in
          acting-uid (temp_removed path) _ (temp_created path ∷ log) refl
          ∙ (unfold uid_changes in refl)

  pub mount_check-Surveys : Surveys (mount_check m) (codes "mount" ∷ [])
  unfolding mount_check
  mount_check-Surveys = record {
    prints = λ w. go_name (m.mount_tmpfs mount_target w.1).0 _ w.0;
    keeps = λ w. go_uid (m.mount_tmpfs mount_target w.1).0 _ w.0;
  }
    where
      go_name :
          (r : Result Bytes (Unit {0})) (s : S) (log : List Action)
          → names (mount_undone m (r, s) log).0 ≡ codes "mount" ∷ []
      go_name (err e) s log =
          unfold mount_undone in
          ap (λ (n : Bytes). n ∷ [])
            (result_line-name (codes "mount") mount_target
              (with_path (codes "mount") mount_target (err e)))
      go_name (ok u) s log =
          unfold mount_undone in
          ap (λ (n : Bytes). n ∷ []) (result_line-name (codes "mount") mount_target (ok u))

      go_uid :
          (r : Result Bytes (Unit {0})) (s : S) (log : List Action)
          → uid_changes (mount_undone m (r, s) log).1.0 ≡ uid_changes log
      go_uid (err e) s log = unfold mount_undone in refl
      go_uid (ok u) s log =
          unfold mount_undone in
          acting-uid (unmounted mount_target) _ (mounted mount_target ∷ log) refl
          ∙ (unfold uid_changes in refl)

  pub acted-name :
      (name detail : Bytes) (a : Action) (r : Result Bytes (Unit {0}) × S) (log : List Action)
      → names (acted m name detail a r log).0 ≡ name ∷ []
  unfolding acted
  acted-name name detail a r log = ap (λ (n : Bytes). n ∷ []) (result_line-name name detail r.0)

  acted-uid :
      (name detail : Bytes) (a : Action) (r : Result Bytes (Unit {0})) (s : S) (log : List Action)
      → is_uid_set a ≡ false
      → uid_changes (acted m name detail a (r, s) log).1.0 ≡ uid_changes log
  unfolding acted acting uid_changes
  acted-uid name detail a (ok u) s log h = rw h refl
  acted-uid name detail a (err e) s log h = refl

  pub unshare_check-Surveys : Surveys (unshare_check m) (codes "unshare-user" ∷ [])
  unfolding unshare_check
  unshare_check-Surveys = record {
    prints = λ w.
        acted-name (codes "unshare-user") (codes "CLONE_NEWUSER") namespace_entered
          (m.run_in_namespace w.1) w.0;
    keeps = λ w.
        acted-uid (codes "unshare-user") (codes "CLONE_NEWUSER") namespace_entered
          (m.run_in_namespace w.1).0 _ w.0 refl;
  }

  pub keyctl_check-Surveys : Surveys (keyctl_check m) (codes "keyctl" ∷ [])
  unfolding keyctl_check
  keyctl_check-Surveys = record {
    prints = λ w.
        acted-name (codes "keyctl") (codes "GET_KEYRING_ID") keyring_created (m.keyctl w.1) w.0;
    keeps = λ w.
        acted-uid (codes "keyctl") (codes "GET_KEYRING_ID") keyring_created (m.keyctl w.1).0 _ w.0
          refl;
  }

  limit_line-name : (name : Bytes) (r : Result Bytes Bytes) → (limit_line m name r).name ≡ name
  unfolding limit_line ok_line denied_line
  limit_line-name name (ok text) = refl
  limit_line-name name (err e) = refl

  pub cgroup_check-Surveys :
      Surveys (cgroup_check m) (codes "memory.max" ∷ codes "pids.max" ∷ codes "cpu.max" ∷ [])
  unfolding cgroup_check limit_check in_turn
  cgroup_check-Surveys = record {
    prints = λ w.
        rw
          (
            limit_line-name (codes "memory.max") _,
            limit_line-name (codes "pids.max") _,
            limit_line-name (codes "cpu.max") _,
          )
          refl;
    keeps = λ w. refl;
  }

-- ===== src/Probe/Restored/Survey.antt =====
-- The checks of checks.go close what they open, where taking down a mount and removing a file succeed.
use systems_trinkets.Common.{◌≡◌, none, List, [], ◌∷◌, Result, ok, err, pos, Bytes, codes, All}
use systems_trinkets.Probe.Checks.{
  temp_file, write_check, acted, mount_undone, mount_check, identity_check, status_check,
  pids_check, interfaces_check, unshare_check, keyctl_check, limit_check, cgroup_check,
  setuid_check, battery_checks, battery_check,
}
use systems_trinkets.Probe.Reports.{mount_target}
use systems_trinkets.Probe.Machine.{
  uid_set, keyring_created, namespace_entered, temp_created, temp_removed, mounted, unmounted,
  Action, Machine, World, Check, acting, in_turn,
}
use systems_trinkets.Probe.Restored.Things.{
  Thing, effect, Restored, Restored-refl, Restored-trans, Restored-Brackets, temp-Brackets,
  mount-Brackets, Restored-silent, namespace_silent, keyring_silent, uid_silent,
}

-- Removing a file and taking down a mount succeed.
pub record Undoes {S : Type 0} (m : Machine S) : Type 0 where
  pub removes : (path : Bytes) (s : S) → (m.remove_file path s).0 ≡ ok tt
  pub unmounts : (path : Bytes) (s : S) → (m.unmount path s).0 ≡ ok tt

module _ {S : Type 0} where
  acting-Restored :
      (a b : Action) (r : Result Bytes (Unit {0}) × S) (log : List Action)
      → r.0 ≡ ok tt
      → Restored (a ∷ b ∷ log) log
      → Restored (acting a r (b ∷ log)).1.0 log
  unfolding acting
  acting-Restored a b (ok u, s) log e h = h
  acting-Restored a b (err x, s) log e h = absurd (cc)

  acted-Restored :
      (m : Machine S) (name detail : Bytes) (a : Action) (r : Result Bytes (Unit {0})) (s : S)
      (log : List Action)
      → ((t : Thing) → effect t a ≡ none)
      → Restored (acted m name detail a (r, s) log).1.0 log
  unfolding acted acting
  acted-Restored m name detail a (ok u) s log h = Restored-silent a log h
  acted-Restored m name detail a (err e) s log h = Restored-refl log

module _ {S : Type 0} (m : Machine S) (undo : Undoes m) where
  pub write_check-Restored :
      (name dir : Bytes) (w : World S) → Restored (write_check m name dir w).1.0 w.0
  unfolding write_check
  write_check-Restored name dir (log, s) = go (m.create_temp dir (codes ".probe-write-") s).0 _
    where
      go : (r : Result Bytes Bytes) (s : S) → Restored (temp_file m name dir (r, s) log).1.0 log
      go (err e) s = unfold temp_file in Restored-refl log
      go (ok path) s =
          unfold temp_file in
          acting-Restored (temp_removed path) (temp_created path) _ log (undo.removes path _)
            (Restored-Brackets (temp-Brackets path) (Restored-refl _))

  pub mount_check-Restored : (w : World S) → Restored (mount_check m w).1.0 w.0
  unfolding mount_check
  mount_check-Restored (log, s) = go (m.mount_tmpfs mount_target s).0 _
    where
      go : (r : Result Bytes (Unit {0})) (s : S) → Restored (mount_undone m (r, s) log).1.0 log
      go (err e) s = unfold mount_undone in Restored-refl log
      go (ok u) s =
          unfold mount_undone in
          acting-Restored (unmounted mount_target) (mounted mount_target) _ log
            (undo.unmounts mount_target _) (Restored-Brackets (mount-Brackets _) (Restored-refl _))

  -- A check leaves nothing open.
  abbrev Tidy : Check S → Type 0
  Tidy c = (w : World S) → Restored (c w).1.0 w.0

  in_turn-Tidy : (cs : List (Check S)) → All Tidy cs → Tidy (in_turn cs)
  unfolding in_turn
  in_turn-Tidy [] h w = Restored-refl w.0
  in_turn-Tidy (c ∷ cs) (h, hs) w = Restored-trans (in_turn-Tidy cs hs (c w).1) (h w)

  pub battery_check-Restored : (w : World S) → Restored (battery_check m w).1.0 w.0
  unfolding battery_check battery_checks
  battery_check-Restored = in_turn-Tidy (battery_checks m) (
    λ w. unfold identity_check in Restored-refl w.0,
    (
      λ w. unfold status_check in Restored-refl w.0,
      (
        λ w. unfold pids_check in Restored-refl w.0,
        (
          λ w. unfold interfaces_check in Restored-refl w.0,
          (
            write_check-Restored (codes "write-root") (codes "/"),
            (
              mount_check-Restored,
              (
                λ w.
                    unfold unshare_check in
                    acted-Restored m (codes "unshare-user") (codes "CLONE_NEWUSER")
                      namespace_entered (m.run_in_namespace w.1).0 _ w.0 namespace_silent,
                (
                  λ w.
                      unfold keyctl_check in
                      acted-Restored m (codes "keyctl") (codes "GET_KEYRING_ID") keyring_created
                        (m.keyctl w.1).0 _ w.0 keyring_silent,
                  (
                    λ w. unfold cgroup_check limit_check in Restored-refl w.0,
                    (
                      λ w.
                          unfold setuid_check in
                          acted-Restored m (codes "setuid") (codes "uid=0") (uid_set (pos 0))
                            (m.set_uid (pos 0) w.1).0 _ w.0 (uid_silent (pos 0)),
                      tt,
                    ),
                  ),
                ),
              ),
            ),
          ),
        ),
      ),
    ),
  )

-- ===== src/Probe/Survey.antt =====
-- The survey of the probe: what `battery` prints, and the order of its checks.
use systems_trinkets.Common.{
  ◌≡◌, refl, ap, ◌∙◌, ◌⊎◌, inl, inr, none, List, [], ◌∷◌, ◌++◌, map, append_assoc, append-nil,
  Result, ok, err, pos, Bytes, codes, gather, ◌▸◌,
}
use systems_trinkets.Golang.Decimal.{itoa, itoa_int}
use systems_trinkets.Probe.Machine.{Action, uid_set, Machine, World, Check, acting, in_turn}
use systems_trinkets.Probe.Arguments.{parse_flags, parse_no_flags, counted}
use systems_trinkets.Probe.Checks.{
  battery_checks, battery_check, with_args, battery_command, setuid_check, identity_check,
  status_check, pids_check, interfaces_check, write_check, acted, mount_check, unshare_check,
  keyctl_check, cgroup_check,
}
use systems_trinkets.Probe.Surveys.{
  names, names-append, uid_changes, identity_check-Surveys, status_check-Surveys,
  pids_check-Surveys, interfaces_check-Surveys, write_check-Surveys, mount_check-Surveys,
  acted-name, unshare_check-Surveys, keyctl_check-Surveys, cgroup_check-Surveys, Surveys,
}

module _ {S : Type 0} (m : Machine S) where
  -- Checks in turn print their names in turn.
  abbrev AllSurvey : List (Check S) → List (List Bytes) → Type 0
  AllSurvey [] [] = Unit
  AllSurvey (c ∷ cs) (ns ∷ nss) = Surveys c ns × AllSurvey cs nss
  AllSurvey _ _ = ⊥

  in_turn-Surveys :
      (cs : List (Check S)) (nss : List (List Bytes))
      → AllSurvey cs nss
      → Surveys (in_turn cs) (gather (λ ns. ns) nss)
  unfolding in_turn
  in_turn-Surveys [] [] h = record { prints = λ w. refl; keeps = λ w. refl }
  in_turn-Surveys [] (ns ∷ nss) h = absurd h
  in_turn-Surveys (c ∷ cs) [] h = absurd h
  in_turn-Surveys (c ∷ cs) (ns ∷ nss) (h, hs) =
      let rest = in_turn-Surveys cs nss hs in
      record {
        prints = λ w.
            names-append (c w).0 (in_turn cs (c w).1).0
            ∙ ap (λ x. x ++ names (in_turn cs (c w).1).0) (h.prints w)
            ∙ ap (λ x. ns ++ x) (rest.prints (c w).1);
        keeps = λ w. rest.keeps (c w).1 ∙ h.keeps w;
      }

  abbrev surveyed : List (List Bytes)
  surveyed =
      (codes "identity" ∷ [])
      ∷ (codes "cap-eff" ∷ codes "no-new-privs" ∷ codes "seccomp" ∷ [])
      ∷ (codes "pids" ∷ [])
      ∷ (codes "interfaces" ∷ [])
      ∷ (codes "write-root" ∷ [])
      ∷ (codes "mount" ∷ [])
      ∷ (codes "unshare-user" ∷ [])
      ∷ (codes "keyctl" ∷ [])
      ∷ (codes "memory.max" ∷ codes "pids.max" ∷ codes "cpu.max" ∷ [])
      ∷ []

  -- The checks before the last one.
  abbrev earlier : List (Check S)
  earlier =
      identity_check m
      ∷ status_check m
      ∷ pids_check m
      ∷ interfaces_check m
      ∷ write_check m (codes "write-root") (codes "/")
      ∷ mount_check m
      ∷ unshare_check m
      ∷ keyctl_check m
      ∷ cgroup_check m
      ∷ []

  earlier-Surveys : Surveys (in_turn earlier) (gather (λ ns. ns) surveyed)
  earlier-Surveys = in_turn-Surveys earlier surveyed (
      identity_check-Surveys m
      ▸ status_check-Surveys m
      ▸ pids_check-Surveys m
      ▸ interfaces_check-Surveys m
      ▸ write_check-Surveys m (codes "write-root") (codes "/")
      ▸ mount_check-Surveys m
      ▸ unshare_check-Surveys m
      ▸ keyctl_check-Surveys m
      ▸ cgroup_check-Surveys m
      ▸ tt)

  in_turn_last :
      (cs : List (Check S)) (c : Check S) (w : World S)
      → in_turn (cs ++ (c ∷ [])) w
        ≡ ((in_turn cs w).0 ++ (c (in_turn cs w).1).0, (c (in_turn cs w).1).1)
  unfolding in_turn
  in_turn_last [] c w = rw (append-nil (c w).0) refl
  in_turn_last (d ∷ cs) c w =
      let rest = in_turn_last cs c (d w).1 in
      rw (rest, append_assoc (d w).0 (in_turn cs (d w).1).0 (c (in_turn cs (d w).1).1).0) refl

  setuid_check-last :
      (w : World S)
      → (names (setuid_check m (pos 0) w).0 ≡ codes "setuid" ∷ [])
        × (((setuid_check m (pos 0) w).1.0 ≡ w.0)
            ⊎ ((setuid_check m (pos 0) w).1.0 ≡ uid_set (pos 0) ∷ w.0))
  unfolding setuid_check itoa_int itoa
  setuid_check-last (log, s) = (
    acted-name m (codes "setuid") (codes "uid=0") (uid_set (pos 0)) (m.set_uid (pos 0) s) log,
    go (m.set_uid (pos 0) s).0 _,
  )
    where
      go :
          (r : Result Bytes (Unit {0})) (s : S)
          → ((acted m (codes "setuid") (codes "uid=0") (uid_set (pos 0)) (r, s) log).1.0 ≡ log)
            ⊎ ((acted m (codes "setuid") (codes "uid=0") (uid_set (pos 0)) (r, s) log).1.0
                ≡ uid_set (pos 0) ∷ log)
      go (ok u) s = unfold acted acting in inr refl
      go (err e) s = unfold acted acting in inl refl

  -- Whatever the machine answers, the survey returns no error and prints these fourteen lines in this
  -- order, allowed or denied. Nothing changes the identity before its last check, which is the attempt to
  -- become root: what is recorded is what was recorded before that check, with that one action at most.
  pub battery_lem :
      (w : World S)
      → ((battery_command m [] w).0.1 ≡ none)
        × (map (λ l. l.name) (battery_command m [] w).0.0
            ≡ codes "identity"
              ∷ codes "cap-eff"
              ∷ codes "no-new-privs"
              ∷ codes "seccomp"
              ∷ codes "pids"
              ∷ codes "interfaces"
              ∷ codes "write-root"
              ∷ codes "mount"
              ∷ codes "unshare-user"
              ∷ codes "keyctl"
              ∷ codes "memory.max"
              ∷ codes "pids.max"
              ∷ codes "cpu.max"
              ∷ codes "setuid"
              ∷ [])
        × ((before : List Action) × (uid_changes before ≡ uid_changes w.0)
            × (((battery_command m [] w).1.0 ≡ before)
                ⊎ ((battery_command m [] w).1.0 ≡ uid_set (pos 0) ∷ before)))
  unfolding battery_command with_args battery_check battery_checks parse_flags parse_no_flags
      counted
  battery_lem w =
      let split_off = in_turn_last earlier (setuid_check m (pos 0)) w in
      let (named, last) = setuid_check-last (in_turn earlier w).1 in
      (
        refl,
        ap (λ r. names r.0) split_off
            ∙ names-append (in_turn earlier w).0 _
            ∙ ap (λ x. x ++ names (setuid_check m (pos 0) (in_turn earlier w).1).0)
                (earlier-Surveys.prints w)
            ∙ ap (λ x. gather (λ ns. ns) surveyed ++ x) named,
        ((in_turn earlier w).1.0, earlier-Surveys.keeps w, rw (ap (λ r. r.1.0) split_off) last),
      )

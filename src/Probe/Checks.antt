-- ===== src/Probe/Checks.antt =====
-- internal/lab/docker/probe/checks.go: the commands that look at identity, files, mounts and limits, and the
-- survey of all of them.
use systems_trinkets.Common.{ℕ, List, [], ◌∷◌, ◌++◌, map, Result, ok, err, ℤ, pos, Bytes, codes}
use systems_trinkets.Golang.Decimal.{itoa_int}
use systems_trinkets.Golang.Paths.{clean}
use systems_trinkets.Probeout.{Line, ok_line, denied_line}
use systems_trinkets.Probe.{Outcome, Usage, owner_usage, parse_owner, OwnerError}
use systems_trinkets.Probe.Arguments.{parse_flags, parse_mode}
use systems_trinkets.Probe.Machine.{
  Action, temp_created, temp_removed, uid_set, owner_changed, mode_changed, unlinked, mounted,
  unmounted, namespace_entered, keyring_created, Machine, World, Check, result_line, with_path,
  acting, in_turn, reports, refuses,
}
use systems_trinkets.Probe.Reports.{
  trim_space, argument, status_lines, identity_line, pids_line, interfaces_line, stat_line,
  uid_argument, first_error, two_words, mount_target,
}

module _ {S : Type 0} (m : Machine S) where
  -- The end of `parseFlags`: its error, or the command with the arguments left.
  unfoldable pub with_args :
      Result Usage (List Bytes)
      → (List Bytes → World S → Outcome (World S))
      → World S
      → Outcome (World S)
  with_args (err u) f w = refuses u w
  with_args (ok rest) f w = f rest w

  unfoldable pub identity_check : Check S
  unfolding identity_line
  identity_check (log, s) =
      let (r, s') = m.groups s in (identity_line (m.identity s') r ∷ [], (log, s'))

  -- `cmdID`
  unfoldable pub id_command : List Bytes → World S → Outcome (World S)
  unfolding identity_check with_args parse_flags
  id_command args w = with_args (parse_flags 0 0 args) (λ rest w. reports (identity_check w)) w

  unfoldable pub status_check : Check S
  unfolding status_lines
  status_check (log, s) =
      let (r, s') = m.read_file (codes "/proc/self/status") s in (status_lines r, (log, s'))

  -- `cmdStatus`
  unfoldable pub status_command : List Bytes → World S → Outcome (World S)
  unfolding status_check with_args parse_flags
  status_command args w = with_args (parse_flags 0 0 args) (λ rest w. reports (status_check w)) w

  unfoldable pub pids_check : Check S
  unfolding pids_line
  pids_check (log, s) = let (r, s') = m.read_dir (codes "/proc") s in (pids_line r ∷ [], (log, s'))

  -- `cmdPIDs`
  unfoldable pub pids_command : List Bytes → World S → Outcome (World S)
  unfolding pids_check with_args parse_flags
  pids_command args w = with_args (parse_flags 0 0 args) (λ rest w. reports (pids_check w)) w

  unfoldable pub interfaces_check : Check S
  unfolding interfaces_line
  interfaces_check (log, s) = let (r, s') = m.interfaces s in (interfaces_line r ∷ [], (log, s'))

  -- `cmdInterfaces`
  unfoldable pub interfaces_command : List Bytes → World S → Outcome (World S)
  unfolding interfaces_check with_args parse_flags
  interfaces_command args w =
      with_args (parse_flags 0 0 args) (λ rest w. reports (interfaces_check w)) w

  -- A file that was created is written, closed and removed, whatever fails. An error of the removal is
  -- dropped.
  unfoldable pub temp_file :
      Bytes → Bytes → Result Bytes Bytes × S → List Action → List Line × World S
  unfolding result_line first_error acting
  temp_file name dir (err e, s) log = (result_line name dir (err e) ∷ [], (log, s))
  temp_file name dir (ok path, s) log =
      let (written, s1) = m.write_text path (codes "probe\n") s in
      let (closed, s2) = m.close_file path s1 in
      (
        result_line name dir (first_error written closed) ∷ [],
        (acting (temp_removed path) (m.remove_file path s2) (temp_created path ∷ log)).1,
      )

  -- `checkWrite`
  unfoldable pub write_check : Bytes → Bytes → Check S
  unfolding temp_file
  write_check name dir (log, s) =
      temp_file name dir (m.create_temp dir (codes ".probe-write-") s) log

  -- `cmdWrite`
  unfoldable pub write_command : List Bytes → World S → Outcome (World S)
  unfolding write_check with_args parse_flags
  write_command args w =
      with_args (parse_flags 1 1 args)
        (λ rest w. reports (write_check (codes "write") (clean (argument rest 0)) w)) w

  -- A call that is recorded where it succeeds, with its line.
  unfoldable pub acted :
      Bytes → Bytes → Action → Result Bytes (Unit {0}) × S → List Action → List Line × World S
  unfolding acting result_line
  acted name detail a r log = (result_line name detail r.0 ∷ [], (acting a r log).1)

  -- `checkSetuid`
  unfoldable pub setuid_check : ℤ → Check S
  unfolding acted
  setuid_check uid (log, s) =
      acted (codes "setuid") (codes "uid=" ++ itoa_int uid) (uid_set uid) (m.set_uid uid s) log

  unfoldable pub setuid_as : Result Usage ℤ → World S → Outcome (World S)
  unfolding setuid_check
  setuid_as (err u) w = refuses u w
  setuid_as (ok uid) w = reports (setuid_check uid w)

  -- `cmdSetuid`
  unfoldable pub setuid_command : List Bytes → World S → Outcome (World S)
  unfolding setuid_as uid_argument with_args parse_flags
  setuid_command args w =
      with_args (parse_flags 0 1 args) (λ rest w. setuid_as (uid_argument rest) w) w

  unfoldable pub chown_to : Bytes → Bytes → Result OwnerError (ℕ × ℕ) → World S → Outcome (World S)
  unfolding acted
  chown_to path owner (err e) w = refuses (owner_usage e) w
  chown_to path owner (ok (uid, gid)) (log, s) = reports (
      acted (codes "chown") (two_words path owner) (owner_changed path uid gid)
        (m.chown path uid gid s) log)

  -- `cmdChown`
  unfoldable pub chown_command : List Bytes → World S → Outcome (World S)
  unfolding chown_to parse_owner with_args parse_flags
  chown_command args w =
      with_args (parse_flags 2 2 args)
        (λ rest w. chown_to (argument rest 0) (argument rest 1) (parse_owner (argument rest 1)) w) w

  unfoldable pub chmod_to : Bytes → Bytes → Result Usage ℕ → World S → Outcome (World S)
  unfolding acting result_line with_path
  chmod_to path text (err u) w = refuses u w
  chmod_to path text (ok mode) (log, s) =
      let (r, w') = acting (mode_changed path mode) (m.chmod path mode s) log in
      reports (
        result_line (codes "chmod") (two_words path text) (with_path (codes "chmod") path r) ∷ [],
        w',
      )

  -- `cmdChmod`
  unfoldable pub chmod_command : List Bytes → World S → Outcome (World S)
  unfolding chmod_to parse_mode with_args parse_flags
  chmod_command args w =
      with_args (parse_flags 2 2 args)
        (λ rest w. chmod_to (argument rest 0) (argument rest 1) (parse_mode (argument rest 1)) w) w

  unfoldable pub unlink_check : Bytes → Check S
  unfolding acting result_line with_path
  unlink_check path (log, s) =
      let (r, w') = acting (unlinked path) (m.unlink path s) log in
      (result_line (codes "unlink") path (with_path (codes "unlink") path r) ∷ [], w')

  -- `cmdUnlink`
  unfoldable pub unlink_command : List Bytes → World S → Outcome (World S)
  unfolding unlink_check with_args parse_flags
  unlink_command args w =
      with_args (parse_flags 1 1 args) (λ rest w. reports (unlink_check (argument rest 0) w)) w

  unfoldable pub stat_check : Bytes → Check S
  unfolding stat_line
  stat_check path (log, s) = let (r, s') = m.lstat path s in (stat_line path r ∷ [], (log, s'))

  -- `cmdStat`
  unfoldable pub stat_command : List Bytes → World S → Outcome (World S)
  unfolding stat_check with_args parse_flags
  stat_command args w =
      with_args (parse_flags 1 1 args) (λ rest w. reports (stat_check (argument rest 0) w)) w

  -- A mount that succeeded is taken down again. An error of that is dropped.
  unfoldable pub mount_undone : Result Bytes (Unit {0}) × S → List Action → List Line × World S
  unfolding result_line with_path acting
  mount_undone (ok u, s) log = (
    result_line (codes "mount") mount_target (ok u) ∷ [],
    (acting (unmounted mount_target) (m.unmount mount_target s) (mounted mount_target ∷ log)).1,
  )
  mount_undone (err e, s) log = (
    result_line (codes "mount") mount_target (with_path (codes "mount") mount_target (err e)) ∷ [],
    (log, s),
  )

  -- `checkMount`
  unfoldable pub mount_check : Check S
  unfolding mount_undone
  mount_check (log, s) = mount_undone (m.mount_tmpfs mount_target s) log

  -- `cmdMount`
  unfoldable pub mount_command : List Bytes → World S → Outcome (World S)
  unfolding mount_check with_args parse_flags
  mount_command args w = with_args (parse_flags 0 0 args) (λ rest w. reports (mount_check w)) w

  -- `checkUnshareUser`
  unfoldable pub unshare_check : Check S
  unfolding acted
  unshare_check (log, s) =
      acted (codes "unshare-user") (codes "CLONE_NEWUSER") namespace_entered (m.run_in_namespace s)
        log

  -- `cmdUnshareUser`
  unfoldable pub unshare_command : List Bytes → World S → Outcome (World S)
  unfolding unshare_check with_args parse_flags
  unshare_command args w = with_args (parse_flags 0 0 args) (λ rest w. reports (unshare_check w)) w

  -- `checkKeyctl`
  unfoldable pub keyctl_check : Check S
  unfolding acted
  keyctl_check (log, s) =
      acted (codes "keyctl") (codes "GET_KEYRING_ID") keyring_created (m.keyctl s) log

  -- `cmdKeyctl`
  unfoldable pub keyctl_command : List Bytes → World S → Outcome (World S)
  unfolding keyctl_check with_args parse_flags
  keyctl_command args w = with_args (parse_flags 0 0 args) (λ rest w. reports (keyctl_check w)) w

  -- One of the files under /sys/fs/cgroup
  unfoldable pub limit_line : Bytes → Result Bytes Bytes → Line
  unfolding trim_space
  limit_line name (ok text) = ok_line name (trim_space text)
  limit_line name (err e) = denied_line name e

  unfoldable pub limit_check : Bytes → Check S
  unfolding limit_line
  limit_check name (log, s) =
      let (r, s') = m.read_file (codes "/sys/fs/cgroup/" ++ name) s in
      (limit_line name r ∷ [], (log, s'))

  -- `checkCgroup`
  unfoldable pub cgroup_check : Check S
  unfolding limit_check in_turn
  cgroup_check =
      in_turn (map limit_check (codes "memory.max" ∷ codes "pids.max" ∷ codes "cpu.max" ∷ []))

  -- `cmdCgroup`
  unfoldable pub cgroup_command : List Bytes → World S → Outcome (World S)
  unfolding cgroup_check with_args parse_flags
  cgroup_command args w = with_args (parse_flags 0 0 args) (λ rest w. reports (cgroup_check w)) w

  -- The survey. The four commands are given no arguments, and return no error.
  unfoldable pub battery_checks : List (Check S)
  unfolding identity_check status_check pids_check interfaces_check write_check mount_check
      unshare_check keyctl_check cgroup_check setuid_check
  battery_checks =
      identity_check
      ∷ status_check
      ∷ pids_check
      ∷ interfaces_check
      ∷ write_check (codes "write-root") (codes "/")
      ∷ mount_check
      ∷ unshare_check
      ∷ keyctl_check
      ∷ cgroup_check
      ∷ setuid_check (pos 0)
      ∷ []

  unfoldable pub battery_check : Check S
  unfolding battery_checks in_turn
  battery_check = in_turn battery_checks

  -- `cmdBattery`
  unfoldable pub battery_command : List Bytes → World S → Outcome (World S)
  unfolding battery_check with_args parse_flags
  battery_command args w = with_args (parse_flags 0 0 args) (λ rest w. reports (battery_check w)) w

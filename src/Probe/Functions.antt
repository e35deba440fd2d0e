-- ===== src/Probe/Functions.antt =====
-- The functions behind the command table of internal/lab/docker/probe/main.go, on a machine.
use systems_trinkets.Common.{none, List, [], ◌∷◌, if◌then◌else◌, Bytes, codes, bytes_eq}
use systems_trinkets.Probe.{Outcome, Functions}
use systems_trinkets.Probe.Machine.{Machine, World}
use systems_trinkets.Probe.Checks.{
  id_command, status_command, pids_command, interfaces_command, write_command, setuid_command,
  chown_command, chmod_command, unlink_command, stat_command, mount_command, unshare_command,
  keyctl_command, cgroup_command, battery_command,
}
use systems_trinkets.Probe.Process.{alloc_command, fork_command, initdir_command}
use systems_trinkets.Probe.Network.{dial_command, replace_command}

-- The commands whose functions are not given here: they serve or wait.
abbrev pub serving_commands : List Bytes
serving_commands =
    codes "peer-echo" ∷ codes "http-count" ∷ codes "http-get" ∷ codes "forward" ∷ codes "sleep" ∷ []

module _ {S : Type 0} (m : Machine S) where
  -- `noop`
  unfoldable pub noop_command : List Bytes → World S → Outcome (World S)
  noop_command args w = (([], none), w)

  abbrev named_functions : List (Bytes × (List Bytes → World S → Outcome (World S)))
  named_functions =
      (codes "id", id_command m)
      ∷ (codes "status", status_command m)
      ∷ (codes "pids", pids_command m)
      ∷ (codes "interfaces", interfaces_command m)
      ∷ (codes "write", write_command m)
      ∷ (codes "setuid", setuid_command m)
      ∷ (codes "chown", chown_command m)
      ∷ (codes "chmod", chmod_command m)
      ∷ (codes "unlink", unlink_command m)
      ∷ (codes "replace", replace_command m)
      ∷ (codes "stat", stat_command m)
      ∷ (codes "mount", mount_command m)
      ∷ (codes "unshare-user", unshare_command m)
      ∷ (codes "keyctl", keyctl_command m)
      ∷ (codes "cgroup", cgroup_command m)
      ∷ (codes "battery", battery_command m)
      ∷ (codes "dial", dial_command m)
      ∷ (codes "alloc", alloc_command m)
      ∷ (codes "fork", fork_command m)
      ∷ (codes "initdir", initdir_command m)
      ∷ (codes "noop", noop_command)
      ∷ []

  function_of :
      List (Bytes × (List Bytes → World S → Outcome (World S)))
      → Functions (World S)
      → Functions (World S)
  function_of [] others name = others name
  function_of ((n, f) ∷ fs) others name = if bytes_eq n name then f else function_of fs others name

  -- The `fn` of each name; `others` stands for the serving commands.
  unfoldable pub probe_functions : Functions (World S) → Functions (World S)
  unfolding function_of bytes_eq
  probe_functions others name = function_of named_functions others name

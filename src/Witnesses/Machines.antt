-- ===== src/Witnesses/Machines.antt =====
-- The properties of the probe's commands on a small machine.
use systems_trinkets.Golang.Decimal.{digits_value, parse_int}
use systems_trinkets.Common.{
  ℕ, suc, ◌+◌, ◌%◌, ◌/◌, ◌≡◌, ◌⊎◌, refl, none, some, List, [], ◌∷◌, map, arith, leb, if◌then◌else◌,
  Result, ok, err, pos, Bytes, codes, bytes_eq, contains,
}
use systems_trinkets.Probe.{Functions, command_table, run}
use systems_trinkets.Probe.Machine.{Action, uid_set, Machine, World}
use systems_trinkets.Probe.Arguments.{parse_mode, octal4}
use systems_trinkets.Probe.FileMode.{file_mode}
use systems_trinkets.Probe.FileMode.Shown.{
  read_permissions, read_type, lettered, file_mode_lem, parse_mode_lem,
}
use systems_trinkets.Probe.Checks.{write_command, mount_command, battery_command, setuid_command}
use systems_trinkets.Probe.Restored.Things.{Restored}
use systems_trinkets.Probe.Restored.Commands.{undone_lem}
use systems_trinkets.Probe.Restored.Survey.{Undoes}
use systems_trinkets.Probe.Functions.{probe_functions}
use systems_trinkets.Probe.Guard.{changes, guard_lem}
use systems_trinkets.Probe.Survey.{battery_lem}
use systems_trinkets.Probe.Surveys.{uid_changes}

abbrev done : ℕ → Result Bytes (Unit {0}) × ℕ
done s = (ok tt, s)

abbrev refused : ℕ → Result Bytes (Unit {0}) × ℕ
refused s = (err (codes "operation not permitted"), s)

-- A machine that lets a root user do all but mount, and start two children. Its state is the number of
-- children started.
abbrev small : Machine ℕ
small = record {
  identity = λ s. record { uid = pos 0; gid = pos 0; euid = pos 0; egid = pos 0 };
  groups = λ s. (ok [], s);
  read_file = λ p s. (ok (codes "max"), s);
  read_dir = λ p s. (ok (codes "1" ∷ codes "self" ∷ []), s);
  interfaces = λ s. (ok (codes "lo" ∷ []), s);
  create_temp = λ d p s. (ok (codes "/.probe-write-1"), s);
  write_text = λ p t s. done s;
  close_file = λ p s. done s;
  remove_file = λ p s. done s;
  set_uid = λ u s. done s;
  chown = λ p u g s. done s;
  chmod = λ p k s. done s;
  unlink = λ p s. done s;
  rename = λ a b s. done s;
  lstat = λ p s. (ok (record { mode = 0o40755; uid = 0; gid = 0 }), s);
  mount_tmpfs = λ p s. refused s;
  unmount = λ p s. done s;
  run_in_namespace = λ s. refused s;
  keyctl = λ s. refused s;
  start_child = λ s. if leb s 1 then (ok (s + 7), suc s) else (err (codes "no more"), s);
  kill_child = λ pid s. s;
  wait_child = λ pid s. s;
  umask = λ k s. (0o22, s);
  touch_memory = λ n s. s;
  listen = λ p s. done s;
  close_listener = λ p s. s;
  accept = λ p s. (ok (codes "conn"), s);
  dial = λ n a s. (ok (codes "conn"), s);
  peer_credentials = λ c s. (ok (record { uid = 20000; gid = 20000; pid = pos 0 }), s);
  read_line = λ c s. ((codes "uid=0", none), s);
  write_connection = λ c t s. done s;
  close_connection = λ c s. s;
}

abbrev fresh : World ℕ
fresh = ([], 0)

no_others : Functions (World ℕ)
no_others name args w = (([], none), w)

-- The commands do act on this machine where the marker lets them.
setuid_allowed :
    (run
      (command_table (probe_functions small no_others))
      (codes "1")
      (codes "setuid" ∷ codes "7" ∷ [])
      fresh).world.0
    ≡ uid_set (pos 7) ∷ []
unfolding run bytes_eq command_table probe_functions setuid_command parse_int digits_value
setuid_allowed = refl

file_mode_lem_example :
    (letter : ℕ) × (rest : Bytes) × (file_mode 0o140770 ≡ letter ∷ rest)
    × (read_permissions rest ≡ some (0o140770 % 4096))
    × (read_type letter
        ≡ (if lettered (0o140770 / 4096 % 16) then some (0o140770 / 4096 % 16) else none))
file_mode_lem_example = file_mode_lem 0o140770

-- A setgid directory whose group may not enter it.
file_mode_setgid : file_mode 0o42765 ≡ codes "drwxrwSr-x"
unfolding file_mode
file_mode_setgid = refl

file_mode_socket : file_mode 0o140770 ≡ codes "srwxrwx---"
unfolding file_mode
file_mode_socket = refl

parse_mode_lem_example : parse_mode (octal4 0o2770) ≡ ok 0o2770
parse_mode_lem_example = (parse_mode_lem 0o2770).0 (omega arith)

small-Undoes : Undoes small
small-Undoes = record { removes = λ path s. refl; unmounts = λ path s. refl }

undone_lem_example :
    Restored (write_command small (codes "/" ∷ []) fresh).1.0 []
    × Restored (mount_command small (codes "/" ∷ []) fresh).1.0 []
    × Restored (battery_command small (codes "/" ∷ []) fresh).1.0 []
undone_lem_example = undone_lem small small-Undoes (codes "/" ∷ []) fresh

guard_lem_example :
    changes
      (run
        (command_table (probe_functions small no_others))
        []
        (codes "setuid" ∷ codes "7" ∷ [])
        fresh).world.0
    ≡ changes []
guard_lem_example =
    guard_lem small no_others [] (codes "setuid") (codes "7" ∷ []) fresh (unfold bytes_eq in refl)
      (unfold contains bytes_eq in refl)

battery_lem_example :
    ((battery_command small [] fresh).0.1 ≡ none)
    × (map (λ l. l.name) (battery_command small [] fresh).0.0
        ≡ codes "identity"
          ∷ codes "cap-eff"
          ∷ codes "no-new-privs"
          ∷ codes "seccomp"
          ∷ codes "pids"
          ∷ codes "interfaces"
          ∷ codes "write-root"
          ∷ codes "mount"
          ∷ codes "unshare-user"
          ∷ codes "keyctl"
          ∷ codes "memory.max"
          ∷ codes "pids.max"
          ∷ codes "cpu.max"
          ∷ codes "setuid"
          ∷ [])
    × ((before : List Action) × (uid_changes before ≡ uid_changes [])
        × (((battery_command small [] fresh).1.0 ≡ before)
            ⊎ ((battery_command small [] fresh).1.0 ≡ uid_set (pos 0) ∷ before)))
battery_lem_example = battery_lem small fresh

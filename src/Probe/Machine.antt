-- ===== src/Probe/Machine.antt =====
-- The machine under the probe's commands: the system calls that checks.go, proc.go and net.go make, as
-- replies over a state that the development does not describe, and the record of those that change it.
use systems_trinkets.Common.{
  ℕ, Option, none, some, List, [], ◌∷◌, ◌++◌, Result, ok, err, ℤ, Bytes, codes,
}
use systems_trinkets.Probeout.{Line, ok_line, denied_line}
use systems_trinkets.Probe.{Outcome, Usage, usage_error}

-- A call that changes the machine, or that opens or closes what the probe has to close again. A call
-- that failed is not recorded. A kill, a wait and a close are recorded when they are called: they release
-- what they are called for, whatever they return, and the code drops that.
pub data Action : Type 0 where
  temp_created temp_removed : Bytes → Action
  uid_set : ℤ → Action
  owner_changed : Bytes → ℕ → ℕ → Action
  mode_changed : Bytes → ℕ → Action
  unlinked mounted unmounted : Bytes → Action
  renamed : Bytes → Bytes → Action
  namespace_entered keyring_created : Action
  child_started child_killed child_reaped : ℕ → Action
  umask_set : ℕ → Action
  listening listener_closed accepted connected connection_closed : Bytes → Action
  memory_touched : ℕ → Action

-- `Lstat`
pub record FileStatus : Type 0 where
  pub mode : ℕ
  pub uid : ℕ
  pub gid : ℕ

-- What the kernel says of the other end of a socket.
pub record Credentials : Type 0 where
  pub uid : ℕ
  pub gid : ℕ
  pub pid : ℤ

pub record Identity : Type 0 where
  pub uid : ℤ
  pub gid : ℤ
  pub euid : ℤ
  pub egid : ℤ

-- The calls over a state `S`. The second result of `umask` is the mask before.
pub record Machine (S : Type 0) : Type 0 where
  pub identity : S → Identity
  pub groups : S → Result Bytes (List ℤ) × S
  pub read_file : Bytes → S → Result Bytes Bytes × S
  pub read_dir : Bytes → S → Result Bytes (List Bytes) × S
  pub interfaces : S → Result Bytes (List Bytes) × S
  pub create_temp : Bytes → Bytes → S → Result Bytes Bytes × S
  pub write_text : Bytes → Bytes → S → Result Bytes (Unit {0}) × S
  pub close_file : Bytes → S → Result Bytes (Unit {0}) × S
  pub remove_file : Bytes → S → Result Bytes (Unit {0}) × S
  pub set_uid : ℤ → S → Result Bytes (Unit {0}) × S
  pub chown : Bytes → ℕ → ℕ → S → Result Bytes (Unit {0}) × S
  pub chmod : Bytes → ℕ → S → Result Bytes (Unit {0}) × S
  pub unlink : Bytes → S → Result Bytes (Unit {0}) × S
  pub rename : Bytes → Bytes → S → Result Bytes (Unit {0}) × S
  pub lstat : Bytes → S → Result Bytes FileStatus × S
  pub mount_tmpfs : Bytes → S → Result Bytes (Unit {0}) × S
  pub unmount : Bytes → S → Result Bytes (Unit {0}) × S
  pub run_in_namespace : S → Result Bytes (Unit {0}) × S
  pub keyctl : S → Result Bytes (Unit {0}) × S
  pub start_child : S → Result Bytes ℕ × S
  pub kill_child : ℕ → S → S
  pub wait_child : ℕ → S → S
  pub umask : ℕ → S → ℕ × S
  pub touch_memory : ℕ → S → S
  pub listen : Bytes → S → Result Bytes (Unit {0}) × S
  pub close_listener : Bytes → S → S
  pub accept : Bytes → S → Result Bytes Bytes × S
  pub dial : Bytes → Bytes → S → Result Bytes Bytes × S
  pub peer_credentials : Bytes → S → Result Bytes Credentials × S
  -- `ReadString('\n')`: what was read, and whether it ended in an error
  pub read_line : Bytes → S → (Bytes × Option Bytes) × S
  pub write_connection : Bytes → Bytes → S → Result Bytes (Unit {0}) × S
  pub close_connection : Bytes → S → S

-- The actions so far, the last one first, and the machine's state.
abbrev pub World : Type 0 → Type 0
World S = List Action × S

-- A check prints lines; a command also returns an error.
abbrev pub Check : Type 0 → Type 0
Check S = World S → List Line × World S

-- `pathErr` on an error
unfoldable pub path_error : Bytes → Bytes → Bytes → Bytes
path_error op path e = op ++ (codes " " ++ (path ++ (codes ": " ++ e)))

-- `reporter.result`, where a reply without an error has no other value.
unfoldable pub result_line : Bytes → Bytes → Result Bytes (Unit {0}) → Line
result_line name detail (ok u) = ok_line name detail
result_line name detail (err e) = denied_line name e

unfoldable pub with_path : Bytes → Bytes → Result Bytes (Unit {0}) → Result Bytes (Unit {0})
unfolding path_error
with_path op path (ok u) = ok u
with_path op path (err e) = err (path_error op path e)

module _ {S : Type 0} where
  -- A call that is recorded where it succeeds.
  unfoldable pub acting :
      Action → Result Bytes (Unit {0}) × S → List Action → Result Bytes (Unit {0}) × World S
  acting a (ok u, s) log = (ok u, (a ∷ log, s))
  acting a (err e, s) log = (err e, (log, s))

  -- One check after another.
  unfoldable pub in_turn : List (Check S) → Check S
  in_turn [] w = ([], w)
  in_turn (c ∷ cs) w = let (ls, w') = c w in let (ks, w″) = in_turn cs w' in (ls ++ ks, w″)

  -- `return nil` after a check
  abbrev pub reports : List Line × World S → Outcome (World S)
  reports (ls, w) = ((ls, none), w)

  abbrev pub refuses : Usage → World S → Outcome (World S)
  refuses u w = (([], some (usage_error u)), w)

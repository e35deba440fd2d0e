-- ===== src/Probe/Process.antt =====
-- internal/lab/docker/probe/proc.go: memory, child processes and the volume init step.
use systems_trinkets.Common.{
  ℕ, zero, suc, ◌^◌, ◌||◌, Option, none, some, List, [], ◌∷◌, ◌++◌, ltb, if◌then◌else◌, Result, ok,
  err, pos, negsuc, Bytes, codes, length,
}
use systems_trinkets.Golang.Decimal.{itoa, parse_int}
use systems_trinkets.Probeout.{Line, ok_line, denied_line}
use systems_trinkets.Probe.{
  Outcome, Usage, owner_usage, bad_bytes, bad_fork_count, parse_owner, OwnerError,
}
use systems_trinkets.Probe.Arguments.{parse_flags, parse_mode}
use systems_trinkets.Probe.Checks.{with_args}
use systems_trinkets.Probe.Reports.{argument}
use systems_trinkets.Probe.Machine.{
  Action, child_started, child_killed, child_reaped, memory_touched, owner_changed, mode_changed,
  Machine, World, Check, result_line, with_path, acting, reports, refuses,
}

-- An argument in a range, `none` for any other.
unfoldable pub number_between : ℕ → ℕ → Bytes → Option ℕ
number_between least most s = elim (parse_int s) [
  | some (pos n) ↦ if ltb n least || ltb most n then none else some n
  | some (negsuc n) ↦ none
  | none ↦ none
]

abbrev pub max_fork : ℕ
max_fork = 1024

module _ {S : Type 0} (m : Machine S) where
  unfoldable pub alloc_check : Bytes → Option ℕ → World S → Outcome (World S)
  alloc_check s none w = refuses (bad_bytes s) w
  alloc_check s (some n) (log, s') =
      reports (ok_line (codes "alloc") (itoa n) ∷ [], (memory_touched n ∷ log, m.touch_memory n s'))

  -- `cmdAlloc`
  unfoldable pub alloc_command : List Bytes → World S → Outcome (World S)
  unfolding alloc_check number_between with_args parse_flags
  alloc_command args w =
      with_args m (parse_flags 1 1 args)
        (λ rest w. alloc_check (argument rest 0) (number_between 0 (2 ^ 40) (argument rest 0)) w) w

  -- The children started, the first one first, with the error that ended the loop.
  abbrev pub Started : Type 0
  Started = (List ℕ × Option Bytes) × World S

  unfoldable pub with_child : ℕ → Started → Started
  with_child pid ((pids, e), w) = ((pid ∷ pids, e), w)

  -- The loop that starts up to `n` more children, until one fails. What follows a start that succeeded is
  -- given as a function.
  unfoldable pub start_next : Result Bytes ℕ × S → List Action → (World S → Started) → Started
  unfolding with_child
  start_next (err e, s) log next = (([], some e), (log, s))
  start_next (ok pid, s) log next = with_child pid (next (child_started pid ∷ log, s))

  unfoldable pub start_children : ℕ → World S → Started
  unfolding start_next
  start_children zero w = (([], none), w)
  start_children (suc n) (log, s) = start_next (m.start_child s) log (λ w. start_children n w)

  -- Each is killed and waited for.
  unfoldable pub stop_children : List ℕ → World S → World S
  stop_children [] w = w
  stop_children (pid ∷ pids) (log, s) =
      stop_children pids
        (child_reaped pid ∷ child_killed pid ∷ log, m.wait_child pid (m.kill_child pid s))

  abbrev pub start_result : Option Bytes → Result Bytes (Unit {0})
  start_result none = ok tt
  start_result (some e) = err e

  unfoldable pub forked : ℕ → Started → List Line × World S
  unfolding stop_children result_line
  forked n ((pids, e), w) = (
    ok_line (codes "fork-started") (itoa (length pids))
        ∷ result_line (codes "fork") (itoa n ++ codes " requested") (start_result e)
        ∷ [],
    stop_children pids w,
  )

  unfoldable pub fork_check : ℕ → Check S
  unfolding forked start_children
  fork_check n w = forked n (start_children n w)

  unfoldable pub fork_as : Bytes → Option ℕ → World S → Outcome (World S)
  unfolding fork_check
  fork_as s none w = refuses (bad_fork_count s) w
  fork_as s (some n) w = reports (fork_check n w)

  -- `cmdFork`
  unfoldable pub fork_command : List Bytes → World S → Outcome (World S)
  unfolding fork_as number_between with_args parse_flags
  fork_command args w =
      with_args m (parse_flags 1 1 args)
        (λ rest w. fork_as (argument rest 0) (number_between 1 max_fork (argument rest 0)) w) w

  -- The mode is set after the owner, and not at all where that failed.
  unfoldable pub init_mode :
      Bytes → Bytes → ℕ → Result Bytes (Unit {0}) × World S → List Line × World S
  unfolding acting result_line with_path
  init_mode path detail mode (err e, w) = (denied_line (codes "initdir") e ∷ [], w)
  init_mode path detail mode (ok u, (log, s)) =
      let (r, w') = acting (mode_changed path mode) (m.chmod path mode s) log in
      (result_line (codes "initdir") detail (with_path (codes "chmod") path r) ∷ [], w')

  unfoldable pub init_dir :
      Bytes
      → Bytes
      → Bytes
      → Result OwnerError (ℕ × ℕ)
      → Result Usage ℕ
      → World S
      → Outcome (World S)
  unfolding init_mode acting
  init_dir path owner mode (err e) r w = refuses (owner_usage e) w
  init_dir path owner mode (ok (uid, gid)) (err u) w = refuses u w
  init_dir path owner mode (ok (uid, gid)) (ok bits) (log, s) = reports (
      init_mode path (path ++ (codes " " ++ (owner ++ (codes " " ++ mode)))) bits
        (acting (owner_changed path uid gid) (m.chown path uid gid s) log))

  -- `cmdInitDir`
  unfoldable pub initdir_command : List Bytes → World S → Outcome (World S)
  unfolding init_dir parse_owner parse_mode with_args parse_flags
  initdir_command args w =
      with_args m (parse_flags 3 3 args)
        (λ rest w.
          init_dir (argument rest 0) (argument rest 1) (argument rest 2)
            (parse_owner (argument rest 1)) (parse_mode (argument rest 2)) w)
        w

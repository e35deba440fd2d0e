-- ===== src/Docker/Exec.antt =====
-- `Exec` of internal/lab/docker/run.go: a command in a running container, and the loop that waits for its
-- exit to be recorded.
pub mod Ends
use systems_trinkets.Docker.Run.{Outcome, Container, zero_outcome}
use systems_trinkets.Docker.Client.{
  Event, create, inspect, start, wait_exit, wait_stopped, logs, list_id, remove, stop, exec_create,
  exec_attach, exec_inspect, list_containers, list_volumes, list_networks, create_volume,
  remove_volume, remove_network, Item, Waited, exited, wait_error, context_done, ExecInspect,
  Output, Client, Stage, creating, inspecting, starting, waiting, running, fetching_logs, stopping,
  removing, creating_exec, reading_output, inspecting_exec, listing_containers, listing_volumes,
  listing_networks, creating_volume, removing_volume, removing_network, sweeping, Failure, bad_spec,
  refused, mismatched, bad_lesson, bad_role, failed, nonzero_exit, bad_owner, World, Op, failures,
  reported, after_result, ◌>>=◌, pure, fail, call, undo_on_error, fail_after,
}
use systems_trinkets.Common.{
  ℕ, zero, suc, ◌⊎◌, inl, inr, not, Option, none, some, List, [], ◌∷◌, if◌then◌else◌, Result, ok,
  err, negsuc, Bytes,
}

-- `Result{ExitCode: -1}`
abbrev pub unfinished : Outcome
unfinished = record zero_outcome { exit_code = negsuc 0 }

module _ {S : Type 0} (cli : Client S) where
  -- One round of the polling loop: the end of `Exec`, or the world in which the next round starts. A
  -- context that has ended by the end of the pause ends the loop; where both are ready, the code's `select`
  -- may also take the next round first.
  unfoldable pub poll_step :
      Container
      → Outcome
      → List Event
      → Result Bytes ExecInspect × S
      → ((Outcome × List Failure) × World S) ⊎ World S
  poll_step c res log (err e, s) = inl ((res, failed inspecting_exec c.name e ∷ []), (log, s))
  poll_step c res log (ok i, s) =
      if not i.running
      then inl ((record res { exit_code = i.exit_code }, []), (log, s))
      else elim (cli.context_error (cli.pause s)) [
        | some e ↦ inl ((res, failed running c.name e ∷ []), (log, cli.pause s))
        | none ↦ inr (log, cli.pause s)
      ]

  -- The loop with at most the given number of inspections; `none` is a loop that has not ended by then.
  unfoldable pub poll_exec :
      ℕ → Container → Bytes → Outcome → World S → Option ((Outcome × List Failure) × World S)
  unfolding poll_step
  poll_exec zero c id res w = none
  poll_exec (suc n) c id res (log, s) =
      elim (poll_step c res (exec_inspect id ∷ log) (cli.inspect_exec id s)) [
        | inl end ↦ some end
        | inr w ↦ poll_exec n c id res w
      ]

  -- `Exec` after `StdCopy`, with the output read so far
  unfoldable pub copied_exec :
      ℕ
      → Container
      → Bytes
      → Result (List Failure) Output × World S
      → Option ((Outcome × List Failure) × World S)
  unfolding poll_exec
  copied_exec n c id (err es, w) = some ((unfinished, es), w)
  copied_exec n c id (ok out, (log, s)) =
      let res = record unfinished { stdout = out.stdout; stderr = out.stderr } in
      elim (cli.context_error s) [
        | some e ↦ some ((res, failed running c.name e ∷ []), (log, s))
        | none ↦ elim out.copy_error [
          | some e ↦ some ((res, failed reading_output c.name e ∷ []), (log, s))
          | none ↦ poll_exec n c id res (log, s)
        ]
      ]

  unfoldable pub attached_exec :
      ℕ
      → Container
      → Result (List Failure) Bytes × World S
      → Option ((Outcome × List Failure) × World S)
  unfolding copied_exec call
  attached_exec n c (err es, w) = some ((unfinished, es), w)
  attached_exec n c (ok id, w) =
      copied_exec n c id (call (exec_attach id) creating_exec c.name (cli.attach_exec id) w)

  -- `Exec` with at most `n` inspections
  unfoldable pub exec_container :
      ℕ → Container → List Bytes → World S → Option ((Outcome × List Failure) × World S)
  unfolding attached_exec call
  exec_container n c cmd w =
      attached_exec n c (call (exec_create c.id cmd) creating_exec c.name (cli.new_exec c.id cmd) w)

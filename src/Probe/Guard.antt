-- ===== src/Probe/Guard.antt =====
-- The guard of the probe: without its marker, it changes nothing of the machine.
use systems_trinkets.Common.{
  ◌▸◌, ℕ, ◌≡◌, refl, sym, ◌⊎◌, inl, inr, Bool, true, false, not, ◌&&◌, ◌||◌, none, some, List, [],
  ◌∷◌, arith, if◌then◌else◌, Bool-cases, Result, ok, err, Bytes, codes, bytes_eq, bytes_eq_iff,
  contains, All,
}
use systems_trinkets.Probe.Functions.{serving_commands, noop_command, probe_functions}
use systems_trinkets.Probe.{
  Functions, command_table, run, Usage, usage_error, help_requested, other_error, Outcome, Command,
  finish, run_named,
}
use systems_trinkets.Probe.Arguments.{parse_flags}
use systems_trinkets.Probe.Machine.{
  Action, umask_set, listening, listener_closed, accepted, connected, connection_closed, Machine,
  World, in_turn,
}
use systems_trinkets.Probe.Checks.{
  with_args, id_command, status_command, pids_command, interfaces_command, stat_command,
  cgroup_command, identity_check, status_check, pids_check, interfaces_check, stat_check,
  cgroup_check, limit_check,
}
use systems_trinkets.Probe.Network.{
  asked, exchanged, closing, line_first, dialled, dial_arguments, dial_command,
}

-- An action that changes the machine: all but those on sockets of its own and on its umask.
unfoldable pub changing : Action → Bool
changing (umask_set k) = false
changing (listening p) = false
changing (listener_closed p) = false
changing (accepted c) = false
changing (connected c) = false
changing (connection_closed c) = false
changing a = true

unfoldable pub changes : List Action → List Action
unfolding changing
changes [] = []
changes (a ∷ log) = let rest = changes log in if changing a then a ∷ rest else rest

differs : (a n : Bytes) → bytes_eq a n ≡ false → bytes_eq n a ≡ false
differs a n h = elim (Bool-cases (bytes_eq n a)) [
  | inr f ↦ f
  | inl t ↦
      let same : bytes_eq a n ≡ true = (bytes_eq_iff a n).1 (sym ((bytes_eq_iff n a).0 t)) in
      absurd (cc)
]

not_any_of :
    (a : Bytes) (names : List Bytes)
    → contains names a ≡ false
    → All (λ n. bytes_eq n a ≡ false) names
not_any_of a [] h = tt
not_any_of a (n ∷ names) h = (differs a n (ground arith), not_any_of a names (ground arith))

module _ {S : Type 0} where
  finish-world : (c : Command (World S)) (r : Outcome (World S)) → (finish c r).world ≡ r.1
  unfolding finish
  finish-world c ((ls, none), w) = refl
  finish-world c ((ls, some (usage_error u)), w) = refl
  finish-world c ((ls, some help_requested), w) = refl
  finish-world c ((ls, some (other_error e)), w) = refl

  abbrev Harmless : (List Bytes → World S → Outcome (World S)) → Type 0
  Harmless f = (args : List Bytes) (w : World S) → changes (f args w).1.0 ≡ changes w.0

  -- A command that a run under `name` without the marker lets change nothing.
  abbrev Guarded : Bytes → Command (World S) → Type 0
  Guarded name c = (c.mutates ≡ true) ⊎ (bytes_eq c.name name ≡ false) ⊎ Harmless c.fn

  run_named-Guarded :
      (table : List (Command (World S))) (marker name : Bytes) (args : List Bytes) (w : World S)
      → bytes_eq marker (codes "1") ≡ false
      → All (Guarded name) table
      → changes (run_named table marker name args w).world.0 ≡ changes w.0
  unfolding run_named
  run_named-Guarded [] marker name args w h g = refl
  run_named-Guarded (c ∷ table) marker name args w h (g, gs) =
      elim (Bool-cases (bytes_eq c.name name)) [
        | inr n ↦ rw n (run_named-Guarded table marker name args w h gs)
        | inl n ↦ elim (Bool-cases c.mutates) [
          | inl mt ↦ rw (n, mt, h) refl
          | inr mt ↦ rw (n, mt) (rw (finish-world c (c.fn args w)) (harmless mt n))
        ]
      ]
    where
      harmless :
          c.mutates ≡ false → bytes_eq c.name name ≡ true → changes (c.fn args w).1.0 ≡ changes w.0
      harmless mt n = elim g [
        | inl t ↦ absurd (cc)
        | inr (inl f) ↦ absurd (cc)
        | inr (inr k) ↦ k args w
      ]

module _ {S : Type 0} (m : Machine S) where
  with_args-Harmless :
      (least most : ℕ) (f : List Bytes → World S → Outcome (World S))
      → Harmless f
      → Harmless (λ args. with_args m (parse_flags least most args) f)
  with_args-Harmless least most f h args w = go (parse_flags least most args)
    where
      go : (r : Result Usage (List Bytes)) → changes (with_args m r f w).1.0 ≡ changes w.0
      go (err u) = unfold with_args in refl
      go (ok rest) = unfold with_args in h rest w

  exchanged-changes :
      (conn : Bytes) (message : List Bytes) (w : World S)
      → changes (exchanged m conn message w).1.0 ≡ changes w.0
  unfolding exchanged
  exchanged-changes conn [] w = refl
  exchanged-changes conn (message ∷ more) (log, s) = go (m.write_connection conn message s).0 _
    where
      go :
          (r : Result Bytes (Unit {0})) (s : S)
          → changes (asked m conn (r, s) log).1.0 ≡ changes log
      go (err e) s = unfold asked in refl
      go (ok u) s = unfold asked in refl

  dialled-changes :
      (network addr : Bytes) (message : List Bytes) (r : Result Bytes Bytes) (s : S)
      (log : List Action)
      → changes (dialled m network addr message (r, s) log).1.0 ≡ changes log
  unfolding dialled closing line_first changes
  dialled-changes network addr message (err e) s log = refl
  dialled-changes network addr message (ok conn) s log =
      exchanged-changes conn message (connected conn ∷ log, s)

  dial_arguments-Harmless : Harmless (dial_arguments m)
  unfolding dial_arguments
  dial_arguments-Harmless [] w = refl
  dial_arguments-Harmless (network ∷ []) w = refl
  dial_arguments-Harmless (network ∷ addr ∷ message) (log, s) =
      elim (Bool-cases
        (not (bytes_eq network (codes "unix")) && not (bytes_eq network (codes "tcp")))) [
          | inl t ↦ rw t refl
          | inr f ↦ rw f (dialled-changes network addr message (m.dial network addr s).0 _ log)
        ]

  id_command-Harmless : Harmless (id_command m)
  unfolding id_command
  id_command-Harmless = with_args-Harmless 0 0 _ (λ rest w. unfold identity_check in refl)

  status_command-Harmless : Harmless (status_command m)
  unfolding status_command
  status_command-Harmless = with_args-Harmless 0 0 _ (λ rest w. unfold status_check in refl)

  pids_command-Harmless : Harmless (pids_command m)
  unfolding pids_command
  pids_command-Harmless = with_args-Harmless 0 0 _ (λ rest w. unfold pids_check in refl)

  interfaces_command-Harmless : Harmless (interfaces_command m)
  unfolding interfaces_command
  interfaces_command-Harmless = with_args-Harmless 0 0 _ (λ rest w. unfold interfaces_check in refl)

  stat_command-Harmless : Harmless (stat_command m)
  unfolding stat_command
  stat_command-Harmless = with_args-Harmless 1 1 _ (λ rest w. unfold stat_check in refl)

  cgroup_command-Harmless : Harmless (cgroup_command m)
  unfolding cgroup_command
  cgroup_command-Harmless =
      with_args-Harmless 0 0 _ (λ rest w. unfold cgroup_check limit_check in_turn in refl)

  dial_command-Harmless : Harmless (dial_command m)
  unfolding dial_command
  dial_command-Harmless = with_args-Harmless 2 3 (dial_arguments m) dial_arguments-Harmless

  command_table-Guarded :
      (others : Functions (World S)) (a : Bytes)
      → contains serving_commands a ≡ false
      → All (Guarded a) (command_table (probe_functions m others))
  unfolding command_table probe_functions
  command_table-Guarded others a h =
      let (echo, (count, (get, (forward, (sleep, none_else))))) = not_any_of a serving_commands h in
      inr (inr id_command-Harmless)
      ▸ inr (inr status_command-Harmless)
      ▸ inr (inr pids_command-Harmless)
      ▸ inr (inr interfaces_command-Harmless)
      ▸ inl refl
      ▸ inl refl
      ▸ inl refl
      ▸ inl refl
      ▸ inl refl
      ▸ inl refl
      ▸ inr (inr stat_command-Harmless)
      ▸ inl refl
      ▸ inl refl
      ▸ inl refl
      ▸ inr (inr cgroup_command-Harmless)
      ▸ inl refl
      ▸ inr (inr dial_command-Harmless)
      ▸ inr (inl echo)
      ▸ inr (inl count)
      ▸ inr (inl get)
      ▸ inr (inl forward)
      ▸ inr (inl sleep)
      ▸ inl refl
      ▸ inl refl
      ▸ inl refl
      ▸ inr (inr (λ args w. unfold noop_command in refl))
      ▸ tt

  -- Without the marker, a run of the probe changes nothing of the machine, whatever the machine answers:
  -- no identity, owner, mode, name, mount, namespace, keyring, memory or file is changed and no child is
  -- started. The names excepted are those of the five commands that serve or wait.
  pub guard_lem :
      (others : Functions (World S)) (marker a : Bytes) (args : List Bytes) (w : World S)
      → bytes_eq marker (codes "1") ≡ false
      → contains serving_commands a ≡ false
      → changes (run (command_table (probe_functions m others)) marker (a ∷ args) w).world.0
        ≡ changes w.0
  unfolding run
  guard_lem others marker a args w h g =
      elim (Bool-cases
        (bytes_eq a (codes "help") || (bytes_eq a (codes "-h") || bytes_eq a (codes "--help")))) [
          | inl t ↦ rw t refl
          | inr f ↦ rw f (
              run_named-Guarded (command_table (probe_functions m others)) marker a args w h
                (command_table-Guarded others a g))
        ]

-- ===== src/Probe/Exits.antt =====
-- The exit status of the probe, and its guard.
use systems_trinkets.Probe.{Command, refusing, Execution, denied_count}
use systems_trinkets.Common.{
  ◌≡◌, ◌≢◌, ◌⊎◌, true, false, Option, none, some, List, [], ◌∷◌, if◌then◌else◌, Bytes, bytes_eq,
}

module _ {W : Type 0} where
  -- The first command of that name.
  abbrev pub command_named : List (Command W) → Bytes → Option (Command W)
  command_named [] name = none
  command_named (c ∷ table) name = if bytes_eq c.name name then some c else command_named table name

  -- The reading of the exit status in the documentation, for the command that was run, if there is one: 0 when
  -- no line is denied, or in a survey; 1 when a line is denied, and not in a survey; 2 with a notice; 3 when a
  -- command that changes the machine was refused, before it printed a line.
  abbrev pub StatusMeans : Option (Command W) → Execution W → Type 0
  StatusMeans chosen x =
      ((x.status ≡ 0)
        × ((denied_count x.lines ≡ 0) ⊎ ((c : Command W) × (chosen ≡ some c) × (c.survey ≡ true))))
      ⊎ ((x.status ≡ 1)
          × (denied_count x.lines ≢ 0)
          × ((c : Command W) × (chosen ≡ some c) × (c.survey ≡ false)))
      ⊎ ((x.status ≡ 2) × (x.notices ≢ []))
      ⊎ ((x.status ≡ 3)
          × (x.lines ≡ [])
          × ((c : Command W) × (chosen ≡ some c)
              × (c.mutates ≡ true)
              × (x.notices ≡ refusing c.name ∷ [])))

  -- The command that the first argument names.
  abbrev pub chosen_by : List (Command W) → List Bytes → Option (Command W)
  chosen_by table [] = none
  chosen_by table (a ∷ args) = command_named table a

  -- A command that changes the machine, with its function taken out.
  abbrev pub disarm : Command W → Command W
  disarm c = record c { fn = if c.mutates then (λ args w. (([], none), w)) else c.fn }

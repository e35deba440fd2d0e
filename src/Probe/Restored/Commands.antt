-- ===== src/Probe/Restored/Commands.antt =====
-- The commands as a whole: what they leave open.
use systems_trinkets.Common.{List, Result, ok, err, Bytes}
use systems_trinkets.Probe.{Usage, Outcome}
use systems_trinkets.Probe.Arguments.{parse_flags}
use systems_trinkets.Probe.Checks.{with_args, write_command, mount_command, battery_command}
use systems_trinkets.Probe.Machine.{Machine, World}
use systems_trinkets.Probe.Restored.Things.{Restored, Restored-refl}
use systems_trinkets.Probe.Restored.Survey.{
  Undoes, write_check-Restored, mount_check-Restored, battery_check-Restored,
}

module _ {S : Type 0} (m : Machine S) where
  with_args-Restored :
      (r : Result Usage (List Bytes)) (f : List Bytes → World S → Outcome (World S)) (w : World S)
      → ((rest : List Bytes) → Restored (f rest w).1.0 w.0)
      → Restored (with_args m r f w).1.0 w.0
  unfolding with_args
  with_args-Restored (err u) f w h = Restored-refl w.0
  with_args-Restored (ok rest) f w h = h rest

  -- Where removing a file and taking down a mount succeed, the commands that create a file, mount or
  -- survey leave no temporary file and no mount, whatever else fails.
  pub undone_lem :
      (undo : Undoes m) (args : List Bytes) (w : World S)
      → Restored (write_command m args w).1.0 w.0
        × Restored (mount_command m args w).1.0 w.0
        × Restored (battery_command m args w).1.0 w.0
  unfolding write_command mount_command battery_command
  undone_lem undo args w = (
    with_args-Restored (parse_flags 1 1 args) _ w (λ rest. write_check-Restored m undo _ _ w),
    with_args-Restored (parse_flags 0 0 args) _ w (λ rest. mount_check-Restored m undo w),
    with_args-Restored (parse_flags 0 0 args) _ w (λ rest. battery_check-Restored m undo w),
  )

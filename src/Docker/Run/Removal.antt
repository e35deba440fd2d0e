-- ===== src/Docker/Run/Removal.antt =====
-- The deferred removal of `Run` (run.go), and the error of a removal that the engine refused.
use systems_trinkets.Common.{
  ◌≡◌, refl, ◌≢◌, false, List, [], ◌∷◌, Result, ok, err, Bytes, Mem, Mem-append_right, here,
}
use systems_trinkets.Docker.Run.{
  Container, Outcome, is_gone, container_gone, removed, remove_container, removed_at_last,
}
use systems_trinkets.Docker.Client.{Event, Item, removing, Client, Failure, failed, World}

not_gone : (r : Result Bytes (List Item)) → r ≢ ok [] → is_gone r ≡ false
not_gone (ok []) ne = absurd (ne refl)
not_gone (ok (i ∷ items)) ne = refl
not_gone (err e) ne = refl

module _ {S : Type 0} (cli : Client S) where
  -- The operation ended with a call for the removal of the container. When the engine answered that call
  -- with an error and did not then list the container as gone, the error is among those reported.
  abbrev pub RemovedAtLast : Container → (Outcome × List Failure) × World S → Type 0
  RemovedAtLast c ((res, es), w) =
      (log : List Event) × (s : S) × (w ≡ (remove_container cli c (log, s)).1)
      × (let (r, s') = cli.container_remove c.id s in
          (e : Bytes)
          → r ≡ err e
          → (cli.container_with_id c.id s').0 ≢ ok []
          → Mem (failed removing c.name e) es)

  remove_container-fails :
      (c : Container) (log : List Event) (s : S) (e : Bytes)
      → (cli.container_remove c.id s).0 ≡ err e
      → (cli.container_with_id c.id (cli.container_remove c.id s).1).0 ≢ ok []
      → (remove_container cli c (log, s)).0 ≡ err (failed removing c.name e ∷ [])
  unfolding remove_container removed container_gone
  remove_container-fails c log s e h ne = rw h (rw (not_gone (cli.container_with_id c.id _).0 ne))

  pub removed_at_last-RemovedAtLast :
      (c : Container) (ran : (Outcome × List Failure) × World S)
      → RemovedAtLast c (removed_at_last cli c ran)
  unfolding removed_at_last
  removed_at_last-RemovedAtLast c ((res, es), (log, s)) = (
    log,
    s,
    refl,
    λ e h ne.
        rw (remove_container-fails c log s e h ne)
          (Mem-append_right es (failed removing c.name e ∷ []) (here refl)),
  )

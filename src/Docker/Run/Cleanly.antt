-- ===== src/Docker/Run/Cleanly.antt =====
-- What the calls of run.go leave without a call for its removal, and the error of a removal.
use systems_trinkets.Docker.Engine.{Json, Request, InspectResponse}
use systems_trinkets.Docker.Spec.{Spec, SpecError, translate}
use systems_trinkets.Docker.Invariants.{check_config, check_observed, Mismatch, Violation}
use systems_trinkets.Docker.Leaks.{
  container_key, Key, leaked, Quiet, Below, Below-refl, Below-trans, Below-Quiet, Below-remove,
  container_undone,
}
use systems_trinkets.Docker.Run.{
  Container, removed, remove_container, inspect_container, created, create_guarded,
  create_requested, create_call, verdict, observe, start_call, copied, logs_call, container_logs,
  create_checked, create_container, start_container, register_wait, read_oom, read_outcome,
  after_exit, after_start, removed_at_last, after_create, run_container,
}
use systems_trinkets.Docker.Client.{
  Event, create, wait_exit, remove, Waited, exited, wait_error, context_done, Output, Client,
  Failure, World, Op, after_result, ◌>>=◌, call, undo_on_error, fail_after,
}
use systems_trinkets.Common.{
  ◌≡◌, refl, sym, ap, ◌∙◌, subst, inl, inr, false, Option, none, some, List, [], ◌∷◌, Bool-cases,
  Result, ok, err, ℤ, Bytes, is_empty,
}
use systems_trinkets.Docker.Run.Removal.{RemovedAtLast, removed_at_last-RemovedAtLast}

module _ {S : Type 0} (cli : Client S) where
  -- A removal, however it ends.
  remove_container-Quiet :
      (c : Container) (w : World S) → Quiet (remove c.id ∷ w.0) (remove_container cli c w).1.0
  unfolding remove_container leaked
  remove_container-Quiet c (log, s) later = listed (cli.container_remove c.id s).0 _
    where
      listed :
          (r : Result Bytes (Unit {0})) (s : S)
          → leaked later (removed cli c (r, (remove c.id ∷ log, s))).1.0
            ≡ leaked (container_key c.id ∷ later) log
      listed (ok u) s = refl
      listed (err e) s = refl

  -- Removing a container after its creation and what changed nothing else.
  pub remove_container-Below :
      (c : Container) (w : World S) (log : List Event)
      → Below w.0 (create c.request (some c.id) ∷ log)
      → Below (remove_container cli c w).1.0 log
  remove_container-Below c w log h =
      Below-trans (Below-Quiet _ _ (remove_container-Quiet c w))
        (Below-trans (Below-remove c.id h) (container_undone c.id c.request log))

  inspect_container-Quiet :
      (c : Container) (w : World S) → Quiet w.0 (inspect_container cli c w).1.0
  unfolding inspect_container call leaked
  inspect_container-Quiet c (log, s) later = refl

  after_result-Quiet :
      {A B : Type 0} (f : A → Op S B) (r : Result (List Failure) A) (w : World S)
      → ((a : A) (w : World S) → Quiet w.0 (f a w).1.0)
      → Quiet w.0 (after_result f (r, w)).1.0
  unfolding after_result
  after_result-Quiet f (ok a) w h = h a w
  after_result-Quiet f (err e) w h = λ later. refl

  >>=-Quiet :
      {A B : Type 0} (m : Op S A) (f : A → Op S B)
      → ((w : World S) → Quiet w.0 (m w).1.0)
      → ((a : A) (w : World S) → Quiet w.0 (f a w).1.0)
      → (w : World S) → Quiet w.0 ((m >>= f) w).1.0
  unfolding ◌>>=◌
  >>=-Quiet m f hm hf w later = after_result-Quiet f (m w).0 (m w).1 hf later ∙ hm w later

  observe-Quiet : (c : Container) (w : World S) → Quiet w.0 (observe cli c w).1.0
  unfolding observe
  observe-Quiet c =
      >>=-Quiet (inspect_container cli c) _ (inspect_container-Quiet c)
        (λ got w later. passed w later (check_observed got c.request))
    where
      passed :
          (w : World S) (later : List Key) (bad : List Mismatch)
          → leaked later (verdict cli c bad w).1.0 ≡ leaked later w.0
      passed w later [] = unfold verdict in refl
      passed w later (b ∷ bs) = unfold verdict in refl

  logs_call-Quiet : (c : Container) (w : World S) → Quiet w.0 (logs_call cli c w).1.0
  unfolding logs_call call leaked
  logs_call-Quiet c (log, s) later = refl

  pub container_logs-Quiet : (c : Container) (w : World S) → Quiet w.0 (container_logs cli c w).1.0
  unfolding container_logs
  container_logs-Quiet c =
      >>=-Quiet (logs_call cli c) _ (logs_call-Quiet c)
        (λ out w later. text out out.copy_error w later)
    where
      text :
          (out : Output) (e : Option Bytes) (w : World S) (later : List Key)
          → leaked later (copied cli c out e w).1.0 ≡ leaked later w.0
      text out none w later = unfold copied in refl
      text out (some e) w later = unfold copied in refl

  -- The end of a run that started: the logs and the record of the exit.
  read_outcome-Quiet :
      (c : Container) (code : ℤ) (r : Result (List Failure) (Bytes × Bytes)) (w : World S)
      → Quiet w.0 (read_outcome cli c code (r, w)).1.0
  unfolding read_outcome
  read_outcome-Quiet c code (err es) w later = refl
  read_outcome-Quiet c code (ok (so, se)) w later =
      oom (inspect_container cli c w).0 ∙ inspect_container-Quiet c w later
    where
      oom :
          (r : Result (List Failure) InspectResponse)
          → leaked later
              (read_oom cli
                (record { exit_code = code; stdout = so; stderr = se; oom_killed = false })
                (r, (inspect_container cli c w).1)).1.0
            ≡ leaked later (inspect_container cli c w).1.0
      oom (ok insp) = unfold read_oom in refl
      oom (err es) = unfold read_oom in refl

  after_exit-Quiet :
      (c : Container) (r : Waited) (w : World S) → Quiet w.0 (after_exit cli c r w).1.0
  unfolding after_exit
  after_exit-Quiet c (wait_error e) w later = refl
  after_exit-Quiet c (context_done e) w later = refl
  after_exit-Quiet c (exited code message) w later = elim (Bool-cases (is_empty message)) [
    | inl h ↦ rw h (
        read_outcome-Quiet c code (container_logs cli c w).0 (container_logs cli c w).1 later
        ∙ container_logs-Quiet c w later)
    | inr h ↦ rw h refl
  ]

  after_start-Quiet :
      (c : Container) (r : Result (List Failure) (Unit {0})) (w : World S)
      → Quiet w.0 (after_start cli c (r, w)).1.0
  unfolding after_start
  after_start-Quiet c (err es) w later = refl
  after_start-Quiet c (ok u) (log, s) later =
      after_exit-Quiet c (cli.container_wait_exit c.id s).0 (log, _) later

  start_call-Quiet : (c : Container) (w : World S) → Quiet w.0 (start_call cli c w).1.0
  unfolding start_call call leaked
  start_call-Quiet c (log, s) later = refl

  register_wait-Quiet : (c : Container) (w : World S) → Quiet w.0 (register_wait cli c w).0
  unfolding register_wait leaked
  register_wait-Quiet c (log, s) later = refl

  -- What an operation left beside what was there before: the container that it gave, or nothing.
  abbrev pub Left : List Event → Result (List Failure) Container × World S → Type 0
  Left log (ok c, w) =
      (later : List Key) → leaked later w.0 ≡ leaked later (create c.request (some c.id) ∷ log)
  Left log (err es, w) = Below w.0 log

  undo_on_error-Left :
      (log : List Event) (c : Container) (m : Op S (Unit {0})) (w : World S)
      → ((w : World S) → Quiet w.0 (m w).1.0)
      → Left log (ok c, w)
      → Left log (undo_on_error m (remove_container cli c) (λ u. c) w)
  undo_on_error-Left log c m w quiet h = unfold undo_on_error in undone (m w).0 (m w).1 (quiet w)
    where
      undone :
          (r : Result (List Failure) (Unit {0})) (w' : World S)
          → Quiet w.0 w'.0
          → Left log
              (elim r [ ok a ↦ (ok c, w') | err es ↦ fail_after es (remove_container cli c) w' ])
      undone (ok u) w' q = λ later. q later ∙ h later
      undone (err es) w' q =
          unfold fail_after in
          remove_container-Below c w' log (Below-Quiet _ _ (λ later. q later ∙ h later))

  module _ (json : Json) (socket : Bytes) where
    create_checked-Left :
        (req : Request) (log : List Event) (s : S)
        → Left log (create_checked cli json socket req (log, s))
    unfolding create_checked create_call ◌>>=◌
    create_checked-Left req log s = made (cli.container_create req s).0 _
      where
        made :
            (r : Result Bytes Bytes) (s : S)
            → Left log (
                after_result
                  (λ c. undo_on_error (observe cli c) (remove_container cli c) (λ u. c))
                  (created cli req r (log, s)))
        made (ok id) s =
            unfold created after_result in
            undo_on_error-Left log (record { id = id; name = req.name; request = req })
              (observe cli _) _ (observe-Quiet _) (λ later. refl)
        made (err e) s = unfold created after_result leaked in Below-Quiet log _ (λ later. refl)

    create_container-Left :
        (spec : Spec) (log : List Event) (s : S)
        → Left log (create_container cli json socket spec (log, s))
    unfolding create_container
    create_container-Left spec log s =
        requested (translate json spec socket (cli.name_suffix s).0) _
      where
        guarded :
            (req : Request) (bad : List Violation) (s : S)
            → Left log (create_guarded cli json socket req bad (log, s))
        guarded req [] s = unfold create_guarded in create_checked-Left req log s
        guarded req (b ∷ bs) s = unfold create_guarded in Below-refl log

        requested :
            (r : Result (List SpecError) Request) (s : S)
            → Left log (create_requested cli json socket r (log, s))
        requested (err es) s = unfold create_requested in Below-refl log
        requested (ok req) s =
            unfold create_requested in guarded req (check_config json req socket) s

    pub start_container-Left :
        (spec : Spec) (log : List Event) (s : S)
        → Left log (start_container cli json socket spec (log, s))
    unfolding start_container ◌>>=◌
    start_container-Left spec log s =
        started (create_container cli json socket spec (log, s)) (create_container-Left spec log s)
      where
        started :
            (r : Result (List Failure) Container × World S)
            → Left log r
            → Left log (
                after_result
                  (λ c. undo_on_error (start_call cli c) (remove_container cli c) (λ u. c))
                  r)
        started (ok c, w) h =
            unfold after_result in
            undo_on_error-Left log c (start_call cli c) w (start_call-Quiet c) h
        started (err es, w) h = unfold after_result in h

    run_container-removed :
        (spec : Spec) (log : List Event) (s : S) (c : Container) (w : World S)
        → create_container cli json socket spec (log, s) ≡ (ok c, w)
        → run_container cli json socket spec (log, s)
          ≡ removed_at_last cli c (after_start cli c (start_call cli c (register_wait cli c w)))
    unfolding run_container
    run_container-removed spec log s c w h = ap (after_create cli) h ∙ (unfold after_create in refl)

    -- `Run` calls for the removal of each container that it created, after its creation and whatever
    -- failed in between. `Create` and `Start` call for no removal of a container that they return, and
    -- for that of each other that they created. Once `Create` has given `Run` a container, the call for
    -- its removal is the end of the run, and when the engine answers it with an error and does not then
    -- list the container as gone, that error is among those `Run` returns.
    pub run_container_lem :
        (spec : Spec) (log : List Event) (s : S)
        → Below (run_container cli json socket spec (log, s)).1.0 log
          × Left log (create_container cli json socket spec (log, s))
          × Left log (start_container cli json socket spec (log, s))
          × ((c : Container) (w : World S)
              → create_container cli json socket spec (log, s) ≡ (ok c, w)
              → RemovedAtLast cli c (run_container cli json socket spec (log, s)))
    run_container_lem spec log s = (
      unfold run_container in
          ran (create_container cli json socket spec (log, s)) (create_container-Left spec log s),
      create_container-Left spec log s,
      start_container-Left spec log s,
      λ c w h.
          subst (RemovedAtLast cli c) (sym (run_container-removed spec log s c w h))
            (removed_at_last-RemovedAtLast cli c _),
    )
      where
        ran :
            (r : Result (List Failure) Container × World S)
            → Left log r
            → Below (after_create cli r).1.0 log
        ran (err es, w) h = unfold after_create in h
        ran (ok c, (log', s)) h =
            unfold after_create register_wait removed_at_last in
            remove_container-Below c _ log (
              Below-Quiet _ _ λ later.
                after_start-Quiet c _ _ later
                ∙ start_call-Quiet c (wait_exit c.id ∷ log', s) later
                ∙ register_wait-Quiet c (log', s) later
                ∙ h later)

-- ===== src/Docker/PeerCheck/Failing.antt =====
-- An operation that fails returns at least one error.
use systems_trinkets.Common.{
  inl, inr, not, ◌||◌, Option, none, some, List, [], ◌∷◌, Bool-cases, Result, ok, err, ℤ, is_zero,
  Bytes, codes,
}
use systems_trinkets.Docker.Names.{StringMap, labels, valid_id, lesson_re, container_name}
use systems_trinkets.Docker.Engine.{Request, Json}
use systems_trinkets.Docker.Spec.{Spec, SpecError, translate}
use systems_trinkets.Docker.Run.{
  observe, verdict, inspect_container, created, create_call, create_checked, create_guarded,
  create_requested, create_container, start_call, Outcome, Container, logs_call, copied,
  container_logs, run_container, start_container,
}
use systems_trinkets.Docker.Cleanup.{volume_made, named_volume, volume_creation}
use systems_trinkets.Docker.Topology.{init_spec, prepared, prepare_volume, socket_volume}
use systems_trinkets.Docker.Client.{
  starting, inspecting, Stage, undo_on_error, fetching_logs, Output, Client, Failure, World, Op,
  after_result, ◌>>=◌, call, fail_after, reported,
}
use systems_trinkets.Docker.Invariants.{check_observed, check_config, Mismatch, Violation}

-- A failure has an error.
abbrev pub HasError : {A : Type 0} → Result (List Failure) A → Type 0
HasError (ok a) = Unit
HasError (err []) = ⊥
HasError (err (e ∷ es)) = Unit

reported-HasError :
    {A : Type 0} (stage : Stage) (name : Bytes) (r : Result Bytes A)
    → HasError (reported stage name r)
unfolding reported
reported-HasError stage name (ok a) = tt
reported-HasError stage name (err e) = tt

module _ {S : Type 0} where
  after_result-HasError :
      {A B : Type 0} (f : A → Op S B) (r : Result (List Failure) A × World S)
      → HasError r.0
      → ((a : A) (w : World S) → HasError (f a w).0)
      → HasError (after_result f r).0
  unfolding after_result
  after_result-HasError f (ok a, w) h k = k a w
  after_result-HasError f (err [], w) h k = absurd h
  after_result-HasError f (err (e ∷ es), w) h k = tt

  undo_on_error-HasError :
      {A B : Type 0} (m : Op S A) (cleanup : Op S (Unit {0})) (f : A → B) (w : World S)
      → HasError (m w).0
      → HasError (undo_on_error m cleanup f w).0
  unfolding undo_on_error fail_after
  undo_on_error-HasError {A = A} {B = B} m cleanup f w h = go (m w).0 (m w).1 h
    where
      go :
          (r : Result (List Failure) A) (w' : World S)
          → HasError r
          → let end : Result (List Failure) B × World S = elim r [
            | ok a ↦ (ok (f a), w')
            | err es ↦ fail_after es cleanup w'
          ] in
            HasError end.0
      go (ok a) w' h = tt
      go (err []) w' h = absurd h
      go (err (e ∷ es)) w' h = tt

module _ {S : Type 0} (cli : Client S) where
  pub container_logs-HasError : (c : Container) (w : World S) → HasError (container_logs cli c w).0
  unfolding container_logs ◌>>=◌
  container_logs-HasError c w =
      after_result-HasError (λ out. copied cli c out out.copy_error) (logs_call cli c w)
        (unfold logs_call call in
          reported-HasError fetching_logs c.name (cli.container_logs c.id w.1).0)
        (λ out w. text out out.copy_error w)
    where
      text : (out : Output) (e : Option Bytes) (w : World S) → HasError (copied cli c out e w).0
      text out none w = unfold copied in tt
      text out (some e) w = unfold copied in tt

  observe-HasError : (c : Container) (w : World S) → HasError (observe cli c w).0
  unfolding observe ◌>>=◌
  observe-HasError c w =
      after_result-HasError (λ got. verdict cli c (check_observed got c.request))
        (inspect_container cli c w)
        (unfold inspect_container call in
          reported-HasError inspecting c.name (cli.container_inspect c.id w.1).0)
        (λ got w. judged (check_observed got c.request) w)
    where
      judged : (bad : List Mismatch) (w : World S) → HasError (verdict cli c bad w).0
      judged [] w = unfold verdict in tt
      judged (b ∷ bs) w = unfold verdict in tt

  module _ (json : Json) (socket : Bytes) where
    create_container-HasError :
        (spec : Spec) (w : World S) → HasError (create_container cli json socket spec w).0
    unfolding create_container
    create_container-HasError spec (log, s) =
        requested (translate json spec socket (cli.name_suffix s).0) _
      where
        made :
            (req : Request) (r : Result Bytes Bytes) (w : World S)
            → HasError (created cli req r w).0
        made req (ok id) w = unfold created in tt
        made req (err e) w = unfold created in tt

        guarded :
            (req : Request) (bad : List Violation) (w : World S)
            → HasError (create_guarded cli json socket req bad w).0
        guarded req [] w =
            unfold create_guarded create_checked create_call ◌>>=◌ in
            after_result-HasError _ _ (made req (cli.container_create req w.1).0 (w.0, _))
              (λ c w. undo_on_error-HasError (observe cli c) _ _ w (observe-HasError c w))
        guarded req (b ∷ bs) w = unfold create_guarded in tt

        requested :
            (r : Result (List SpecError) Request) (w : World S)
            → HasError (create_requested cli json socket r w).0
        requested (err es) w = unfold create_requested in tt
        requested (ok req) w =
            unfold create_requested in guarded req (check_config json req socket) w

    pub start_container-HasError :
        (spec : Spec) (w : World S) → HasError (start_container cli json socket spec w).0
    unfolding start_container ◌>>=◌
    start_container-HasError spec w =
        after_result-HasError _ _ (create_container-HasError spec w) (λ c w.
          undo_on_error-HasError (start_call cli c) _ _ w (
            unfold start_call call in
            reported-HasError starting c.name (cli.container_start c.id w.1).0))

    pub socket_volume-HasError :
        (lesson image : Bytes) (broker_uid socket_gid : ℤ) (w : World S)
        → HasError (socket_volume cli json socket lesson image broker_uid socket_gid w).0
    unfolding socket_volume ◌>>=◌
    socket_volume-HasError lesson image broker_uid socket_gid w =
        elim (Bool-cases (not (valid_id broker_uid) || not (valid_id socket_gid))) [
          | inl t ↦ rw t tt
          | inr f ↦ rw f (
              after_result-HasError _ _ (volume lesson (codes "sock") w) (λ name w.
                unfold prepare_volume in
                ready name (
                  run_container cli json socket (init_spec lesson image broker_uid socket_gid name)
                    w)))
        ]
      where
        made :
            (name : Bytes) (l : StringMap) (r : Result Bytes (Unit {0})) (w : World S)
            → HasError (volume_made cli name l r w).0
        made name l (ok u) w = unfold volume_made in tt
        made name l (err e) w = unfold volume_made in tt

        volume :
            (lesson role : Bytes) (w : World S) → HasError (volume_creation cli lesson role w).0
        volume lesson role (log, s) =
            unfold volume_creation named_volume in
            elim (Bool-cases (lesson_re lesson)) [
              | inr f ↦ rw f tt
              | inl t ↦ rw t (elim (Bool-cases (lesson_re role)) [
                | inr f ↦ rw f tt
                | inl u ↦ rw u (
                    made (container_name lesson role (cli.name_suffix s).0) (labels lesson)
                      (cli.volume_create (container_name lesson role (cli.name_suffix s).0)
                        (labels lesson) (cli.name_suffix s).1).0
                      (log, _))
              ])
            ]

        ready :
            (name : Bytes) (r : (Outcome × List Failure) × World S)
            → HasError (prepared cli json socket name r).0
        ready name ((res, []), w) =
            unfold prepared fail_after in
            elim (Bool-cases (is_zero res.exit_code)) [ inl z ↦ rw z tt | inr z ↦ rw z tt ]
        ready name ((res, e ∷ es), w) = unfold prepared fail_after in tt

-- ===== src/Docker/Client.antt =====
-- The Docker Engine as the harness calls it, and the calls it makes in order: each method of
-- `client.Client` that internal/lab/docker uses is a reply and a next state of an engine that the
-- development does not describe, and a run keeps the events of the calls, the last one first.
use systems_trinkets.Docker.Engine.{Request, InspectResponse}
use systems_trinkets.Docker.Names.{StringMap}
use systems_trinkets.Docker.Spec.{SpecError}
use systems_trinkets.Docker.Invariants.{Violation, Mismatch}
use systems_trinkets.Docker.Peers.{PeerViolation}
use systems_trinkets.Docker.Image.{ContextFile, ImageError, TarError}
use systems_trinkets.Docker.BuildStream.{StreamError}
use systems_trinkets.Common.{
  ℕ, ◌≡◌, refl, Bool, Option, List, [], ◌∷◌, ◌++◌, Result, ok, err, ℤ, Bytes,
}

-- One call. A creation of a container keeps the ID that the engine gave, if it gave one, and one of a
-- volume whether it succeeded.
pub data Event : Type 0 where
  create : Request → Option Bytes → Event
  inspect start wait_exit wait_stopped logs list_id : Bytes → Event
  remove : Bytes → Event
  stop : Bytes → ℕ → Event
  exec_create : Bytes → List Bytes → Event
  exec_attach exec_inspect : Bytes → Event
  list_containers list_volumes list_networks : Bytes → Event
  create_volume : Bytes → StringMap → Bool → Event
  remove_volume remove_network : Bytes → Event
  build_image remove_image inspect_image : Bytes → Event

-- An item of a list call: its names (one, except for a container) with its ID, and its labels.
pub record Item : Type 0 where
  pub names : List Bytes
  pub id : Bytes
  pub labels : StringMap

-- What a `select` on a wait got: an exit with its status and the error text that the engine put in
-- it, the wait's own error, or the end of the context.
pub data Waited : Type 0 where
  exited : ℤ → Bytes → Waited
  wait_error : Bytes → Waited
  context_done : Bytes → Waited

pub record ExecInspect : Type 0 where
  pub running : Bool
  pub exit_code : ℤ

-- The output that `stdcopy.StdCopy` read, with its error.
pub record Output : Type 0 where
  pub stdout : Bytes
  pub stderr : Bytes
  pub copy_error : Option Bytes

-- The engine over a state `S`, which holds all that a reply can depend on: the engine's objects, the
-- context and the random source.
pub record Client (S : Type 0) : Type 0 where
  pub name_suffix : S → Bytes × S
  pub container_create : Request → S → Result Bytes Bytes × S
  pub container_inspect : Bytes → S → Result Bytes InspectResponse × S
  pub container_start : Bytes → S → Result Bytes (Unit {0}) × S
  pub container_wait_exit : Bytes → S → Waited × S
  pub container_wait_stopped : Bytes → S → Waited × S
  pub container_logs : Bytes → S → Result Bytes Output × S
  pub container_stop : Bytes → ℕ → S → Result Bytes (Unit {0}) × S
  pub container_remove : Bytes → S → Result Bytes (Unit {0}) × S
  pub container_with_id : Bytes → S → Result Bytes (List Item) × S
  pub new_exec : Bytes → List Bytes → S → Result Bytes Bytes × S
  pub attach_exec : Bytes → S → Result Bytes Output × S
  pub inspect_exec : Bytes → S → Result Bytes ExecInspect × S
  pub containers : Bytes → S → Result Bytes (List Item) × S
  pub volumes : Bytes → S → Result Bytes (List Item) × S
  pub networks : Bytes → S → Result Bytes (List Item) × S
  pub volume_create : Bytes → StringMap → S → Result Bytes (Unit {0}) × S
  pub volume_remove : Bytes → S → Result Bytes (Unit {0}) × S
  pub network_remove : Bytes → S → Result Bytes (Unit {0}) × S
  -- `cli.Info`: the engine's architecture
  pub architecture : S → Result Bytes Bytes × S
  -- The Go toolchain on a package for an architecture: the executable.
  pub compile : Bytes → Bytes → S → Result Bytes Bytes × S
  -- `cli.ImageBuild` of a context under a tag with labels: the stream's text, and whether reading it
  -- failed.
  pub image_build : List ContextFile → Bytes → StringMap → S → Result Bytes (Bytes × Bool) × S
  pub image_inspect : Bytes → S → Result Bytes (Unit {0}) × S
  pub image_remove : Bytes → S → Result Bytes (Unit {0}) × S
  -- the state after the pause between two polls
  pub pause : S → S
  -- `ctx.Err()`
  pub context_error : S → Option Bytes
  -- the same for a context that also ends after `lineTimeout`
  pub line_context_error : S → Option Bytes

-- The step that an error names.
pub data Stage : Type 0 where
  creating inspecting starting waiting running fetching_logs stopping removing : Stage
  creating_exec reading_output inspecting_exec : Stage
  listing_containers listing_volumes listing_networks creating_volume removing_volume : Stage
  removing_network sweeping building removing_image : Stage

-- One of the errors that `errors.Join` keeps.
pub data Failure : Type 0 where
  bad_spec : List SpecError → Failure
  refused : Bytes → List Violation → Failure
  mismatched : Bytes → List Mismatch → Failure
  bad_lesson bad_role : Bytes → Failure
  failed : Stage → Bytes → Bytes → Failure
  nonzero_exit : ℤ → Bytes → Failure
  bad_owner : ℤ → ℤ → Failure
  -- WaitLine's: the container's name, the line's, and the context's error
  no_line : Bytes → Bytes → Bytes → Failure
  cannot_listen : Bytes → Bytes → Failure
  bad_identities : Failure
  untrusted : List PeerViolation → Failure
  bad_image : ImageError → Failure
  bad_context : TarError → Failure
  bad_build : Bytes → StreamError → Failure
  image_missing : Bytes → Bytes → Failure
  -- `EngineArch` does not return an error: it panics.
  panicked : Bytes → Failure

abbrev pub World : Type 0 → Type 0
World S = List Event × S

abbrev pub Op : Type 0 → Type 0 → Type 0
Op S A = World S → Result (List Failure) A × World S

abbrev pub failures : {A : Type 0} → Result (List Failure) A → List Failure
failures (ok a) = []
failures (err es) = es

-- The error that a failed call is reported as.
unfoldable pub reported : {A : Type 0} → Stage → Bytes → Result Bytes A → Result (List Failure) A
reported stage name (ok a) = ok a
reported stage name (err e) = err (failed stage name e ∷ [])

module _ {S : Type 0} where
  -- `x, err := m; if err != nil { return err }`, and what follows.
  infixl 5 ◌>>=◌
  unfoldable pub after_result :
      {A B : Type 0}
      → (A → Op S B)
      → Result (List Failure) A × World S
      → Result (List Failure) B × World S
  after_result f (ok a, w) = f a w
  after_result f (err e, w) = (err e, w)

  unfoldable pub ◌>>=◌ : {A B : Type 0} → Op S A → (A → Op S B) → Op S B
  unfolding after_result
  (m >>= f) w = after_result f (m w)

  abbrev pub pure : {A : Type 0} → A → Op S A
  pure a w = (ok a, w)

  abbrev pub fail : {A : Type 0} → List Failure → Op S A
  fail es w = (err es, w)

  -- A call: its event, its reply, and the error that its failure is reported as.
  unfoldable pub call : {A : Type 0} → Event → Stage → Bytes → (S → Result Bytes A × S) → Op S A
  unfolding reported
  call e stage name f (log, s) = let (r, s') = f s in (reported stage name r, (e ∷ log, s'))

  -- `return nil, errors.Join(err, cleanup())`
  unfoldable pub fail_after : {A : Type 0} → List Failure → Op S (Unit {0}) → Op S A
  fail_after es cleanup w = let (q, w') = cleanup w in (err (es ++ failures q), w')

  -- The same where `m` failed, and `m`'s own result where it did not.
  unfoldable pub undo_on_error : {A B : Type 0} → Op S A → Op S (Unit {0}) → (A → B) → Op S B
  unfolding fail_after
  undo_on_error m cleanup f w =
      let (r, w') = m w in elim r [ ok a ↦ (ok (f a), w') | err es ↦ fail_after es cleanup w' ]

  pub >>=-eq-ok :
      {A B : Type 0} (m : Op S A) (f : A → Op S B) (w w″ : World S) (b : B)
      → (m >>= f) w ≡ (ok b, w″)
      → (a : A) × (w' : World S) × (m w ≡ (ok a, w')) × (f a w' ≡ (ok b, w″))
  unfolding ◌>>=◌
  >>=-eq-ok {A = A} {B = B} m f w w″ b h = inv (m w).0 (m w).1 refl h
    where
      inv :
          (r : Result (List Failure) A) (v : World S)
          → m w ≡ (r, v)
          → after_result f (r, v) ≡ (ok b, w″)
          → (a : A) × (w' : World S) × (m w ≡ (ok a, w')) × (f a w' ≡ (ok b, w″))
      inv (ok a) v e h = unfold after_result in (a, v, e, h)
      inv (err es) v e h = unfold after_result in absurd (cc)

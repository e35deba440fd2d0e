-- ===== src/Docker/PeerCheck/FailingBuilds.antt =====
-- A wait for a line, or a build of the probe, that fails returns at least one error.
use systems_trinkets.Common.{
  ℕ, zero, suc, ◌⊎◌, inl, inr, Bool, Option, none, some, List, [], ◌∷◌, Result, ok, err, Bytes,
}
use systems_trinkets.Probeout.{Line, find, parse}
use systems_trinkets.Lab.{arch_to_goarch}
use systems_trinkets.Docker.Names.{labels}
use systems_trinkets.Docker.BuildStream.{StreamJson, StreamError, parse_build_stream}
use systems_trinkets.Docker.Image.{
  FixtureImage, ImageError, ContextFile, TarError, validate, fixture_context_tar,
}
use systems_trinkets.Docker.Run.{Container, container_logs}
use systems_trinkets.Docker.Fixture.{
  BuildEnd, built, not_built, build_panicked, tag_found, stream_read, build_sent, build_context,
  context_made, binary_made, architecture_known, build_fixture, probe_built, build_probe,
  probe_image, probe_tag,
}
use systems_trinkets.Docker.PeerCheck.{wait_step, wait_line}
use systems_trinkets.Docker.Client.{
  bad_image, no_line, Event, build_image, Client, Failure, World, fail_after,
}
use systems_trinkets.Docker.PeerCheck.Waits.{WhenEnded}
use systems_trinkets.Docker.PeerCheck.Failing.{HasError, container_logs-HasError}

module _ {S : Type 0} (cli : Client S) where
  -- What `WaitLine` returns.
  abbrev WaitHasError : (Result (List Failure) Line × World S) ⊎ World S → Type 0
  WaitHasError (inl r) = HasError r.0
  WaitHasError (inr w) = Unit

  wait_step-HasError :
      (c : Container) (name : Bytes) (r : Result (List Failure) (Bytes × Bytes) × World S)
      → HasError r.0
      → WaitHasError (wait_step cli c name r)
  unfolding wait_step
  wait_step-HasError c name (err [], w) h = absurd h
  wait_step-HasError c name (err (e ∷ es), w) h = tt
  wait_step-HasError c name (ok (stdout, stderr), (log, s)) h = found (find (parse stdout) name)
    where
      waited :
          (o : Option Bytes)
          → WaitHasError (elim o [
            | some e ↦ inl (err (no_line c.name name e ∷ []), (log, cli.pause s))
            | none ↦ inr (log, cli.pause s)
          ])
      waited (some e) = tt
      waited none = tt

      found :
          (l : Option Line)
          → WaitHasError (elim l [
            | some l ↦ inl (ok l, (log, s))
            | none ↦ elim (cli.line_context_error (cli.pause s)) [
              | some e ↦ inl (err (no_line c.name name e ∷ []), (log, cli.pause s))
              | none ↦ inr (log, cli.pause s)
            ]
          ])
      found (some l) = tt
      found none = waited (cli.line_context_error (cli.pause s))

  pub wait_line-HasError :
      (n : ℕ) (c : Container) (name : Bytes) (w : World S)
      → WhenEnded (λ r. HasError r.0) (wait_line cli n c name w)
  unfolding wait_line
  wait_line-HasError zero c name w = tt
  wait_line-HasError (suc n) c name w =
      go (wait_step cli c name (container_logs cli c w))
        (wait_step-HasError c name _ (container_logs-HasError cli c w))
        (wait_line-HasError n c name)
    where
      go :
          (r : (Result (List Failure) Line × World S) ⊎ World S)
          → WaitHasError r
          → ((w : World S) → WhenEnded (λ r. HasError r.0) (wait_line cli n c name w))
          → WhenEnded
              (λ r. HasError r.0)
              (elim r [ inl end ↦ some end | inr w' ↦ wait_line cli n c name w' ])
      go (inl end) h rest = h
      go (inr w') h rest = rest w'

module _ {S : Type 0} (cli : Client S) (stream : StreamJson) where
  abbrev BuildHasError : BuildEnd × World S → Type 0
  BuildHasError (not_built [], w) = ⊥
  BuildHasError (_, w) = Unit

  build_context-HasError :
      (files : List ContextFile) (tag lesson : Bytes) (w : World S)
      → BuildHasError (build_context cli stream files tag lesson w)
  unfolding build_context
  build_context-HasError files tag lesson (log, s) =
      sent (cli.image_build files tag (labels lesson) s).0 _
    where
      found :
          (r : Result Bytes (Unit {0})) (s : S) (log : List Event)
          → BuildHasError (tag_found cli stream tag (r, s) log)
      found (ok u) s log = unfold tag_found in tt
      found (err e) s log = unfold tag_found in tt

      streamed :
          (o : Option StreamError) (s : S) (log : List Event)
          → BuildHasError (stream_read cli stream tag o (log, s))
      streamed (some e) s log = unfold stream_read in tt
      streamed none s log = unfold stream_read in found (cli.image_inspect tag s).0 _ log

      sent :
          (r : Result Bytes (Bytes × Bool)) (s : S)
          → BuildHasError (build_sent cli stream tag (r, s) (build_image tag ∷ log))
      sent (err e) s = unfold build_sent in tt
      sent (ok (text, read_error)) s =
          unfold build_sent in streamed (parse_build_stream stream text read_error) s _

  build_fixture-HasError :
      (img : FixtureImage) (w : World S) → BuildHasError (build_fixture cli stream img w)
  unfolding build_fixture
  build_fixture-HasError img (log, s) = validated (validate img)
    where
      contexted :
          (r : Result TarError (List ContextFile)) (s : S)
          → BuildHasError (context_made cli stream img r (log, s))
      contexted (err e) s = unfold context_made in tt
      contexted (ok files) s =
          unfold context_made in build_context-HasError files img.tag img.lesson (log, s)

      compiled :
          (r : Result Bytes Bytes) (s : S) → BuildHasError (binary_made cli stream img (r, s) log)
      compiled (err e) s = unfold binary_made in tt
      compiled (ok binary) s = unfold binary_made in contexted (fixture_context_tar img binary) s

      targeted :
          (o : Option Bytes) (kernel : Bytes) (s : S)
          → BuildHasError (elim o [
            | none ↦ (build_panicked kernel, (log, s))
            | some arch ↦ binary_made cli stream img (cli.compile img.package_path arch s) log
          ])
      targeted none kernel s = tt
      targeted (some arch) kernel s = compiled (cli.compile img.package_path arch s).0 _

      known :
          (r : Result Bytes Bytes) (s : S)
          → BuildHasError (architecture_known cli stream img (r, s) log)
      known (err e) s = unfold architecture_known in tt
      known (ok kernel) s = unfold architecture_known in targeted (arch_to_goarch kernel) kernel s

      validated :
          (o : Option ImageError)
          → BuildHasError (elim o [
            | some e ↦ (not_built (bad_image e ∷ []), (log, s))
            | none ↦ architecture_known cli stream img (cli.architecture s) log
          ])
      validated (some e) = tt
      validated none = known (cli.architecture s).0 _

  pub build_probe-HasError :
      (lesson : Bytes) (w : World S) → HasError (build_probe cli stream lesson w).0
  unfolding build_probe
  build_probe-HasError lesson (log, s) =
      ended (probe_tag lesson (cli.name_suffix s).0)
        (build_fixture cli stream (probe_image lesson (probe_tag lesson (cli.name_suffix s).0))
          (log, _))
        (build_fixture-HasError (probe_image lesson (probe_tag lesson (cli.name_suffix s).0))
          (log, _))
    where
      ended :
          (tag : Bytes) (r : BuildEnd × World S)
          → BuildHasError r
          → HasError (probe_built cli stream tag r).0
      ended tag (built, w) h = unfold probe_built in tt
      ended tag (not_built [], w) h = absurd h
      ended tag (not_built (e ∷ es), w) h = unfold probe_built fail_after in tt
      ended tag (build_panicked e, w) h = unfold probe_built in tt

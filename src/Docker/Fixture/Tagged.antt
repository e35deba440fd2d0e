-- ===== src/Docker/Fixture/Tagged.antt =====
-- What a build leaves without a call for its removal: at most the image of its tag, and none when
-- `buildProbe` fails.
use systems_trinkets.Common.{
  ◌≡◌, refl, Bool, Option, none, some, List, [], ◌∷◌, Result, ok, err, Bytes,
}
use systems_trinkets.Lab.{arch_to_goarch}
use systems_trinkets.Docker.Names.{labels}
use systems_trinkets.Docker.BuildStream.{StreamJson, StreamError, parse_build_stream}
use systems_trinkets.Docker.Image.{
  FixtureImage, ImageError, ContextFile, TarError, validate, fixture_context_tar,
}
use systems_trinkets.Docker.Leaks.{
  Key, leaked, Below, Below-refl, Below-trans, Below-Quiet, Below-remove_image, Below-build,
  image_undone,
}
use systems_trinkets.Docker.Fixture.{
  BuildEnd, built, not_built, build_panicked, tag_found, stream_read, build_sent, build_context,
  context_made, binary_made, architecture_known, build_fixture, still_tagged, image_removed,
  remove_probe, probe_built, build_probe, probe_image, probe_tag,
}
use systems_trinkets.Docker.Client.{
  bad_image, Event, build_image, remove_image, Client, Failure, World, fail_after,
}

module _ {S : Type 0} (cli : Client S) (json : StreamJson) where
  -- A build that panicked sent nothing; any other left at most its image.
  abbrev BuildLeft : Bytes → List Event → BuildEnd × World S → Type 0
  BuildLeft tag log (built, w) = Below w.0 (build_image tag ∷ log)
  BuildLeft tag log (not_built es, w) = Below w.0 (build_image tag ∷ log)
  BuildLeft tag log (build_panicked e, w) = w.0 ≡ log

  build_context-BuildLeft :
      (files : List ContextFile) (tag lesson : Bytes) (log : List Event) (s : S)
      → BuildLeft tag log (build_context cli json files tag lesson (log, s))
  unfolding build_context
  build_context-BuildLeft files tag lesson log s =
      sent (cli.image_build files tag (labels lesson) s).0 _
    where
      found :
          (r : Result Bytes (Unit {0})) (s : S)
          → BuildLeft tag log (tag_found cli json tag (r, s) (build_image tag ∷ log))
      found (ok u) s = unfold tag_found leaked in Below-Quiet _ _ (λ later. refl)
      found (err e) s = unfold tag_found leaked in Below-Quiet _ _ (λ later. refl)

      streamed :
          (o : Option StreamError) (s : S)
          → BuildLeft tag log (stream_read cli json tag o (build_image tag ∷ log, s))
      streamed (some e) s = unfold stream_read in Below-refl _
      streamed none s = unfold stream_read in found (cli.image_inspect tag s).0 _

      sent :
          (r : Result Bytes (Bytes × Bool)) (s : S)
          → BuildLeft tag log (build_sent cli json tag (r, s) (build_image tag ∷ log))
      sent (err e) s = unfold build_sent in Below-refl _
      sent (ok (text, read_error)) s =
          unfold build_sent in streamed (parse_build_stream json text read_error) s

  build_fixture-BuildLeft :
      (img : FixtureImage) (log : List Event) (s : S)
      → BuildLeft img.tag log (build_fixture cli json img (log, s))
  unfolding build_fixture
  build_fixture-BuildLeft img log s = validated (validate img)
    where
      contexted :
          (r : Result TarError (List ContextFile)) (s : S)
          → BuildLeft img.tag log (context_made cli json img r (log, s))
      contexted (err e) s = unfold context_made in Below-build img.tag log
      contexted (ok files) s =
          unfold context_made in build_context-BuildLeft files img.tag img.lesson log s

      compiled :
          (r : Result Bytes Bytes) (s : S)
          → BuildLeft img.tag log (binary_made cli json img (r, s) log)
      compiled (err e) s = unfold binary_made in Below-build img.tag log
      compiled (ok binary) s = unfold binary_made in contexted (fixture_context_tar img binary) s

      targeted :
          (o : Option Bytes) (kernel : Bytes) (s : S)
          → BuildLeft img.tag log (elim o [
            | none ↦ (build_panicked kernel, (log, s))
            | some arch ↦ binary_made cli json img (cli.compile img.package_path arch s) log
          ])
      targeted none kernel s = refl
      targeted (some arch) kernel s = compiled (cli.compile img.package_path arch s).0 _

      known :
          (r : Result Bytes Bytes) (s : S)
          → BuildLeft img.tag log (architecture_known cli json img (r, s) log)
      known (err e) s = unfold architecture_known in refl
      known (ok kernel) s = unfold architecture_known in targeted (arch_to_goarch kernel) kernel s

      validated :
          (o : Option ImageError)
          → BuildLeft img.tag log (elim o [
            | some e ↦ (not_built (bad_image e ∷ []), (log, s))
            | none ↦ architecture_known cli json img (cli.architecture s) log
          ])
      validated (some e) = Below-build img.tag log
      validated none = known (cli.architecture s).0 _

  -- The removal that `buildProbe` returns, after a build and what changed nothing else.
  pub remove_probe-Below :
      (tag : Bytes) (log : List Event) (w : World S)
      → Below w.0 (build_image tag ∷ log)
      → Below (remove_probe cli json tag w).1.0 log
  unfolding remove_probe
  remove_probe-Below tag log (log', s) h =
      Below-trans (Below-Quiet _ _ (λ later. removed (cli.image_remove tag s).0 _ later))
        (Below-trans (Below-remove_image tag h) (image_undone tag log))
    where
      asked :
          (e : Bytes) (r : Result Bytes (Unit {0})) (s : S) (later : List Key)
          → leaked later (still_tagged cli json tag e (r, s) (remove_image tag ∷ log')).1.0
            ≡ leaked later (remove_image tag ∷ log')
      asked e (ok u) s later = unfold still_tagged leaked in refl
      asked e (err f) s later = unfold still_tagged leaked in refl

      removed :
          (r : Result Bytes (Unit {0})) (s : S) (later : List Key)
          → leaked later (image_removed cli json tag (r, s) (remove_image tag ∷ log')).1.0
            ≡ leaked later (remove_image tag ∷ log')
      removed (ok u) s later = unfold image_removed in refl
      removed (err e) s later = unfold image_removed in asked e (cli.image_inspect tag s).0 _ later

  -- What `buildProbe` left: the image that it gave, or nothing.
  abbrev pub ProbeLeft : List Event → Result (List Failure) Bytes × World S → Type 0
  ProbeLeft log (ok tag, w) = Below w.0 (build_image tag ∷ log)
  ProbeLeft log (err es, w) = Below w.0 log

  pub build_probe-ProbeLeft :
      (lesson : Bytes) (log : List Event) (s : S)
      → ProbeLeft log (build_probe cli json lesson (log, s))
  unfolding build_probe
  build_probe-ProbeLeft lesson log s =
      ended (probe_tag lesson (cli.name_suffix s).0)
        (build_fixture cli json (probe_image lesson (probe_tag lesson (cli.name_suffix s).0))
          (log, _))
        (build_fixture-BuildLeft (probe_image lesson (probe_tag lesson (cli.name_suffix s).0)) log
          _)
    where
      ended :
          (tag : Bytes) (r : BuildEnd × World S)
          → BuildLeft tag log r
          → ProbeLeft log (probe_built cli json tag r)
      ended tag (built, w) h = unfold probe_built in h
      ended tag (not_built es, w) h =
          unfold probe_built fail_after in remove_probe-Below tag log w h
      ended tag (build_panicked e, w) h = unfold probe_built in rw h (Below-refl log)

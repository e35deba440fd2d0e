-- ===== src/Docker/Fixture.antt =====
-- Building a fixture image: `BuildFixture` and `buildContext` of internal/lab/docker/image.go, `EngineArch` of
-- docker.go, and `buildProbe` of topology.go with the removal that it returns.
pub mod Tagged
use systems_trinkets.Common.{
  Bool, Option, none, some, List, [], ◌∷◌, ◌++◌, Result, ok, err, Bytes, codes,
}
use systems_trinkets.Lab.{arch_to_goarch}
use systems_trinkets.Docker.Names.{labels}
use systems_trinkets.Docker.Image.{
  FixtureImage, ContextFile, TarError, validate, fixture_context_tar,
}
use systems_trinkets.Docker.BuildStream.{StreamJson, StreamError, parse_build_stream}
use systems_trinkets.Docker.Client.{
  Event, build_image, remove_image, inspect_image, Client, building, removing_image, Failure,
  failed, bad_image, bad_context, bad_build, image_missing, panicked, World, Op, fail_after,
}

-- `ProbePackage`
abbrev pub probe_package : Bytes
probe_package = codes "github.com/nickstrad/systems-trinkets/internal/lab/docker/probe"

-- The image that `buildProbe` describes.
abbrev pub probe_image : Bytes → Bytes → FixtureImage
probe_image lesson tag = record {
  lesson = lesson;
  tag = tag;
  package_path = probe_package;
  user = [];
  dirs = [];
}

-- The tag of a lesson's probe with a random suffix.
abbrev pub probe_tag : Bytes → Bytes → Bytes
probe_tag lesson suffix =
    codes "trinkets-" ++ (lesson ++ (codes "-probe-" ++ (suffix ++ codes ":dev")))

-- The end of a build: an error, or the panic of `EngineArch`, which no deferred call catches.
pub data BuildEnd : Type 0 where
  built : BuildEnd
  not_built : List Failure → BuildEnd
  build_panicked : Bytes → BuildEnd

module _ {S : Type 0} (cli : Client S) (json : StreamJson) where
  -- The daemon is asked for the tag.
  unfoldable pub tag_found : Bytes → Result Bytes (Unit {0}) × S → List Event → BuildEnd × World S
  tag_found tag (ok u, s) log = (built, (inspect_image tag ∷ log, s))
  tag_found tag (err e, s) log =
      (not_built (image_missing tag e ∷ []), (inspect_image tag ∷ log, s))

  unfoldable pub stream_read : Bytes → Option StreamError → World S → BuildEnd × World S
  unfolding tag_found
  stream_read tag (some e) w = (not_built (bad_build tag e ∷ []), w)
  stream_read tag none (log, s) = tag_found tag (cli.image_inspect tag s) log

  unfoldable pub build_sent :
      Bytes → Result Bytes (Bytes × Bool) × S → List Event → BuildEnd × World S
  unfolding stream_read
  build_sent tag (err e, s) log = (not_built (failed building tag e ∷ []), (log, s))
  build_sent tag (ok (text, read_error), s) log =
      stream_read tag (parse_build_stream json text read_error) (log, s)

  -- `buildContext`
  unfoldable pub build_context : List ContextFile → Bytes → Bytes → World S → BuildEnd × World S
  unfolding build_sent
  build_context files tag lesson (log, s) =
      build_sent tag (cli.image_build files tag (labels lesson) s) (build_image tag ∷ log)

  unfoldable pub context_made :
      FixtureImage → Result TarError (List ContextFile) → World S → BuildEnd × World S
  unfolding build_context
  context_made img (err e) w = (not_built (bad_context e ∷ []), w)
  context_made img (ok files) w = build_context files img.tag img.lesson w

  unfoldable pub binary_made :
      FixtureImage → Result Bytes Bytes × S → List Event → BuildEnd × World S
  unfolding context_made
  binary_made img (err e, s) log = (not_built (failed building img.package_path e ∷ []), (log, s))
  binary_made img (ok binary, s) log = context_made img (fixture_context_tar img binary) (log, s)

  -- `EngineArch` on what `Info` gave: an unknown architecture panics too.
  unfoldable pub architecture_known :
      FixtureImage → Result Bytes Bytes × S → List Event → BuildEnd × World S
  unfolding binary_made
  architecture_known img (err e, s) log = (build_panicked e, (log, s))
  architecture_known img (ok kernel, s) log = elim (arch_to_goarch kernel) [
    | none ↦ (build_panicked kernel, (log, s))
    | some arch ↦ binary_made img (cli.compile img.package_path arch s) log
  ]

  -- `BuildFixture`
  unfoldable pub build_fixture : FixtureImage → World S → BuildEnd × World S
  unfolding architecture_known
  build_fixture img (log, s) = elim (validate img) [
    | some e ↦ (not_built (bad_image e ∷ []), (log, s))
    | none ↦ architecture_known img (cli.architecture s) log
  ]

  -- The removal failed: it counts as done where the image is not there.
  unfoldable pub still_tagged :
      Bytes
      → Bytes
      → Result Bytes (Unit {0}) × S
      → List Event
      → Result (List Failure) (Unit {0}) × World S
  still_tagged tag e (err missing, s) log = (ok tt, (inspect_image tag ∷ log, s))
  still_tagged tag e (ok u, s) log =
      (err (failed removing_image tag e ∷ []), (inspect_image tag ∷ log, s))

  unfoldable pub image_removed :
      Bytes → Result Bytes (Unit {0}) × S → List Event → Result (List Failure) (Unit {0}) × World S
  unfolding still_tagged
  image_removed tag (ok u, s) log = (ok tt, (log, s))
  image_removed tag (err e, s) log = still_tagged tag e (cli.image_inspect tag s) log

  -- The function that `buildProbe` returns.
  unfoldable pub remove_probe : Bytes → Op S (Unit {0})
  unfolding image_removed
  remove_probe tag (log, s) = image_removed tag (cli.image_remove tag s) (remove_image tag ∷ log)

  unfoldable pub probe_built : Bytes → BuildEnd × World S → Result (List Failure) Bytes × World S
  unfolding remove_probe
  probe_built tag (built, w) = (ok tag, w)
  probe_built tag (not_built es, w) = fail_after es (remove_probe tag) w
  probe_built tag (build_panicked e, w) = (err (panicked e ∷ []), w)

  -- `buildProbe`: the tag
  unfoldable pub build_probe : Bytes → Op S Bytes
  unfolding probe_built build_fixture
  build_probe lesson (log, s) =
      let (suffix, s') = cli.name_suffix s in
      let tag = probe_tag lesson suffix in
      probe_built tag (build_fixture (probe_image lesson tag) (log, s'))

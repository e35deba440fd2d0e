-- ===== src/Docker/Run/Guarded.antt =====
-- What `Create` sends: nothing for a spec that `Translate` refuses, and else one checked request.
use systems_trinkets.Docker.Invariants.Sent.{CompactKeepsObjects, check_config-translate}
use systems_trinkets.Docker.Engine.{Json, Request, InspectResponse}
use systems_trinkets.Docker.Spec.{Spec, SpecError, translate}
use systems_trinkets.Docker.Invariants.{check_config, check_observed, Violation}
use systems_trinkets.Docker.Run.{
  Container, inspect_container, created, create_guarded, create_requested, create_call, verdict,
  observe, create_checked, create_container,
}
use systems_trinkets.Docker.Client.{
  Event, Client, bad_spec, World, reported, after_result, ◌>>=◌, call, undo_on_error, fail_after,
}
use systems_trinkets.Common.{
  ◌≡◌, refl, ap, ◌∙◌, ◌⊎◌, inl, inr, List, [], ◌∷◌, arith, Result, ok, err, Bytes,
}

replied :
    (r : Result Bytes InspectResponse)
    → ((got : InspectResponse) × (r ≡ ok got)) ⊎ ((e : Bytes) × (r ≡ err e))
replied (ok got) = inl (got, refl)
replied (err e) = inr (e, refl)

module _ {S : Type 0} (cli : Client S) (json : Json) where
  abbrev pub Recorded : Container → Request → S → Type 0
  Recorded c req s =
      (c.request ≡ req)
      × ((cli.container_create req s).0 ≡ ok c.id)
      × ((got : InspectResponse) × ((cli.container_inspect c.id (cli.container_create req s).1).0
            ≡ ok got)
          × (check_observed got req ≡ []))

  create_checked-Recorded :
      (socket : Bytes) (req : Request) (log : List Event) (s : S) (c : Container) (w : World S)
      → create_checked cli json socket req (log, s) ≡ (ok c, w)
      → Recorded c req s
  unfolding create_checked create_call created observe inspect_container verdict ◌>>=◌ after_result
      undo_on_error fail_after call reported
  create_checked-Recorded socket req log s c w h =
      let same : c.request ≡ req = ground arith in
      let made : (cli.container_create req s).0 ≡ ok c.id = ground arith in
      elim (replied (cli.container_inspect c.id (cli.container_create req s).1).0) [
        | inl (got, e) ↦ (same, made, (got, e, ground arith))
        | inr (x, e) ↦ absurd (ground arith)
      ]

  requested_checked :
      (socket : Bytes) (req : Request) (w : World S)
      → check_config json req socket ≡ []
      → create_requested cli json socket (ok req) w ≡ create_checked cli json socket req w
  unfolding create_requested create_guarded
  requested_checked socket req w h = ap (λ bad. create_guarded cli json socket req bad w) h

  requested_inv :
      (socket : Bytes) (r : Result (List SpecError) Request) (w w' : World S) (c : Container)
      → create_requested cli json socket r w ≡ (ok c, w')
      → (req : Request) × (r ≡ ok req) × (create_checked cli json socket req w ≡ (ok c, w'))
  unfolding create_requested
  requested_inv socket (err es) w w' c h = absurd (cc)
  requested_inv socket (ok req) w w' c h = (req, refl, passed (check_config json req socket) h)
    where
      passed :
          (bad : List Violation)
          → create_guarded cli json socket req bad w ≡ (ok c, w')
          → create_checked cli json socket req w ≡ (ok c, w')
      passed [] h = unfold create_guarded in h
      passed (b ∷ bs) h = unfold create_guarded in absurd (cc)

  -- `Create` of a spec that `Translate` refuses makes no call and reports the refusal, and one that it
  -- accepts is created: the guard of `CheckConfig` lets every request of `Translate` through. A
  -- container that `Create` returns has that request and an ID that the engine gave, its inspection after
  -- the creation succeeded, and `CheckObserved` found nothing in what the engine recorded for it. The condition is that compacting
  -- a JSON object leaves an object.
  pub create_container_lem :
      (keeps : CompactKeepsObjects json) (socket : Bytes) (spec : Spec) (log : List Event) (s : S)
      → ((es : List SpecError)
          → translate json spec socket (cli.name_suffix s).0 ≡ err es
          → create_container cli json socket spec (log, s)
            ≡ (err (bad_spec es ∷ []), (log, (cli.name_suffix s).1)))
        × ((req : Request)
            → translate json spec socket (cli.name_suffix s).0 ≡ ok req
            → create_container cli json socket spec (log, s)
              ≡ create_checked cli json socket req (log, (cli.name_suffix s).1))
        × ((c : Container) (w : World S)
            → create_container cli json socket spec (log, s) ≡ (ok c, w)
            → (translate json spec socket (cli.name_suffix s).0 ≡ ok c.request)
              × ((cli.container_create c.request (cli.name_suffix s).1).0 ≡ ok c.id)
              × ((got : InspectResponse) × ((cli.container_inspect c.id
                      (cli.container_create c.request (cli.name_suffix s).1).1).0
                    ≡ ok got)
                  × (check_observed got c.request ≡ [])))
  unfolding create_container
  create_container_lem keeps socket spec log s =
      let w : World S = (log, (cli.name_suffix s).1) in
      (
        λ es h. unfold create_requested in rw h refl,
        λ req h.
            ap (λ r. create_requested cli json socket r w) h
            ∙ requested_checked socket req w
                (check_config-translate json keeps spec socket _ req h),
        λ c w' h.
            let (req, t, k) =
              requested_inv socket (translate json spec socket (cli.name_suffix s).0) w w' c h in
            let (same, made, seen) = create_checked-Recorded socket req log _ c w' k in
            rw same (t, made, seen),
      )

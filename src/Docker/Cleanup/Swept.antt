-- ===== src/Docker/Cleanup/Swept.antt =====
-- What `Sweep` removes, and what it means that it reports no error.
use systems_trinkets.Docker.Cleanup.Removals.{
  Settled, remove_all-keeps, remove_all-Settled, remove_all-done,
}
use systems_trinkets.Docker.Cleanup.{
  Leftovers, nothing, Kind, container_kind, volume_kind, network_kind, Failed, failure_at, stage_of,
  still_failed, sweep_failures, list_kind, list_owned, list_lesson, remove_containers,
  remove_volumes, remove_networks, remove_left, swept, sweep_left, sweep_listed, sweep,
}
use systems_trinkets.Docker.Client.{
  remove, remove_volume, remove_network, Client, Failure, failed, World, reported, after_result,
  ◌>>=◌, call,
}
use systems_trinkets.Common.{
  ◌≡◌, refl, sym, ap, ◌∙◌, subst, ◌≢◌, ◌⊎◌, inl, inr, Option, none, some, List, [], ◌∷◌, ◌++◌,
  arith, Result, ok, err, Bytes, Mem, here, there,
}
use systems_trinkets.Docker.Cleanup.Calls.{
  names_of, removals, Answered, remove_left-removals, remove_left-Answered,
}

append_nil_inv : {A : Type 0} (xs ys : List A) → xs ++ ys ≡ [] → (xs ≡ []) × (ys ≡ [])
append_nil_inv [] ys h = (refl, h)
append_nil_inv (x ∷ xs) ys h = absurd (cc)

-- A name whose removal failed and that is still listed is reported.
still_failed_lem :
    (fs : Failed) (k : Kind) (names : List Bytes) (n : Bytes)
    → still_failed fs k names ≡ []
    → Mem n names
    → failure_at fs k n ≡ none
unfolding still_failed
still_failed_lem fs k [] n h m = elim m [ ]
still_failed_lem fs k (m ∷ names) n h (here e) =
    ap (failure_at fs k) e ∙ clean (failure_at fs k m) h
  where
    clean :
        (o : Option Bytes)
        → (elim o [
          | none ↦ still_failed fs k names
          | some e ↦ failed (stage_of k) m e ∷ still_failed fs k names
        ])
          ≡ []
        → o ≡ none
    clean none h = refl
    clean (some e) h = absurd (cc)
still_failed_lem fs k (m ∷ names) n h (there t) =
    still_failed_lem fs k names n (rest (failure_at fs k m) h) t
  where
    rest :
        (o : Option Bytes)
        → (elim o [
          | none ↦ still_failed fs k names
          | some e ↦ failed (stage_of k) m e ∷ still_failed fs k names
        ])
          ≡ []
        → still_failed fs k names ≡ []
    rest none h = h
    rest (some e) h = absurd (cc)

sweep_failures_lem :
    (fs : Failed) (still : Leftovers) (k : Kind) (n : Bytes)
    → sweep_failures fs still ≡ []
    → Mem n (names_of k still)
    → failure_at fs k n ≡ none
unfolding sweep_failures
sweep_failures_lem fs still k n h m =
    let (a, rest) = append_nil_inv (still_failed fs container_kind still.containers) _ h in
    let (b, c) = append_nil_inv (still_failed fs volume_kind still.volumes) _ rest in
    elim k as (λ k. Mem n (names_of k still) → failure_at fs k n ≡ none) [
      | container_kind ↦ still_failed_lem fs container_kind still.containers n a
      | volume_kind ↦ still_failed_lem fs volume_kind still.volumes n b
      | network_kind ↦ still_failed_lem fs network_kind still.networks n c
    ]
      m

listed : {n : Bytes} {names : List Bytes} → Mem n [] ⊎ Mem n names → Mem n names
listed (inl m) = elim m [ ]
listed (inr m) = m

module _ {S : Type 0} (cli : Client S) where
  -- The list calls report an error whenever they fail.
  list_lesson_reports :
      (lesson : Bytes) (w w' : World S) (es : List Failure)
      → list_lesson cli lesson w ≡ (err es, w')
      → es ≢ []
  unfolding list_lesson list_owned list_kind ◌>>=◌ after_result call reported
  list_lesson_reports lesson (log, s) w' es h q = ground arith

  remove_left-done :
      (left : Leftovers) (w : World S) (k : Kind) (n : Bytes)
      → Mem n (names_of k (remove_left cli left w).0.0)
      → Mem n (names_of k left)
  unfolding remove_left remove_containers remove_volumes remove_networks
  remove_left-done left w container_kind n m = listed (
      remove_all-done cli container_kind remove cli.container_remove left.containers ([], []) w n m)
  remove_left-done left w volume_kind n m =
      listed
        (remove_all-done cli volume_kind remove_volume cli.volume_remove left.volumes ([], _) _ n m)
  remove_left-done left w network_kind n m = listed (
      remove_all-done cli network_kind remove_network cli.network_remove left.networks ([], _) _ n
        m)

  remove_left-Settled :
      (left : Leftovers) (w : World S) (k : Kind) (n : Bytes)
      → Mem n (names_of k left)
      → Settled k n (names_of k (remove_left cli left w).0.0, (remove_left cli left w).0.1)
  unfolding remove_left remove_containers remove_volumes remove_networks
  remove_left-Settled left w container_kind n m =
      elim (remove_all-Settled cli container_kind remove cli.container_remove left.containers
        ([], []) w n (inl m)) [
          | inl d ↦ inl d
          | inr f ↦ inr (
              remove_all-keeps cli network_kind remove_network cli.network_remove left.networks
                ([], _) _ container_kind n
                (remove_all-keeps cli volume_kind remove_volume cli.volume_remove left.volumes
                  ([], _) _ container_kind n f))
        ]
  remove_left-Settled left w volume_kind n m =
      elim (remove_all-Settled cli volume_kind remove_volume cli.volume_remove left.volumes ([], _)
        _ n (inl m)) [
          | inl d ↦ inl d
          | inr f ↦ inr (
              remove_all-keeps cli network_kind remove_network cli.network_remove left.networks
                ([], _) _ volume_kind n f)
        ]
  remove_left-Settled left w network_kind n m =
      remove_all-Settled cli network_kind remove_network cli.network_remove left.networks ([], _) _
        n (inl m)

  -- A second listing, after the removals, no longer has the name.
  abbrev pub GoneAfter : Bytes → World S → Kind → Bytes → Type 0
  GoneAfter lesson w k n =
      (still : Leftovers) × (w' : World S) × (list_lesson cli lesson w ≡ (ok still, w'))
      × (Mem n (names_of k still) → ⊥)

  swept-GoneAfter :
      (removed : Leftovers) (fs : Failed) (lesson : Bytes) (w : World S) (k : Kind) (n : Bytes)
      → (swept cli removed fs (list_lesson cli lesson w)).0.1 ≡ []
      → failure_at fs k n ≢ none
      → GoneAfter lesson w k n
  swept-GoneAfter removed fs lesson w k n h f =
      gone (list_lesson cli lesson w).0 (list_lesson cli lesson w).1 refl h
    where
      gone :
          (r : Result (List Failure) Leftovers) (w' : World S)
          → list_lesson cli lesson w ≡ (r, w')
          → (swept cli removed fs (r, w')).0.1 ≡ []
          → GoneAfter lesson w k n
      gone (ok still) w' e h =
          (still, w', e, λ m. f (sweep_failures_lem fs still k n (unfold swept in h) m))
      gone (err es) w' e h = absurd (list_lesson_reports lesson w w' es e (unfold swept in h))

  -- Nothing more is called, or a second listing.
  abbrev pub Ends : Bytes → World S → World S → Type 0
  Ends lesson w w' = (w' ≡ w) ⊎ (w' ≡ (list_lesson cli lesson w).1)

  sweep_left_lem :
      (lesson : Bytes) (removed : Leftovers) (fs : Failed) (w : World S)
      → ((sweep_left cli lesson ((removed, fs), w)).0.0 ≡ removed)
        × Ends lesson w (sweep_left cli lesson ((removed, fs), w)).1
        × ((k : Kind) (n : Bytes)
            → (sweep_left cli lesson ((removed, fs), w)).0.1 ≡ []
            → failure_at fs k n ≢ none
            → GoneAfter lesson w k n)
  sweep_left_lem lesson removed [] w = (
    unfold sweep_left in refl,
    inl (unfold sweep_left in refl),
    λ k n h f. absurd (f (unfold failure_at in refl)),
  )
  sweep_left_lem lesson removed (f ∷ fs) w = (
    unfold sweep_left in same (list_lesson cli lesson w),
    inr (unfold sweep_left in passed (list_lesson cli lesson w)),
    λ k n h. swept-GoneAfter removed (f ∷ fs) lesson w k n (unfold sweep_left in h),
  )
    where
      same :
          (r : Result (List Failure) Leftovers × World S)
          → (swept cli removed (f ∷ fs) r).0.0 ≡ removed
      same (ok still, w') = unfold swept in refl
      same (err es, w') = unfold swept in refl

      passed :
          (r : Result (List Failure) Leftovers × World S) → (swept cli removed (f ∷ fs) r).1 ≡ r.1
      passed (ok still, w') = unfold swept in refl
      passed (err es, w') = unfold swept in refl

  sweep-remove_left :
      (lesson : Bytes) (w w₁ : World S) (left : Leftovers)
      → list_lesson cli lesson w ≡ (ok left, w₁)
      → sweep cli lesson w ≡ sweep_left cli lesson (remove_left cli left w₁)
  unfolding sweep sweep_listed
  sweep-remove_left lesson w w₁ left h = ap (sweep_listed cli lesson) h

  sweep-fails :
      (lesson : Bytes) (w w₁ : World S) (es : List Failure)
      → list_lesson cli lesson w ≡ (err es, w₁)
      → sweep cli lesson w ≡ ((nothing, es), w₁)
  unfolding sweep sweep_listed
  sweep-fails lesson w w₁ es h = ap (sweep_listed cli lesson) h

  -- Where the first listing of `Sweep` succeeds, it calls for the removal of each object of that
  -- listing once, containers first, then volumes, then networks, each by the engine's call for its
  -- kind, and for no other removal; after that it calls for nothing, or for a second listing. It
  -- records as removed only objects of the listing, whose removal the engine answered without an
  -- error. When it reports no error, each object of the listing is recorded as removed, or a second
  -- listing, after all removals, succeeds and no longer has it. Where the first listing fails, it calls
  -- for no removal and reports that error.
  pub sweep_lem :
      (lesson : Bytes) (w : World S)
      → ((left : Leftovers) (w₁ : World S)
          → list_lesson cli lesson w ≡ (ok left, w₁)
          → Ends lesson (removals cli left w₁) (sweep cli lesson w).1
            × ((k : Kind) (n : Bytes)
                → Mem n (names_of k (sweep cli lesson w).0.0)
                → Mem n (names_of k left) × Answered cli k n)
            × ((sweep cli lesson w).0.1 ≡ []
                → (k : Kind) (n : Bytes) → Mem n (names_of k left)
                → Mem n (names_of k (sweep cli lesson w).0.0)
                  ⊎ GoneAfter lesson (removals cli left w₁) k n))
        × ((es : List Failure) (w₁ : World S)
            → list_lesson cli lesson w ≡ (err es, w₁)
            → (sweep cli lesson w ≡ ((nothing, es), w₁)) × (es ≢ []))
  sweep_lem lesson w = (
    λ left w₁ h.
        let ((removed, fs), w₂) = remove_left cli left w₁ in
        let (same, ends, gone) = sweep_left_lem lesson removed fs w₂ in
        let swept_as : sweep cli lesson w ≡ sweep_left cli lesson ((removed, fs), w₂) =
          sweep-remove_left lesson w w₁ left h in
        let took : (sweep cli lesson w).0.0 ≡ removed = ap (λ r. r.0.0) swept_as ∙ same in
        let at : w₂ ≡ removals cli left w₁ = remove_left-removals cli left w₁ in
        (
          subst (λ v. Ends lesson v (sweep cli lesson w).1) at
              (subst (Ends lesson w₂) (sym (ap (λ r. r.1) swept_as)) ends),
          λ k n m.
              let own = subst (λ r. Mem n (names_of k r)) took m in
              (remove_left-done left w₁ k n own, remove_left-Answered cli left w₁ k n own),
          λ clean k n m. elim (remove_left-Settled left w₁ k n m) [
            | inl d ↦ inl (subst (λ r. Mem n (names_of k r)) (sym took) d)
            | inr f ↦ inr (
                subst (λ v. GoneAfter lesson v k n) at
                  (gone k n (sym (ap (λ r. r.0.1) swept_as) ∙ clean) f))
          ],
        ),
    λ es w₁ h. (sweep-fails lesson w w₁ es h, list_lesson_reports lesson w w₁ es h),
  )

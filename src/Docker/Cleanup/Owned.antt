-- ===== src/Docker/Cleanup/Owned.antt =====
-- What `ListLesson` and `CheckNoLeak` report: the engine's objects that carry both labels.
use systems_trinkets.Docker.Names.{lesson_re, owned_by}
use systems_trinkets.Docker.Cleanup.{
  Leftovers, listed_name, plain_name, owned_names, list_kind, list_owned, list_lesson,
}
use systems_trinkets.Docker.Client.{
  Event, Item, Client, bad_lesson, World, reported, after_result, ◌>>=◌, call,
}
use systems_trinkets.Common.{
  ◌≡◌, refl, sym, ap, ◌∙◌, ◌↔◌, inl, inr, true, false, List, [], ◌∷◌, arith, if◌then◌else◌,
  Bool-cases, Result, ok, err, Bytes, Mem, here, there,
}

-- The names are those of the items that are owned, and of no other.
abbrev pub Listed : (List Bytes → Bytes → Bytes) → Bytes → List Item → List Bytes → Type 0
Listed name lesson items names =
    (n : Bytes)
    → Mem n names
      ↔ ((i : Item) × Mem i items × (owned_by i.labels lesson ≡ true) × (name i.names i.id ≡ n))

-- One more item, owned or not.
Listed-cons :
    (name : List Bytes → Bytes → Bytes) (lesson : Bytes) (j : Item) (items : List Item)
    (names : List Bytes)
    → Listed name lesson items names
    → Listed name lesson
        (j ∷ items)
        (if owned_by j.labels lesson then name j.names j.id ∷ names else names)
Listed-cons name lesson j items names ih n = elim (Bool-cases (owned_by j.labels lesson)) [
  | inl o ↦ rw o (to o, from)
  | inr o ↦ rw o (skip, back o)
]
  where
    Found : Type 0
    Found =
        (i : Item) × Mem i (j ∷ items) × (owned_by i.labels lesson ≡ true) × (name i.names i.id ≡ n)

    skip : Mem n names → Found
    skip m = let (i, k, own, e) = (ih n).0 m in (i, there k, own, e)

    to : owned_by j.labels lesson ≡ true → Mem n (name j.names j.id ∷ names) → Found
    to o (here e) = (j, here refl, o, sym e)
    to o (there m) = skip m

    from : Found → Mem n (name j.names j.id ∷ names)
    from (i, here e, own, h) = here (sym h ∙ ap (λ k. name k.names k.id) e)
    from (i, there m, own, h) = there ((ih n).1 (i, m, own, h))

    back : owned_by j.labels lesson ≡ false → Found → Mem n names
    back o (i, here e, own, h) =
        let same : owned_by i.labels lesson ≡ owned_by j.labels lesson =
          ap (λ k. owned_by k.labels lesson) e in
        absurd (cc)
    back o (i, there m, own, h) = (ih n).1 (i, m, own, h)

owned_names-Listed :
    (name : List Bytes → Bytes → Bytes) (lesson : Bytes) (items : List Item)
    → Listed name lesson items (owned_names name lesson items)
unfolding owned_names
owned_names-Listed name lesson [] = λ n. (λ m. elim m [ ], λ (i, m, o, e). elim m [ ])
owned_names-Listed name lesson (j ∷ items) =
    Listed-cons name lesson j items _ (owned_names-Listed name lesson items)

module _ {S : Type 0} (cli : Client S) where
  abbrev Replies : Bytes → S → Leftovers → List Item → List Item → List Item → Type 0
  Replies lesson s left cs vs ns =
      ((cli.containers lesson s).0 ≡ ok cs)
      × ((cli.volumes lesson (cli.containers lesson s).1).0 ≡ ok vs)
      × ((cli.networks lesson (cli.volumes lesson (cli.containers lesson s).1).1).0 ≡ ok ns)
      × (left.containers ≡ owned_names listed_name lesson cs)
      × (left.volumes ≡ owned_names plain_name lesson vs)
      × (left.networks ≡ owned_names plain_name lesson ns)

  abbrev items_of : Result Bytes (List Item) → List Item
  items_of (ok items) = items
  items_of (err e) = []

  list_owned_inv :
      (lesson : Bytes) (log : List Event) (s : S) (left : Leftovers) (w : World S)
      → list_owned cli lesson (log, s) ≡ (ok left, w)
      → Replies lesson s left
          (items_of (cli.containers lesson s).0)
          (items_of (cli.volumes lesson (cli.containers lesson s).1).0)
          (items_of (cli.networks lesson (cli.volumes lesson (cli.containers lesson s).1).1).0)
  unfolding list_owned list_kind ◌>>=◌ after_result call reported
  list_owned_inv lesson log s left w h = ground arith

  -- What `ListLesson` returns without an error: the lesson matches the expression of a lesson name,
  -- and the containers, volumes and networks are, for each kind, the names of exactly those items of
  -- the engine's reply to that list call that carry both labels of the lesson.
  pub list_lesson_lem :
      (lesson : Bytes) (log : List Event) (s : S) (left : Leftovers) (w : World S)
      → list_lesson cli lesson (log, s) ≡ (ok left, w)
      → (lesson_re lesson ≡ true)
        × (cs : List Item) × (vs : List Item) × (ns : List Item) × ((cli.containers lesson s).0
            ≡ ok cs)
        × ((cli.volumes lesson (cli.containers lesson s).1).0 ≡ ok vs)
        × ((cli.networks lesson (cli.volumes lesson (cli.containers lesson s).1).1).0 ≡ ok ns)
        × Listed listed_name lesson cs left.containers
        × Listed plain_name lesson vs left.volumes
        × Listed plain_name lesson ns left.networks
  unfolding list_lesson
  list_lesson_lem lesson log s left w h = elim (Bool-cases (lesson_re lesson)) [
    | inl l ↦
        let listed : list_owned cli lesson (log, s) ≡ (ok left, w) = sym (rw l refl) ∙ h in
        let (a, b, c, d, e, f) = list_owned_inv lesson log s left w listed in
        (
          l,
          _,
          _,
          _,
          a,
          b,
          c,
          rw d (owned_names-Listed listed_name lesson _),
          rw e (owned_names-Listed plain_name lesson _),
          rw f (owned_names-Listed plain_name lesson _),
        )
    | inr l ↦
        let invalid : (err (bad_lesson lesson ∷ []), (log, s)) ≡ (ok left, w) =
          sym (rw l refl) ∙ h in
        absurd (cc)
  ]

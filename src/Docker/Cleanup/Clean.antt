-- ===== src/Docker/Cleanup/Clean.antt =====
-- What it means that `CheckNoLeak` finds nothing.
use systems_trinkets.Docker.Cleanup.Owned.{Listed, list_lesson_lem}
use systems_trinkets.Docker.Names.{owned_by}
use systems_trinkets.Docker.Cleanup.{
  listed_name, plain_name, leaked_container, leaked_volume, leaked_network, no_leak, list_lesson,
  check_no_leak,
}
use systems_trinkets.Docker.Client.{Event, Item, Client, World, >>=-eq-ok}
use systems_trinkets.Common.{
  ◌≡◌, refl, subst, inl, inr, false, List, [], ◌∷◌, map, Bool-cases, ok, Bytes, append_eq_nil, All,
  Mem, here, there,
}

All-intro : {A : Type 0} (P : A → Type 0) (xs : List A) → ((x : A) → Mem x xs → P x) → All P xs
All-intro P [] h = tt
All-intro P (x ∷ xs) h = (h x (here refl), All-intro P xs (λ y m. h y (there m)))

map-eq-nil : {A B : Type 0} (f : A → B) (xs : List A) → map f xs ≡ [] → xs ≡ []
map-eq-nil f [] h = refl
map-eq-nil f (x ∷ xs) h = absurd (cc)

-- No item of a kind is owned when none is listed.
Listed-none :
    (name : List Bytes → Bytes → Bytes) (lesson : Bytes) (items : List Item) (names : List Bytes)
    → Listed name lesson items names
    → names ≡ []
    → All (λ i. owned_by i.labels lesson ≡ false) items
Listed-none name lesson items names listed e =
    All-intro (λ i. owned_by i.labels lesson ≡ false) items
      (λ i m. elim (Bool-cases (owned_by i.labels lesson)) [
        | inr f ↦ f
        | inl o ↦
            let k : Mem (name i.names i.id) [] =
              subst (λ ns. Mem (name i.names i.id) ns) e ((listed _).1 (i, m, o, refl)) in
            elim k [ ]
      ])

module _ {S : Type 0} (cli : Client S) where
  -- When `CheckNoLeak` returns no violation and no error, the engine answered all three list calls, and
  -- no container, volume or network of its replies carries both labels of the lesson.
  pub check_no_leak_lem :
      (lesson : Bytes) (log : List Event) (s : S) (w : World S)
      → check_no_leak cli lesson (log, s) ≡ (ok [], w)
      → (cs : List Item) × (vs : List Item) × (ns : List Item) × ((cli.containers lesson s).0
          ≡ ok cs)
        × ((cli.volumes lesson (cli.containers lesson s).1).0 ≡ ok vs)
        × ((cli.networks lesson (cli.volumes lesson (cli.containers lesson s).1).1).0 ≡ ok ns)
        × All (λ i. owned_by i.labels lesson ≡ false) cs
        × All (λ i. owned_by i.labels lesson ≡ false) vs
        × All (λ i. owned_by i.labels lesson ≡ false) ns
  unfolding check_no_leak no_leak
  check_no_leak_lem lesson log s w h =
      let (left, w', listed, found) = >>=-eq-ok (list_lesson cli lesson) _ (log, s) w [] h in
      let none_left : no_leak left ≡ [] = cc in
      let (c, rest) = append_eq_nil (map leaked_container left.containers) _ none_left in
      let (v, n) = append_eq_nil (map leaked_volume left.volumes) _ rest in
      let (re, cs, vs, ns, a, b, d, lc, lv, ln) = list_lesson_lem cli lesson log s left w' listed in
      (
        cs,
        vs,
        ns,
        a,
        b,
        d,
        Listed-none listed_name lesson cs left.containers lc (map-eq-nil leaked_container _ c),
        Listed-none plain_name lesson vs left.volumes lv (map-eq-nil leaked_volume _ v),
        Listed-none plain_name lesson ns left.networks ln (map-eq-nil leaked_network _ n),
      )

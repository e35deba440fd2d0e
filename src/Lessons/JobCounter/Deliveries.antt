-- ===== src/Lessons/JobCounter/Deliveries.antt =====
-- The idempotent counter after any sequence of deliveries.
use systems_trinkets.Lessons.JobCounter.Counts.{
  View, Same, InsertsOnce, UpdatesRow, KeepsState, mode_name, CountedOnce, begun,
}
use systems_trinkets.Lessons.JobCounter.{
  Database, ApplyError, idempotent, apply, apply_all, answers,
}
use systems_trinkets.Common.{
  ℕ, suc, ◌+◌, ◌≡◌, refl, sym, ap, ◌∙◌, subst, ◌↔◌, ◌⊎◌, inl, inr, Bool, true, false, ◌||◌, some,
  List, [], ◌∷◌, arith, ◌==◌, ==_iff, ==_refl, Bool-cases, Result, ok, err, length, All, All_imp,
  Mem, here, there,
}

abbrev pub Unique : List ℕ → Type 0
Unique [] = Unit {0}
Unique (x ∷ xs) = (Mem x xs → ⊥) × Unique xs

All_Mem : (P : ℕ → Type 0) (j : ℕ) (xs : List ℕ) → All P xs → Mem j xs → P j
All_Mem P j [] h m = elim m [ ]
All_Mem P j (x ∷ xs) (p, h) (here e) = subst P (sym e) p
All_Mem P j (x ∷ xs) (p, h) (there m) = All_Mem P j xs h m

module _ {S : Type 0} (db : Database S) (view : View S) where
  -- From `s` to `t`, the events of `new`, which are deliveries of `ids`, became seen and were counted.
  abbrev pub CountedNew : List ℕ → S → S → ℕ → List ℕ → Type 0
  CountedNew ids s t n new =
      All (λ j. (view.seen s j ≡ false) × Mem j ids) new
      × Unique new
      × ((j : ℕ) → (view.seen t j ≡ true) ↔ ((view.seen s j ≡ true) ⊎ Mem j new))
      × (view.total t (mode_name db view) ≡ some (n + length new))

  -- What a call that returned no error says of its event.
  abbrev pub Settled : List ℕ → S → ℕ × Result ApplyError (ℕ × Bool) → Type 0
  Settled new t (id, ok (total, applied)) = (view.seen t id ≡ true) × (applied ≡ true → Mem id new)
  Settled new t (id, err e) = Unit

  or_true : (b : Bool) → (b || true) ≡ true
  or_true true = refl
  or_true false = refl

  -- A call did not both change nothing and count its event.
  not_both : (id : ℕ) (s s' : S) (n : ℕ) → Same db view s s' → CountedOnce db view id s s' n → ⊥
  not_both id s s' n same (u, e, a, b) =
      let now : view.seen s' id ≡ true = e id ∙ rw (==_refl id) refl in
      let before : view.seen s' id ≡ view.seen s id = same.0 id in absurd (cc)

  skipped :
      (id : ℕ) (ids : List ℕ) (s s₁ t : S) (n : ℕ) (new : List ℕ)
      → Same db view s s₁
      → CountedNew ids s₁ t n new
      → CountedNew (id ∷ ids) s t n new
  skipped id ids s s₁ t n new same (fresh, unique, seen, total) = (
    All_imp (λ j (f, m). (sym (same.0 j) ∙ f, there m)) new fresh,
    unique,
    λ j. (
      λ h. elim ((seen j).0 h) [ inl o ↦ inl (sym (same.0 j) ∙ o) | inr m ↦ inr m ],
      λ h. elim h [ inl o ↦ (seen j).1 (inl (same.0 j ∙ o)) | inr m ↦ (seen j).1 (inr m) ],
    ),
    total,
  )

  marked :
      (id j : ℕ) (s s₁ : S)
      → ((j : ℕ) → view.seen s₁ j ≡ (id == j || view.seen s j))
      → (view.seen s₁ j ≡ true) ↔ ((view.seen s j ≡ true) ⊎ (j ≡ id))
  marked id j s s₁ e = elim (Bool-cases (id == j)) [
    | inl q ↦ (λ h. inr (sym ((==_iff id j).0 q)), λ h. e j ∙ rw q refl)
    | inr q ↦ (
      λ h. inl (sym (e j ∙ rw q refl) ∙ h),
      λ h. elim h [ inl o ↦ e j ∙ rw (q, o) refl | inr same ↦ e j ∙ rw (same, ==_refl id) refl ],
    )
  ]

  counted_first :
      (id : ℕ) (ids : List ℕ) (s s₁ t : S) (n : ℕ) (new : List ℕ)
      → CountedOnce db view id s s₁ n
      → CountedNew ids s₁ t (suc n) new
      → CountedNew (id ∷ ids) s t n (id ∷ new)
  counted_first id ids s s₁ t n new (u, e, a, b) (fresh, unique, seen, total) = (
    ((u, here refl), All_imp (λ j (f, m). (before j f, there m)) new fresh),
    (not_new, unique),
    λ j. (
      λ h. elim ((seen j).0 h) [
        | inr m ↦ inr (there m)
        | inl o ↦ elim ((marked id j s s₁ e).0 o) [ inl k ↦ inl k | inr q ↦ inr (here q) ]
      ],
      λ h. elim h [
        | inl k ↦ (seen j).1 (inl ((marked id j s s₁ e).1 (inl k)))
        | inr (here q) ↦ (seen j).1 (inl ((marked id j s s₁ e).1 (inr q)))
        | inr (there m) ↦ (seen j).1 (inr m)
      ],
    ),
    total ∙ ap some (omega arith),
  )
    where
      not_new : Mem id new → ⊥
      not_new m =
          let f : view.seen s₁ id ≡ false =
            (All_Mem (λ j. (view.seen s₁ j ≡ false) × Mem j ids) id new fresh m).0 in
          let k : view.seen s₁ id ≡ true = (marked id id s s₁ e).1 (inr refl) in absurd (cc)

      before : (j : ℕ) → view.seen s₁ j ≡ false → view.seen s j ≡ false
      before j f = elim (Bool-cases (view.seen s j)) [
        | inr o ↦ o
        | inl o ↦ let now : view.seen s₁ j ≡ true = (marked id j s s₁ e).1 (inl o) in absurd (cc)
      ]

  module _ (once : InsertsOnce db view) (row : UpdatesRow db view)
      (keeps : KeepsState db view) where
    -- An event that is seen stays seen.
    seen_on :
        (ids : List ℕ) (s : S) (j : ℕ)
        → view.seen s j ≡ true
        → view.seen (apply_all db (idempotent db) ids s) j ≡ true
    unfolding apply_all
    seen_on [] s j h = h
    seen_on (id ∷ ids) s j h =
        seen_on ids (apply db (idempotent db) id s).1 j (elim (begun db view once row keeps id s) [
          | inl (same, r) ↦ same.0 j ∙ h
          | inr (m, first, r) ↦ first.1 j ∙ rw h (or_true (id == j))
        ])

    answer-Settled :
        (id : ℕ) (s t : S) (r : Result ApplyError (ℕ × Bool)) (s' : S) (new : List ℕ)
        → r ≡ (apply db (idempotent db) id s).0
        → s' ≡ (apply db (idempotent db) id s).1
        → ((j : ℕ) → view.seen s' j ≡ true → view.seen t j ≡ true)
        → ((n : ℕ) → CountedOnce db view id s s' n → Mem id new)
        → Settled new t (id, r)
    answer-Settled id s t (err e) s' new q q' later inside = tt
    answer-Settled id s t (ok (total, applied)) s' new q q' later inside =
        elim (begun db view once row keeps id s) [
          | inl (same, h) ↦
              let (a, seen) = h total applied (sym q) in
              (later id (subst (λ x. view.seen x id ≡ true) (sym q') seen), λ yes. absurd (cc))
          | inr (n, counts, h) ↦
              let counts' : CountedOnce db view id s s' n =
                subst (λ x. CountedOnce db view id s x n) (sym q') counts in
              (later id (counts'.1 id ∙ rw (==_refl id) refl), λ yes. inside n counts')
        ]

    Settled-there :
        (id : ℕ) (new : List ℕ) (t : S) (answered : List (ℕ × Result ApplyError (ℕ × Bool)))
        → All (Settled new t) answered
        → All (Settled (id ∷ new) t) answered
    Settled-there id new t [] h = tt
    Settled-there id new t ((j, ok (total, applied)) ∷ rest') ((seen, m), h) =
        ((seen, λ yes. there (m yes)), Settled-there id new t rest' h)
    Settled-there id new t ((j, err e) ∷ rest') (u, h) = (tt, Settled-there id new t rest' h)

    -- After any sequence of deliveries with the idempotent strategy, the events that became seen are
    -- all of them deliveries, each was counted exactly once, however often it was delivered, and
    -- nothing else was: the total has grown by their number. The event of each call that returned no error
    -- is seen at the end, and is one of them where the call answered that it applied. The conditions are
    -- those of the database: the insert affects a row only for an event that is not there, the update adds
    -- 1 to the row, a transaction starts from the database's state, a commit keeps it, and a commit that
    -- returns an error keeps it or leaves the database as it was.
    pub apply_all_lem :
        (ids : List ℕ) (s : S) (n : ℕ)
        → view.total s (mode_name db view) ≡ some n
        → (new : List ℕ) × CountedNew ids s (apply_all db (idempotent db) ids s) n new
          × All
              (Settled new (apply_all db (idempotent db) ids s))
              (answers db (idempotent db) ids s)
    unfolding apply_all answers
    apply_all_lem [] s n h = (
      [],
      (
        tt,
        tt,
        λ j. (λ o. inl o, λ o. elim o [ inl k ↦ k | inr m ↦ elim m [ ] ]),
        h ∙ ap some (omega arith),
      ),
      tt,
    )
    apply_all_lem (id ∷ ids) s n h = elim (begun db view once row keeps id s) [
      | inl (same, r) ↦
          let (new, rest, settled) =
            apply_all_lem ids (apply db (idempotent db) id s).1 n (same.1 _ ∙ h) in
          (
            new,
            skipped id ids s _ _ n new same rest,
            (
              answer-Settled id s _ _ _ new refl refl (λ j. seen_on ids _ j)
                  (λ k counts. absurd (not_both id s _ k same counts)),
              settled,
            ),
          )
      | inr (m, first, r) ↦
          let was : some m ≡ some n = sym first.2 ∙ h in
          let same : m ≡ n = cc in
          let counts : CountedOnce db view id s (apply db (idempotent db) id s).1 n =
            subst (CountedOnce db view id s (apply db (idempotent db) id s).1) same first in
          let (new, rest, settled) =
            apply_all_lem ids (apply db (idempotent db) id s).1 (suc n) counts.3 in
          (
            id ∷ new,
            counted_first id ids s _ _ n new counts rest,
            (
              answer-Settled id s _ _ _ (id ∷ new) refl refl (λ j. seen_on ids _ j)
                  (λ k c. here refl),
              Settled-there id new _ _ settled,
            ),
          )
    ]

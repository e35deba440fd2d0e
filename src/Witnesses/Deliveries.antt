-- ===== src/Witnesses/Deliveries.antt =====
-- The idempotent counter on a database of one counter row.
use systems_trinkets.Lessons.JobCounter.{Database, idempotent, apply_all, answers}
use systems_trinkets.Lessons.JobCounter.Counts.{View, Same, InsertsOnce, UpdatesRow, KeepsState}
use systems_trinkets.Lessons.JobCounter.Deliveries.{CountedNew, Settled, apply_all_lem}
use systems_trinkets.Common.{
  ℕ, suc, ◌≡◌, refl, ap, inl, inr, Bool, true, false, ◌||◌, some, List, [], ◌∷◌, ◌==◌,
  if◌then◌else◌, ==_iff, Bool-cases, Result, ok, Bytes, All,
}

-- The events of job_seen, and the total of the row.
abbrev Rows : Type 0
Rows = List ℕ × ℕ

abbrev seen_in : List ℕ → ℕ → Bool
seen_in [] id = false
seen_in (j ∷ js) id = j == id || seen_in js id

abbrev insert_into : Bool → ℕ → Rows → Result Bytes (ℕ × Rows)
insert_into true id s = ok (0, s)
insert_into false id (js, n) = ok (1, (id ∷ js, n))

abbrev rows_database : Database Rows
rows_database = record {
  begin = λ s. ok s;
  insert_seen = λ id s. insert_into (seen_in s.0 id) id s;
  update_counter = λ mode s. ok (some (suc s.1), (s.0, suc s.1));
  commit = λ tx s. (ok tt, tx);
}

abbrev rows_view : View Rows
rows_view = record { seen = λ s id. seen_in s.0 id; total = λ s mode. some s.1 }

rows-once : InsertsOnce rows_database rows_view
rows-once id (js, n) tx' rows h = inserted (seen_in js id) refl h
  where
    again : (j : ℕ) → seen_in js id ≡ true → seen_in js j ≡ (id == j || seen_in js j)
    again j e = elim (Bool-cases (id == j)) [
      | inr q ↦ rw q refl
      | inl q ↦ rw (q, ← (==_iff id j).0 q) e
    ]

    inserted :
        (b : Bool)
        → seen_in js id ≡ b
        → insert_into b id (js, n) ≡ ok (rows, tx')
        → (rows ≡ (if seen_in js id then 0 else 1))
          × ((j : ℕ) → seen_in tx'.0 j ≡ (id == j || seen_in js j))
          × ((mode : Bytes) → some tx'.1 ≡ some n)
    inserted true e h =
        let r : rows ≡ 0 = cc in
        let t : tx' ≡ (js, n) = cc in (rw (r, e) refl, λ j. rw t (again j e), λ mode. rw t refl)
    inserted false e h =
        let r : rows ≡ 1 = cc in
        let t : tx' ≡ (id ∷ js, n) = cc in (rw (r, e) refl, λ j. rw t refl, λ mode. rw t refl)

rows-row : UpdatesRow rows_database rows_view
rows-row mode (js, n) tx' total h =
    let r : total ≡ suc n = cc in
    let t : tx' ≡ (js, suc n) = cc in (n, refl, r, rw t refl, λ j. rw t refl)

rows-keeps : KeepsState rows_database rows_view
rows-keeps = (λ s tx h. same s tx (cc), λ tx s s' h. same tx s' (cc), λ tx s s' e h. absurd (cc))
  where
    same : (s t : Rows) → t ≡ s → Same rows_database rows_view s t
    same s t e = (λ id. ap (λ r. seen_in r.0 id) e, λ mode. ap (λ r. some r.1) e)

apply_all_lem_example :
    (new : List ℕ) × CountedNew rows_database rows_view
      (7 ∷ 8 ∷ 7 ∷ [])
      ([], 0)
      (apply_all rows_database (idempotent rows_database) (7 ∷ 8 ∷ 7 ∷ []) ([], 0))
      0
      new
    × All
        (Settled rows_database rows_view new
          (apply_all rows_database (idempotent rows_database) (7 ∷ 8 ∷ 7 ∷ []) ([], 0)))
        (answers rows_database (idempotent rows_database) (7 ∷ 8 ∷ 7 ∷ []) ([], 0))
apply_all_lem_example =
    apply_all_lem rows_database rows_view rows-once rows-row rows-keeps (7 ∷ 8 ∷ 7 ∷ []) ([], 0) 0
      refl

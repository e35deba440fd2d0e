-- ===== src/Lessons/JobCounter/Counts.antt =====
-- What a sequence of deliveries leaves in the counter.
use systems_trinkets.Lessons.JobCounter.{
  Database, ApplyError, database_error, counter_row_missing, idempotent, committed, counted,
  claimed_by, apply_in, apply, rows_claimed,
}
use systems_trinkets.Common.{
  ℕ, suc, ◌≡◌, refl, sym, ap, ◌∙◌, subst, ◌⊎◌, inl, inr, Bool, true, false, ◌||◌, Option, none,
  some, ◌==◌, if◌then◌else◌, ==_iff, ==_refl, Bool-cases, Result, ok, err, Bytes, codes,
}

-- What a state says: the events of job_seen, and the total of a row of job_counter, if it is there.
pub record View (S : Type 0) : Type 0 where
  pub seen : S → ℕ → Bool
  pub total : S → Bytes → Option ℕ

module _ {S : Type 0} (db : Database S) (view : View S) where
  abbrev pub Same : S → S → Type 0
  Same s t =
      ((id : ℕ) → view.seen t id ≡ view.seen s id)
      × ((mode : Bytes) → view.total t mode ≡ view.total s mode)

  -- `on conflict do nothing`: a row is affected when the event was not there, and it is there then.
  abbrev pub InsertsOnce : Type 0
  InsertsOnce =
      (id : ℕ) (tx tx' : S) (rows : ℕ)
      → db.insert_seen id tx ≡ ok (rows, tx')
      → (rows ≡ (if view.seen tx id then 0 else 1))
        × ((j : ℕ) → view.seen tx' j ≡ (id == j || view.seen tx j))
        × ((mode : Bytes) → view.total tx' mode ≡ view.total tx mode)

  -- The update returns the total that it wrote, and changes nothing else of that row or job_seen.
  abbrev pub UpdatesRow : Type 0
  UpdatesRow =
      (mode : Bytes) (tx tx' : S) (total : ℕ)
      → db.update_counter mode tx ≡ ok (some total, tx')
      → (n : ℕ) × (view.total tx mode ≡ some n)
        × (total ≡ suc n)
        × (view.total tx' mode ≡ some (suc n))
        × ((j : ℕ) → view.seen tx' j ≡ view.seen tx j)

  abbrev pub KeepsState : Type 0
  KeepsState =
      ((s tx : S) → db.begin s ≡ ok tx → Same s tx)
      × ((tx s s' : S) → db.commit tx s ≡ (ok tt, s') → Same tx s')
      × ((tx s s' : S) (e : Bytes) → db.commit tx s ≡ (err e, s') → Same s s' ⊎ Same tx s')

  abbrev pub mode_name : Bytes
  mode_name = codes "idempotent"

  -- A call that counted `id`, from a total of `n`.
  abbrev pub CountedOnce : ℕ → S → S → ℕ → Type 0
  CountedOnce id s s' n =
      (view.seen s id ≡ false)
      × ((j : ℕ) → view.seen s' j ≡ (id == j || view.seen s j))
      × (view.total s mode_name ≡ some n)
      × (view.total s' mode_name ≡ some (suc n))

  -- A call changed nothing, or counted its event once. One that returns no error returned the new total in
  -- the second case, and found its event counted in the first.
  abbrev pub Step : ℕ → S → Result ApplyError (ℕ × Bool) × S → Type 0
  Step id s (r, s') =
      (Same s s'
        × ((total : ℕ) (applied : Bool)
            → r ≡ ok (total, applied)
            → (applied ≡ false) × (view.seen s' id ≡ true)))
      ⊎ ((n : ℕ) × CountedOnce id s s' n
          × ((r ≡ ok (suc n, true)) ⊎ ((e : ApplyError) × (r ≡ err e))))

  fails : (id : ℕ) (s : S) (e : ApplyError) → Step id s (err e, s)
  fails id s e = inl ((λ j. refl, λ m. refl), λ t a h. absurd (cc))

  module _ (once : InsertsOnce) (row : UpdatesRow) (keeps : KeepsState) where
    Same-trans : {s t u : S} → Same s t → Same t u → Same s u
    Same-trans (a, b) (c, d) = (λ j. c j ∙ a j, λ m. d m ∙ b m)

    -- A repeated delivery commits a transaction that did not change anything.
    repeated :
        (id : ℕ) (s tx : S)
        → Same s tx
        → view.seen tx id ≡ true
        → Step id s (committed db 0 false (db.commit tx s))
    repeated id s tx same h = ended (db.commit tx s).0 _ refl
      where
        ended :
            (r : Result Bytes (Unit {0})) (s' : S)
            → db.commit tx s ≡ (r, s')
            → Step id s (committed db 0 false (r, s'))
        ended (ok u) s' e =
            unfold committed in
            let after = keeps.1 tx s s' e in
            inl (Same-trans same after, λ t a q. (cc, after.0 id ∙ h))
        ended (err e) s' q =
            unfold committed in
            elim (keeps.2 tx s s' e q) [
              | inl kept ↦ inl (kept, λ t a q. absurd (cc))
              | inr after ↦ inl (Same-trans same after, λ t a q. absurd (cc))
            ]

    -- A first delivery whose update succeeded, from its commit.
    first :
        (id n total : ℕ) (s tx : S)
        → view.seen s id ≡ false
        → ((j : ℕ) → view.seen tx j ≡ (id == j || view.seen s j))
        → view.total s mode_name ≡ some n
        → view.total tx mode_name ≡ some (suc n)
        → total ≡ suc n
        → Step id s (committed db total true (db.commit tx s))
    first id n total s tx u seen t t' e = ended (db.commit tx s).0 _ refl
      where
        counted_by : (s' : S) → Same tx s' → CountedOnce id s s' n
        counted_by s' after = (u, λ j. after.0 j ∙ seen j, t, after.1 mode_name ∙ t')

        ended :
            (r : Result Bytes (Unit {0})) (s' : S)
            → db.commit tx s ≡ (r, s')
            → Step id s (committed db total true (r, s'))
        ended (ok v) s' c =
            unfold committed in inr (n, counted_by s' (keeps.1 tx s s' c), inl (rw e refl))
        ended (err x) s' c =
            unfold committed in
            elim (keeps.2 tx s s' x c) [
              | inl kept ↦ inl (kept, λ t a q. absurd (cc))
              | inr after ↦ inr (n, counted_by s' after, inr (database_error x, refl))
            ]

    -- The update of a first delivery, whose claim left `tx`.
    updated :
        (id : ℕ) (s tx : S)
        → view.seen s id ≡ false
        → ((j : ℕ) → view.seen tx j ≡ (id == j || view.seen s j))
        → ((mode : Bytes) → view.total tx mode ≡ view.total s mode)
        → Step id s (counted db s (db.update_counter mode_name tx))
    updated id s tx u seen tot = ended (db.update_counter mode_name tx) refl
      where
        ended :
            (r : Result Bytes (Option ℕ × S))
            → db.update_counter mode_name tx ≡ r
            → Step id s (counted db s r)
        ended (ok (some total, tx')) c =
            unfold counted in
            let (n, a, b, d, k) = row mode_name tx tx' total c in
            first id n total s tx' u (λ j. k j ∙ seen j) (sym (tot mode_name) ∙ a) d b
        ended (ok (none, tx')) c = unfold counted in fails id s counter_row_missing
        ended (err x) c = unfold counted in fails id s (database_error x)

    again :
        (id : ℕ) (tx : S) (j : ℕ)
        → view.seen tx id ≡ true
        → (id == j || view.seen tx j) ≡ view.seen tx j
    again id tx j h = elim (Bool-cases (id == j)) [
      | inr e ↦ rw e refl
      | inl e ↦
          let same : id ≡ j = (==_iff id j).0 e in
          rw (e, sym (subst (λ k. view.seen tx k ≡ true) same h)) refl
    ]

    -- The claim, in a transaction that is as the database.
    claimed :
        (id : ℕ) (s tx : S)
        → Same s tx
        → Step id s (claimed_by db (idempotent db) s ((idempotent db).claim tx id))
    unfolding idempotent
    claimed id s tx same = ended (db.insert_seen id tx) refl
      where
        ended :
            (r : Result Bytes (ℕ × S))
            → db.insert_seen id tx ≡ r
            → Step id s (claimed_by db (idempotent db) s (rows_claimed db r))
        ended (err x) c = unfold claimed_by in fails id s (database_error x)
        ended (ok (rows, tx')) c =
            let (r, seen, tot) = once id tx tx' rows c in
            elim (Bool-cases (view.seen tx id)) [
              | inl h ↦
                  let r0 : rows ≡ 0 = (rw h at r) in
                  let old : Same s tx' =
                    (λ j. seen j ∙ again id tx j h ∙ same.0 j, λ m. tot m ∙ same.1 m) in
                  unfold claimed_by in
                  subst (λ b. Step id s (claimed_by db (idempotent db) s (ok (b, tx'))))
                    (sym (ap (λ k. k == 1) r0))
                    (repeated id s tx' old (seen id ∙ rw (==_refl id) refl))
              | inr h ↦
                  let r1 : rows ≡ 1 = (rw h at r) in
                  unfold claimed_by in
                  subst (λ b. Step id s (claimed_by db (idempotent db) s (ok (b, tx'))))
                    (sym (ap (λ k. k == 1) r1))
                    (updated id s tx' (sym (same.0 id) ∙ h)
                      (λ j. seen j ∙ ap (λ b. id == j || b) (same.0 j)) (λ m. tot m ∙ same.1 m))
            ]

    pub begun : (id : ℕ) (s : S) → Step id s (apply db (idempotent db) id s)
    unfolding apply
    begun id s = ended (db.begin s) refl
      where
        ended :
            (r : Result Bytes S) → db.begin s ≡ r → Step id s (apply_in db (idempotent db) id s r)
        ended (ok tx) e = unfold apply_in in claimed id s tx (keeps.0 s tx e)
        ended (err x) e = unfold apply_in in fails id s (database_error x)

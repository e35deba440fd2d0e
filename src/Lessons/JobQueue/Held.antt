-- ===== src/Lessons/JobQueue/Held.antt =====
-- What Postgres documents of the statements of the job queue, and what a worker relies on between its calls.
use systems_trinkets.Common.{
  ℕ, ◌≡◌, refl, sym, ◌∙◌, ◌≢◌, ◌⊎◌, inl, inr, Bool, true, false, Option, none, some, ok, err, Bytes,
  Bool-cases,
}
use systems_trinkets.Lessons.JobQueue.{
  claimed, Database, Phase, beginning, claiming, finishing, committing, closing, returned,
}

-- What can be seen of a database state: the jobs that are done, the transaction that holds the lock of a
-- job's row, the jobs that a transaction has marked done and not committed, and the transactions begun.
pub record View (S : Type 0) : Type 0 where
  pub done : S → ℕ → Bool
  pub holder : S → ℕ → Option ℕ
  pub marked : S → ℕ → ℕ → Bool
  pub opened : S → ℕ → Bool

module _ {S : Type 0} (view : View S) where
  -- A call of the transaction `me`: what is done stays done, only a job whose row it holds becomes done, and
  -- the locks and marks of the others stay.
  pub record Frame (me : Option ℕ) (s s' : S) : Type 0 where
    pub done_kept : (j : ℕ) → view.done s j ≡ true → view.done s' j ≡ true
    pub done_new :
        (j : ℕ)
        → view.done s' j ≡ true
        → (view.done s j ≡ true) ⊎ ((t : ℕ) × (me ≡ some t) × (view.holder s j ≡ some t))
    pub held : (j t : ℕ) → me ≢ some t → view.holder s j ≡ some t → view.holder s' j ≡ some t
    pub marks : (j t : ℕ) → me ≢ some t → view.marked s t j ≡ true → view.marked s' t j ≡ true
    pub opens : (t : ℕ) → view.opened s t ≡ true → view.opened s' t ≡ true

  -- The documented behaviour of row locks and of transactions that see what is committed.
  pub record Locks (db : Database S) (sql : Bytes) : Type 0 where
    pub begin_frame : (s : S) → Frame none s (db.begin s).1
    pub begin_new :
        (s : S) (tx : ℕ)
        → (db.begin s).0 ≡ ok tx
        → (view.opened s tx ≡ false) × (view.opened (db.begin s).1 tx ≡ true)
    pub claim_frame : (tx : ℕ) (s : S) → Frame (some tx) s (db.claim sql tx s).1
    -- the row given is pending and locked
    pub claim_locks :
        (tx id : ℕ) (s : S)
        → (db.claim sql tx s).0 ≡ claimed id
        → (view.done (db.claim sql tx s).1 id ≡ false)
          × (view.holder (db.claim sql tx s).1 id ≡ some tx)
    pub finish_frame : (tx id : ℕ) (s : S) → Frame (some tx) s (db.finish tx id s).1
    -- the update is not seen before the commit, and keeps the lock
    pub finish_marks :
        (tx id : ℕ) (s : S)
        → (db.finish tx id s).0 ≡ ok tt
        → view.holder s id ≡ some tx
        → view.done s id ≡ false
        → (view.marked (db.finish tx id s).1 tx id ≡ true)
          × (view.holder (db.finish tx id s).1 id ≡ some tx)
          × (view.done (db.finish tx id s).1 id ≡ false)
    pub commit_frame : (tx : ℕ) (s : S) → Frame (some tx) s (db.commit tx s).1
    pub commit_done :
        (tx id : ℕ) (s : S)
        → (db.commit tx s).0 ≡ ok tt
        → view.marked s tx id ≡ true
        → view.holder s id ≡ some tx
        → view.done (db.commit tx s).1 id ≡ true
    pub rollback_frame : (tx : ℕ) (s : S) → Frame (some tx) s (db.rollback tx s)

  -- The transaction of a worker, and the job that its `Work` returns or is about to return.
  abbrev pub tx_of : Phase → Option ℕ
  tx_of (claiming tx) = some tx
  tx_of (finishing tx id) = some tx
  tx_of (committing tx id) = some tx
  tx_of (closing tx r) = some tx
  tx_of p = none

  abbrev pub job_of : Phase → Option ℕ
  job_of (closing tx (ok id)) = some id
  job_of (returned (ok id)) = some id
  job_of p = none

  module _ (start : S) where
    -- What a worker relies on between its calls; `start` is the state before all of them.
    abbrev pub Holds : S → Phase → Type 0
    Holds s beginning = Unit
    Holds s (claiming tx) = view.opened s tx ≡ true
    Holds s (finishing tx id) =
        (view.opened s tx ≡ true) × (view.holder s id ≡ some tx) × (view.done s id ≡ false)
    Holds s (committing tx id) =
        (view.opened s tx ≡ true)
        × (view.holder s id ≡ some tx)
        × (view.done s id ≡ false)
        × (view.marked s tx id ≡ true)
    Holds s (closing tx (ok id)) =
        (view.opened s tx ≡ true) × (view.done s id ≡ true) × (view.done start id ≡ false)
    Holds s (closing tx (err e)) = view.opened s tx ≡ true
    Holds s (returned (ok id)) = (view.done s id ≡ true) × (view.done start id ≡ false)
    Holds s (returned (err e)) = Unit

    still_pending :
        {me : Option ℕ} {s s' : S}
        → Frame me s s'
        → (tx id : ℕ) → me ≢ some tx
        → view.holder s id ≡ some tx
        → view.done s id ≡ false
        → view.done s' id ≡ false
    still_pending {me} {s} {s'} f tx id other h d = elim (Bool-cases (view.done s' id)) [
      | inr e ↦ e
      | inl e ↦ elim (f.done_new id e) [
        | inl before ↦ absurd (cc)
        | inr (t, mine, locked) ↦ absurd (other (mine ∙ (sym locked ∙ h)))
      ]
    ]

    -- A call of another transaction keeps it.
    pub Holds-Frame :
        {me : Option ℕ} {s s' : S} (p : Phase)
        → Frame me s s'
        → ((t : ℕ) → tx_of p ≡ some t → me ≢ some t)
        → Holds s p
        → Holds s' p
    Holds-Frame beginning f other h = tt
    Holds-Frame (claiming tx) f other h = f.opens tx h
    Holds-Frame (finishing tx id) f other (o, l, d) =
        (f.opens tx o, f.held id tx (other tx refl) l, still_pending f tx id (other tx refl) l d)
    Holds-Frame (committing tx id) f other (o, l, d, m) = (
      f.opens tx o,
      f.held id tx (other tx refl) l,
      still_pending f tx id (other tx refl) l d,
      f.marks id tx (other tx refl) m,
    )
    Holds-Frame (closing tx (ok id)) f other (o, d, b) = (f.opens tx o, f.done_kept id d, b)
    Holds-Frame (closing tx (err e)) f other h = f.opens tx h
    Holds-Frame (returned (ok id)) f other (d, b) = (f.done_kept id d, b)
    Holds-Frame (returned (err e)) f other h = tt

    pub tx_of-opened :
        {s : S} (p : Phase) (t : ℕ) → Holds s p → tx_of p ≡ some t → view.opened s t ≡ true
    tx_of-opened beginning t h e = absurd (cc)
    tx_of-opened {s} (claiming tx) t h e = cc
    tx_of-opened (finishing tx id) t (o, l, d) e = cc
    tx_of-opened (committing tx id) t (o, l, d, m) e = cc
    tx_of-opened (closing tx (ok id)) t (o, d, b) e = cc
    tx_of-opened (closing tx (err x)) t h e = cc
    tx_of-opened (returned r) t h e = absurd (cc)

    pub job_of-done :
        {s : S} (p : Phase) (j : ℕ) → Holds s p → job_of p ≡ some j → view.done s j ≡ true
    job_of-done beginning j h e = absurd (cc)
    job_of-done (claiming tx) j h e = absurd (cc)
    job_of-done (finishing tx id) j h e = absurd (cc)
    job_of-done (committing tx id) j h e = absurd (cc)
    job_of-done (closing tx (ok id)) j (o, d, b) e = cc
    job_of-done (closing tx (err x)) j h e = absurd (cc)
    job_of-done (returned (ok id)) j (d, b) e = cc
    job_of-done (returned (err x)) j h e = absurd (cc)

-- ===== src/Lessons/JobQueue/Steps.antt =====
-- One call of one worker of lessons/go/background-job-queue, seen by the worker and by the others.
use systems_trinkets.Common.{
  ℕ, ◌≡◌, refl, sym, ◌∙◌, ◌≢◌, ◌⊎◌, inl, inr, true, false, some, List, [], ◌∷◌, Result, ok, err,
  Bytes, Bool-cases, All,
}
use systems_trinkets.Lessons.JobQueue.{
  ClaimReply, waiting, claimed, no_row, claim_failed, Database, Phase, beginning, claiming,
  finishing, committing, closing, returned, WorkError, begun, after_claim, after_finish,
  after_commit, work_step,
}
use systems_trinkets.Lessons.JobQueue.Held.{
  View, Frame, Locks, tx_of, job_of, Holds, Holds-Frame, tx_of-opened, job_of-done,
}

module _ {S : Type 0} (view : View S) where
  -- Two workers with different transactions and different jobs.
  pub record Apart (p q : Phase) : Type 0 where
    pub txs : (t u : ℕ) → tx_of view p ≡ some t → tx_of view q ≡ some u → t ≢ u
    pub jobs : (j k : ℕ) → job_of view p ≡ some j → job_of view q ≡ some k → j ≢ k

  abbrev pub AllApart : List Phase → Type 0
  AllApart [] = Unit {0}
  AllApart (p ∷ ps) = All (Apart p) ps × AllApart ps

  pub Apart-sym : (p q : Phase) → Apart p q → Apart q p
  Apart-sym p q a = record {
    txs = λ t u e f h. a.txs u t f e (sym h);
    jobs = λ j k e f h. a.jobs k j f e (sym h);
  }

  module _ (start : S) where
    abbrev pub Kept : S → Type 0
    Kept s = (j : ℕ) → view.done start j ≡ true → view.done s j ≡ true

    -- One worker's step, seen by itself and by another worker.
    pub record Stepped (p : Phase) (s : S) (p' : Phase) (s' : S) : Type 0 where
      pub holds : Holds view start s' p'
      pub others :
          (q : Phase) → Holds view start s q → Apart p q → Holds view start s' q × Apart p' q
      pub keeps : (j : ℕ) → view.done s j ≡ true → view.done s' j ≡ true

    not_before : (s : S) (j : ℕ) → Kept s → view.done s j ≡ false → view.done start j ≡ false
    not_before s j kept d = elim (Bool-cases (view.done start j)) [
      | inr e ↦ e
      | inl e ↦ absurd (cc (kept j e))
    ]

    -- A call of the worker's own transaction, which ends with no job or with one that was pending or
    -- was its job before.
    own_call :
        (tx : ℕ) (p : Phase) (s : S) (p' : Phase) (s' : S)
        → tx_of view p ≡ some tx
        → ((t : ℕ) → tx_of view p' ≡ some t → t ≡ tx)
        → ((j : ℕ) → job_of view p' ≡ some j → (job_of view p ≡ some j) ⊎ (view.done s j ≡ false))
        → Frame view (some tx) s s'
        → Holds view start s' p'
        → Stepped p s p' s'
    own_call tx p s p' s' mine same job f h = record {
      holds = h;
      others = λ q k a. (
        Holds-Frame view start q f (λ t e g. a.txs tx t mine e (some_inj tx t g)) k,
        record {
          txs = λ t u e g o. a.txs tx u mine g (sym (same t e) ∙ o);
          jobs = λ j l e g o. elim (job j e) [
            | inl before ↦ a.jobs j l before g o
            | inr pending ↦ absurd (cc (job_of-done view start q l k g, o, pending))
          ];
        },
      );
      keeps = f.done_kept;
    }
      where
        some_inj : (t u : ℕ) → some t ≡ some u → t ≡ u
        some_inj t u e = cc

    module _ (db : Database S) (sql : Bytes) (locks : Locks view db sql) where
      begun-Stepped :
          (s : S) (r : Result Bytes ℕ)
          → (db.begin s).0 ≡ r
          → let (p', s') = begun db sql (r, (db.begin s).1) in Stepped beginning s p' s'
      unfolding begun
      begun-Stepped s (err e) h = record {
        holds = tt;
        others = λ q k a. (
          Holds-Frame view start q (locks.begin_frame s) (λ t e. cc) k,
          record { txs = λ t u e. absurd (cc); jobs = λ j l e. absurd (cc) },
        );
        keeps = (locks.begin_frame s).done_kept;
      }
      begun-Stepped s (ok tx) h =
          let (fresh, now) = locks.begin_new s tx h in
          record {
            holds = now;
            others = λ q k a. (
              Holds-Frame view start q (locks.begin_frame s) (λ t e. cc) k,
              record {
                txs = λ t u e g o. absurd (cc (tx_of-opened view start q u k g, fresh));
                jobs = λ j l e. absurd (cc);
              },
            );
            keeps = (locks.begin_frame s).done_kept;
          }

      claim-Stepped :
          (tx : ℕ) (s : S) (r : ClaimReply)
          → (db.claim sql tx s).0 ≡ r
          → view.opened s tx ≡ true
          → let (p', s') = after_claim db sql tx (r, (db.claim sql tx s).1) in
            Stepped (claiming tx) s p' s'
      unfolding after_claim
      claim-Stepped tx s waiting h o =
          own_call tx _ s _ _ refl (λ t e. cc) (λ j e. absurd (cc)) (locks.claim_frame tx s)
            ((locks.claim_frame tx s).opens tx o)
      claim-Stepped tx s (claimed id) h o =
          let (d, l) = locks.claim_locks tx id s h in
          own_call tx _ s _ _ refl (λ t e. cc) (λ j e. absurd (cc)) (locks.claim_frame tx s)
            ((locks.claim_frame tx s).opens tx o, l, d)
      claim-Stepped tx s no_row h o =
          own_call tx _ s _ _ refl (λ t e. cc) (λ j e. absurd (cc)) (locks.claim_frame tx s)
            ((locks.claim_frame tx s).opens tx o)
      claim-Stepped tx s (claim_failed e) h o =
          own_call tx _ s _ _ refl (λ t e. cc) (λ j e. absurd (cc)) (locks.claim_frame tx s)
            ((locks.claim_frame tx s).opens tx o)

      finish-Stepped :
          (tx id : ℕ) (s : S) (r : Result Bytes (Unit {0}))
          → (db.finish tx id s).0 ≡ r
          → Holds view start s (finishing tx id)
          → let (p', s') = after_finish db sql tx id (r, (db.finish tx id s).1) in
            Stepped (finishing tx id) s p' s'
      unfolding after_finish
      finish-Stepped tx id s (ok u) h (o, l, d) =
          let (m, l', d') = locks.finish_marks tx id s h l d in
          own_call tx _ s _ _ refl (λ t e. cc) (λ j e. absurd (cc)) (locks.finish_frame tx id s)
            ((locks.finish_frame tx id s).opens tx o, l', d', m)
      finish-Stepped tx id s (err e) h (o, l, d) =
          own_call tx _ s _ _ refl (λ t e. cc) (λ j e. absurd (cc)) (locks.finish_frame tx id s)
            ((locks.finish_frame tx id s).opens tx o)

      commit-Stepped :
          (tx id : ℕ) (s : S) (r : Result Bytes (Unit {0}))
          → (db.commit tx s).0 ≡ r
          → Kept s
          → Holds view start s (committing tx id)
          → let (p', s') = after_commit db sql tx id (r, (db.commit tx s).1) in
            Stepped (committing tx id) s p' s'
      unfolding after_commit
      commit-Stepped tx id s (ok u) h kept (o, l, d, m) =
          own_call tx _ s _ _ refl (λ t e. cc) (λ j e. inr (cc d)) (locks.commit_frame tx s)
            (
              (locks.commit_frame tx s).opens tx o,
              locks.commit_done tx id s h m l,
              not_before s id kept d,
            )
      commit-Stepped tx id s (err e) h kept (o, l, d, m) =
          own_call tx _ s _ _ refl (λ t e. cc) (λ j e. absurd (cc)) (locks.commit_frame tx s)
            ((locks.commit_frame tx s).opens tx o)

      closing-Holds :
          (tx : ℕ) (r : Result WorkError ℕ) (s : S)
          → Holds view start s (closing tx r)
          → Holds view start (db.rollback tx s) (returned r)
      closing-Holds tx (ok id) s (o, d, b) = ((locks.rollback_frame tx s).done_kept id d, b)
      closing-Holds tx (err e) s h = tt

      job_of-closing :
          (tx j : ℕ) (r : Result WorkError ℕ)
          → job_of view (returned r) ≡ some j
          → job_of view (closing tx r) ≡ some j
      job_of-closing tx j (ok id) e = e
      job_of-closing tx j (err x) e = absurd (cc)

      pub work_step-Stepped :
          (p : Phase) (s : S)
          → Kept s
          → Holds view start s p
          → let (p', s') = work_step db sql p s in Stepped p s p' s'
      unfolding work_step
      work_step-Stepped beginning s kept h = begun-Stepped s (db.begin s).0 refl
      work_step-Stepped (claiming tx) s kept h = claim-Stepped tx s (db.claim sql tx s).0 refl h
      work_step-Stepped (finishing tx id) s kept h =
          finish-Stepped tx id s (db.finish tx id s).0 refl h
      work_step-Stepped (committing tx id) s kept h =
          commit-Stepped tx id s (db.commit tx s).0 refl kept h
      work_step-Stepped (closing tx r) s kept h =
          own_call tx _ s _ _ refl (λ t e. absurd (cc)) (λ j e. inl (job_of-closing tx j r e))
            (locks.rollback_frame tx s) (closing-Holds tx r s h)
      work_step-Stepped (returned r) s kept h = record {
        holds = h;
        others = λ q k a. (k, a);
        keeps = λ j e. e;
      }

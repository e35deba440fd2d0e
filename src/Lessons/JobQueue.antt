-- ===== src/Lessons/JobQueue.antt =====
-- lessons/go/background-job-queue/core/core.go: the workers of a job queue, interleaved at their calls of a
-- database that is given by its operations.
pub mod Held
pub mod Steps
pub mod Once
pub mod Progress
use systems_trinkets.Common.{
  ℕ, zero, suc, Option, none, some, List, [], ◌∷◌, ◌++◌, Result, ok, err, Bytes, codes,
}

abbrev pub claim_query : Bytes
claim_query =
    codes
      "select id from background_queue_jobs where status = 'pending' order by id limit 1 for update"

abbrev pub skip_locked_query : Bytes
skip_locked_query = claim_query ++ codes " skip locked"

-- The reply to a claim query: it still waits for a lock, or it gave a row, no row, or an error.
pub data ClaimReply : Type 0 where
  waiting : ClaimReply
  claimed : ℕ → ClaimReply
  no_row : ClaimReply
  claim_failed : Bytes → ClaimReply

-- The calls on a database state `S`. A number stands for each transaction that `Begin` returned.
pub record Database (S : Type 0) : Type 0 where
  pub begin : S → Result Bytes ℕ × S
  pub claim : Bytes → ℕ → S → ClaimReply × S
  -- `update background_queue_jobs set status = 'done' where id = $1`
  pub finish : ℕ → ℕ → S → Result Bytes (Unit {0}) × S
  pub commit : ℕ → S → Result Bytes (Unit {0}) × S
  -- Its error is dropped.
  pub rollback : ℕ → S → S

-- `pgx.ErrNoRows`, or another error
pub data WorkError : Type 0 where
  no_rows : WorkError
  database_error : Bytes → WorkError

-- Where a worker stands in `Work`: before a call, or returned. The claim carries the job; the time that the
-- query took is left out.
pub data Phase : Type 0 where
  beginning : Phase
  claiming : ℕ → Phase
  finishing committing : ℕ → ℕ → Phase
  closing : ℕ → Result WorkError ℕ → Phase
  returned : Result WorkError ℕ → Phase

module _ {S : Type 0} (db : Database S) (sql : Bytes) where
  unfoldable pub begun : Result Bytes ℕ × S → Phase × S
  begun (ok tx, s) = (claiming tx, s)
  begun (err e, s) = (returned (err (database_error e)), s)

  unfoldable pub after_claim : ℕ → ClaimReply × S → Phase × S
  after_claim tx (waiting, s) = (claiming tx, s)
  after_claim tx (claimed id, s) = (finishing tx id, s)
  after_claim tx (no_row, s) = (closing tx (err no_rows), s)
  after_claim tx (claim_failed e, s) = (closing tx (err (database_error e)), s)

  unfoldable pub after_finish : ℕ → ℕ → Result Bytes (Unit {0}) × S → Phase × S
  after_finish tx id (ok u, s) = (committing tx id, s)
  after_finish tx id (err e, s) = (closing tx (err (database_error e)), s)

  unfoldable pub after_commit : ℕ → ℕ → Result Bytes (Unit {0}) × S → Phase × S
  after_commit tx id (ok u, s) = (closing tx (ok id), s)
  after_commit tx id (err e, s) = (closing tx (err (database_error e)), s)

  -- `Work` from one call to the next. The deferred rollback is its last call, after a commit too.
  unfoldable pub work_step : Phase → S → Phase × S
  unfolding begun after_claim after_finish after_commit
  work_step beginning s = begun (db.begin s)
  work_step (claiming tx) s = after_claim tx (db.claim sql tx s)
  work_step (finishing tx id) s = after_finish tx id (db.finish tx id s)
  work_step (committing tx id) s = after_commit tx id (db.commit tx s)
  work_step (closing tx r) s = (returned r, db.rollback tx s)
  work_step (returned r) s = (returned r, s)

  -- A step of one of several workers; a number that names none does nothing.
  unfoldable pub step_at : ℕ → List Phase → S → List Phase × S
  unfolding work_step
  step_at i [] s = ([], s)
  step_at zero (p ∷ ps) s = let (p', s') = work_step p s in (p' ∷ ps, s')
  step_at (suc i) (p ∷ ps) s = let (ps', s') = step_at i ps s in (p ∷ ps', s')

  -- Workers that take their steps in the order given.
  unfoldable pub interleave : List ℕ → List Phase → S → List Phase × S
  unfolding step_at
  interleave [] ps s = (ps, s)
  interleave (i ∷ is) ps s = let (ps', s') = step_at i ps s in interleave is ps' s'

-- Workers that have not started.
unfoldable pub workers : ℕ → List Phase
workers zero = []
workers (suc n) = beginning ∷ workers n

-- The jobs of the workers that have returned one.
unfoldable pub finished : List Phase → List ℕ
finished [] = []
finished (returned (ok id) ∷ ps) = id ∷ finished ps
finished (p ∷ ps) = finished ps

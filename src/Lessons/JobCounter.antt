-- ===== src/Lessons/JobCounter.antt =====
-- lessons/go/completed-job-counter/core/core.go: applying event deliveries to a counter, against a
-- transaction of a database that is given by its operations.
pub mod Counts
pub mod Deliveries
use systems_trinkets.Common.{
  ℕ, Bool, true, false, Option, none, some, List, [], ◌∷◌, ◌==◌, Result, ok, err, Bytes, codes,
}

-- The statements of the package and the transaction calls on a database state `S`. A transaction works on
-- a copy: `commit` gives the database after it, and a rollback leaves the state before it.
pub record Database (S : Type 0) : Type 0 where
  -- `Begin`: the error, or the transaction's state
  pub begin : S → Result Bytes S
  -- `insert into job_seen(event_id) values ($1) on conflict (event_id) do nothing`, with the number
  -- of rows affected
  pub insert_seen : ℕ → S → Result Bytes (ℕ × S)
  -- `update job_counter set total = total + 1 where mode = $1 returning total`; `none` is
  -- `pgx.ErrNoRows`.
  pub update_counter : Bytes → S → Result Bytes (Option ℕ × S)
  -- The transaction, and the database before: with an error, the commit may have been carried out or not.
  pub commit : S → S → Result Bytes (Unit {0}) × S

pub data ApplyError : Type 0 where
  database_error : Bytes → ApplyError
  counter_row_missing : ApplyError

module _ {S : Type 0} (db : Database S) where
  -- `Strategy`: whether one delivery may count, and the transaction's state after the claim
  pub record Strategy : Type 0 where
    pub name : Bytes
    pub claim : S → ℕ → Result Bytes (Bool × S)

  unfoldable pub naive : Strategy
  naive = record { name = codes "naive"; claim = λ tx id. ok (true, tx) }

  abbrev pub rows_claimed : Result Bytes (ℕ × S) → Result Bytes (Bool × S)
  rows_claimed (ok (rows, tx)) = ok (rows == 1, tx)
  rows_claimed (err e) = err e

  unfoldable pub idempotent : Strategy
  idempotent = record {
    name = codes "idempotent";
    claim = λ tx id. rows_claimed (db.insert_seen id tx);
  }

  -- `Apply` from its commit: the total, whether it applied, and the database after the call. Where a call
  -- before the commit fails, the deferred rollback leaves the database as it was.
  unfoldable pub committed :
      ℕ → Bool → Result Bytes (Unit {0}) × S → Result ApplyError (ℕ × Bool) × S
  committed total claimed (ok u, s) = (ok (total, claimed), s)
  committed total claimed (err e, s) = (err (database_error e), s)

  unfoldable pub counted : S → Result Bytes (Option ℕ × S) → Result ApplyError (ℕ × Bool) × S
  unfolding committed
  counted s (ok (some total, tx)) = committed total true (db.commit tx s)
  counted s (ok (none, tx)) = (err counter_row_missing, s)
  counted s (err e) = (err (database_error e), s)

  unfoldable pub claimed_by :
      Strategy → S → Result Bytes (Bool × S) → Result ApplyError (ℕ × Bool) × S
  unfolding counted
  claimed_by strategy s (ok (true, tx)) = counted s (db.update_counter strategy.name tx)
  claimed_by strategy s (ok (false, tx)) = committed 0 false (db.commit tx s)
  claimed_by strategy s (err e) = (err (database_error e), s)

  unfoldable pub apply_in : Strategy → ℕ → S → Result Bytes S → Result ApplyError (ℕ × Bool) × S
  unfolding claimed_by
  apply_in strategy id s (ok tx) = claimed_by strategy s (strategy.claim tx id)
  apply_in strategy id s (err e) = (err (database_error e), s)

  -- `Apply`
  unfoldable pub apply : Strategy → ℕ → S → Result ApplyError (ℕ × Bool) × S
  unfolding apply_in
  apply strategy id s = apply_in strategy id s (db.begin s)

  -- A sequence of deliveries, one after the other.
  unfoldable pub apply_all : Strategy → List ℕ → S → S
  unfolding apply
  apply_all strategy [] s = s
  apply_all strategy (id ∷ ids) s = apply_all strategy ids (apply strategy id s).1

  -- The calls for a sequence of deliveries, each with what it returned.
  unfoldable pub answers : Strategy → List ℕ → S → List (ℕ × Result ApplyError (ℕ × Bool))
  unfolding apply
  answers strategy [] s = []
  answers strategy (id ∷ ids) s =
      (id, (apply strategy id s).0) ∷ answers strategy ids (apply strategy id s).1

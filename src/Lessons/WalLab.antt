-- ===== src/Lessons/WalLab.antt =====
-- lessons/go/sqlite-wal-lab/core/core.go: the reader snapshot and the timed write, against a database/sql
-- that is given by its replies.
pub mod Sessions
use systems_trinkets.Golang.Decimal.{itoa_int}
use systems_trinkets.Common.{Option, none, some, List, ◌∷◌, ◌++◌, Result, ok, err, ℤ, Bytes, codes}

-- `DSN`
unfoldable pub dsn : Bytes → Bytes → ℤ → Bytes
dsn path mode busy_timeout_ms =
    codes "file:"
    ++ (path
        ++ (codes "?_pragma=busy_timeout("
            ++ (itoa_int busy_timeout_ms
                ++ (codes ")&_pragma=journal_mode(" ++ (mode ++ codes ")")))))

-- What has to be released again.
pub data Held : Type 0 where
  transaction connection statement : Held

pub data Action : Type 0 where
  opened released : Held → Action

-- The calls over a state `S`. The errors of a rollback and of a close are dropped.
pub record Database (S : Type 0) : Type 0 where
  pub begin_tx : S → Result Bytes (Unit {0}) × S
  -- `select count(*) from events`
  pub count : S → Result Bytes ℤ × S
  pub rollback : S → S
  pub conn : S → Result Bytes (Unit {0}) × S
  -- `insert into events(payload) values ('new event')`
  pub prepare : S → Result Bytes (Unit {0}) × S
  pub exec : S → Result Bytes (Unit {0}) × S
  pub close_statement : S → S
  pub close_connection : S → S

-- What was opened and released so far, the last first, and the state of the database.
abbrev pub World : Type 0 → Type 0
World S = List Action × S

module _ {S : Type 0} (db : Database S) where
  unfoldable pub counted_rows : Result Bytes ℤ × S → List Action → Result Bytes ℤ × World S
  counted_rows (err e, s) log = (err e, (released transaction ∷ log, db.rollback s))
  counted_rows (ok n, s) log = (ok n, (log, s))

  unfoldable pub snapshot_from :
      Result Bytes (Unit {0}) × S → List Action → Result Bytes ℤ × World S
  unfolding counted_rows
  snapshot_from (err e, s) log = (err e, (log, s))
  snapshot_from (ok u, s) log = counted_rows (db.count s) (opened transaction ∷ log)

  -- `OpenSnapshot`: the rows counted, in a transaction that the caller has to roll back
  unfoldable pub open_snapshot : World S → Result Bytes ℤ × World S
  unfolding snapshot_from
  open_snapshot (log, s) = snapshot_from (db.begin_tx s) log

  abbrev pub write_error : Result Bytes (Unit {0}) → Option Bytes
  write_error (ok u) = none
  write_error (err e) = some e

  -- The deferred closes, the statement's first.
  unfoldable pub closing_connection :
      Result Bytes (Option Bytes) × World S → Result Bytes (Option Bytes) × World S
  closing_connection (r, (log, s)) = (r, (released connection ∷ log, db.close_connection s))

  unfoldable pub closing_statement :
      Result Bytes (Option Bytes) × World S → Result Bytes (Option Bytes) × World S
  closing_statement (r, (log, s)) = (r, (released statement ∷ log, db.close_statement s))

  unfoldable pub written :
      Result Bytes (Unit {0}) × S → List Action → Result Bytes (Option Bytes) × World S
  unfolding closing_statement
  written (err e, s) log = (err e, (log, s))
  written (ok u, s) log =
      let (r, s') = db.exec s in
      closing_statement (ok (write_error r), (opened statement ∷ log, s'))

  unfoldable pub write_on :
      Result Bytes (Unit {0}) × S → List Action → Result Bytes (Option Bytes) × World S
  unfolding closing_connection written
  write_on (err e, s) log = (err e, (log, s))
  write_on (ok u, s) log = closing_connection (written (db.prepare s) (opened connection ∷ log))

  -- `WriteEvent`: its `WriteErr`; the time that it took is left out.
  unfoldable pub write_event : World S → Result Bytes (Option Bytes) × World S
  unfolding write_on
  write_event (log, s) = write_on (db.conn s) log

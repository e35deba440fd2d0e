-- ===== src/Witnesses/Sessions.antt =====
-- The property of the SQLite lesson on a small database.
use systems_trinkets.Golang.Decimal.{itoa, itoa_int}
use systems_trinkets.Common.{
  ℕ, suc, ◌≡◌, refl, some, [], ◌∷◌, ◌==◌, if◌then◌else◌, ok, err, pos, codes,
}
use systems_trinkets.Lessons.WalLab.{
  Held, connection, statement, opened, released, Database, dsn, open_snapshot, write_event,
}
use systems_trinkets.Lessons.WalLab.Sessions.{held, HoldsOne, sessions_lem}

-- Its state is the number of rows; it is locked where there are two.
abbrev locking : Database ℕ
locking = record {
  begin_tx = λ s. (ok tt, s);
  count = λ s. (ok (pos s), s);
  rollback = λ s. s;
  conn = λ s. (ok tt, s);
  prepare = λ s. (ok tt, s);
  exec = λ s. if s == 2 then (err (codes "database is locked"), s) else (ok tt, suc s);
  close_statement = λ s. s;
  close_connection = λ s. s;
}

locked_write : write_event locking ([], 2) ≡ (
  ok (some (codes "database is locked")),
  (released connection ∷ released statement ∷ opened statement ∷ opened connection ∷ [], 2),
)
unfolding write_event dsn itoa_int itoa
locked_write = refl

dsn_text :
    dsn (codes "a.db") (codes "WAL") (pos 50)
    ≡ codes "file:a.db?_pragma=busy_timeout(50)&_pragma=journal_mode(WAL)"
unfolding dsn itoa_int itoa
dsn_text = refl

sessions_lem_example :
    HoldsOne [] (open_snapshot locking ([], 2))
    × ((k : Held) → held k (write_event locking ([], 2)).1.0 ≡ held k [])
sessions_lem_example = sessions_lem locking ([], 2)

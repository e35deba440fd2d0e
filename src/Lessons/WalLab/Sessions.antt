-- ===== src/Lessons/WalLab/Sessions.antt =====
-- What the snapshot and the write of lessons/go/sqlite-wal-lab hold when they return.
use systems_trinkets.Common.{
  arith, ℕ, suc, ◌-◌, ◌≡◌, refl, ap, ◌∙◌, inl, inr, Bool, true, false, List, [], ◌∷◌, if◌then◌else◌,
  Bool-cases, Result, ok, err, ℤ, Bytes,
}
use systems_trinkets.Lessons.WalLab.{
  Held, transaction, connection, statement, Action, opened, released, Database, World, counted_rows,
  snapshot_from, open_snapshot, closing_connection, closing_statement, written, write_on,
  write_event,
}

abbrev pub same_kind : Held → Held → Bool
same_kind transaction transaction = true
same_kind connection connection = true
same_kind statement statement = true
same_kind h k = false

-- How many of a kind are held.
unfoldable pub held : Held → List Action → ℕ
held k [] = 0
held k (opened h ∷ log) = if same_kind h k then suc (held k log) else held k log
held k (released h ∷ log) = if same_kind h k then held k log - 1 else held k log

released_again :
    (h k : Held) (log : List Action) → held k (released h ∷ opened h ∷ log) ≡ held k log
unfolding held
released_again h k log = elim (Bool-cases (same_kind h k)) [
  | inl e ↦ rw e (omega arith)
  | inr e ↦ rw e refl
]

-- The close of a connection over logs that hold the same.
held_below :
    (k : Held) (log log' : List Action)
    → held k log' ≡ held k log
    → held k (released connection ∷ log') ≡ held k (released connection ∷ log)
unfolding held
held_below k log log' e = ap (λ n. if same_kind connection k then n - 1 else n) e

module _ {S : Type 0} where
  -- A snapshot holds one transaction more, an error nothing more.
  abbrev pub HoldsOne : List Action → Result Bytes ℤ × World S → Type 0
  HoldsOne log (ok n, (log', s)) =
      (k : Held) → held k log' ≡ (if same_kind transaction k then suc (held k log) else held k log)
  HoldsOne log (err e, (log', s)) = (k : Held) → held k log' ≡ held k log

module _ {S : Type 0} (db : Database S) where
  snapshot-HoldsOne :
      (r : Result Bytes (Unit {0})) (s : S) (log : List Action)
      → HoldsOne log (snapshot_from db (r, s) log)
  unfolding snapshot_from
  snapshot-HoldsOne (err e) s log = λ k. refl
  snapshot-HoldsOne (ok u) s log = go (db.count s).0 _
    where
      go :
          (r : Result Bytes ℤ) (s : S)
          → HoldsOne log (counted_rows db (r, s) (opened transaction ∷ log))
      go (ok n) s = unfold counted_rows held in λ k. refl
      go (err e) s = unfold counted_rows held in λ k. released_again transaction k log

  write_on-held :
      (r : Result Bytes (Unit {0})) (s : S) (log : List Action) (k : Held)
      → held k (write_on db (r, s) log).1.0 ≡ held k log
  unfolding write_on closing_connection
  write_on-held (err e) s log k = refl
  write_on-held (ok u) s log k = go (db.prepare s).0 _
    where
      go :
          (r : Result Bytes (Unit {0})) (s : S)
          → held k (released connection ∷ (written db (r, s) (opened connection ∷ log)).1.0)
            ≡ held k log
      go (err e) s = unfold written in released_again connection k log
      go (ok v) s =
          unfold written closing_statement in
          held_below k (opened connection ∷ log) _
            (released_again statement k (opened connection ∷ log))
          ∙ released_again connection k log

  -- Whatever fails, a snapshot that is returned holds one transaction more than before and nothing else, one
  -- that is refused holds nothing more, and a write holds neither its connection nor its statement.
  pub sessions_lem :
      (w : World S)
      → HoldsOne w.0 (open_snapshot db w)
        × ((k : Held) → held k (write_event db w).1.0 ≡ held k w.0)
  unfolding open_snapshot write_event
  sessions_lem (log, s) =
      (snapshot-HoldsOne (db.begin_tx s).0 _ log, write_on-held (db.conn s).0 _ log)

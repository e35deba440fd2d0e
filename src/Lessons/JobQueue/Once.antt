-- ===== src/Lessons/JobQueue/Once.antt =====
-- No job is worked twice, in any interleaving of the workers of lessons/go/background-job-queue.
use systems_trinkets.Common.{
  ℕ, zero, suc, ◌≡◌, refl, true, false, some, List, [], ◌∷◌, ok, err, Bytes, All, Mem, here, there,
}
use systems_trinkets.Lessons.JobQueue.{
  Database, Phase, step_at, interleave, workers, finished, beginning, claiming, finishing,
  committing, closing, returned,
}
use systems_trinkets.Lessons.JobCounter.Deliveries.{Unique}
use systems_trinkets.Lessons.JobQueue.Held.{View, Locks, Holds, job_of}
use systems_trinkets.Lessons.JobQueue.Steps.{
  Apart, AllApart, Apart-sym, Kept, Stepped, work_step-Stepped,
}

module _ {S : Type 0} (db : Database S) (sql : Bytes) (view : View S) (start : S) where
  -- All workers hold what they rely on, and no two share a transaction or a job.
  record Sound (ps : List Phase) (s : S) : Type 0 where
    pub hold : All (Holds view start s) ps
    pub apart : AllApart view ps
    pub kept : Kept view start s

  -- The others, after one worker's step.
  others_after :
      (p p' : Phase) (s s' : S) (qs : List Phase)
      → Stepped view start p s p' s'
      → All (Holds view start s) qs
      → All (Apart view p) qs
      → All (Holds view start s') qs × All (Apart view p') qs
  others_after p p' s s' [] st h a = (tt, tt)
  others_after p p' s s' (q ∷ qs) st (h, hs) (a, aps) =
      let (h', a') = st.others q h a in
      let (hs', bs) = others_after p p' s s' qs st hs aps in ((h', hs'), (a', bs))

  -- A step among `ps` keeps what a worker beside them relies on, and keeps them sound.
  record Advanced (ps ps' : List Phase) (s s' : S) : Type 0 where
    pub sound : Sound ps' s'
    pub beside :
        (q : Phase)
        → Holds view start s q
        → All (Apart view q) ps
        → Holds view start s' q × All (Apart view q) ps'

  module _ (locks : Locks view db sql) where
    step_at-Advanced :
        (i : ℕ) (ps : List Phase) (s : S)
        → Sound ps s
        → let (ps', s') = step_at db sql i ps s in Advanced ps ps' s s'
    unfolding step_at
    step_at-Advanced i [] s h = record { sound = h; beside = λ q k a. (k, a) }
    step_at-Advanced zero (p ∷ ps) s h =
        let st = work_step-Stepped view start db sql locks p s h.kept h.hold.0 in
        let (hs, aps) = others_after p _ s _ ps st h.hold.1 h.apart.0 in
        record {
          sound = record {
            hold = (st.holds, hs);
            apart = (aps, h.apart.1);
            kept = λ j e. st.keeps j (h.kept j e);
          };
          beside = λ q k (a, rest).
              let (k', a') = st.others q k (Apart-sym view q p a) in
              (k', (Apart-sym view _ q a', rest));
        }
    step_at-Advanced (suc i) (p ∷ ps) s h =
        let rest =
          step_at-Advanced i ps s (record { hold = h.hold.1; apart = h.apart.1; kept = h.kept }) in
        let (k, a) = rest.beside p h.hold.0 h.apart.0 in
        record {
          sound = record {
            hold = (k, rest.sound.hold);
            apart = (a, rest.sound.apart);
            kept = rest.sound.kept;
          };
          beside = λ q k (a, aps). let (k', bs) = rest.beside q k aps in (k', (a, bs));
        }

    interleave-Sound :
        (schedule : List ℕ) (ps : List Phase) (s : S)
        → Sound ps s
        → let (ps', s') = interleave db sql schedule ps s in Sound ps' s'
    unfolding interleave
    interleave-Sound [] ps s h = h
    interleave-Sound (i ∷ is) ps s h = interleave-Sound is _ _ (step_at-Advanced i ps s h).sound

  new-Apart : (p : Phase) (n : ℕ) → p ≡ beginning → All (Apart view p) (workers n)
  unfolding workers
  new-Apart p zero e = tt
  new-Apart p (suc n) e =
      (record { txs = λ t u g o. absurd (cc); jobs = λ j k g o. absurd (cc) }, new-Apart p n e)

  workers-Sound : (n : ℕ) → Sound (workers n) start
  unfolding workers
  workers-Sound zero = record { hold = tt; apart = tt; kept = λ j e. e }
  workers-Sound (suc n) =
      let rest = workers-Sound n in
      record {
        hold = (tt, rest.hold);
        apart = (new-Apart beginning n refl, rest.apart);
        kept = rest.kept;
      }

  finished-done :
      (ps : List Phase) (s : S)
      → All (Holds view start s) ps
      → All (λ id. (view.done s id ≡ true) × (view.done start id ≡ false)) (finished ps)
  unfolding finished
  finished-done [] s h = tt
  finished-done (returned (ok id) ∷ ps) s (k, h) = (k, finished-done ps s h)
  finished-done (returned (err e) ∷ ps) s (k, h) = finished-done ps s h
  finished-done (beginning ∷ ps) s (k, h) = finished-done ps s h
  finished-done (claiming tx ∷ ps) s (k, h) = finished-done ps s h
  finished-done (finishing tx id ∷ ps) s (k, h) = finished-done ps s h
  finished-done (committing tx id ∷ ps) s (k, h) = finished-done ps s h
  finished-done (closing tx r ∷ ps) s (k, h) = finished-done ps s h

  finished-Apart :
      (p : Phase) (id : ℕ) (ps : List Phase)
      → job_of view p ≡ some id
      → All (Apart view p) ps
      → Mem id (finished ps)
      → ⊥
  unfolding finished
  finished-Apart p id [] e a m = elim m [ ]
  finished-Apart p id (returned (ok k) ∷ ps) e (a, aps) (here same) = a.jobs id k e refl same
  finished-Apart p id (returned (ok k) ∷ ps) e (a, aps) (there m) = finished-Apart p id ps e aps m
  finished-Apart p id (returned (err x) ∷ ps) e (a, aps) m = finished-Apart p id ps e aps m
  finished-Apart p id (beginning ∷ ps) e (a, aps) m = finished-Apart p id ps e aps m
  finished-Apart p id (claiming tx ∷ ps) e (a, aps) m = finished-Apart p id ps e aps m
  finished-Apart p id (finishing tx k ∷ ps) e (a, aps) m = finished-Apart p id ps e aps m
  finished-Apart p id (committing tx k ∷ ps) e (a, aps) m = finished-Apart p id ps e aps m
  finished-Apart p id (closing tx r ∷ ps) e (a, aps) m = finished-Apart p id ps e aps m

  finished-Unique : (ps : List Phase) → AllApart view ps → Unique (finished ps)
  unfolding finished
  finished-Unique [] a = tt
  finished-Unique (returned (ok id) ∷ ps) (a, aps) =
      (finished-Apart (returned (ok id)) id ps refl a, finished-Unique ps aps)
  finished-Unique (returned (err e) ∷ ps) (a, aps) = finished-Unique ps aps
  finished-Unique (beginning ∷ ps) (a, aps) = finished-Unique ps aps
  finished-Unique (claiming tx ∷ ps) (a, aps) = finished-Unique ps aps
  finished-Unique (finishing tx id ∷ ps) (a, aps) = finished-Unique ps aps
  finished-Unique (committing tx id ∷ ps) (a, aps) = finished-Unique ps aps
  finished-Unique (closing tx r ∷ ps) (a, aps) = finished-Unique ps aps

  -- However the calls of any number of workers are interleaved, the jobs that their `Work` has returned are
  -- all different, each of them is done, and none of them was done at the start. The condition is what
  -- Postgres documents of row locks and of uncommitted updates.
  pub interleave_lem :
      (locks : Locks view db sql) (n : ℕ) (schedule : List ℕ)
      → let (ps, s) = interleave db sql schedule (workers n) start in
        Unique (finished ps)
        × All (λ id. (view.done s id ≡ true) × (view.done start id ≡ false)) (finished ps)
  interleave_lem locks n schedule =
      let sound = interleave-Sound locks schedule (workers n) start (workers-Sound n) in
      (finished-Unique _ sound.apart, finished-done _ _ sound.hold)

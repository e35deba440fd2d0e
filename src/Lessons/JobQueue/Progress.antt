-- ===== src/Lessons/JobQueue/Progress.antt =====
-- Every worker of lessons/go/background-job-queue returns, whatever the others do.
use systems_trinkets.Common.{
  ℕ, zero, suc, ◌-◌, ◌≤◌, ◌<◌, ◌≡◌, refl, ap, ◌∙◌, ◌≢◌, inl, inr, List, [], ◌∷◌, arith, ltb, ◌==◌,
  if◌then◌else◌, ==_iff, ==_refl, Bool-cases, Result, ok, err, Bytes, length, All,
}
use systems_trinkets.Lessons.JobQueue.{
  ClaimReply, waiting, claimed, no_row, claim_failed, Database, Phase, beginning, claiming,
  finishing, committing, closing, returned, WorkError, begun, after_claim, after_finish,
  after_commit, work_step, step_at, interleave, workers,
}

-- How often a worker is at a call before it returns, at most, if its claim does not wait.
unfoldable pub calls_left : Phase → ℕ
calls_left beginning = 5
calls_left (claiming tx) = 4
calls_left (finishing tx id) = 3
calls_left (committing tx id) = 2
calls_left (closing tx r) = 1
calls_left (returned r) = 0

-- The same of the worker with that number, 0 where there is none.
left_at : ℕ → List Phase → ℕ
unfolding calls_left
left_at i [] = 0
left_at zero (p ∷ ps) = calls_left p
left_at (suc i) (p ∷ ps) = left_at i ps

abbrev pub turns : ℕ → List ℕ → ℕ
turns i [] = 0
turns i (k ∷ ks) = if k == i then suc (turns i ks) else turns i ks

abbrev pub IsReturned : Phase → Type 0
IsReturned p = (r : Result WorkError ℕ) × (p ≡ returned r)

none_left : (p : Phase) → calls_left p ≡ 0 → IsReturned p
unfolding calls_left
none_left beginning e = absurd (cc)
none_left (claiming tx) e = absurd (cc)
none_left (finishing tx id) e = absurd (cc)
none_left (committing tx id) e = absurd (cc)
none_left (closing tx r) e = absurd (cc)
none_left (returned r) e = (r, refl)

all-IsReturned : (ps : List Phase) → ((i : ℕ) → left_at i ps ≡ 0) → All IsReturned ps
unfolding left_at
all-IsReturned [] h = tt
all-IsReturned (p ∷ ps) h = (none_left p (h zero), all-IsReturned ps (λ i. h (suc i)))

left_at-workers : (n i : ℕ) → left_at i (workers n) ≤ 5
unfolding left_at workers calls_left
left_at-workers zero i = omega arith
left_at-workers (suc n) zero = omega arith
left_at-workers (suc n) (suc i) = left_at-workers n i

left_beyond : (n i : ℕ) → n ≤ i → left_at i (workers n) ≡ 0
unfolding left_at workers
left_beyond zero i h = refl
left_beyond (suc n) zero h = absurd (omega arith)
left_beyond (suc n) (suc i) h = left_beyond n i (omega arith)

length-workers : (n : ℕ) → length (workers n) ≡ n
unfolding workers
length-workers zero = refl
length-workers (suc n) = ap suc (length-workers n)

module _ {S : Type 0} (db : Database S) (sql : Bytes) where
  -- What `skip locked` is documented to do.
  abbrev pub NeverWaits : Type 0
  NeverWaits = (tx : ℕ) (s : S) → (db.claim sql tx s).0 ≢ waiting

  work_step-returned :
      (r : Result WorkError ℕ) (s : S) → calls_left (work_step db sql (returned r) s).0 ≡ 0
  unfolding work_step calls_left
  work_step-returned r s = refl

  module _ (never : NeverWaits) where
    work_step-left : (p : Phase) (s : S) → calls_left (work_step db sql p s).0 ≤ calls_left p - 1
    unfolding work_step
    work_step-left beginning s = go (db.begin s).0
      where
        go :
            (r : Result Bytes ℕ)
            → calls_left (begun db sql (r, (db.begin s).1)).0 ≤ calls_left beginning - 1
        go (ok tx) = unfold begun calls_left in omega arith
        go (err e) = unfold begun calls_left in omega arith
    work_step-left (claiming tx) s = go (db.claim sql tx s).0 (never tx s)
      where
        go :
            (r : ClaimReply)
            → r ≢ waiting
            → calls_left (after_claim db sql tx (r, (db.claim sql tx s).1)).0
              ≤ calls_left (claiming tx) - 1
        go waiting n = absurd (n refl)
        go (claimed id) n = unfold after_claim calls_left in omega arith
        go no_row n = unfold after_claim calls_left in omega arith
        go (claim_failed e) n = unfold after_claim calls_left in omega arith
    work_step-left (finishing tx id) s = go (db.finish tx id s).0
      where
        go :
            (r : Result Bytes (Unit {0}))
            → calls_left (after_finish db sql tx id (r, (db.finish tx id s).1)).0
              ≤ calls_left (finishing tx id) - 1
        go (ok u) = unfold after_finish calls_left in omega arith
        go (err e) = unfold after_finish calls_left in omega arith
    work_step-left (committing tx id) s = go (db.commit tx s).0
      where
        go :
            (r : Result Bytes (Unit {0}))
            → calls_left (after_commit db sql tx id (r, (db.commit tx s).1)).0
              ≤ calls_left (committing tx id) - 1
        go (ok u) = unfold after_commit calls_left in omega arith
        go (err e) = unfold after_commit calls_left in omega arith
    work_step-left (closing tx r) s = unfold calls_left in omega arith
    work_step-left (returned r) s = unfold calls_left in omega arith

    step_at-own :
        (i : ℕ) (ps : List Phase) (s : S) → left_at i (step_at db sql i ps s).0 ≤ left_at i ps - 1
    unfolding step_at left_at
    step_at-own i [] s = omega arith
    step_at-own zero (p ∷ ps) s = work_step-left p s
    step_at-own (suc i) (p ∷ ps) s = step_at-own i ps s

    step_at-other :
        (k i : ℕ) (ps : List Phase) (s : S)
        → k ≢ i
        → left_at i (step_at db sql k ps s).0 ≡ left_at i ps
    unfolding step_at left_at
    step_at-other k i [] s n = refl
    step_at-other zero zero (p ∷ ps) s n = absurd (n refl)
    step_at-other zero (suc i) (p ∷ ps) s n = refl
    step_at-other (suc k) zero (p ∷ ps) s n = refl
    step_at-other (suc k) (suc i) (p ∷ ps) s n = step_at-other k i ps s (λ e. n (ap suc e))

    interleave-left :
        (i : ℕ) (schedule : List ℕ) (ps : List Phase) (s : S)
        → left_at i (interleave db sql schedule ps s).0 ≤ left_at i ps - turns i schedule
    unfolding interleave
    interleave-left i [] ps s = omega arith
    interleave-left i (k ∷ ks) ps s =
        let rest = interleave-left i ks (step_at db sql k ps s).0 (step_at db sql k ps s).1 in
        elim (Bool-cases (k == i)) [
          | inl e ↦
              let same : k ≡ i = (==_iff k i).0 e in
              let own : left_at i (step_at db sql k ps s).0 ≤ left_at i ps - 1 =
                rw same (step_at-own i ps s) in
              rw e (omega arith)
          | inr e ↦
              let other = step_at-other k i ps s (λ same. absurd (cc (==_refl i))) in
              rw e (rw other at rest)
        ]

    step_at-length :
        (i : ℕ) (ps : List Phase) (s : S) → length (step_at db sql i ps s).0 ≡ length ps
    unfolding step_at
    step_at-length i [] s = refl
    step_at-length zero (p ∷ ps) s = refl
    step_at-length (suc i) (p ∷ ps) s = ap suc (step_at-length i ps s)

    interleave-length :
        (schedule : List ℕ) (ps : List Phase) (s : S)
        → length (interleave db sql schedule ps s).0 ≡ length ps
    unfolding interleave
    interleave-length [] ps s = refl
    interleave-length (i ∷ is) ps s = interleave-length is _ _ ∙ step_at-length i ps s

    -- Where a claim never waits for a lock, which is what `skip locked` is for, each of the workers has
    -- returned once the schedule has given it five turns, whatever the database answers and the others do.
    pub interleave_ends :
        (n : ℕ) (schedule : List ℕ) (s : S)
        → ((i : ℕ) → i < n → 5 ≤ turns i schedule)
        → let ps = (interleave db sql schedule (workers n) s).0 in
          (length ps ≡ n) × All IsReturned ps
    interleave_ends n schedule s fair =
        (interleave-length schedule (workers n) s ∙ length-workers n, all-IsReturned _ nothing_left)
      where
        nothing_left : (i : ℕ) → left_at i (interleave db sql schedule (workers n) s).0 ≡ 0
        nothing_left i =
            let bound = interleave-left i schedule (workers n) s in
            elim (Bool-cases (ltb i n)) [
              | inl t ↦
                  let inside : i < n = ground arith in
                  let enough = fair i inside in let most = left_at-workers n i in omega arith
              | inr t ↦
                  let outside : n ≤ i = ground arith in
                  let zero_left = left_beyond n i outside in omega arith
            ]

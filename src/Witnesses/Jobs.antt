-- ===== src/Witnesses/Jobs.antt =====
-- The properties of the job queue on a small database.
use systems_trinkets.Common.{
  ℕ, zero, suc, ◌≤◌, ◌<◌, ◌≡◌, refl, sym, ap, ◌≢◌, ◌⊎◌, inl, inr, Bool, true, false, not, ◌&&◌,
  ◌||◌, Option, none, some, List, [], ◌∷◌, arith, ltb, ◌==◌, if◌then◌else◌, ==_iff, ==_refl,
  Bool-cases, Option-cases, ok, length, All,
}
use systems_trinkets.Lessons.JobCounter.Deliveries.{Unique}
use systems_trinkets.Lessons.JobQueue.{
  skip_locked_query, ClaimReply, claimed, no_row, Database, workers, interleave, finished,
}
use systems_trinkets.Lessons.JobQueue.Held.{View, Frame, Locks}
use systems_trinkets.Lessons.JobQueue.Once.{interleave_lem}
use systems_trinkets.Lessons.JobQueue.Progress.{turns, NeverWaits, IsReturned, interleave_ends}

-- Two jobs, and the next transaction.
record Table : Type 0 where
  pub next : ℕ
  pub done : ℕ → Bool
  pub holder : ℕ → Option ℕ
  pub marked : ℕ → ℕ → Bool

held_by : ℕ → Option ℕ → Bool
held_by tx none = false
held_by tx (some t) = t == tx

is_free : Table → ℕ → Bool
is_free s j = elim (s.holder j) [ none ↦ not (s.done j) | some t ↦ false ]

lock : ℕ → ℕ → Table → Table
lock tx id s = record s { holder = λ j. if j == id then some tx else s.holder j }

-- The oldest of the free ones.
claim_from : ℕ → Table → ClaimReply × Table
unfolding is_free lock
claim_from tx s =
    if is_free s 0
    then (claimed 0, lock tx 0 s)
    else if is_free s 1
    then (claimed 1, lock tx 1 s)
    else (no_row, s)

mark : ℕ → ℕ → Table → Table
mark tx id s = record s { marked = λ t j. (t == tx && j == id) || s.marked t j }

release : ℕ → Table → Table
unfolding held_by
release tx s = record s { holder = λ j. if held_by tx (s.holder j) then none else s.holder j }

publish : ℕ → Table → Table
unfolding held_by
publish tx s = record s { done = λ j. s.done j || (s.marked tx j && held_by tx (s.holder j)) }

small_queue : Database Table
unfolding claim_from mark release publish
small_queue = record {
  begin = λ s. (ok s.next, record s { next = suc s.next });
  claim = λ sql tx s. claim_from tx s;
  finish = λ tx id s. (ok tt, mark tx id s);
  commit = λ tx s. (ok tt, release tx (publish tx s));
  rollback = λ tx s. release tx s;
}

seen : View Table
seen = record {
  done = λ s j. s.done j;
  holder = λ s j. s.holder j;
  marked = λ s t j. s.marked t j;
  opened = λ s t. ltb t s.next;
}

fresh_table : Table
fresh_table = record { next = 0; done = λ j. false; holder = λ j. none; marked = λ t j. false }

abbrev rounds : List ℕ
rounds = 0 ∷ 1 ∷ 2 ∷ 0 ∷ 1 ∷ 2 ∷ 0 ∷ 1 ∷ 2 ∷ 0 ∷ 1 ∷ 2 ∷ 0 ∷ 1 ∷ 2 ∷ []

two_worked :
    finished (interleave small_queue skip_locked_query rounds (workers 3) fresh_table).0
    ≡ 0 ∷ 1 ∷ []
unfolding finished interleave small_queue workers fresh_table
two_worked = refl

held_by_iff : (tx : ℕ) (o : Option ℕ) → held_by tx o ≡ true → o ≡ some tx
unfolding held_by
held_by_iff tx none h = absurd (cc)
held_by_iff tx (some t) h = ap some ((==_iff t tx).0 h)

claim_cases :
    (tx : ℕ) (s : Table)
    → ((id : ℕ) × (is_free s id ≡ true) × (claim_from tx s ≡ (claimed id, lock tx id s)))
      ⊎ (claim_from tx s ≡ (no_row, s))
unfolding claim_from
claim_cases tx s = elim (Bool-cases (is_free s 0)) [
  | inl a ↦ inl (0, a, rw a refl)
  | inr a ↦ elim (Bool-cases (is_free s 1)) [
    | inl b ↦ inl (1, b, rw (a, b) refl)
    | inr b ↦ inr (rw (a, b) refl)
  ]
]

lock-Frame : (tx id : ℕ) (s : Table) → is_free s id ≡ true → Frame seen (some tx) s (lock tx id s)
unfolding lock is_free seen
lock-Frame tx id s free = record {
  done_kept = λ j d. d;
  done_new = λ j d. inl d;
  held = λ j t other h. elim (Bool-cases (j == id)) [
    | inr e ↦ rw e h
    | inl e ↦
        let same : j ≡ id = (==_iff j id).0 e in
        let held : s.holder id ≡ some t = rw (← same) h in absurd (cc (rw (is_free, held) at free))
  ];
  marks = λ j t other m. m;
  opens = λ t o. o;
}

mark-Frame : (tx id : ℕ) (s : Table) → Frame seen (some tx) s (mark tx id s)
unfolding mark seen
mark-Frame tx id s = record {
  done_kept = λ j d. d;
  done_new = λ j d. inl d;
  held = λ j t other h. h;
  marks = λ j t other m. ground arith;
  opens = λ t o. o;
}

release-holder :
    (tx : ℕ) (s : Table) (j t : ℕ)
    → some tx ≢ some t
    → s.holder j ≡ some t
    → (release tx s).holder j ≡ some t
unfolding release held_by
release-holder tx s j t other h = elim (Bool-cases (t == tx)) [
  | inl e ↦ absurd (other (ap some (sym ((==_iff t tx).0 e))))
  | inr e ↦ rw (h, e) refl
]

release-Frame : (tx : ℕ) (s : Table) → Frame seen (some tx) s (release tx s)
unfolding seen release
release-Frame tx s = record {
  done_kept = λ j d. d;
  done_new = λ j d. inl d;
  held = λ j t other h. release-holder tx s j t other h;
  marks = λ j t other m. m;
  opens = λ t o. o;
}

commit-Frame : (tx : ℕ) (s : Table) → Frame seen (some tx) s (release tx (publish tx s))
unfolding publish seen release
commit-Frame tx s = record {
  done_kept = λ j d. ground arith;
  done_new = λ j d. elim (Bool-cases (held_by tx (s.holder j))) [
    | inl e ↦ inr (tx, refl, held_by_iff tx (s.holder j) e)
    | inr e ↦ inl (ground arith)
  ];
  held = λ j t other h. release-holder tx (publish tx s) j t other h;
  marks = λ j t other m. m;
  opens = λ t o. o;
}

claim-Frame : (tx : ℕ) (s : Table) → Frame seen (some tx) s (claim_from tx s).1
unfolding seen
claim-Frame tx s = elim (claim_cases tx s) [
  | inl (id, free, e) ↦ rw e (lock-Frame tx id s free)
  | inr e ↦ rw e (record {
    done_kept = λ j d. d;
    done_new = λ j d. inl d;
    held = λ j t other h. h;
    marks = λ j t other m. m;
    opens = λ t o. o;
  })
]

free-pending : (s : Table) (j : ℕ) → is_free s j ≡ true → s.done j ≡ false
unfolding is_free
free-pending s j h = elim (Option-cases (s.holder j)) [
  | inl e ↦ ground arith
  | inr (t, e) ↦ absurd (ground arith)
]

claim-locks :
    (tx id : ℕ) (s : Table)
    → (claim_from tx s).0 ≡ claimed id
    → ((claim_from tx s).1.done id ≡ false) × ((claim_from tx s).1.holder id ≡ some tx)
unfolding lock
claim-locks tx id s h = elim (claim_cases tx s) [
  | inr e ↦ absurd (cc)
  | inl (k, free, e) ↦
      let same : k ≡ id = cc in
      rw (e, same) (free-pending s id (rw (← same) free), rw (==_refl id) refl)
]

small_queue-Locks : Locks seen small_queue skip_locked_query
unfolding small_queue seen
small_queue-Locks = record {
  begin_frame = λ s. record {
    done_kept = λ j d. d;
    done_new = λ j d. inl d;
    held = λ j t other h. h;
    marks = λ j t other m. m;
    opens = λ t o. ground arith;
  };
  begin_new = λ s tx e. let same : s.next ≡ tx = cc in ground arith;
  claim_frame = λ tx s. claim-Frame tx s;
  claim_locks = λ tx id s e. claim-locks tx id s e;
  finish_frame = λ tx id s. mark-Frame tx id s;
  finish_marks = λ tx id s e h d. (unfold mark in rw (==_refl tx, ==_refl id) refl, h, d);
  commit_frame = λ tx s. commit-Frame tx s;
  commit_done =
      λ tx id s e m h. unfold release publish held_by in rw (m, h, ==_refl tx) (ground arith);
  rollback_frame = λ tx s. release-Frame tx s;
}

interleave_lem_example :
    let (ps, s) = interleave small_queue skip_locked_query rounds (workers 3) fresh_table in
    Unique (finished ps)
    × All (λ id. (seen.done s id ≡ true) × (seen.done fresh_table id ≡ false)) (finished ps)
interleave_lem_example =
    interleave_lem small_queue skip_locked_query seen fresh_table small_queue-Locks 3 rounds

never_waits : NeverWaits small_queue skip_locked_query
unfolding small_queue
never_waits tx s e = elim (claim_cases tx s) [ inl (id, free, f) ↦ cc | inr f ↦ cc ]

five_turns : (i : ℕ) → i < 3 → 5 ≤ turns i rounds
five_turns zero h = omega arith
five_turns (suc zero) h = omega arith
five_turns (suc (suc zero)) h = omega arith
five_turns (suc (suc (suc i))) h = absurd (omega arith)

interleave_ends_example :
    let ps = (interleave small_queue skip_locked_query rounds (workers 3) fresh_table).0 in
    (length ps ≡ 3) × All IsReturned ps
interleave_ends_example =
    interleave_ends small_queue skip_locked_query never_waits 3 rounds fresh_table five_turns

-- ===== src/Probe/Restored/Children.antt =====
-- Every child that `fork` started is killed and waited for.
use systems_trinkets.Common.{
  ℕ, zero, suc, ◌≡◌, ap, ◌⊎◌, inl, inr, true, List, [], ◌∷◌, Result, ok, err, Bytes,
}
use systems_trinkets.Probe.Process.{
  with_child, start_next, start_children, Started, stop_children, forked, fork_check,
}
use systems_trinkets.Probe.Machine.{
  Action, child_started, child_killed, child_reaped, Machine, World,
}
use systems_trinkets.Probe.Restored.Things.{
  Thing, child, effect, is_open, Restored, reaped_opens_nothing, reaped_self, started_self,
  killed_silent, is_open-cons,
}

module _ {S : Type 0} (m : Machine S) where
  -- Children.
  Among : Thing → List ℕ → Type 0
  Among t [] = ⊥
  Among t (p ∷ ps) = (t ≡ child p) ⊎ Among t ps

  stop_children-open :
      (pids : List ℕ) (w : World S) (t : Thing)
      → is_open t (stop_children m pids w).0 ≡ true
      → (is_open t w.0 ≡ true) × (Among t pids → ⊥)
  unfolding stop_children Among
  stop_children-open [] w t e = (e, λ a. a)
  stop_children-open (p ∷ ps) (log, s) t e =
      let (left, others) = stop_children-open ps _ t e in
      elim (is_open-cons t (child_reaped p) _ left) [
        | inl opened ↦ absurd (reaped_opens_nothing p t opened)
        | inr (silent, before) ↦ elim (is_open-cons t (child_killed p) log before) [
          | inl opened ↦ absurd (cc (killed_silent p t))
          | inr (quiet, still) ↦ (
            still,
            λ a. elim a [
              | inl same ↦ absurd (cc (reaped_self p, ap (λ x. effect x (child_reaped p)) same))
              | inr among ↦ others among
            ],
          )
        ]
      ]

  -- What `start_children` adds to the open things are the children that it returns.
  abbrev StartedFrom : List Action → Started m → Type 0
  StartedFrom log r = (t : Thing) → is_open t r.1.0 ≡ true → (is_open t log ≡ true) ⊎ Among t r.0.0

  started_child :
      (t : Thing) (pid : ℕ) (log : List Action)
      → is_open t (child_started pid ∷ log) ≡ true
      → (t ≡ child pid) ⊎ (is_open t log ≡ true)
  started_child t pid log e = elim (is_open-cons t (child_started pid) log e) [
    | inl opened ↦ inl (started_self pid t opened)
    | inr (silent, before) ↦ inr before
  ]

  start_children-StartedFrom : (n : ℕ) (w : World S) → StartedFrom w.0 (start_children m n w)
  unfolding start_children
  start_children-StartedFrom zero w = λ t e. inl e
  start_children-StartedFrom (suc n) (log, s) =
      go (m.start_child s).0 _ (λ w. start_children-StartedFrom n w)
    where
      go :
          (r : Result Bytes ℕ) (s : S)
          → ((w : World S) → StartedFrom w.0 (start_children m n w))
          → StartedFrom log (start_next m (r, s) log (λ w. start_children m n w))
      go (err e) s rest = unfold start_next in λ t e. inl e
      go (ok pid) s rest =
          unfold start_next with_child Among in
          λ t e. elim (rest (child_started pid ∷ log, s) t e) [
            | inr among ↦ inr (inr among)
            | inl before ↦ elim (started_child t pid log before) [
              | inl same ↦ inr (inl same)
              | inr old ↦ inl old
            ]
          ]

  pub fork_check-Restored : (n : ℕ) (w : World S) → Restored (fork_check m n w).1.0 w.0
  unfolding fork_check forked
  fork_check-Restored n w = record {
    was_open = λ t e.
        let (left, none_left) =
          stop_children-open (start_children m n w).0.0 (start_children m n w).1 t e in
        elim (start_children-StartedFrom n w t left) [
          | inl before ↦ before
          | inr among ↦ absurd (none_left among)
        ];
  }

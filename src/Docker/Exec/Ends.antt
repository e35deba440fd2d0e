-- ===== src/Docker/Exec/Ends.antt =====
-- How `Exec` ends: its exit code, and the inspections that are enough.
use systems_trinkets.Docker.Run.{Outcome, Container}
use systems_trinkets.Docker.Exec.{
  unfinished, poll_step, poll_exec, copied_exec, attached_exec, exec_container,
}
use systems_trinkets.Docker.Client.{
  Event, exec_inspect, ExecInspect, Output, Client, Stage, running, creating_exec, reading_output,
  Failure, failed, World, reported, call,
}
use systems_trinkets.Common.{
  ℕ, zero, suc, ◌≡◌, refl, ap, ◌∙◌, ◌≢◌, ◌⊎◌, inl, inr, true, false, Option, none, some, List, [],
  ◌∷◌, Bool-cases, Result, ok, err, ℤ, negsuc, Bytes,
}

abbrev unfinished_code : ℤ
unfinished_code = negsuc 0

module _ {S : Type 0} (cli : Client S) where
  -- The exit code of a result is -1 when there is an error, and else the one that the engine recorded for
  -- an exec that no longer ran.
  abbrev pub EndsWell : Outcome → List Failure → Type 0
  EndsWell res es =
      ((es ≢ []) × (res.exit_code ≡ negsuc 0))
      ⊎ ((es ≡ [])
          × ((id : Bytes) × (s : S) × (i : ExecInspect) × ((cli.inspect_exec id s).0 ≡ ok i)
              × (i.running ≡ false)
              × (res.exit_code ≡ i.exit_code)))

  abbrev pub End : Type 0
  End = (Outcome × List Failure) × World S

  abbrev pub Ended : Option End → Type 0
  Ended none = Unit {0}
  Ended (some ((res, es), w)) = EndsWell res es

  -- The engine reports an end within `n` inspections from the state `s`: an error, an exec that does not run,
  -- or a context that has ended after one that does.
  abbrev pub Settles : ℕ → Bytes → S → Type 0
  Settles zero id s = ⊥
  Settles (suc n) id s =
      ((e : Bytes) × ((cli.inspect_exec id s).0 ≡ err e))
      ⊎ ((i : ExecInspect) × ((cli.inspect_exec id s).0 ≡ ok i) × (i.running ≡ false))
      ⊎ ((e : Bytes) × (cli.context_error (cli.pause (cli.inspect_exec id s).1) ≡ some e))
      ⊎ Settles n id (cli.pause (cli.inspect_exec id s).1)

  one_error : (f : Failure) → (f ∷ []) ≢ []
  one_error f h = absurd (cc h)

  -- One round: an end is a good one, and the next round starts after a pause.
  abbrev Round : Bytes → S → End ⊎ World S → Type 0
  Round id s (inl ((res, es), w)) = EndsWell res es
  Round id s (inr w) = w.1 ≡ cli.pause (cli.inspect_exec id s).1

  poll_step-Round :
      (c : Container) (id : Bytes) (res : Outcome) (log : List Event) (s : S)
      → res.exit_code ≡ negsuc 0
      → Round id s (poll_step cli c res log (cli.inspect_exec id s))
  poll_step-Round c id res log s h = go (cli.inspect_exec id s).0 refl
    where
      go :
          (r : Result Bytes ExecInspect)
          → (cli.inspect_exec id s).0 ≡ r
          → Round id s (poll_step cli c res log (r, (cli.inspect_exec id s).1))
      go (err e) q = unfold poll_step in inl (one_error _, h)
      go (ok i) q = elim (Bool-cases i.running) [
        | inr f ↦ unfold poll_step in rw f (inr (refl, (id, s, i, q, f, refl)))
        | inl t ↦
            unfold poll_step in
            rw t (paused (cli.context_error (cli.pause (cli.inspect_exec id s).1)))
      ]
        where
          paused :
              (o : Option Bytes)
              → Round id s (elim o [
                | some e ↦ inl (
                  (res, failed running c.name e ∷ []),
                  (log, cli.pause (cli.inspect_exec id s).1),
                )
                | none ↦ inr (log, cli.pause (cli.inspect_exec id s).1)
              ])
          paused (some e) = inl (one_error _, h)
          paused none = refl

  poll_exec-Ended :
      (n : ℕ) (c : Container) (id : Bytes) (res : Outcome) (w : World S)
      → res.exit_code ≡ negsuc 0
      → Ended (poll_exec cli n c id res w)
  unfolding poll_exec
  poll_exec-Ended zero c id res w h = tt
  poll_exec-Ended (suc n) c id res (log, s) h =
      go (poll_step cli c res (exec_inspect id ∷ log) (cli.inspect_exec id s))
        (poll_step-Round c id res _ s h) (λ w. poll_exec-Ended n c id res w h)
    where
      go :
          (r : End ⊎ World S)
          → Round id s r
          → ((w : World S) → Ended (poll_exec cli n c id res w))
          → Ended (elim r [ inl end ↦ some end | inr w ↦ poll_exec cli n c id res w ])
      go (inl end) k rest = k
      go (inr w) k rest = rest w

  -- A round ended the loop, or the next one starts where `n` more are enough.
  abbrev After : ℕ → Bytes → End ⊎ World S → Type 0
  After n id (inl end) = Unit {0}
  After n id (inr w) = Settles n id w.1

  poll_step-After :
      (n : ℕ) (c : Container) (id : Bytes) (res : Outcome) (log : List Event) (s : S)
      → Settles (suc n) id s
      → After n id (poll_step cli c res log (cli.inspect_exec id s))
  unfolding poll_step
  poll_step-After n c id res log s h = go (cli.inspect_exec id s).0 refl h
    where
      go :
          (r : Result Bytes ExecInspect)
          → (cli.inspect_exec id s).0 ≡ r
          → Settles (suc n) id s
          → After n id (poll_step cli c res log (r, (cli.inspect_exec id s).1))
      go (err e) q k = tt
      go (ok i) q k = elim (Bool-cases i.running) [
        | inr f ↦ rw f tt
        | inl t ↦ rw t (paused t (cli.context_error (cli.pause (cli.inspect_exec id s).1)) refl)
      ]
        where
          paused :
              i.running ≡ true
              → (o : Option Bytes) → cli.context_error (cli.pause (cli.inspect_exec id s).1) ≡ o
              → After n id (elim o [
                | some e ↦ inl (
                  (res, failed running c.name e ∷ []),
                  (log, cli.pause (cli.inspect_exec id s).1),
                )
                | none ↦ inr (log, cli.pause (cli.inspect_exec id s).1)
              ])
          paused t (some e) p = tt
          paused t none p = elim k [
            | inl (e, x) ↦ absurd (cc)
            | inr (inl (j, x, y)) ↦
                let same : i ≡ j = cc in
                let f : i.running ≡ false = ap (λ m. m.running) same ∙ y in absurd (cc)
            | inr (inr (inl (e, x))) ↦ absurd (cc)
            | inr (inr (inr m)) ↦ m
          ]

  -- A loop that settles within `n` rounds ends within them.
  poll_exec-Settles :
      (n : ℕ) (c : Container) (id : Bytes) (res : Outcome) (w : World S)
      → Settles n id w.1
      → (x : End) × (poll_exec cli n c id res w ≡ some x)
  unfolding poll_exec
  poll_exec-Settles zero c id res w h = absurd h
  poll_exec-Settles (suc n) c id res (log, s) h =
      go (poll_step cli c res (exec_inspect id ∷ log) (cli.inspect_exec id s))
        (poll_step-After n c id res _ s h) (λ w k. poll_exec-Settles n c id res w k)
    where
      go :
          (r : End ⊎ World S)
          → After n id r
          → ((w : World S) → Settles n id w.1 → (x : End) × (poll_exec cli n c id res w ≡ some x))
          → (x : End) × ((elim r [ inl end ↦ some end | inr w ↦ poll_exec cli n c id res w ])
              ≡ some x)
      go (inl end) k rest = (end, refl)
      go (inr w) k rest = rest w k

  -- What ends the operation before the loop.
  copied_exec-Ended :
      (n : ℕ) (c : Container) (id : Bytes) (stage : Stage) (r : Result Bytes Output) (w : World S)
      → Ended (copied_exec cli n c id (reported stage c.name r, w))
  unfolding copied_exec reported
  copied_exec-Ended n c id stage (err e) w = inl (one_error _, refl)
  copied_exec-Ended n c id stage (ok out) (log, s) = ended (cli.context_error s) out.copy_error
    where
      res : Outcome
      res = record unfinished { stdout = out.stdout; stderr = out.stderr }

      ended :
          (a b : Option Bytes)
          → Ended (elim a [
            | some e ↦ some ((res, failed running c.name e ∷ []), (log, s))
            | none ↦ elim b [
              | some e ↦ some ((res, failed reading_output c.name e ∷ []), (log, s))
              | none ↦ poll_exec cli n c id res (log, s)
            ]
          ])
      ended (some e) b = inl (one_error _, refl)
      ended none (some e) = inl (one_error _, refl)
      ended none none = poll_exec-Ended n c id res (log, s) refl

  attached_exec-Ended :
      (n : ℕ) (c : Container) (stage : Stage) (r : Result Bytes Bytes) (w : World S)
      → Ended (attached_exec cli n c (reported stage c.name r, w))
  unfolding attached_exec reported call
  attached_exec-Ended n c stage (err e) w = inl (one_error _, refl)
  attached_exec-Ended n c stage (ok id) (log, s) =
      copied_exec-Ended n c id creating_exec (cli.attach_exec id s).0 _

  copied_exec-Settles :
      (n : ℕ) (c : Container) (id : Bytes) (stage : Stage) (r : Result Bytes Output) (w : World S)
      → Settles n id w.1
      → (x : End) × (copied_exec cli n c id (reported stage c.name r, w) ≡ some x)
  unfolding copied_exec reported
  copied_exec-Settles n c id stage (err e) w h = (_, refl)
  copied_exec-Settles n c id stage (ok out) (log, s) h =
      settled (cli.context_error s) out.copy_error
    where
      res : Outcome
      res = record unfinished { stdout = out.stdout; stderr = out.stderr }

      settled :
          (a b : Option Bytes)
          → (x : End) × ((elim a [
            | some e ↦ some ((res, failed running c.name e ∷ []), (log, s))
            | none ↦ elim b [
              | some e ↦ some ((res, failed reading_output c.name e ∷ []), (log, s))
              | none ↦ poll_exec cli n c id res (log, s)
            ]
          ])
              ≡ some x)
      settled (some e) b = (_, refl)
      settled none (some e) = (_, refl)
      settled none none = poll_exec-Settles n c id res (log, s) h

  attached_exec-Settles :
      (n : ℕ) (c : Container) (stage : Stage) (r : Result Bytes Bytes) (w : World S)
      → ((id : Bytes) → r ≡ ok id → Settles n id (cli.attach_exec id w.1).1)
      → (x : End) × (attached_exec cli n c (reported stage c.name r, w) ≡ some x)
  unfolding attached_exec reported call
  attached_exec-Settles n c stage (err e) w h = (_, refl)
  attached_exec-Settles n c stage (ok id) (log, s) h =
      copied_exec-Settles n c id creating_exec (cli.attach_exec id s).0 _ (h id refl)

  -- `Exec` returns -1 as the exit code with every error. Without an error it returns the exit code that
  -- the engine recorded for an exec that no longer ran. It ends within `n` inspections whenever the
  -- engine would settle within `n`: report an error or an exec that does not run, or the context end.
  pub exec_container_lem :
      (n : ℕ) (c : Container) (cmd : List Bytes) (log : List Event) (s : S)
      → Ended (exec_container cli n c cmd (log, s))
        × (((id : Bytes)
              → (cli.new_exec c.id cmd s).0 ≡ ok id
              → Settles n id (cli.attach_exec id (cli.new_exec c.id cmd s).1).1)
            → (x : End) × (exec_container cli n c cmd (log, s) ≡ some x))
  unfolding exec_container call
  exec_container_lem n c cmd log s = (
    attached_exec-Ended n c creating_exec (cli.new_exec c.id cmd s).0 _,
    λ h. attached_exec-Settles n c creating_exec (cli.new_exec c.id cmd s).0 _ h,
  )

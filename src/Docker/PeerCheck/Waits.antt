-- ===== src/Docker/PeerCheck/Waits.antt =====
-- `WaitLine` ends when its context does, and only reads a container's output.
use systems_trinkets.Common.{
  ℕ, zero, suc, ◌≡◌, refl, ◌∙◌, ◌⊎◌, inl, inr, Option, none, some, List, [], ◌∷◌, Result, ok, err,
  Bytes,
}
use systems_trinkets.Probeout.{Line, find, parse}
use systems_trinkets.Docker.Run.{Container, logs_call, copied, container_logs}
use systems_trinkets.Docker.Run.Cleanly.{container_logs-Quiet}
use systems_trinkets.Docker.Leaks.{Quiet}
use systems_trinkets.Docker.PeerCheck.{once_ended, wait_step, wait_line}
use systems_trinkets.Docker.Client.{
  fetching_logs, no_line, logs, Output, Event, Client, Failure, World, after_result, ◌>>=◌, call,
  reported,
}

-- A loop that ended within its polls, with a result of which `P` holds.
abbrev pub Ended : {A : Type 0} → (A → Type 0) → Option A → Type 0
Ended P none = ⊥
Ended P (some a) = P a

pub once_ended-Ended :
    {A B : Type 0} (P : A → Type 0) (Q : B → Type 0) (f : A → B)
    → ((a : A) → P a → Q (f a))
    → (o : Option A) → Ended P o
    → Ended Q (once_ended f o)
once_ended-Ended P Q f h none e = absurd e
once_ended-Ended P Q f h (some a) e = h a e

-- `P` holds of the result of a loop, if it ended within its polls.
abbrev pub WhenEnded : {A : Type 0} → (A → Type 0) → Option A → Type 0
WhenEnded P none = Unit
WhenEnded P (some a) = P a

pub once_ended-WhenEnded :
    {A B : Type 0} (Q : B → Type 0) (f : A → B)
    → ((a : A) → Q (f a))
    → (o : Option A) → WhenEnded Q (once_ended f o)
once_ended-WhenEnded Q f h none = tt
once_ended-WhenEnded Q f h (some a) = h a

pub once_ended-WhenEnded_imp :
    {A B : Type 0} (P : A → Type 0) (Q : B → Type 0) (f : A → B)
    → ((a : A) → P a → Q (f a))
    → (o : Option A) → WhenEnded P o
    → WhenEnded Q (once_ended f o)
once_ended-WhenEnded_imp P Q f h none e = tt
once_ended-WhenEnded_imp P Q f h (some a) e = h a e

module _ {S : Type 0} (cli : Client S) where
  -- The state after one poll of a container's output.
  abbrev polled : Container → S → S
  polled c s = cli.pause (cli.container_logs c.id s).1

  -- The context of `WaitLine` ends within that many polls.
  abbrev pub Expires : ℕ → Container → S → Type 0
  Expires zero c s = ⊥
  Expires (suc n) c s =
      ((e : Bytes) × (cli.line_context_error (polled c s) ≡ some e)) ⊎ Expires n c (polled c s)

  abbrev StepQuiet :
      Container → ℕ → List Event → S → (Result (List Failure) Line × World S) ⊎ World S → Type 0
  StepQuiet c n log s (inl r) = Quiet log r.1.0
  StepQuiet c n log s (inr w) = Quiet log w.0 × Expires n c w.1

  container_logs-state :
      (c : Container) (log : List Event) (s : S)
      → (container_logs cli c (log, s)).1.1 ≡ (cli.container_logs c.id s).1
  unfolding container_logs logs_call call ◌>>=◌
  container_logs-state c log s = read (cli.container_logs c.id s).0 _
    where
      copy : (out : Output) (e : Option Bytes) (w : World S) → (copied cli c out e w).1.1 ≡ w.1
      copy out none w = unfold copied in refl
      copy out (some e) w = unfold copied in refl

      read :
          (r : Result Bytes Output) (s : S)
          → (after_result
              (λ out. copied cli c out out.copy_error)
              (reported fetching_logs c.name r, (logs c.id ∷ log, s))).1.1
            ≡ s
      read (err e) s = unfold reported after_result in refl
      read (ok out) s = unfold reported after_result in copy out out.copy_error (logs c.id ∷ log, s)

  wait_step-StepQuiet :
      (n : ℕ) (c : Container) (name : Bytes) (log : List Event) (s : S)
      → Expires (suc n) c s
      → StepQuiet c n log s (wait_step cli c name (container_logs cli c (log, s)))
  unfolding wait_step
  wait_step-StepQuiet n c name log s x =
      read (container_logs cli c (log, s)).0 _ (container_logs-Quiet cli c (log, s))
        (container_logs-state c log s)
    where
      waited :
          (o : Option Bytes) (log' : List Event) (s' : S)
          → Quiet log log'
          → s' ≡ (cli.container_logs c.id s).1
          → cli.line_context_error (cli.pause s') ≡ o
          → StepQuiet c n log s (elim o [
            | some e ↦ inl (err (no_line c.name name e ∷ []), (log', cli.pause s'))
            | none ↦ inr (log', cli.pause s')
          ])
      waited (some e) log' s' q t o = q
      waited none log' s' q t o = (q, rw t (left x))
        where
          left :
              ((e : Bytes) × (cli.line_context_error (polled c s) ≡ some e))
                ⊎ Expires n c (polled c s)
              → Expires n c (polled c s)
          left (inl (e, f)) = absurd (cc)
          left (inr y) = y

      found :
          (l : Option Line) (log' : List Event) (s' : S)
          → Quiet log log'
          → s' ≡ (cli.container_logs c.id s).1
          → StepQuiet c n log s (elim l [
            | some l ↦ inl (ok l, (log', s'))
            | none ↦ elim (cli.line_context_error (cli.pause s')) [
              | some e ↦ inl (err (no_line c.name name e ∷ []), (log', cli.pause s'))
              | none ↦ inr (log', cli.pause s')
            ]
          ])
      found (some l) log' s' q t = q
      found none log' s' q t = waited (cli.line_context_error (cli.pause s')) log' s' q t refl

      read :
          (r : Result (List Failure) (Bytes × Bytes)) (w : World S)
          → Quiet log w.0
          → w.1 ≡ (cli.container_logs c.id s).1
          → StepQuiet c n log s (wait_step cli c name (r, w))
      read (err es) w q t = q
      read (ok (stdout, stderr)) (log', s') q t = found (find (parse stdout) name) log' s' q t

  -- Polling for a line ends when its context does, and only reads the logs.
  pub wait_line-Ended :
      (n : ℕ) (c : Container) (name : Bytes) (w : World S)
      → Expires n c w.1
      → Ended (λ r. Quiet w.0 r.1.0) (wait_line cli n c name w)
  unfolding wait_line
  wait_line-Ended zero c name w x = absurd x
  wait_line-Ended (suc n) c name (log, s) x =
      go (wait_step cli c name (container_logs cli c (log, s)))
        (wait_step-StepQuiet n c name log s x) (λ w y. wait_line-Ended n c name w y)
    where
      go :
          (r : (Result (List Failure) Line × World S) ⊎ World S)
          → StepQuiet c n log s r
          → ((w : World S)
              → Expires n c w.1
              → Ended (λ r. Quiet w.0 r.1.0) (wait_line cli n c name w))
          → Ended
              (λ r. Quiet log r.1.0)
              (elim r [ inl end ↦ some end | inr w' ↦ wait_line cli n c name w' ])
      go (inl end) q rest = q
      go (inr w) (q, y) rest = later (wait_line cli n c name w) (rest w y)
        where
          later :
              (o : Option (Result (List Failure) Line × World S))
              → Ended (λ r. Quiet w.0 r.1.0) o
              → Ended (λ r. Quiet log r.1.0) o
          later none e = e
          later (some r) e = λ l. e l ∙ q l

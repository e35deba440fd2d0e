-- ===== src/Docker/Cleanup/Removals.antt =====
-- The loops of `Sweep`: what they remove, and the failures that they keep.
use systems_trinkets.Docker.Cleanup.{
  Kind, container_kind, volume_kind, network_kind, kind_eq, Failed, failure_at, try_removal,
  remove_all,
}
use systems_trinkets.Docker.Client.{Event, Client, World}
use systems_trinkets.Common.{
  ◌≡◌, refl, sym, subst, ◌≢◌, ◌⊎◌, inl, inr, true, ◌&&◌, none, List, [], ◌∷◌, ◌++◌, Bool-cases,
  Result, ok, err, Bytes, bytes_eq, bytes_eq_refl, Mem, Mem-append_left, Mem-append_right, here,
  there,
}

kind_eq_refl : (k : Kind) → kind_eq k k ≡ true
kind_eq_refl container_kind = refl
kind_eq_refl volume_kind = refl
kind_eq_refl network_kind = refl

-- A failure on record stays on record when another is added.
failure_at-cons :
    (fs : Failed) (j k : Kind) (m n e : Bytes)
    → failure_at fs k n ≢ none
    → failure_at ((j, m, e) ∷ fs) k n ≢ none
unfolding failure_at
failure_at-cons fs j k m n e h = elim (Bool-cases (kind_eq j k && bytes_eq m n)) [
  | inl b ↦ rw b (λ q. absurd (cc q))
  | inr b ↦ rw b h
]

failure_at-head : (fs : Failed) (k : Kind) (n e : Bytes) → failure_at ((k, n, e) ∷ fs) k n ≢ none
unfolding failure_at
failure_at-head fs k n e = rw (kind_eq_refl k, bytes_eq_refl n) (λ q. absurd (cc q))

-- A name is settled when it was removed or its failure is on record.
abbrev pub Settled : Kind → Bytes → List Bytes × Failed → Type 0
Settled k n acc = Mem n acc.0 ⊎ (failure_at acc.1 k n ≢ none)

try_removal-keeps :
    (k j : Kind) (m n : Bytes) (r : Result Bytes (Unit {0})) (acc : List Bytes × Failed)
    → failure_at acc.1 j n ≢ none
    → failure_at (try_removal k m r acc).1 j n ≢ none
unfolding try_removal
try_removal-keeps k j m n (ok u) (done, fs) h = h
try_removal-keeps k j m n (err e) (done, fs) h = failure_at-cons fs k j m n e h

try_removal-Settled :
    (k : Kind) (m n : Bytes) (r : Result Bytes (Unit {0})) (acc : List Bytes × Failed)
    → Settled k n acc
    → Settled k n (try_removal k m r acc)
try_removal-Settled k m n r acc (inr h) = inr (try_removal-keeps k k m n r acc h)
try_removal-Settled k m n (ok u) (done, fs) (inl h) =
    inl (unfold try_removal in Mem-append_left done _ h)
try_removal-Settled k m n (err e) (done, fs) (inl h) = inl (unfold try_removal in h)

try_removal-settles :
    (k : Kind) (n : Bytes) (r : Result Bytes (Unit {0})) (acc : List Bytes × Failed)
    → Settled k n (try_removal k n r acc)
unfolding try_removal
try_removal-settles k n (ok u) (done, fs) = inl (Mem-append_right done (n ∷ []) (here refl))
try_removal-settles k n (err e) (done, fs) = inr (failure_at-head fs k n e)

pub Mem-snoc : (n m : Bytes) (done : List Bytes) → Mem n (done ++ (m ∷ [])) → Mem n done ⊎ (n ≡ m)
Mem-snoc n m [] (here e) = inr e
Mem-snoc n m [] (there h) = elim h [ ]
Mem-snoc n m (d ∷ done) (here e) = inl (here e)
Mem-snoc n m (d ∷ done) (there h) = elim (Mem-snoc n m done h) [
  | inl k ↦ inl (there k)
  | inr e ↦ inr e
]

try_removal-done :
    (k : Kind) (m n : Bytes) (r : Result Bytes (Unit {0})) (acc : List Bytes × Failed)
    → Mem n (try_removal k m r acc).0
    → Mem n acc.0 ⊎ (n ≡ m)
unfolding try_removal
try_removal-done k m n (ok u) (done, fs) h = Mem-snoc n m done h
try_removal-done k m n (err e) (done, fs) h = inl h

module _ {S : Type 0} (cli : Client S) (k : Kind) (event : Bytes → Event)
    (f : Bytes → S → Result Bytes (Unit {0}) × S) where
  pub remove_all-keeps :
      (names : List Bytes) (acc : List Bytes × Failed) (w : World S) (j : Kind) (n : Bytes)
      → failure_at acc.1 j n ≢ none
      → failure_at (remove_all cli k event f names acc w).0.1 j n ≢ none
  unfolding remove_all
  remove_all-keeps [] acc w j n h = h
  remove_all-keeps (m ∷ names) acc (log, s) j n h =
      remove_all-keeps names _ _ j n (try_removal-keeps k j m n (f m s).0 acc h)

  pub remove_all-Settled :
      (names : List Bytes) (acc : List Bytes × Failed) (w : World S) (n : Bytes)
      → Mem n names ⊎ Settled k n acc
      → Settled k n (remove_all cli k event f names acc w).0
  unfolding remove_all
  remove_all-Settled [] acc w n (inl m) = elim m [ ]
  remove_all-Settled [] acc w n (inr h) = h
  remove_all-Settled (m ∷ names) acc (log, s) n (inl (here e)) = remove_all-Settled names _ _ n (
      inr (
        subst (λ x. Settled k x (try_removal k m (f m s).0 acc)) (sym e)
          (try_removal-settles k m (f m s).0 acc)))
  remove_all-Settled (m ∷ names) acc (log, s) n (inl (there h)) =
      remove_all-Settled names _ _ n (inl h)
  remove_all-Settled (m ∷ names) acc (log, s) n (inr h) =
      remove_all-Settled names _ _ n (inr (try_removal-Settled k m n (f m s).0 acc h))

  -- Only names of the list are removed.
  pub remove_all-done :
      (names : List Bytes) (acc : List Bytes × Failed) (w : World S) (n : Bytes)
      → Mem n (remove_all cli k event f names acc w).0.0
      → Mem n acc.0 ⊎ Mem n names
  unfolding remove_all
  remove_all-done [] acc w n h = inl h
  remove_all-done (m ∷ names) acc (log, s) n h = elim (remove_all-done names _ _ n h) [
    | inr t ↦ inr (there t)
    | inl d ↦ elim (try_removal-done k m n (f m s).0 acc d) [ inl a ↦ inl a | inr e ↦ inr (here e) ]
  ]

-- ===== src/Docker/Cleanup/Calls.antt =====
-- The removal calls of `Sweep`: for each kind the engine's own call, once per listed name.
use systems_trinkets.Common.{
  ◌≡◌, refl, ap, ◌∙◌, ◌⊎◌, inl, inr, List, [], ◌∷◌, Result, ok, err, Bytes, Mem,
}
use systems_trinkets.Docker.Cleanup.{
  Leftovers, Kind, container_kind, volume_kind, network_kind, Failed, try_removal, remove_all,
  remove_containers, remove_volumes, remove_networks, remove_left,
}
use systems_trinkets.Docker.Cleanup.Removals.{Mem-snoc}
use systems_trinkets.Docker.Client.{Event, remove, remove_volume, remove_network, Client, World}

abbrev pub event_of : Kind → Bytes → Event
event_of container_kind = remove
event_of volume_kind = remove_volume
event_of network_kind = remove_network

abbrev pub names_of : Kind → Leftovers → List Bytes
names_of container_kind l = l.containers
names_of volume_kind l = l.volumes
names_of network_kind l = l.networks

module _ {S : Type 0} (cli : Client S) where
  abbrev pub removal_of : Kind → Bytes → S → Result Bytes (Unit {0}) × S
  removal_of container_kind = cli.container_remove
  removal_of volume_kind = cli.volume_remove
  removal_of network_kind = cli.network_remove

  -- The engine after one call for each name, in order, and no other call.
  abbrev pub calls : Kind → List Bytes → World S → World S
  calls k [] w = w
  calls k (n ∷ names) (log, s) = calls k names (event_of k n ∷ log, (removal_of k n s).1)

  -- Containers first, then volumes, then networks.
  abbrev pub removals : Leftovers → World S → World S
  removals left w =
      calls network_kind left.networks
        (calls volume_kind left.volumes (calls container_kind left.containers w))

  -- A call for the removal of the name was answered without an error.
  abbrev pub Answered : Kind → Bytes → Type 0
  Answered k n = (s : S) × ((removal_of k n s).0 ≡ ok tt)

  module _ (k : Kind) where
    remove_all-calls :
        (names : List Bytes) (acc : List Bytes × Failed) (w : World S)
        → (remove_all cli k (event_of k) (removal_of k) names acc w).1 ≡ calls k names w
    unfolding remove_all
    remove_all-calls [] acc w = refl
    remove_all-calls (n ∷ names) acc (log, s) = remove_all-calls names _ _

    try_removal-Answered :
        (m n : Bytes) (s : S) (r : Result Bytes (Unit {0})) (acc : List Bytes × Failed)
        → (removal_of k m s).0 ≡ r
        → Mem n (try_removal k m r acc).0
        → Mem n acc.0 ⊎ Answered k n
    unfolding try_removal
    try_removal-Answered m n s (err e) (done, fs) q h = inl h
    try_removal-Answered m n s (ok tt) (done, fs) q h = elim (Mem-snoc n m done h) [
      | inl d ↦ inl d
      | inr e ↦ inr (s, rw e q)
    ]

    remove_all-Answered :
        (names : List Bytes) (acc : List Bytes × Failed) (w : World S) (n : Bytes)
        → Mem n (remove_all cli k (event_of k) (removal_of k) names acc w).0.0
        → Mem n acc.0 ⊎ Answered k n
    unfolding remove_all
    remove_all-Answered [] acc w n h = inl h
    remove_all-Answered (m ∷ names) acc (log, s) n h = elim (remove_all-Answered names _ _ n h) [
      | inr a ↦ inr a
      | inl d ↦ try_removal-Answered m n s (removal_of k m s).0 acc refl d
    ]

  pub remove_left-removals :
      (left : Leftovers) (w : World S) → (remove_left cli left w).1 ≡ removals left w
  unfolding remove_left remove_containers remove_volumes remove_networks
  remove_left-removals left w =
      remove_all-calls network_kind left.networks _ _
      ∙ ap (calls network_kind left.networks) (
          remove_all-calls volume_kind left.volumes _ _
          ∙ ap (calls volume_kind left.volumes)
              (remove_all-calls container_kind left.containers _ _))

  answered : (k : Kind) {n : Bytes} → Mem n [] ⊎ Answered k n → Answered k n
  answered k (inl m) = elim m [ ]
  answered k (inr a) = a

  pub remove_left-Answered :
      (left : Leftovers) (w : World S) (k : Kind) (n : Bytes)
      → Mem n (names_of k (remove_left cli left w).0.0)
      → Answered k n
  unfolding remove_left remove_containers remove_volumes remove_networks
  remove_left-Answered left w container_kind n m =
      answered container_kind (remove_all-Answered container_kind left.containers ([], []) w n m)
  remove_left-Answered left w volume_kind n m =
      answered volume_kind (remove_all-Answered volume_kind left.volumes ([], _) _ n m)
  remove_left-Answered left w network_kind n m =
      answered network_kind (remove_all-Answered network_kind left.networks ([], _) _ n m)

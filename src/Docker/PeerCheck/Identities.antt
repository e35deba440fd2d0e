-- ===== src/Docker/PeerCheck/Identities.antt =====
-- What it means that the identities of a peer check can be trusted, and that `validate` makes them distinct.
use systems_trinkets.Common.{
  ◌≡◌, sym, ◌≢◌, Bool, true, false, List, [], ◌∷◌, map, arith, ℤ, is_zero, int_eq, int_eq_iff,
  Bytes, codes, any, All, All_imp,
}
use systems_trinkets.Docker.Names.{valid_id}
use systems_trinkets.Docker.Peers.{PeerDial, PeerIdentities, validate_identities}
use systems_trinkets.Docker.Peers.Identity.{IdentityHolds}
use systems_trinkets.Docker.Peers.{identities_valid}

-- The role of a dial, the UID assigned to it, and whether it has the socket group.
abbrev pub assigned : PeerDial → Bytes × ℤ × Bool
assigned d = (d.role, d.uid, d.in_group)

abbrev pub identities : PeerIdentities → List ℤ
identities p = p.broker_uid ∷ p.socket_gid ∷ p.worker1 ∷ p.worker2 ∷ p.outsider ∷ []

-- No two of the list are the same.
abbrev pub Distinct : List ℤ → Type 0
Distinct [] = Unit
Distinct (id ∷ ids) = All (λ x. id ≢ x) ids × Distinct ids

abbrev pub Assignable : ℤ → Type 0
Assignable id = (is_zero id ≡ false) × (valid_id id ≡ true)

-- The three dials were made as the identities say, and the kernel reported each of them.
pub record Trusted (ids : PeerIdentities) (dials : List PeerDial) : Type 0 where
  pub assignable : All Assignable (identities ids)
  pub distinct : Distinct (identities ids)
  pub made :
      map assigned dials
      ≡ (codes "worker1", ids.worker1, true)
        ∷ (codes "worker2", ids.worker2, true)
        ∷ (codes "outsider", ids.outsider, false)
        ∷ []
  pub holds : IdentityHolds dials

not_seen : (id : ℤ) (seen : List ℤ) → any (int_eq id) seen ≡ false → All (λ x. x ≢ id) seen
not_seen id [] h = tt
not_seen id (x ∷ seen) h =
    (λ e. absurd (ground (arith, (int_eq_iff id x).1 (sym e))), not_seen id seen (ground arith))

-- The loop accepts what is assignable, not seen before, and distinct.
identities_valid-Distinct :
    (seen ids : List ℤ)
    → identities_valid seen ids ≡ true
    → All (λ id. Assignable id × All (λ x. x ≢ id) seen) ids × Distinct ids
unfolding identities_valid
identities_valid-Distinct seen [] h = (tt, tt)
identities_valid-Distinct seen (id ∷ ids) h =
    let (z, v, a, rest) : (is_zero id ≡ false)
        × (valid_id id ≡ true)
        × (any (int_eq id) seen ≡ false)
        × (identities_valid (id ∷ seen) ids ≡ true) =
      ground arith in
    let (each, distinct) = identities_valid-Distinct (id ∷ seen) ids rest in
    (
      (((z, v), not_seen id seen a), All_imp (λ x (b, (n, ns)). (b, ns)) ids each),
      (All_imp (λ x (b, (n, ns)). n) ids each, distinct),
    )

pub validate_identities-Distinct :
    (p : PeerIdentities)
    → validate_identities p ≡ true
    → All Assignable (identities p) × Distinct (identities p)
unfolding validate_identities
validate_identities-Distinct p h =
    let (each, distinct) = identities_valid-Distinct [] (identities p) h in
    (
      All_imp {P = λ id. Assignable id × All (λ x. x ≢ id) []} {Q = Assignable} (λ x b. b.0)
          (identities p) each,
      distinct,
    )

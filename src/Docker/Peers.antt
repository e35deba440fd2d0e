-- ===== src/Docker/Peers.antt =====
-- The peer-identity invariants of internal/lab/docker/invariants.go, `PeerDial` and `PeerIdentities` of
-- topology.go, and the egress invariants with their readers of egress.go.
pub mod Identity
use systems_trinkets.Common.{
  ℕ, ◌+◌, Bool, true, false, not, ◌||◌, Option, none, some, List, [], ◌∷◌, ◌++◌, ltb, ◌==◌,
  if◌then◌else◌, ◌>>=◌, ok, ℤ, is_zero, int_eq, Bytes, codes, bytes_eq, cut_prefix, cut, has_infix,
  fields, length, any, gather,
}
use systems_trinkets.Golang.Decimal.{parse_int, itoa_int}
use systems_trinkets.Probeout
use systems_trinkets.Probeout.{Line}
use systems_trinkets.Docker.Names.{valid_id}
use systems_trinkets.Docker.Spec.{report}

-- `fmt.Sprintf("uid=%d gid=%d pid=%d", uid, gid, pid)`
unfoldable pub peer_cred_text : ℤ → ℤ → ℤ → Bytes
peer_cred_text uid gid pid =
    codes "uid="
    ++ (itoa_int uid ++ (codes " gid=" ++ (itoa_int gid ++ (codes " pid=" ++ itoa_int pid))))

-- A number, up to the next blank, behind a prefix; then the text behind that blank, if there is one.
scan_number : Bytes → Bytes → Option (ℤ × Bytes)
scan_number prefix s = cut_prefix prefix s >>= λ r.
    parse_int (cut b' ' r).0 >>= λ n. some (n, elim (cut b' ' r).1 [ none ↦ [] | some rest ↦ rest ])

-- `parsePeerCred`: the three numbers are scanned, and must print as the text that was read. What
-- `fmt.Sscanf` reads more loosely, that second test refuses.
unfoldable pub parse_peer_cred : Bytes → Option (ℤ × ℤ × ℤ)
unfolding scan_number
parse_peer_cred s = scan_number (codes "uid=") s >>= λ u. scan_number (codes "gid=") u.1 >>= λ g.
    scan_number (codes "pid=") g.1 >>= λ p.
    if bytes_eq (peer_cred_text u.0 g.0 p.0) s then some (u.0, g.0, p.0) else none

pub record PeerDial : Type 0 where
  pub role : Bytes
  pub uid : ℤ
  pub gid : ℤ
  pub in_group : Bool
  pub stdout : Bytes

pub data PeerViolation : Type 0 where
  no_reply malformed_reply wrong_uid : Bytes → PeerViolation
  no_dial connected refused_otherwise : Bytes → PeerViolation
  too_few : PeerViolation

-- What the broker's reply shows.
reply_violations : PeerDial → Option Line → List PeerViolation
reply_violations d none = no_reply d.role ∷ []
reply_violations d (some l) =
    if not l.ok then no_reply d.role ∷ [] else elim (parse_peer_cred l.detail) [
      | none ↦ malformed_reply d.role ∷ []
      | some (uid, gid, pid) ↦ report (not (int_eq uid d.uid)) (wrong_uid d.role)
    ]

unfoldable pub peer_uid_is_assigned_uid : PeerDial → List PeerViolation
unfolding reply_violations
peer_uid_is_assigned_uid d =
    reply_violations d (Probeout.find (Probeout.parse d.stdout) (codes "reply"))

dial_violations : PeerDial → Option Line → List PeerViolation
dial_violations d none = no_dial d.role ∷ []
dial_violations d (some l) =
    if l.ok
    then connected d.role ∷ []
    else report (not (has_infix (codes "permission denied") l.detail)) (refused_otherwise d.role)

unfoldable pub socket_group_gates_connect : PeerDial → List PeerViolation
unfolding dial_violations
socket_group_gates_connect d =
    dial_violations d (Probeout.find (Probeout.parse d.stdout) (codes "dial"))

-- One round of the loop of `checkPeerIdentity`.
unfoldable pub dial_check : PeerDial → List PeerViolation
dial_check d = if d.in_group then peer_uid_is_assigned_uid d else socket_group_gates_connect d

-- The keys of the map `uids`.
unfoldable pub group_uids : List PeerDial → List ℤ
group_uids [] = []
group_uids (d ∷ ds) =
    let rest = group_uids ds in
    if d.in_group then if any (int_eq d.uid) rest then rest else d.uid ∷ rest else rest

unfoldable pub outsiders : List PeerDial → ℕ
outsiders [] = 0
outsiders (d ∷ ds) = let rest = outsiders ds in if d.in_group then rest else rest + 1

unfoldable pub check_peer_identity : List PeerDial → List PeerViolation
check_peer_identity dials =
    gather dial_check dials
    ++ report (ltb (length (group_uids dials)) 2 || outsiders dials == 0) too_few

pub record PeerIdentities : Type 0 where
  pub broker_uid : ℤ
  pub socket_gid : ℤ
  pub worker1 : ℤ
  pub worker2 : ℤ
  pub outsider : ℤ

-- The loop of `PeerIdentities.validate`.
unfoldable pub identities_valid : List ℤ → List ℤ → Bool
identities_valid seen [] = true
identities_valid seen (id ∷ ids) =
    if is_zero id || (not (valid_id id) || any (int_eq id) seen)
    then false
    else identities_valid (id ∷ seen) ids

-- `validate`; `false` is the error.
unfoldable pub validate_identities : PeerIdentities → Bool
unfolding identities_valid
validate_identities p =
    identities_valid [] (p.broker_uid ∷ p.socket_gid ∷ p.worker1 ∷ p.worker2 ∷ p.outsider ∷ [])

abbrev lo : Bytes
lo = codes "lo"

-- `workerHasNoRoute`; `true` is no violation.
unfoldable pub worker_has_no_route : List Bytes → Bool
worker_has_no_route (i ∷ []) = bytes_eq i lo
worker_has_no_route _ = false

-- `blockedFixtureUntouched`; `true` is no violation.
unfoldable pub blocked_fixture_untouched : ℤ → Bool
blocked_fixture_untouched requests = is_zero requests

-- What the line called `interfaces` shows.
route_of : Option Line → Option Bool
route_of none = none
route_of (some l) = if not l.ok then none else some (worker_has_no_route (fields l.detail))

-- `CheckWorkerHasNoRoute` on the output of the probe's `interfaces`; `none` is the error that the
-- check could not run.
unfoldable pub check_worker_has_no_route : Bytes → Option Bool
unfolding route_of
check_worker_has_no_route stdout =
    route_of (Probeout.find (Probeout.parse stdout) (codes "interfaces"))

-- `fixtureCounts` on the output of the probe's `http-get`: the total of the counts, decoded from the
-- body by encoding/json.
unfoldable pub fixture_total : (Bytes → Option ℤ) → Bytes → Option ℤ
fixture_total decode stdout = elim (Probeout.find (Probeout.parse stdout) (codes "http-get")) [
  | none ↦ none
  | some l ↦ if not l.ok then none else (cut_prefix (codes "200 ") l.detail >>= decode)
]

unfoldable pub check_blocked_fixture : (Bytes → Option ℤ) → Bytes → Option Bool
check_blocked_fixture decode stdout =
    fixture_total decode stdout >>= λ total. some (blocked_fixture_untouched total)
